-- ===== src/Fs/Sfs/Io/Disk.antt =====
-- The blocks of a file on the disk, under the moves of a write.
use nku_os.Prelude.{
  ℕ, ◌+◌, ◌-◌, ◌*◌, ◌<◌, ◌≤◌, ◌≡◌, ◌≢◌, false, true, ltb, leb, ◌&&◌, ◌==◌, if◌then◌else◌, arith,
  refl, sym, ap, ◌∙◌, Bool-cases, inl, inr,
}
use nku_os.Fs.Sfs.{State, sfs_blksize, stored}
use nku_os.Fs.Sfs.Steps.{slot, IsMapped}

-- The blocks of a file: all mapped, to different blocks, none of them the block of entries.
abbrev pub IsFile : State → Type 0
IsFile s =
    ((i : ℕ) → i < s.sin.blocks → IsMapped s i)
    × ((i j : ℕ) → i < s.sin.blocks → j < s.sin.blocks → slot s i ≡ slot s j → i ≡ j)
    × ((i : ℕ) → i < s.sin.blocks → s.sin.indirect ≢ slot s i)

abbrev pub Outside : State → ℕ → Type 0
Outside s b = (i : ℕ) → i < s.sin.blocks → b ≢ slot s i

-- The disk `d` after `k` bytes from memory at `buf` went to the file from `offset` on.
abbrev pub Written : State → (buf offset k : ℕ) → (ℕ → ℕ → ℕ) → Type 0
Written s buf offset k d =
    ((i off : ℕ)
      → i < s.sin.blocks
      → off < sfs_blksize
      → d (slot s i) off
        ≡ stored offset k (λ x. s.mem (buf + x)) (λ p. s.fs.disk (slot s i) off)
            (i * sfs_blksize + off))
    × ((b off : ℕ) → Outside s b → d b off ≡ s.fs.disk b off)

-- A byte of the block that a move goes to, and of another block.
stored-here :
    (offset k size c off o v w : ℕ) (f g : ℕ → ℕ)
    → offset + k ≡ c + off
    → ((x : ℕ) → g x ≡ f (k + x))
    → w ≡ stored offset k f (λ p. v) (c + o)
    → stored off size g (λ p. w) o ≡ stored offset (k + size) f (λ p. v) (c + o)
stored-here offset k size c off o v w f g at same old = elim (Bool-cases (ltb o off)) [
  | inl h ↦
      let no1 : (leb off o && ltb o (off + size)) ≡ false = ground (arith, h) in
      let no2 : ltb (c + o) (offset + (k + size)) ≡ true = ground (arith, h) in
      let yes : ltb (c + o) (offset + k) ≡ true = ground (arith, h) in
      ap (λ b. if b then g (o - off) else w) no1
      ∙ old
      ∙ ap (λ b. if leb offset (c + o) && b then f (c + o - offset) else v) (yes ∙ sym no2)
  | inr h ↦ elim (Bool-cases (ltb o (off + size))) [
    | inl g1 ↦
        let place : k + (o - off) ≡ c + o - offset = ground (arith, h, g1) in
        let yes : (leb off o && ltb o (off + size)) ≡ true = ground (arith, h, g1) in
        let yes2 : (leb offset (c + o) && ltb (c + o) (offset + (k + size))) ≡ true =
          ground (arith, h, g1) in
        rw yes (rw yes2 (same (o - off) ∙ ap f place))
    | inr g1 ↦
        let no : (leb off o && ltb o (off + size)) ≡ false = ground (arith, g1) in
        let no1 : (leb offset (c + o) && ltb (c + o) (offset + k)) ≡ false = ground (arith, h) in
        let no2 : (leb offset (c + o) && ltb (c + o) (offset + (k + size))) ≡ false =
          ground (arith, g1) in
        ap (λ b. if b then g (o - off) else w) no
        ∙ old
        ∙ ap (λ b. if b then f (c + o - offset) else v) (no1 ∙ sym no2)
  ]
]

stored-elsewhere :
    (offset k size i j off o v : ℕ) (f : ℕ → ℕ)
    → offset + k ≡ i * sfs_blksize + off
    → off + size ≤ sfs_blksize
    → o < sfs_blksize
    → (j == i) ≡ false
    → stored offset k f (λ p. v) (j * sfs_blksize + o)
      ≡ stored offset (k + size) f (λ p. v) (j * sfs_blksize + o)
stored-elsewhere offset k size i j off o v f at inside lt ne =
    let p = j * sfs_blksize + o in
    let same : ltb p (offset + k) ≡ ltb p (offset + (k + size)) = ground (arith, ne) in
    ap (λ b. if leb offset p && b then f (p - offset) else v) same

pub Written-none : (s : State) (buf offset : ℕ) → Written s buf offset 0 s.fs.disk
Written-none s buf offset = (λ i off h1 h2. ground arith, λ b off h. refl)

-- A move into one block of the file.
pub Written-set :
    (s : State) (buf offset k size i off : ℕ) (d : ℕ → ℕ → ℕ)
    → IsFile s
    → i < s.sin.blocks
    → offset + k ≡ i * sfs_blksize + off
    → off + size ≤ sfs_blksize
    → Written s buf offset k d
    → Written s buf offset
        (k + size)
        (λ b. if b == slot s i then stored off size (λ x. s.mem (buf + k + x)) (d b) else d b)
Written-set s buf offset k size i off d (mapped, distinct, apart) lt at inside (old, rest) = (
  λ j o lt_j lt_o. elim (Bool-cases (j == i)) [
    | inl h ↦
        let e : j ≡ i = ground (arith, h) in
        let yes : (slot s j == slot s i) ≡ true = ground (arith, ap (slot s) e) in
        rw yes (
          stored-here offset k size (j * sfs_blksize) off o (s.fs.disk (slot s j) o)
            (d (slot s j) o) (λ x. s.mem (buf + x)) (λ x. s.mem (buf + k + x)) (omega arith)
            (λ x. ap s.mem (omega arith)) (old j o lt_j lt_o))
    | inr h ↦
        let ne : (slot s j == slot s i) ≡ false = ground (arith, h, distinct j i lt_j lt) in
        rw ne (
          old j o lt_j lt_o
          ∙ stored-elsewhere offset k size i j off o (s.fs.disk (slot s j) o) (λ x. s.mem (buf + x))
              at inside lt_o h)
  ],
  λ b o h. let ne : (b == slot s i) ≡ false = ground (arith, h i lt) in rw ne (rest b o h),
)
