-- ===== src/Fs/Sfs/Io/Read.antt =====
-- Reading the blocks that a file has.
use mathlib.Core.Path.{fun_ext}
use nku_os.Prelude.{
  ℕ, ◌+◌, ◌-◌, ◌*◌, ◌/◌, ◌%◌, ◌<◌, ◌≤◌, ◌≡◌, Bool, false, Option, none, some, ltb, arith, refl, sym,
  subst, ap, ◌∙◌, Bool-cases, inl, inr,
}
use nku_os.Fs.Vfs.{ok}
use nku_os.Fs.Sfs.{State, sfs_blksize, stored, set_mem}
use nku_os.Fs.Sfs.Steps.{slot, InUse, IsMapped, then-ok, load-slot}
use nku_os.Fs.Sfs.Bmap.{sfs_ndirect, sfs_blk_nentry}
use nku_os.Fs.Sfs.Io.{finish_io, out, io_part, io_block, sfs_buf_op, sfs_block_op, sfs_io_nolock}
use nku_os.Fs.Sfs.Io.Chunks.{PartLaw, BlockLaw}
use nku_os.Fs.Sfs.Io.Whole.{io-moved}

-- The byte of the file at a position.
abbrev pub byte : State → ℕ → ℕ
byte s p = s.fs.disk (slot s (p / sfs_blksize)) (p % sfs_blksize)

module _ (fault : ℕ → Bool → Option ℕ) (sound : (b : ℕ) (w : Bool) → fault b w ≡ none) where
  buf_op-reads :
      (s : State) (buf size b off : ℕ)
      → InUse s b
      → off < sfs_blksize
      → off + size ≤ sfs_blksize
      → sfs_buf_op fault false buf size b off s
        ≡ some (ok tt, set_mem buf size (λ x. s.fs.disk b (off + x)) s)
  unfolding sfs_buf_op
  buf_op-reads s buf size b off (nz, lt, test) h1 h2 = ground (arith, sound b false)

  block_op-reads :
      (s : State) (buf b : ℕ)
      → InUse s b
      → sfs_block_op fault false buf b s ≡ some (ok tt, set_mem buf sfs_blksize (s.fs.disk b) s)
  unfolding sfs_block_op
  block_op-reads s buf b (nz, lt, test) = ground (arith, sound b false)

  part-reads :
      (s : State) (buf size i off : ℕ)
      → IsMapped s i
      → off < sfs_blksize
      → off + size ≤ sfs_blksize
      → io_part fault false buf size i off s
        ≡ some (ok tt, set_mem buf size (λ x. s.fs.disk (slot s i) (off + x)) s)
  unfolding io_part
  part-reads s buf size i off m h1 h2 =
      then-ok (λ b. sfs_buf_op fault false buf size b off) (load-slot fault sound s i m)
      ∙ buf_op-reads s buf size (slot s i) off (m.2) h1 h2

  block-reads :
      (s : State) (buf i : ℕ)
      → IsMapped s i
      → io_block fault false buf i s
        ≡ some (ok tt, set_mem buf sfs_blksize (s.fs.disk (slot s i)) s)
  unfolding io_block
  block-reads s buf i m =
      then-ok (λ b. sfs_block_op fault false buf b) (load-slot fault sound s i m)
      ∙ block_op-reads s buf (slot s i) (m.2)

-- Two moves behind one another.
stored-stored :
    (buf k size : ℕ) (bytes next : ℕ → ℕ) (m : ℕ → ℕ)
    → ((x : ℕ) → x < size → next x ≡ bytes (k + x))
    → stored (buf + k) size next (stored buf k bytes m) ≡ stored buf (k + size) bytes m
stored-stored buf k size bytes next m same = fun_ext (λ a. elim (Bool-cases (ltb a (buf + k))) [
  | inl h ↦ ground (arith, h)
  | inr h ↦ elim (Bool-cases (ltb a (buf + k + size))) [
    | inl g ↦
        let e = same (a - (buf + k)) (ground (arith, h, g)) in
        let at : k + (a - (buf + k)) ≡ a - buf = ground (arith, h, g) in
        ground (arith, h, g, e ∙ ap bytes at)
    | inr g ↦ ground (arith, h, g)
  ]
])

stored-none : (buf : ℕ) (bytes m : ℕ → ℕ) → m ≡ stored buf 0 bytes m
stored-none buf bytes m = fun_ext (λ a. ground arith)

pub byte-at :
    (s : State) (i off p : ℕ)
    → p ≡ i * sfs_blksize + off
    → off < sfs_blksize
    → s.fs.disk (slot s i) off ≡ byte s p
byte-at s i off p at lt =
    let block : i ≡ p / sfs_blksize = omega arith in
    let within : off ≡ p % sfs_blksize = omega arith in
    ap (λ j. s.fs.disk (slot s j) off) block
    ∙ ap (λ o. s.fs.disk (slot s (p / sfs_blksize)) o) within

module _ (fault : ℕ → Bool → Option ℕ) (sound : (b : ℕ) (w : Bool) → fault b w ≡ none)
    (buf offset len : ℕ) (s : State)
    (mapped : (i : ℕ) → i * sfs_blksize < offset + len → IsMapped s i) where
  abbrev ReadSoFar : ℕ → State → Type 0
  ReadSoFar k s' = s' ≡ set_mem buf k (λ j. byte s (offset + j)) s

  part_read : PartLaw fault false buf offset len ReadSoFar
  part_read k size i off at lt inside fits pos s' p =
      let s1 = set_mem buf k (λ j. byte s (offset + j)) s in
      subst
        (λ s'.
          (s2 : State) × (io_part fault false (buf + k) size i off s' ≡ some (ok tt, s2))
          × ReadSoFar (k + size) s2)
        (sym p)
        (
          set_mem (buf + k) size (λ x. s.fs.disk (slot s i) (off + x)) s1,
          part-reads fault sound s1 (buf + k) size i off (mapped i (omega arith)) lt inside,
          ap (λ m. record s { mem = m })
              (stored-stored buf k size (λ j. byte s (offset + j))
                (λ x. s.fs.disk (slot s i) (off + x)) s.mem
                (λ x h. byte-at s i (off + x) (offset + (k + x)) (omega arith) (omega arith))),
        )

  block_read : BlockLaw fault false buf offset len ReadSoFar
  block_read k i at fits s' p =
      let s1 = set_mem buf k (λ j. byte s (offset + j)) s in
      subst
        (λ s'.
          (s2 : State) × (io_block fault false (buf + k) i s' ≡ some (ok tt, s2))
          × ReadSoFar (k + sfs_blksize) s2)
        (sym p)
        (
          set_mem (buf + k) sfs_blksize (s.fs.disk (slot s i)) s1,
          block-reads fault sound s1 (buf + k) i (mapped i (omega arith)),
          ap (λ m. record s { mem = m })
              (stored-stored buf k sfs_blksize (λ j. byte s (offset + j)) (s.fs.disk (slot s i))
                s.mem (λ x h. byte-at s i x (offset + (k + x)) (omega arith) h)),
        )

finish-within :
    (fault : ℕ → Bool → Option ℕ) (offset len : ℕ) (s : State)
    → ltb s.sin.size (offset + len) ≡ false
    → finish_io fault offset (out 0 len) s ≡ ((0, len), s)
finish-within fault offset len s h = rw h refl

-- Without faults of the device, a read of at least one byte that ends within the size of the file, whose blocks up to there are all mapped to
-- blocks in use, fails no assertion and returns no error and the whole length; the bytes in memory from `buf` on are then
-- those of the file from `offset` on, and nothing else has changed.
pub sfs_io_nolock-reads :
    (fault : ℕ → Bool → Option ℕ)
    → ((b : ℕ) (w : Bool) → fault b w ≡ none)
    → (buf offset len : ℕ) (s : State) → s.sin.is_dir ≡ false
    → 0 < len
    → offset + len ≤ s.sin.size
    → ((i : ℕ) → i * sfs_blksize < offset + len → IsMapped s i)
    → sfs_io_nolock fault false buf offset len s
      ≡ some ((0, len), set_mem buf len (λ j. byte s (offset + j)) s)
sfs_io_nolock-reads fault sound buf offset len s file pos in_file mapped =
    let last = (offset + len - 1) / sfs_blksize in
    let small : last < sfs_ndirect + sfs_blk_nentry = (mapped last (omega arith)).1 in
    let (s1, e1, p1) =
      io-moved fault false buf offset len (ReadSoFar fault sound buf offset len s mapped)
        (part_read fault sound buf offset len s mapped)
        (block_read fault sound buf offset len s mapped) s file pos (omega arith)
        (ap (λ m. record s { mem = m }) (stored-none buf (λ j. byte s (offset + j)) s.mem)) in
    e1
    ∙ ap (λ t. some (finish_io fault offset (out 0 len) t)) p1
    ∙ ap some (
        finish-within fault offset len (set_mem buf len (λ j. byte s (offset + j)) s)
          (ground arith))
