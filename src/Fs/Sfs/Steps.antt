-- ===== src/Fs/Sfs/Steps.antt =====
-- The block of a file that sfs_bmap_load_nolock finds, where the file has it.
use nku_os.Prelude.{
  ℕ, ◌+◌, ◌-◌, ◌*◌, ◌<◌, ◌≤◌, ◌≡◌, ◌≢◌, Bool, true, false, Option, none, some, ltb, leb, ◌==◌, ◌||◌,
  not, if◌then◌else◌, arith, refl, ap, subst, ◌∙◌, Bool-cases, inl, inr,
}
use nku_os.Fs.Bitmap.{bitmap_test}
use nku_os.Fs.Vfs.{Result, ok}
use nku_os.Fs.Sfs.{State, Call, ◌>>◌, and_then, pure, access, sfs_blksize, sfs_rbuf}
use nku_os.Fs.Sfs.Bmap.{
  sfs_ndirect, sfs_blk_nentry, word_of, sfs_block_inuse, sfs_bmap_get_sub_nolock,
  sfs_bmap_get_nolock, sfs_bmap_load_nolock, direct_block, indirect_block, assert_inuse,
}

-- The number that the block map of the file holds for a block of it.
abbrev pub slot : State → ℕ → ℕ
slot s i =
    if ltb i sfs_ndirect
    then s.sin.direct i
    else word_of (λ k. s.fs.disk s.sin.indirect ((i - sfs_ndirect) * 4 + k))

-- A block of the disk that is in use.
abbrev pub InUse : State → ℕ → Type 0
InUse s b = (b ≢ 0) × (b < s.fs.blocks) × (bitmap_test s.fs.freemap b ≡ some false)

-- The file has the block `i`, and the map leads to a block in use.
abbrev pub IsMapped : State → ℕ → Type 0
IsMapped s i =
    (i < s.sin.blocks)
    × (i < sfs_ndirect + sfs_blk_nentry)
    × InUse s (slot s i)
    × (ltb i sfs_ndirect ≡ false → InUse s s.sin.indirect)

-- A call that goes well, and what follows it.
pub then-ok :
    {A B : Type 0} {o : Option (Result A × State)} (k : A → Call B) {s : State} {a : A}
    → o ≡ some (ok a, s)
    → and_then o k ≡ k a s
then-ok k h = ap (λ o. and_then o k) h

pub inuse-assert : (s : State) (b : ℕ) → InUse s b → assert_inuse b s ≡ some (ok tt, s)
unfolding sfs_block_inuse
inuse-assert s b (nz, lt, test) = ground (arith, test)

or_true : (b : Bool) → (b || true) ≡ true
or_true true = refl
or_true false = refl

module _ (fault : ℕ → Bool → Option ℕ) (sound : (b : ℕ) (w : Bool) → fault b w ≡ none) where
  rbuf-bytes :
      (s : State) (len b o : ℕ)
      → InUse s b
      → o < sfs_blksize
      → o + len ≤ sfs_blksize
      → sfs_rbuf fault len b o s ≡ some (ok (λ i. s.fs.disk b (o + i)), s)
  unfolding sfs_rbuf access
  rbuf-bytes s len b o (nz, lt, test) h1 h2 = ground (arith, sound b false)

  direct-slot :
      (s : State) (i : ℕ)
      → s.sin.direct i ≢ 0
      → (c : Bool) → direct_block fault i c s ≡ some (ok (s.sin.direct i), s)
  unfolding direct_block
  direct-slot s i nz c = ground arith

  sub-slot :
      (s : State) (ent i : ℕ)
      → i < sfs_blk_nentry
      → InUse s ent
      → sfs_bmap_get_sub_nolock fault ent i false s
        ≡ some (ok (ent, word_of (λ k. s.fs.disk ent (i * 4 + k))), s)
  unfolding sfs_bmap_get_sub_nolock
  sub-slot s ent i lt (nz, h2, test) =
      let h1 : ltb i 1024 ≡ true = ground arith in
      let h3 : (ent == 0) ≡ false = ground arith in
      let h4 : ltb (i * 4) 4096 ≡ true = ground arith in
      let h5 : leb (i * 4 + 4) 4096 ≡ true = ground arith in
      let h6 : ltb ent s.fs.blocks ≡ true = ground arith in
      rw h1 (
        rw h3 (
          rw h4 (
            rw h5 (
              rw h6 (
                rw (sound ent false)
                  (rw (or_true (not (word_of (λ k. s.fs.disk ent (i * 4 + k)) == 0))) refl))))))

  indirect-slot :
      (s : State) (i : ℕ)
      → i < sfs_blk_nentry
      → InUse s s.sin.indirect
      → indirect_block fault i false s
        ≡ some (ok (word_of (λ k. s.fs.disk s.sin.indirect (i * 4 + k))), s)
  unfolding indirect_block
  indirect-slot s i lt u =
      let h1 : ltb i 1024 ≡ true = ground arith in
      let h2 : (s.sin.indirect == s.sin.indirect) ≡ true = ground arith in
      ground (arith, sub-slot s s.sin.indirect i lt u)

  branch-slot :
      (s : State) (i : ℕ)
      → IsMapped s i
      → (if ltb i sfs_ndirect
            then direct_block fault i false
            else indirect_block fault (i - sfs_ndirect) false)
          s
        ≡ some (ok (slot s i), s)
  branch-slot s i (lt, small, u, v) = elim (Bool-cases (ltb i sfs_ndirect)) [
    | inl h ↦
        let (nz, lt', test) = u in
        rw h (
          direct-slot s i
            (subst
              (λ b.
                (if b
                  then s.sin.direct i
                  else word_of (λ k. s.fs.disk s.sin.indirect ((i - sfs_ndirect) * 4 + k)))
                ≢ 0)
              h nz)
            false)
    | inr h ↦ rw h (indirect-slot s (i - sfs_ndirect) (ground (arith, h)) (v h))
  ]

  get-slot :
      (s : State) (i : ℕ)
      → IsMapped s i
      → sfs_bmap_get_nolock fault i false s ≡ some (ok (slot s i), s)
  unfolding sfs_bmap_get_nolock
  get-slot s i m =
      let u : InUse s (slot s i) = m.2 in
      let used : (if slot s i == 0 then pure tt else assert_inuse (slot s i)) s ≡ some (ok tt, s) =
        ground (arith, inuse-assert s (slot s i) u) in
      then-ok (λ ino. (if ino == 0 then pure tt else assert_inuse ino) >> pure ino)
        (branch-slot s i m)
      ∙ then-ok (λ u. pure (slot s i)) used

  -- For a block that the file has, the number in the map is found and nothing changes.
  pub load-slot :
      (s : State) (i : ℕ) → IsMapped s i → sfs_bmap_load_nolock fault i s ≡ some (ok (slot s i), s)
  unfolding sfs_bmap_load_nolock
  load-slot s i m =
      let u : InUse s (slot s i) = m.2 in
      let lt = m.0 in
      let h1 : leb i s.sin.blocks ≡ true = ground arith in
      let h2 : (i == s.sin.blocks) ≡ false = ground arith in
      let rest : ℕ → Call ℕ = λ ino. assert_inuse ino >> (pure tt >> pure ino) in
      rw h1 (
        rw h2 (
          then-ok rest (get-slot s i m)
          ∙ then-ok (λ u. pure tt >> pure (slot s i)) (inuse-assert s (slot s i) u)))
