-- ===== src/Fs/Sfs/Alloc.antt =====
-- What sfs_block_alloc takes from the disk.
use nku_os.Prelude.{
  ℕ, ◌+◌, ◌-◌, ◌%◌, ◌^◌, ◌<◌, ◌≡◌, ◌≢◌, Bool, true, false, Option, none, some, ltb, ◌==◌,
  if◌then◌else◌, arith, refl, ap, ◌∙◌, Bool-cases, inl, inr,
}
use nku_os.Errors.{e_no_mem}
use nku_os.Fs.Bitmap.{Bitmap, Allocation, allocated, no_mem, bitmap_alloc, bitmap_test}
use nku_os.Fs.Bitmap.Alloc.{is_free, IsBitmap, Allocates, bitmap_alloc-Allocates}
use nku_os.Fs.Vfs.{Result, ok, err}
use nku_os.Fs.Sfs.{State, Call, ◌>>=◌, ◌>>◌, pure, assert, sfs_blksize, sfs_clear_block, set_disk}
use nku_os.Fs.Sfs.Bmap.{sfs_block_alloc, with_map, index_of, count_unused, assert_inuse}
use nku_os.Fs.Sfs.Steps.{InUse, then-ok, inuse-assert}

-- The map covers the disk, block 0 is not free, and `unused_blocks` is not 0 while a block is free.
abbrev pub IsFreemap : State → Type 0
IsFreemap s =
    IsBitmap s.fs.freemap
    × ((i : ℕ)
        → i < s.fs.freemap.nbits
        → is_free s.fs.freemap i ≡ true
        → (i ≢ 0) × (i < s.fs.blocks) × (0 < s.fs.unused_blocks))
    × (s.fs.unused_blocks < 2 ^ 32)

-- How a call ends: with a block, or without one.
abbrev pub AllocEnds : State → Result ℕ × State → Type 0
AllocEnds s (err e, s') =
    (e ≡ e_no_mem) × (s' ≡ s) × ((j : ℕ) → j < s.fs.freemap.nbits → is_free s.fs.freemap j ≡ false)
AllocEnds s (ok ino, s') =
    (is_free s.fs.freemap ino ≡ true)
    × ((j : ℕ) → j < ino → is_free s.fs.freemap j ≡ false)
    × InUse s' ino
    × ((j : ℕ) → is_free s'.fs.freemap j ≡ (if j == ino then false else is_free s.fs.freemap j))
    × (s'.fs.unused_blocks + 1 ≡ s.fs.unused_blocks)
    × ((b i : ℕ) → i < sfs_blksize → s'.fs.disk b i ≡ (if b == ino then 0 else s.fs.disk b i))
    × (s'.sin ≡ s.sin)
    × (s'.mem ≡ s.mem)

tested-used :
    (b : Bitmap) (i : ℕ) → i < b.nbits → is_free b i ≡ false → bitmap_test b i ≡ some false
unfolding bitmap_test
tested-used b i lt used = ground (arith, used)

zeroed :
    (s : State) (i b j : ℕ)
    → j < sfs_blksize
    → (set_disk i 0 sfs_blksize (λ i. 0) s).fs.disk b j ≡ (if b == i then 0 else s.fs.disk b j)
zeroed s i b j lt = elim (Bool-cases (b == i)) [ inl e ↦ ground (arith, e) | inr e ↦ rw e refl ]

module _ (fault : ℕ → Bool → Option ℕ) (sound : (b : ℕ) (w : Bool) → fault b w ≡ none) where
  clear-zeros :
      (s : State) (b : ℕ)
      → InUse s b
      → sfs_clear_block fault b s ≡ some (ok tt, set_disk b 0 sfs_blksize (λ i. 0) s)
  unfolding sfs_clear_block
  clear-zeros s b (nz, lt, test) = ground (arith, sound b true)

  sfs_block_alloc-taken :
      (s : State) (i : ℕ) (b' : Bitmap)
      → IsFreemap s
      → bitmap_alloc s.fs.freemap ≡ some (allocated i, b')
      → Allocates s.fs.freemap (allocated i) b'
      → (o : Result ℕ × State) × (sfs_block_alloc fault s ≡ some o) × AllocEnds s o
  unfolding sfs_block_alloc
  sfs_block_alloc-taken s i b' (map, some_free, small) run (inside, free, first, taken, size, wf) =
      let (nz, lt, pos) = some_free i inside free in
      let fs = s.fs in
      let fs' = record fs { freemap = b' } in
      let s1 = record s { fs = fs' } in
      let s2 = record s {
        fs = record fs' {
          unused_blocks = (fs.unused_blocks + (2 ^ 32 - 1)) % 2 ^ 32;
          super_dirty = true;
        };
      } in
      let self : (i == i) ≡ true = ground arith in
      let used : is_free b' i ≡ false = rw self at (taken i) in
      let now : InUse s2 i = (nz, lt, tested-used b' i (omega (arith, inside, size)) used) in
      let h : ltb 0 s.fs.unused_blocks ≡ true = ground arith in
      let after : Unit {0} → Call ℕ = λ u. sfs_clear_block fault i >> pure i in
      let rest : Allocation → Call ℕ = λ r. index_of r >>= λ ino.
      assert (λ s. ltb 0 s.fs.unused_blocks)
      >> (count_unused (2 ^ 32 - 1)
          >> (assert_inuse ino >> (sfs_clear_block fault ino >> pure ino))) in
      (
        (ok i, set_disk i 0 sfs_blksize (λ i. 0) s2),
        then-ok rest (ap (λ o. with_map o s) run)
            ∙ rw h (
                then-ok after (inuse-assert s2 i now)
                ∙ then-ok (λ u. pure i) (clear-zeros s2 i now)),
        (free, first, now, taken, omega arith, zeroed s2 i, refl, refl),
      )

  sfs_block_alloc-either :
      (s : State) (r : Allocation) (b' : Bitmap)
      → IsFreemap s
      → bitmap_alloc s.fs.freemap ≡ some (r, b')
      → Allocates s.fs.freemap r b'
      → (o : Result ℕ × State) × (sfs_block_alloc fault s ≡ some o) × AllocEnds s o
  unfolding sfs_block_alloc
  sfs_block_alloc-either s (allocated i) b' map run a = sfs_block_alloc-taken s i b' map run a
  sfs_block_alloc-either s no_mem b' map run (same, full) =
      let fs = s.fs in
      (
        (err e_no_mem, record s { fs = record fs { freemap = b' } }),
        rw run refl,
        (refl, ap (λ b. record s { fs = record fs { freemap = b } }) same, full),
      )

-- Where the map of free blocks covers the disk, block 0 is not free, and `unused_blocks` is not 0 while a block is free, and
-- without faults of the device, `sfs_block_alloc` fails no assertion. It takes the lowest free block, which is then in use and all zero, and counts it in
-- `unused_blocks`; the other blocks, the inode and the memory are as before. Where no block is free it returns
-- `-E_NO_MEM` and changes nothing.
pub sfs_block_alloc-AllocEnds :
    (fault : ℕ → Bool → Option ℕ)
    → ((b : ℕ) (w : Bool) → fault b w ≡ none)
    → (s : State) → IsFreemap s
    → (o : Result ℕ × State) × (sfs_block_alloc fault s ≡ some o) × AllocEnds s o
sfs_block_alloc-AllocEnds fault sound s map =
    let (r, b', run, a) = bitmap_alloc-Allocates s.fs.freemap (map.0) in
    sfs_block_alloc-either fault sound s r b' map run a
