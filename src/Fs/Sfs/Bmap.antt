-- ===== src/Fs/Sfs/Bmap.antt =====
-- kern/fs/sfs/sfs_inode.c: the disk block of each block of a file.
use nku_os.Prelude.{
  ℕ, ◌+◌, ◌-◌, ◌*◌, ◌/◌, ◌%◌, ◌^◌, Bool, true, not, ◌&&◌, ◌||◌, Option, none, some, ltb, leb, ◌==◌,
  if◌then◌else◌, update,
}
use nku_os.Errors.{e_no_mem}
use nku_os.Fs.Bitmap.{Bitmap, Allocation, allocated, no_mem, bitmap_alloc, bitmap_test, bitmap_free}
use nku_os.Fs.Vfs.{ok, err}
use nku_os.Fs.Sfs.{
  Sin, Call, ◌>>=◌, ◌>>◌, pure, assert, sfs_blksize, sfs_rbuf, sfs_wbuf, sfs_clear_block,
}

abbrev pub sfs_ndirect : ℕ
sfs_ndirect = 12

abbrev pub sfs_blk_nentry : ℕ
sfs_blk_nentry = sfs_blksize / 4

-- A `uint32_t` in memory, the lowest byte first.
abbrev pub word_of : (ℕ → ℕ) → ℕ
word_of b = b 0 + 2 ^ 8 * b 1 + 2 ^ 16 * b 2 + 2 ^ 24 * b 3

abbrev pub bytes_of : ℕ → ℕ → ℕ
bytes_of v i = v / 256 ^ i % 256

-- A call of the bitmap, which may fail an assertion.
abbrev pub with_map : {A : Type 0} → Option (A × Bitmap) → Call A
with_map none s = none
with_map (some (a, b)) s = let fs = s.fs in some (ok a, record s { fs = record fs { freemap = b } })

abbrev pub index_of : Allocation → Call ℕ
index_of (allocated i) s = some (ok i, s)
index_of no_mem s = some (err e_no_mem, s)

abbrev pub tested : Option Bool → Call Bool
tested none s = none
tested (some b) s = some (ok (not b), s)

-- The panic out of range is a failed assertion.
unfoldable pub sfs_block_inuse : (ino : ℕ) → Call Bool
unfolding bitmap_test
sfs_block_inuse ino = do
  assert (λ s. not (ino == 0) && ltb ino s.fs.blocks)
  λ s. tested (bitmap_test s.fs.freemap ino) s

abbrev pub assert_inuse : (ino : ℕ) → Call (Unit {0})
unfolding sfs_block_inuse
assert_inuse ino = do used ← sfs_block_inuse ino; assert (λ s. used)

-- `unused_blocks` by `d`, and the superblock marked.
abbrev pub count_unused : (d : ℕ) → Call (Unit {0})
count_unused d s =
    let fs = s.fs in
    some (
      ok tt,
      record s {
        fs = record fs { unused_blocks = (fs.unused_blocks + d) % 2 ^ 32; super_dirty = true };
      },
    )

abbrev pub freed : Option Bitmap → Call (Unit {0})
freed none s = none
freed (some b) s = let fs = s.fs in some (ok tt, record s { fs = record fs { freemap = b } })

unfoldable pub sfs_block_free : (ino : ℕ) → Call (Unit {0})
unfolding assert_inuse bitmap_free
sfs_block_free ino = do
  assert_inuse ino
  λ s. freed (bitmap_free s.fs.freemap ino) s
  count_unused 1

module _ (fault : (blkno : ℕ) → (write : Bool) → Option ℕ) where
  unfoldable pub sfs_block_alloc : Call ℕ
  unfolding bitmap_alloc assert_inuse sfs_clear_block
  sfs_block_alloc = do
    r ← λ s. with_map (bitmap_alloc s.fs.freemap) s
    ino ← index_of r
    assert (λ s. ltb 0 s.fs.unused_blocks)
    count_unused (2 ^ 32 - 1)
    assert_inuse ino
    sfs_clear_block fault ino
    pure ino

  -- What follows an error behind the label `failed_cleanup`.
  abbrev pub cleanup : {A : Type 0} → Call A → Call (Unit {0}) → Call A
  cleanup m undo s = elim (m s) [
    | none ↦ none
    | some (ok a, s') ↦ some (ok a, s')
    | some (err e, s') ↦ (undo >> λ s2. some (err e, s2)) s'
  ]

  abbrev pub free_new : (ent old : ℕ) → Call (Unit {0})
  unfolding sfs_block_free
  free_new ent old = if not (ent == old) then sfs_block_free ent else pure tt

  -- A new block for the entry at `offset` of the entry block `ent`.
  unfoldable pub add_entry : (ent old offset : ℕ) → Call (ℕ × ℕ)
  unfolding sfs_block_alloc free_new sfs_wbuf
  add_entry ent old offset = do
    ino ← cleanup (sfs_block_alloc) (free_new ent old)
    cleanup (sfs_wbuf fault (bytes_of ino) 4 ent offset) (sfs_block_free ino >> free_new ent old)
    pure (ent, ino)

  -- The entry block, which may be new, and the block that its entry holds, or 0.
  unfoldable pub sfs_bmap_get_sub_nolock : (ent index : ℕ) → (create : Bool) → Call (ℕ × ℕ)
  unfolding add_entry sfs_rbuf sfs_block_alloc
  sfs_bmap_get_sub_nolock ent index create =
      let offset = index * 4 in
      let existing = do
        bytes ← sfs_rbuf fault 4 ent offset
        if not (word_of bytes == 0) || not create
            then pure (ent, word_of bytes)
            else add_entry ent ent offset
      in let new = do e ← sfs_block_alloc; add_entry e ent offset
        in do
          assert (λ s. ltb index sfs_blk_nentry)
          if not (ent == 0) then existing else if create then new else pure (ent, 0)

  abbrev pub set_sin : Sin → Call (Unit {0})
  set_sin v s = some (ok tt, record s { sin = v })

  -- A direct block, made where it is missing and wanted.
  unfoldable pub direct_block : (index : ℕ) → (create : Bool) → Call ℕ
  unfolding sfs_block_alloc
  direct_block index create =
      let new = do
        ino ← sfs_block_alloc
        λ s.
            let v = s.sin in
            set_sin (record v { direct = update v.direct index ino; dirty = true }) s
        pure ino
      in λ s. (if s.sin.direct index == 0 && create then new else pure (s.sin.direct index)) s

  -- The index from the first indirect block on.
  unfoldable pub indirect_block : (index : ℕ) → (create : Bool) → Call ℕ
  unfolding sfs_bmap_get_sub_nolock
  indirect_block index create = do
    assert (λ s. ltb index sfs_blk_nentry)
    (ent, ino) ← λ s. sfs_bmap_get_sub_nolock s.sin.indirect index create s
    λ s.
        let v = s.sin in
        (if ent == v.indirect
            then pure tt
            else assert (λ s. s.sin.indirect == 0)
              >> set_sin (record v { indirect = ent; dirty = true }))
          s
    pure ino

  unfoldable pub sfs_bmap_get_nolock : (index : ℕ) → (create : Bool) → Call ℕ
  unfolding direct_block indirect_block assert_inuse
  sfs_bmap_get_nolock index create = do
    ino ←
        if ltb index sfs_ndirect
        then direct_block index create
        else indirect_block (index - sfs_ndirect) create
    if ino == 0 then pure tt else assert_inuse ino
    pure ino

  unfoldable pub sfs_bmap_load_nolock : (index : ℕ) → Call ℕ
  unfolding sfs_bmap_get_nolock assert_inuse
  sfs_bmap_load_nolock index = do
    assert (λ s. leb index s.sin.blocks)
    create ← λ s. some (ok (index == s.sin.blocks), s)
    ino ← sfs_bmap_get_nolock index create
    assert_inuse ino
    λ s.
        let v = s.sin in
        (if create then set_sin (record v { blocks = (v.blocks + 1) % 2 ^ 32 }) else pure tt) s
    pure ino

  unfoldable pub sfs_bmap_free_sub_nolock : (ent index : ℕ) → Call (Unit {0})
  unfolding assert_inuse sfs_rbuf sfs_wbuf sfs_block_free
  sfs_bmap_free_sub_nolock ent index = do
    assert_inuse ent
    assert (λ s. ltb index sfs_blk_nentry)
    bytes ← sfs_rbuf fault 4 ent (index * 4)
    if word_of bytes == 0
        then pure tt
        else sfs_wbuf fault (λ i. 0) 4 ent (index * 4) >> sfs_block_free (word_of bytes)

  abbrev pub free_direct : (index : ℕ) → Call (Unit {0})
  unfolding sfs_block_free
  free_direct index =
      let free = do
        λ s. sfs_block_free (s.sin.direct index) s
        λ s.
            let v = s.sin in set_sin (record v { direct = update v.direct index 0; dirty = true }) s
      in λ s. (if s.sin.direct index == 0 then pure tt else free) s

  abbrev pub free_indirect : (index : ℕ) → Call (Unit {0})
  unfolding sfs_bmap_free_sub_nolock
  free_indirect index = λ s.
      (if s.sin.indirect == 0 then pure tt else sfs_bmap_free_sub_nolock s.sin.indirect index) s

  unfoldable pub sfs_bmap_free_nolock : (index : ℕ) → Call (Unit {0})
  unfolding free_direct free_indirect
  sfs_bmap_free_nolock index =
      if ltb index sfs_ndirect
      then free_direct index
      else if ltb (index - sfs_ndirect) sfs_blk_nentry
      then free_indirect (index - sfs_ndirect)
      else pure tt

  unfoldable pub sfs_bmap_truncate_nolock : Call (Unit {0})
  unfolding sfs_bmap_free_nolock
  sfs_bmap_truncate_nolock = do
    assert (λ s. not (s.sin.blocks == 0))
    λ s. sfs_bmap_free_nolock (s.sin.blocks - 1) s
    λ s. let v = s.sin in set_sin (record v { blocks = v.blocks - 1; dirty = true }) s
