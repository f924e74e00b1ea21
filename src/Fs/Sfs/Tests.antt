-- ===== src/Fs/Sfs/Tests.antt =====
-- Runs of the simple file system on a file of two blocks.
use nku_os.Prelude.{
  ℕ, ◌+◌, ◌*◌, ◌%◌, ◌<◌, ◌≡◌, Bool, false, true, Option, none, some, ltb, ◌==◌, if◌then◌else◌,
  arith, refl,
}
use nku_os.Fs.Bitmap.{bitmap_test}
use nku_os.Fs.Iobuf.{iobuf_init}
use nku_os.Fs.Vfs.{Result, ok, err}
use nku_os.Fs.Sfs.{State, set_mem}
use nku_os.Fs.Sfs.Bmap.{sfs_block_alloc, sfs_bmap_load_nolock, sfs_bmap_truncate_nolock}
use nku_os.Fs.Sfs.Alloc.{IsFreemap, AllocEnds, sfs_block_alloc-AllocEnds}
use nku_os.Fs.Sfs.Io.{sfs_io_nolock, sfs_write}
use nku_os.Fs.Sfs.Io.Disk.{IsFile}
use nku_os.Fs.Sfs.Io.Read.{byte, sfs_io_nolock-reads}
use nku_os.Fs.Sfs.Io.Write.{Wrote, sfs_io_nolock-Wrote}
use nku_os.Fs.Sfs.Io.Back.{sfs_io_nolock-back}

abbrev no_fault : ℕ → Bool → Option ℕ
no_fault b w = none

-- The blocks 3 and 4 of the disk, whose bytes are their places in the block.
abbrev two_blocks : State
two_blocks = record {
  fs = record {
    disk = λ b i. (b + i) % 256;
    freemap = record { nbits = 8; nwords = 1; map = λ n i. n * 32 + i == 7 };
    blocks = 8;
    unused_blocks = 1;
    super_dirty = false;
  };
  sin = record {
    is_dir = false;
    size = 5000;
    blocks = 2;
    direct = λ i. if ltb i 2 then i + 3 else 0;
    indirect = 0;
    dirty = false;
  };
  mem = λ a. a % 7;
}

two_blocks-IsFile : IsFile two_blocks
unfolding bitmap_test
two_blocks-IsFile = (
  λ i lt. (lt, omega arith, ground arith, λ h. ground (arith, h)),
  λ i j h1 h2 e. ground arith,
  λ i lt. ground arith,
)

-- Four bytes across the border of the blocks.
sfs_io_nolock-back_example :
    (s1 s2 : State) × (sfs_io_nolock no_fault true 100 4094 4 two_blocks ≡ some ((0, 4), s1))
    × (sfs_io_nolock no_fault false 200 4094 4 s1 ≡ some ((0, 4), s2))
    × ((x : ℕ) → x < 4 → s2.mem (200 + x) ≡ two_blocks.mem (100 + x))
sfs_io_nolock-back_example =
    sfs_io_nolock-back no_fault (λ b w. refl) 100 200 4094 4 two_blocks refl two_blocks-IsFile
      (omega arith) (omega arith)

-- A write that makes the file longer, within its blocks.
sfs_io_nolock-Wrote_example :
    (s' : State) × (sfs_io_nolock no_fault true 100 4094 1000 two_blocks ≡ some ((0, 1000), s'))
    × Wrote 100 4094 1000 two_blocks s'
sfs_io_nolock-Wrote_example =
    sfs_io_nolock-Wrote no_fault (λ b w. refl) 100 4094 1000 two_blocks refl two_blocks-IsFile
      (omega arith) (omega arith)

sfs_io_nolock-reads_example :
    sfs_io_nolock no_fault false 100 4094 4 two_blocks
    ≡ some ((0, 4), set_mem 100 4 (λ j. byte two_blocks (4094 + j)) two_blocks)
sfs_io_nolock-reads_example =
    sfs_io_nolock-reads no_fault (λ b w. refl) 100 4094 4 two_blocks refl (omega arith)
      (omega arith) (λ i lt. (two_blocks-IsFile.0) i (omega arith))

two_blocks-IsFreemap : IsFreemap two_blocks
two_blocks-IsFreemap = (
  record { enough = omega arith; leftover = λ i h1 h2. ground arith },
  λ i lt free. (ground arith, lt, omega arith),
  omega arith,
)

sfs_block_alloc-AllocEnds_example :
    (o : Result ℕ × State) × (sfs_block_alloc no_fault two_blocks ≡ some o) × AllocEnds two_blocks o
sfs_block_alloc-AllocEnds_example =
    sfs_block_alloc-AllocEnds no_fault (λ b w. refl) two_blocks two_blocks-IsFreemap

-- A load behind the last block takes a free block of the disk for it; a second one finds none.
block_behind : Option (Option ℕ × ℕ × ℕ)
unfolding sfs_bmap_load_nolock
block_behind = elim (sfs_bmap_load_nolock no_fault 2 two_blocks) [
  | none ↦ none
  | some (ok ino, s) ↦ some (some ino, s.sin.blocks, s.fs.unused_blocks)
  | some (err e, s) ↦ some (none, e, 0)
]

block_behind-7 : block_behind ≡ some (some 7, 3, 0)
unfolding block_behind
block_behind-7 = refl

-- Without the last block the file has one, and the disk has one free block more.
shorter : Option (ℕ × ℕ × ℕ)
unfolding sfs_bmap_truncate_nolock
shorter = elim (sfs_bmap_truncate_nolock no_fault two_blocks) [
  | none ↦ none
  | some (_, s) ↦ some (s.sin.blocks, s.sin.direct 1, s.fs.unused_blocks)
]

shorter-1 : shorter ≡ some (1, 0, 2)
unfolding shorter
shorter-1 = refl

-- A write through a record of 4 bytes leaves nothing in the record.
write_record : Option (ℕ × ℕ × ℕ)
unfolding sfs_write iobuf_init
write_record = elim (sfs_write no_fault (iobuf_init 100 4 4094) two_blocks) [
  | none ↦ none
  | some ((ret, iob), s) ↦ some (ret, iob.io_offset, iob.io_resid)
]

write_record-4 : write_record ≡ some (0, 4098, 0)
unfolding write_record
write_record-4 = refl
