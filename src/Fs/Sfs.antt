-- ===== src/Fs/Sfs.antt =====
-- kern/fs/sfs: the simple file system. Here are its state and sfs_io.c, the transfers of blocks.
pub mod Steps
pub mod Bmap
pub mod Io
pub mod Alloc
mod Tests
use nku_os.Prelude.{
  ℕ, ◌+◌, ◌-◌, ◌*◌, ◌/◌, ◌%◌, ◌^◌, Bool, true, false, not, ◌&&◌, Option, none, some, ltb, leb, ◌==◌,
  if◌then◌else◌,
}
use nku_os.Strings.{Memory}
use nku_os.Fs.Bitmap.{Bitmap}
use nku_os.Fs.Vfs.{Result, ok, err}

abbrev pub sfs_blksize : ℕ
sfs_blksize = 4096

-- `struct sfs_fs`: the bytes of each block of the disk, the map of free blocks, and the numbers of the superblock. The
-- buffer of the file system holds nothing from one call to the next.
pub record Sfs : Type 0 where
  pub disk : ℕ → ℕ → ℕ
  pub freemap : Bitmap
  pub blocks : ℕ
  pub unused_blocks : ℕ
  pub super_dirty : Bool

-- `struct sfs_inode` with its `struct sfs_disk_inode`.
pub record Sin : Type 0 where
  pub is_dir : Bool
  pub size : ℕ
  pub blocks : ℕ
  pub direct : ℕ → ℕ
  pub indirect : ℕ
  pub dirty : Bool

-- The file system, an inode of it, and the memory.
pub record State : Type 0 where
  pub fs : Sfs
  pub sin : Sin
  pub mem : Memory

-- The bytes from `base` on, over `len`, are those that `bytes` numbers.
abbrev pub stored : (base len : ℕ) → (bytes : ℕ → ℕ) → (ℕ → ℕ) → ℕ → ℕ
stored base len bytes m a = if leb base a && ltb a (base + len) then bytes (a - base) else m a

abbrev pub set_disk : (blkno off len : ℕ) → (bytes : ℕ → ℕ) → State → State
set_disk blkno off len bytes s =
    let fs = s.fs in
    record s {
      fs = record fs {
        disk = λ b. if b == blkno then stored off len bytes (fs.disk b) else fs.disk b;
      };
    }

abbrev pub set_mem : (base len : ℕ) → (bytes : ℕ → ℕ) → State → State
set_mem base len bytes s = record s { mem = stored base len bytes s.mem }

-- A call on the state: `none` is a failed assertion, and an error code does not undo what was done.
abbrev pub Call : Type 0 → Type 0
Call A = State → Option (Result A × State)

abbrev pub and_then :
    {A B : Type 0} → Option (Result A × State) → (A → Call B) → Option (Result B × State)
and_then none k = none
and_then (some (ok a, s)) k = k a s
and_then (some (err e, s)) k = some (err e, s)

infixl 5 ◌>>=◌ ◌>>◌
abbrev pub ◌>>=◌ : {A B : Type 0} → Call A → (A → Call B) → Call B
◌>>=◌ m k s = and_then (m s) k

abbrev pub ◌>>◌ : {B : Type 0} → Call (Unit {0}) → Call B → Call B
m >> k = m >>= λ _. k

abbrev pub pure : {A : Type 0} → A → Call A
pure a s = some (ok a, s)

abbrev pub assert : (State → Bool) → Call (Unit {0})
assert test s = if test s then some (ok tt, s) else none

abbrev pub check : Option ℕ → Call (Unit {0})
check none s = some (ok tt, s)
check (some e) s = some (err e, s)

-- The device: the error of a transfer of a block, if it fails.
module _ (fault : (blkno : ℕ) → (write : Bool) → Option ℕ) where
  -- The assertion of `sfs_rwblock_nolock`, with its `check`, and the call of the device. The device is given the offset
  -- `blkno * SFS_BLKSIZE`, which does not wrap around in a file system of at most 2^20 blocks, as on the ramdisk of the kernel.
  unfoldable pub access : (blkno : ℕ) → (write : Bool) → Call (Unit {0})
  access blkno write = do
    assert (λ s. not (blkno == 0) && ltb blkno s.fs.blocks)
    check (fault blkno write)

  -- The bytes that are read.
  unfoldable pub sfs_rbuf : (len blkno offset : ℕ) → Call (ℕ → ℕ)
  unfolding access
  sfs_rbuf len blkno offset = do
    assert (λ s. ltb offset sfs_blksize && leb (offset + len) sfs_blksize)
    access blkno false
    λ s. some (ok (λ i. s.fs.disk blkno (offset + i)), s)

  unfoldable pub sfs_wbuf : (bytes : ℕ → ℕ) → (len blkno offset : ℕ) → Call (Unit {0})
  unfolding access
  sfs_wbuf bytes len blkno offset = do
    assert (λ s. ltb offset sfs_blksize && leb (offset + len) sfs_blksize)
    access blkno false
    access blkno true
    λ s. some (ok tt, set_disk blkno offset len bytes s)

  -- One block.
  unfoldable pub sfs_rblock : (blkno : ℕ) → Call (ℕ → ℕ)
  unfolding access
  sfs_rblock blkno = do access blkno false; λ s. some (ok (s.fs.disk blkno), s)

  unfoldable pub sfs_wblock : (bytes : ℕ → ℕ) → (blkno : ℕ) → Call (Unit {0})
  unfolding access
  sfs_wblock bytes blkno = do
    access blkno true
    λ s. some (ok tt, set_disk blkno 0 sfs_blksize bytes s)

  unfoldable pub sfs_clear_block : (blkno : ℕ) → Call (Unit {0})
  unfolding sfs_wblock
  sfs_clear_block blkno = sfs_wblock (λ i. 0) blkno
