-- ===== src/Fs/Vfs.antt =====
-- kern/fs/vfs: the operations on inodes by which the open-file table reaches a file system. In the
-- source they are calls through the table of function pointers of each inode.
use nku_os.Prelude.{ℕ, Bool, List}
use nku_os.Fs.Iobuf.{Iobuf}

-- `return 0` with what is stored through the pointers, or `return -E`.
pub data Result {ℓ} (A : Type ℓ) : Type ℓ where
  ok : A → Result A
  err : ℕ → Result A

-- An operation may change the state `S` as a whole, the open-file table included, since other
-- threads run while it waits. An inode is a number, NULL is 0. The three fields `_returns` say whether the assertions of a call hold,
-- also those of the file system: `vfs_open` panics where `vop_create` is missing.
pub record Vfs (S : Type 0) : Type 0 where
  pub vfs_open_returns : (path : List ℕ) → (open_flags : ℕ) → S → Bool
  pub vfs_close_returns : (node : ℕ) → S → Bool
  pub vop_fstat_returns : (node : ℕ) → S → Bool
  pub vfs_open : (path : List ℕ) → (open_flags : ℕ) → S → Result ℕ × S
  pub vfs_close : (node : ℕ) → S → S
  pub vop_read : (node : ℕ) → Iobuf → S → Result (Unit {0}) × Iobuf × S
  pub vop_write : (node : ℕ) → Iobuf → S → Result (Unit {0}) × Iobuf × S
  pub vop_fstat : (node : ℕ) → S → Result ℕ × S
  pub vop_fsync : (node : ℕ) → S → Result (Unit {0}) × S
  pub vop_tryseek : (node pos : ℕ) → S → Result (Unit {0}) × S
  pub vop_getdirentry : (node : ℕ) → Iobuf → S → Result (Unit {0}) × Iobuf × S
  pub vop_ref_inc : (node : ℕ) → S → S
  pub vop_open_inc : (node : ℕ) → S → S
