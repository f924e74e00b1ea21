-- ===== src/Fs/Inode/Tests.antt =====
-- A file system with one node, 7, under every name.
use nku_os.Prelude.{ℕ, ◌+◌, ◌≡◌, refl, true, false, some, List, [], ◌∷◌, arith, update}
use nku_os.Errors.{e_exists}
use nku_os.Fs.Vfs.{Result, ok, err}
use nku_os.Fs.Inode.{Inodes, InodeOps, inode_check, find_mark, colon, vfs_lookup, vfs_open, set_ref}
use nku_os.Fs.Inode.Names.{InodeLaws, CanOpen, Balanced, Same, Same-refl}
use nku_os.Fs.Inode.Open.{Opened, close_opened, vfs_open-Opened}

abbrev W : Type 0
W = Unit {0}

abbrev one_more : ℕ → Inodes W → Inodes W
one_more node s = record s { ref_count = update s.ref_count node (s.ref_count node + 1) }

abbrev one_node : InodeOps (Inodes W)
one_node = record {
  has_reclaim = λ node. true;
  has_open = λ node. true;
  has_close = λ node. true;
  has_truncate = λ node. true;
  has_lookup = λ node. true;
  has_create = λ node. false;
  in_fs = λ node. true;
  vop_reclaim = λ node s. s;
  vop_open = λ node open_flags s. (ok tt, s);
  vop_close = λ node s. s;
  vop_truncate = λ node len s. (ok tt, s);
  vop_lookup = λ node path s. (ok 7, one_more 7 s);
  vop_create = λ node name excl s. (err e_exists, s);
  fsop_get_root = λ node s. (7, one_more 7 s);
  vfs_get_root = λ devname s. (ok 7, one_more 7 s);
}

handed_out : (s : Inodes W) → Balanced s (ok 7, one_more 7 s)
handed_out s = (ground arith, ((λ k. ground arith), (λ k. ground arith)))

one_node-InodeLaws : InodeLaws W one_node
one_node-InodeLaws = record {
  reclaim = λ node s. Same-refl s;
  opens = λ node open_flags s. Same-refl s;
  close = λ node s. Same-refl s;
  truncate = λ node len s. Same-refl s;
  lookup = λ node path s. handed_out s;
  fs_root = λ node s. handed_out s;
  device = λ devname s. handed_out s;
  can_open = λ node. refl;
  can_close = λ node. refl;
  can_truncate = λ node open_flags s e t w. refl;
  fs_root_lookup = λ node s. refl;
  device_lookup = λ devname s node e. refl;
}

abbrev start : Inodes W
start = record { ref_count = λ k. 1; open_count = λ k. 0; pwd = 7; bootfs_node = 7; world = tt }

start-CanOpen : CanOpen W one_node start
start-CanOpen = record {
  counted = λ node. omega arith;
  room = λ node. omega arith;
  reclaims = λ node ne e. refl;
  pwd = λ e. (refl, refl);
  bootfs = λ e. refl;
}

abbrev name : List ℕ
name = b'd' ∷ b':' ∷ b'/' ∷ b'f' ∷ []

name_mark : find_mark name ≡ colon (b'd' ∷ []) (b'/' ∷ b'f' ∷ [])
unfolding find_mark
name_mark = refl

vfs_open-Opened_example :
    (r : Result ℕ × Inodes W) × (s' : Inodes W) × (vfs_open one_node 0 name 0 start ≡ some r)
    × Opened start r
    × (close_opened one_node r ≡ some s')
    × Same start s'
vfs_open-Opened_example =
    vfs_open-Opened one_node one_node-InodeLaws 0 name 0 start start-CanOpen refl

abbrev device_name : List ℕ
device_name = b'd' ∷ b':' ∷ []

device_lookup : vfs_lookup one_node device_name start ≡ some (ok 7, one_more 7 start)
unfolding inode_check vfs_lookup nku_os.Fs.Inode.get_device find_mark
device_lookup = refl
