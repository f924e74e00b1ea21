-- ===== src/Fs/Inode.antt =====
-- Inodes and their counts (kern/fs/vfs/inode.c), names of inodes (vfslookup.c, and the current directory of
-- vfspath.c and the boot file system of vfs.c), and vfs_open and vfs_close (vfsfile.c).
pub mod Names
pub mod Open
mod Tests
use Prim.Native.Nat.{bit_and}
use nku_os.Prelude.{
  ℕ, zero, suc, ◌+◌, ◌-◌, Bool, true, false, not, ◌&&◌, ◌||◌, Option, none, some, List, [], ◌∷◌,
  ltb, leb, ◌==◌, if◌then◌else◌, update,
}
use nku_os.Prelude.Partial.{◌>>=◌, ◌>>◌, assert}
use nku_os.Errors.{e_inval, e_noent, e_exists}
use nku_os.Fs.Vfs.{Result, ok, err}

-- The counts of each inode, the current directory `current->filesp->pwd` and `bootfs_node`, where NULL is 0, and all else. The
-- counts do not wrap around, since `inode_check` keeps them below 2^16.
pub record Inodes (W : Type 0) : Type 0 where
  pub ref_count : ℕ → ℕ
  pub open_count : ℕ → ℕ
  pub pwd : ℕ
  pub bootfs_node : ℕ
  pub world : W

-- The operations of the file systems on inodes, on file systems (`fsop_get_root` of `node->in_fs`) and on devices
-- (`vfs_get_root`). A path is the list of its characters. The operations table of a node has the operations that `has_` says, and
-- its magic number; `in_fs` says that it lies in a file system. All this is set once, when the node is made.
pub record InodeOps (S : Type 0) : Type 0 where
  pub has_reclaim : (node : ℕ) → Bool
  pub has_open : (node : ℕ) → Bool
  pub has_close : (node : ℕ) → Bool
  pub has_truncate : (node : ℕ) → Bool
  pub has_lookup : (node : ℕ) → Bool
  pub has_create : (node : ℕ) → Bool
  pub in_fs : (node : ℕ) → Bool
  pub vop_reclaim : (node : ℕ) → S → S
  pub vop_open : (node open_flags : ℕ) → S → Result (Unit {0}) × S
  pub vop_close : (node : ℕ) → S → S
  pub vop_truncate : (node : ℕ) → (len : ℕ) → S → Result (Unit {0}) × S
  pub vop_lookup : (node : ℕ) → (path : List ℕ) → S → Result ℕ × S
  pub vop_create : (node : ℕ) → (name : List ℕ) → (excl : Bool) → S → Result ℕ × S
  pub fsop_get_root : (node : ℕ) → S → ℕ × S
  pub vfs_get_root : (devname : List ℕ) → S → Result ℕ × S

-- The first `:` or `/` of a path.
pub data Mark : Type 0 where
  no_mark : Mark
  colon : (before after : List ℕ) → Mark
  slash : (before after : List ℕ) → Mark

abbrev pub before_mark : ℕ → Mark → Mark
before_mark c no_mark = no_mark
before_mark c (colon before after) = colon (c ∷ before) after
before_mark c (slash before after) = slash (c ∷ before) after

unfoldable pub find_mark : List ℕ → Mark
find_mark [] = no_mark
find_mark (c ∷ path) =
    let later = before_mark c (find_mark path) in
    if c == b':' then colon [] path else if c == b'/' then slash [] path else later

abbrev pub skip_slashes : List ℕ → List ℕ
skip_slashes [] = []
skip_slashes (c ∷ path) = let later = skip_slashes path in if c == b'/' then later else c ∷ path

abbrev pub o_creat : ℕ → Bool
o_creat open_flags = not (bit_and open_flags 4 == 0)

abbrev pub o_excl : ℕ → Bool
o_excl open_flags = not (bit_and open_flags 8 == 0)

abbrev pub o_trunc : ℕ → Bool
o_trunc open_flags = not (bit_and open_flags 16 == 0)

-- `MAX_INODE_COUNT`
abbrev pub max_inode_count : ℕ
max_inode_count = 0x10000

-- The assertions before each call of an operation, where `has_op` says that the table of the node has it.
unfoldable pub inode_check : {W : Type 0} → (has_op : Bool) → (node : ℕ) → Inodes W → Bool
inode_check has_op node s =
    not (node == 0)
    && has_op
    && (leb (s.open_count node) (s.ref_count node)
        && (ltb (s.ref_count node) max_inode_count && ltb (s.open_count node) max_inode_count))

module _ {W : Type 0} (ops : InodeOps (Inodes W)) where
  abbrev pub set_ref : (node n : ℕ) → Inodes W → Inodes W
  set_ref node n s = record s { ref_count = update s.ref_count node n }

  abbrev pub set_open : (node n : ℕ) → Inodes W → Inodes W
  set_open node n s = record s { open_count = update s.open_count node n }

  unfoldable pub inode_init : (node : ℕ) → Inodes W → Inodes W
  inode_init node s = set_ref node 1 (set_open node 0 s)

  unfoldable pub inode_ref_inc : (node : ℕ) → Inodes W → Inodes W
  inode_ref_inc node s = set_ref node (s.ref_count node + 1) s

  unfoldable pub inode_ref_dec : (node : ℕ) → Inodes W → Option (Inodes W)
  unfolding inode_check
  inode_ref_dec node s =
      let s' = set_ref node (s.ref_count node - 1) s in
      do
        assert (ltb 0 (s.ref_count node))
        if s'.ref_count node == 0
            then assert (inode_check (ops.has_reclaim node) node s')
              >> some (ops.vop_reclaim node s')
            else some s'

  unfoldable pub inode_open_inc : (node : ℕ) → Inodes W → Inodes W
  inode_open_inc node s = set_open node (s.open_count node + 1) s

  unfoldable pub inode_open_dec : (node : ℕ) → Inodes W → Option (Inodes W)
  unfolding inode_check
  inode_open_dec node s =
      let s' = set_open node (s.open_count node - 1) s in
      do
        assert (ltb 0 (s.open_count node))
        if s'.open_count node == 0
            then assert (inode_check (ops.has_close node) node s') >> some (ops.vop_close node s')
            else some s'

  unfoldable pub vfs_get_curdir : Inodes W → Result ℕ × Inodes W
  unfolding inode_ref_inc
  vfs_get_curdir s =
      if not (s.pwd == 0) then (ok s.pwd, inode_ref_inc s.pwd s) else (err e_noent, s)

  unfoldable pub vfs_get_bootfs : Inodes W → Result ℕ × Inodes W
  unfolding inode_ref_inc
  vfs_get_bootfs s =
      if not (s.bootfs_node == 0)
      then (ok s.bootfs_node, inode_ref_inc s.bootfs_node s)
      else (err e_noent, s)

  -- A node and the rest of the path, which are stored where the code returns 0.
  abbrev pub with_subpath : List ℕ → Result ℕ × Inodes W → Option (Result (ℕ × List ℕ) × Inodes W)
  with_subpath subpath (ok node, s) = some (ok (node, subpath), s)
  with_subpath subpath (err e, s) = some (err e, s)

  abbrev pub root_of_curdir : List ℕ → Result ℕ × Inodes W → Option (Result (ℕ × List ℕ) × Inodes W)
  root_of_curdir subpath (err e, s) = some (err e, s)
  root_of_curdir subpath (ok node, s) =
      let (root, s1) = ops.fsop_get_root node s in
      do assert (ops.in_fs node); s2 ← inode_ref_dec node s1; some (ok (root, subpath), s2)

  abbrev pub get_device_at :
      Mark → (path : List ℕ) → Inodes W → Option (Result (ℕ × List ℕ) × Inodes W)
  get_device_at no_mark path s = with_subpath path (vfs_get_curdir s)
  get_device_at (slash (c ∷ before) after) path s = with_subpath path (vfs_get_curdir s)
  get_device_at (colon (c ∷ before) after) path s =
      with_subpath (skip_slashes after) (ops.vfs_get_root (c ∷ before) s)
  get_device_at (slash [] after) path s = with_subpath (skip_slashes after) (vfs_get_bootfs s)
  get_device_at (colon [] after) path s = root_of_curdir (skip_slashes after) (vfs_get_curdir s)

  unfoldable pub get_device : (path : List ℕ) → Inodes W → Option (Result (ℕ × List ℕ) × Inodes W)
  unfolding inode_ref_dec vfs_get_curdir vfs_get_bootfs find_mark
  get_device path s = get_device_at (find_mark path) path s

  abbrev pub lookup_from : Result (ℕ × List ℕ) → Inodes W → Option (Result ℕ × Inodes W)
  lookup_from (err e) s = some (err e, s)
  lookup_from (ok (node, [])) s = some (ok node, s)
  lookup_from (ok (node, c ∷ path)) s =
      let (r, s1) = ops.vop_lookup node (c ∷ path) s in
      do assert (inode_check (ops.has_lookup node) node s); s2 ← inode_ref_dec node s1; some (r, s2)

  unfoldable pub vfs_lookup : (path : List ℕ) → Inodes W → Option (Result ℕ × Inodes W)
  unfolding get_device inode_ref_dec
  vfs_lookup path s = do (r, s1) ← get_device path s; lookup_from r s1

  -- The directory and the name in it: the path behind the device as a whole.
  unfoldable pub vfs_lookup_parent :
      (path : List ℕ) → Inodes W → Option (Result (ℕ × List ℕ) × Inodes W)
  unfolding get_device
  vfs_lookup_parent path s = get_device path s

  abbrev pub truncated : (node : ℕ) → Result (Unit {0}) × Inodes W → Option (Result ℕ × Inodes W)
  truncated node (ok u, s) = some (ok node, s)
  truncated node (err e, s) = do
    s1 ← inode_open_dec node s
    s2 ← inode_ref_dec node s1
    some (err e, s2)

  abbrev pub opened :
      (node : ℕ) → (truncate : Bool) → Result (Unit {0}) × Inodes W → Option (Result ℕ × Inodes W)
  opened node truncate (err e, s) = do s1 ← inode_ref_dec node s; some (err e, s1)
  opened node truncate (ok u, s) =
      let s1 = inode_open_inc node s in
      let cut = do
        assert (inode_check (ops.has_truncate node) node s1)
        truncated node (ops.vop_truncate node 0 s1)
      in if truncate then cut else some (ok node, s1)

  -- `vfs_open` from `assert(node != NULL)` on.
  unfoldable pub open_node : (node open_flags : ℕ) → Inodes W → Option (Result ℕ × Inodes W)
  unfolding inode_ref_dec inode_open_inc inode_open_dec
  open_node node open_flags s = do
    assert (not (node == 0))
    assert (inode_check (ops.has_open node) node s)
    opened node (o_trunc open_flags || o_creat open_flags) (ops.vop_open node open_flags s)

  -- The node that `vop_create` stored; its error is overwritten, and `stale` is what the variable `node` held before.
  abbrev pub created : (stale : ℕ) → Result ℕ → ℕ
  created stale (ok node) = node
  created stale (err e) = stale

  abbrev pub create_in :
      (stale open_flags : ℕ) → Result (ℕ × List ℕ) → Inodes W → Option (Result ℕ × Inodes W)
  create_in stale open_flags (err e) s = some (err e, s)
  create_in stale open_flags (ok (dir, name)) s =
      let (r, s1) = ops.vop_create dir name (o_excl open_flags) s in
      do assert (inode_check (ops.has_create dir) dir s); open_node (created stale r) open_flags s1

  -- What `vfs_open` does with the result of `vfs_lookup`.
  unfoldable pub open_found :
      (stale : ℕ)
      → (path : List ℕ) → (open_flags : ℕ) → Result ℕ
      → Inodes W
      → Option (Result ℕ × Inodes W)
  unfolding open_node vfs_lookup_parent
  open_found stale path open_flags (ok node) s =
      if o_excl open_flags && o_creat open_flags
      then some (err e_exists, s)
      else open_node node open_flags s
  open_found stale path open_flags (err e) s =
      let create_new = do (r, s1) ← vfs_lookup_parent path s; create_in stale open_flags r s1
      in if e == 16 && o_creat open_flags then create_new else some (err e, s)

  unfoldable pub vfs_open :
      (stale : ℕ) → (path : List ℕ) → (open_flags : ℕ) → Inodes W → Option (Result ℕ × Inodes W)
  unfolding open_found vfs_lookup
  vfs_open stale path open_flags s =
      let mode = bit_and open_flags 3 in
      let looked_up = do (r, s1) ← vfs_lookup path s; open_found stale path open_flags r s1
      in if mode == 3
        then some (err e_inval, s)
        else if o_trunc open_flags && mode == 0
        then some (err e_inval, s)
        else looked_up

  unfoldable pub vfs_close : (node : ℕ) → Inodes W → Option (Inodes W)
  unfolding inode_open_dec inode_ref_dec
  vfs_close node s = do s1 ← inode_open_dec node s; inode_ref_dec node s1
