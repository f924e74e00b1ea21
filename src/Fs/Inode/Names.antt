-- ===== src/Fs/Inode/Names.antt =====
-- The reference counts that the lookup of a name leaves behind.
use Prim.Native.Nat.{bit_and}
use nku_os.Prelude.{
  ℕ, ◌+◌, ◌-◌, ◌<◌, ◌≤◌, ◌≡◌, ◌≢◌, ◌⊎◌, subst, refl, Bool, true, false, Option, some, List, [], ◌∷◌,
  lt→ltb, ◌==◌, if◌then◌else◌, arith, Bool-cases, inl, inr,
}
use nku_os.Prelude.Partial.{◌>>=◌}
use nku_os.Fs.Vfs.{Result, ok, err}
use nku_os.Fs.Inode.{
  Inodes, InodeOps, Mark, no_mark, colon, slash, find_mark, skip_slashes, inode_ref_inc,
  inode_ref_dec, set_ref, vfs_get_curdir, vfs_get_bootfs, with_subpath, root_of_curdir,
  get_device_at, get_device, lookup_from, vfs_lookup, inode_check, max_inode_count, o_trunc,
}

-- `s'` has `r` references of node `n` more than `s`, and `o` opens.
abbrev pub Counts : {W : Type 0} → Inodes W → Inodes W → (n r o : ℕ) → Type 0
Counts s s' n r o =
    ((k : ℕ) → s'.ref_count k ≡ (if k == n then s.ref_count k + r else s.ref_count k))
    × ((k : ℕ) → s'.open_count k ≡ (if k == n then s.open_count k + o else s.open_count k))

-- The same counts.
abbrev pub Same : {W : Type 0} → Inodes W → Inodes W → Type 0
Same s s' = Counts s s' 0 0 0

-- A node is returned with a new reference to it, an error with none.
abbrev pub Balanced : {W : Type 0} → Inodes W → Result ℕ × Inodes W → Type 0
Balanced s (ok n, s') = (n ≢ 0) × Counts s s' n 1 0
Balanced s (err e, s') = Same s s'

-- Where names can be looked up: no node has more opens than references, and three more references stay below the
-- bound; a node without references has `vop_reclaim`; the current directory lies in a file system, and it and the root of
-- the boot file system have `vop_lookup`.
pub record CanOpen (W : Type 0) (ops : InodeOps (Inodes W)) (s : Inodes W) : Type 0 where
  pub counted : (node : ℕ) → s.open_count node ≤ s.ref_count node
  pub room : (node : ℕ) → s.ref_count node + 3 < max_inode_count
  pub reclaims : (node : ℕ) → node ≢ 0 → s.ref_count node ≡ 0 → ops.has_reclaim node ≡ true
  pub pwd : s.pwd ≢ 0 → (ops.has_lookup s.pwd ≡ true) × (ops.in_fs s.pwd ≡ true)
  pub bootfs : s.bootfs_node ≢ 0 → ops.has_lookup s.bootfs_node ≡ true

-- The file systems hand out a node with a reference to it, and change no count otherwise. A node whose `vop_open` accepts
-- `O_TRUNC` for writing has `vop_truncate`, and roots of file systems and devices have `vop_lookup`.
pub record InodeLaws (W : Type 0) (ops : InodeOps (Inodes W)) : Type 0 where
  pub reclaim : (node : ℕ) (s : Inodes W) → Same s (ops.vop_reclaim node s)
  pub opens : (node open_flags : ℕ) (s : Inodes W) → Same s (ops.vop_open node open_flags s).1
  pub close : (node : ℕ) (s : Inodes W) → Same s (ops.vop_close node s)
  pub truncate : (node len : ℕ) (s : Inodes W) → Same s (ops.vop_truncate node len s).1
  pub lookup : (node : ℕ) (path : List ℕ) (s : Inodes W) → Balanced s (ops.vop_lookup node path s)
  pub fs_root :
      (node : ℕ) (s : Inodes W)
      → Balanced s (ok (ops.fsop_get_root node s).0, (ops.fsop_get_root node s).1)
  pub device : (devname : List ℕ) (s : Inodes W) → Balanced s (ops.vfs_get_root devname s)
  pub can_open : (node : ℕ) → ops.has_open node ≡ true
  pub can_close : (node : ℕ) → ops.has_close node ≡ true
  pub can_truncate :
      (node open_flags : ℕ) (s : Inodes W)
      → (ops.vop_open node open_flags s).0 ≡ ok tt
      → o_trunc open_flags ≡ true
      → bit_and open_flags 3 == 0 ≡ false
      → ops.has_truncate node ≡ true
  pub fs_root_lookup :
      (node : ℕ) (s : Inodes W) → ops.has_lookup (ops.fsop_get_root node s).0 ≡ true
  pub device_lookup :
      (devname : List ℕ) (s : Inodes W) (node : ℕ)
      → (ops.vfs_get_root devname s).0 ≡ ok node
      → ops.has_lookup node ≡ true

module _ {W : Type 0} where
  pub Counts-Same :
      (s s1 s2 : Inodes W) (n r o : ℕ) → Counts s s1 n r o → Same s1 s2 → Counts s s2 n r o
  Counts-Same s s1 s2 n r o c d =
      ((λ k. ground (arith, c.0 k, d.0 k)), (λ k. ground (arith, c.1 k, d.1 k)))

  pub Same-refl : (s : Inodes W) → Same s s
  Same-refl s = ((λ k. ground arith), (λ k. ground arith))

pub inode_check_lem :
    {W : Type 0}
    → (has_op : Bool) (node : ℕ) (s : Inodes W) → node ≢ 0
    → has_op ≡ true
    → s.open_count node ≤ s.ref_count node
    → s.ref_count node < max_inode_count
    → inode_check has_op node s ≡ true
unfolding inode_check
inode_check_lem has_op node s ne has counted room = rw has (ground (arith, ne, counted, room))

module _ {W : Type 0} (ops : InodeOps (Inodes W)) (laws : InodeLaws W ops) where
  -- Counts that are off by one reference of `node` are right when it is given back.
  pub inode_ref_dec-Counts :
      (s s1 : Inodes W) (node n r o : ℕ)
      → CanOpen W ops s
      → node ≢ 0
      → o ≤ r
      → 0 < s1.ref_count node
      → ((k : ℕ)
          → s1.ref_count k
            ≡ (if k == node then 1 else 0) + (if k == n then s.ref_count k + r else s.ref_count k))
      → ((k : ℕ) → s1.open_count k ≡ (if k == n then s.open_count k + o else s.open_count k))
      → (s2 : Inodes W) × (inode_ref_dec ops node s1 ≡ some s2) × Counts s s2 n r o
  unfolding inode_ref_dec
  inode_ref_dec-Counts s s1 node n r o can ne le pos refs opens =
      let t = set_ref ops node (s1.ref_count node - 1) s1 in
      let c : Counts s t n r o = ((λ k. ground (arith, refs k)), opens) in
      elim (Bool-cases (t.ref_count node == 0)) [
        | inl last ↦ (
          ops.vop_reclaim node t,
          rw (lt→ltb 0 (s1.ref_count node) pos, last, checked last) refl,
          Counts-Same s t (ops.vop_reclaim node t) n r o c (laws.reclaim node t),
        )
        | inr more ↦ (t, rw (lt→ltb 0 (s1.ref_count node) pos, more) refl, c)
      ]
    where
      checked :
          let t = set_ref ops node (s1.ref_count node - 1) s1 in
          (t.ref_count node == 0) ≡ true → inode_check (ops.has_reclaim node) node t ≡ true
      checked last =
          let t = set_ref ops node (s1.ref_count node - 1) s1 in
          let none_left : s.ref_count node ≡ 0 = ground (arith, last, refs node) in
          inode_check_lem (ops.has_reclaim node) node t ne (can.reclaims node ne none_left)
            (ground (arith, last, refs node, opens node, le, can.counted node))
            (ground (arith, last))

  inode_ref_inc-Counts : (s : Inodes W) (node : ℕ) → Counts s (inode_ref_inc ops node s) node 1 0
  unfolding inode_ref_inc
  inode_ref_inc-Counts s node = ((λ k. ground arith), (λ k. ground arith))

  -- A node and a rest of the path with a reference to the node, or an error.
  abbrev pub Device : Inodes W → Option (Result (ℕ × List ℕ) × Inodes W) → Type 0
  Device s r =
      (node : ℕ) × (path : List ℕ) × (s' : Inodes W) × (r ≡ some (ok (node, path), s'))
      × (node ≢ 0)
      × (ops.has_lookup node ≡ true)
      × Counts s s' node 1 0

  abbrev pub Failed : Inodes W → Option (Result (ℕ × List ℕ) × Inodes W) → Type 0
  Failed s r = (e : ℕ) × (s' : Inodes W) × (r ≡ some (err e, s')) × Same s s'

  vfs_get_curdir-Balanced : (s : Inodes W) → Balanced s (vfs_get_curdir ops s)
  unfolding vfs_get_curdir
  vfs_get_curdir-Balanced s = elim (Bool-cases (s.pwd == 0)) [
    | inl none_set ↦ rw none_set (Same-refl s)
    | inr one ↦ rw one (ground (arith, one), inode_ref_inc-Counts s s.pwd)
  ]

  vfs_get_bootfs-Balanced : (s : Inodes W) → Balanced s (vfs_get_bootfs ops s)
  unfolding vfs_get_bootfs
  vfs_get_bootfs-Balanced s = elim (Bool-cases (s.bootfs_node == 0)) [
    | inl none_set ↦ rw none_set (Same-refl s)
    | inr one ↦ rw one (ground (arith, one), inode_ref_inc-Counts s s.bootfs_node)
  ]

  with_subpath-Device :
      (s : Inodes W) (path : List ℕ) (r : Result ℕ × Inodes W)
      → Balanced s r
      → ((node : ℕ) → r.0 ≡ ok node → ops.has_lookup node ≡ true)
      → Failed s (with_subpath ops path r) ⊎ Device s (with_subpath ops path r)
  with_subpath-Device s path (ok node, s') b has =
      inr (node, path, s', refl, b.0, has node refl, b.1)
  with_subpath-Device s path (err e, s') b has = inl (e, s', refl, b)

  root_of_curdir-Device :
      (s : Inodes W) (path : List ℕ) (r : Result ℕ × Inodes W)
      → CanOpen W ops s
      → Balanced s r
      → ((node : ℕ) → r.0 ≡ ok node → ops.in_fs node ≡ true)
      → Failed s (root_of_curdir ops path r) ⊎ Device s (root_of_curdir ops path r)
  root_of_curdir-Device s path (err e, s') can b fs = inl (e, s', refl, b)
  root_of_curdir-Device s path (ok node, s') can b fs =
      let root = (ops.fsop_get_root node s').0 in
      let s1 = (ops.fsop_get_root node s').1 in
      let l = laws.fs_root node s' in
      let (s2, run, c) =
        inode_ref_dec-Counts s s1 node root 1 0 can b.0 (omega arith)
          (ground (arith, l.1.0 node, b.1.0 node)) (λ k. ground (arith, l.1.0 k, b.1.0 k))
          (λ k. ground (arith, l.1.1 k, b.1.1 k)) in
      inr (root, path, s2, rw (fs node refl, run) refl, l.0, laws.fs_root_lookup node s', c)

  curdir :
      (s : Inodes W)
      → CanOpen W ops s
      → (node : ℕ) → (vfs_get_curdir ops s).0 ≡ ok node
      → (ops.has_lookup node ≡ true) × (ops.in_fs node ≡ true)
  unfolding vfs_get_curdir
  curdir s can node = elim (Bool-cases (s.pwd == 0)) [
    | inl none_set ↦ rw none_set (λ e. cc)
    | inr one ↦ rw one (λ e.
        let same : s.pwd ≡ node = cc in
        let set : s.pwd ≢ 0 = ground (arith, one) in
        subst (λ n. (ops.has_lookup n ≡ true) × (ops.in_fs n ≡ true)) same (can.pwd set))
  ]

  boot :
      (s : Inodes W)
      → CanOpen W ops s
      → (node : ℕ) → (vfs_get_bootfs ops s).0 ≡ ok node
      → ops.has_lookup node ≡ true
  unfolding vfs_get_bootfs
  boot s can node = elim (Bool-cases (s.bootfs_node == 0)) [
    | inl none_set ↦ rw none_set (λ e. cc)
    | inr one ↦ rw one (λ e.
        let same : s.bootfs_node ≡ node = cc in
        let set : s.bootfs_node ≢ 0 = ground (arith, one) in
        subst (λ n. ops.has_lookup n ≡ true) same (can.bootfs set))
  ]

  get_device_at-Device :
      (mark : Mark) (path : List ℕ) (s : Inodes W)
      → CanOpen W ops s
      → Failed s (get_device_at ops mark path s) ⊎ Device s (get_device_at ops mark path s)
  get_device_at-Device no_mark path s can =
      with_subpath-Device s path (vfs_get_curdir ops s) (vfs_get_curdir-Balanced s)
        (λ node e. (curdir s can node e).0)
  get_device_at-Device (slash (c ∷ before) after) path s can =
      with_subpath-Device s path (vfs_get_curdir ops s) (vfs_get_curdir-Balanced s)
        (λ node e. (curdir s can node e).0)
  get_device_at-Device (colon (c ∷ before) after) path s can =
      with_subpath-Device s (skip_slashes after) (ops.vfs_get_root (c ∷ before) s)
        (laws.device (c ∷ before) s) (laws.device_lookup (c ∷ before) s)
  get_device_at-Device (slash [] after) path s can =
      with_subpath-Device s (skip_slashes after) (vfs_get_bootfs ops s) (vfs_get_bootfs-Balanced s)
        (boot s can)
  get_device_at-Device (colon [] after) path s can =
      root_of_curdir-Device s (skip_slashes after) (vfs_get_curdir ops s) can
        (vfs_get_curdir-Balanced s) (λ node e. (curdir s can node e).1)

  lookup_from-Balanced :
      (s s1 : Inodes W) (node : ℕ) (path : List ℕ)
      → CanOpen W ops s
      → node ≢ 0
      → ops.has_lookup node ≡ true
      → Counts s s1 node 1 0
      → (r : Result ℕ × Inodes W) × (lookup_from ops (ok (node, path)) s1 ≡ some r) × Balanced s r
  lookup_from-Balanced s s1 node [] can ne has c = ((ok node, s1), refl, (ne, c))
  lookup_from-Balanced s s1 node (x ∷ path) can ne has c =
      let checked =
        inode_check_lem (ops.has_lookup node) node s1 ne has
          (ground (arith, c.0 node, c.1 node, can.counted node))
          (ground (arith, c.0 node, can.room node)) in
      rw checked (go (ops.vop_lookup node (x ∷ path) s1) (laws.lookup node (x ∷ path) s1))
    where
      go :
          (r : Result ℕ × Inodes W)
          → Balanced s1 r
          → (r' : Result ℕ × Inodes W) × ((do s2 ← inode_ref_dec ops node r.1; some (r.0, s2))
              ≡ some r')
            × Balanced s r'
      go (ok m, s2) b =
          let (s3, run, d) =
            inode_ref_dec-Counts s s2 node m 1 0 can ne (omega arith)
              (ground (arith, b.1.0 node, c.0 node)) (λ k. ground (arith, b.1.0 k, c.0 k))
              (λ k. ground (arith, b.1.1 k, c.1 k)) in
          ((ok m, s3), rw run refl, (b.0, d))
      go (err e, s2) b =
          let (s3, run, d) =
            inode_ref_dec-Counts s s2 node 0 0 0 can ne (omega arith)
              (ground (arith, b.0 node, c.0 node)) (λ k. ground (arith, b.0 k, c.0 k))
              (λ k. ground (arith, b.1 k, c.1 k)) in
          ((err e, s3), rw run refl, d)

  -- If the file systems hand out nodes with a reference to them, so does `vfs_lookup` from a state where names can be looked
  -- up, for every form of path: it fails no assertion of inode.c or vfslookup.c, a node that it finds has one reference more than before, and no other count has changed; on an error none has.
  pub vfs_lookup-Balanced :
      (path : List ℕ) (s : Inodes W)
      → CanOpen W ops s
      → (r : Result ℕ × Inodes W) × (vfs_lookup ops path s ≡ some r) × Balanced s r
  unfolding vfs_lookup get_device
  vfs_lookup-Balanced path s can = elim (get_device_at-Device (find_mark path) path s can) [
    | inl (e, s', run, same) ↦ ((err e, s'), rw run refl, same)
    | inr (node, rest, s', run, ne, has, c) ↦
        let (r, run', b) = lookup_from-Balanced s s' node rest can ne has c in (r, rw run run', b)
  ]
