-- ===== src/Fs/Inode/Open.antt =====
-- The reference and open counts after vfs_open and vfs_close.
use nku_os.Prelude.{
  ℕ, ◌+◌, ◌-◌, ◌<◌, ◌≤◌, ◌≡◌, ◌≢◌, ◌∙◌, refl, sym, Bool, true, false, ◌&&◌, ◌||◌, Option, none,
  some, List, lt→ltb, ◌==◌, arith, Bool-cases, inl, inr,
}
use mathlib.Core.Path.{subst}
use Prim.Native.Nat.{bit_and}
use nku_os.Errors.{e_inval, e_exists}
use nku_os.Fs.Vfs.{Result, ok, err}
use nku_os.Fs.Inode.{
  Inodes, InodeOps, inode_ref_dec, inode_open_inc, inode_open_dec, set_open, vfs_lookup, truncated,
  opened, open_node, open_found, vfs_open, vfs_close, o_creat, o_excl, o_trunc,
}
use nku_os.Fs.Inode.Names.{
  Counts, Same, Balanced, InodeLaws, Counts-Same, Same-refl, inode_ref_dec-Counts,
  vfs_lookup-Balanced, CanOpen, inode_check_lem,
}

and_false : (b : Bool) → (b && false) ≡ false
and_false true = refl
and_false false = refl

-- An open node has a reference and an open more than before; an error changes no count.
abbrev pub Opened : {W : Type 0} → Inodes W → Result ℕ × Inodes W → Type 0
Opened s (ok n, s') = (n ≢ 0) × Counts s s' n 1 1
Opened s (err e, s') = Same s s'

module _ {W : Type 0} (ops : InodeOps (Inodes W)) where
  -- Closing the node of an open that succeeded; after one that failed there is nothing to close.
  abbrev pub close_opened : Result ℕ × Inodes W → Option (Inodes W)
  close_opened (ok n, s) = vfs_close ops n s
  close_opened (err e, s) = some s

abbrev BalancedIf : {W : Type 0} → Inodes W → Option (Result ℕ × Inodes W) → Type 0
BalancedIf s none = Unit {0}
BalancedIf s (some r) = Balanced s r

module _ {W : Type 0} (ops : InodeOps (Inodes W)) (laws : InodeLaws W ops) where
  inode_open_dec-Counts :
      (s s1 : Inodes W) (n r : ℕ)
      → CanOpen W ops s
      → n ≢ 0
      → r ≤ 3
      → Counts s s1 n r 1
      → (s2 : Inodes W) × (inode_open_dec ops n s1 ≡ some s2) × Counts s s2 n r 0
  unfolding inode_open_dec
  inode_open_dec-Counts s s1 n r can ne few c =
      let t = set_open ops n (s1.open_count n - 1) s1 in
      let pos : 0 < s1.open_count n = ground (arith, c.1 n) in
      let d : Counts s t n r 0 = (c.0, (λ k. ground (arith, c.1 k))) in
      let checked =
        inode_check_lem (ops.has_close n) n t ne (laws.can_close n)
          (ground (arith, c.0 n, c.1 n, can.counted n)) (ground (arith, c.0 n, few, can.room n)) in
      elim (Bool-cases (t.open_count n == 0)) [
        | inl last ↦ (
          ops.vop_close n t,
          rw (lt→ltb 0 (s1.open_count n) pos, last, checked) refl,
          Counts-Same s t (ops.vop_close n t) n r 0 d (laws.close n t),
        )
        | inr more ↦ (t, rw (lt→ltb 0 (s1.open_count n) pos, more) refl, d)
      ]

  -- The last reference that an open took is given back.
  drop_reference :
      (s s1 : Inodes W) (n : ℕ)
      → CanOpen W ops s
      → n ≢ 0
      → Counts s s1 n 1 0
      → (s2 : Inodes W) × (inode_ref_dec ops n s1 ≡ some s2) × Same s s2
  drop_reference s s1 n can ne c =
      inode_ref_dec-Counts ops laws s s1 n 0 0 0 can ne (omega arith) (ground (arith, c.0 n))
        (λ k. ground (arith, c.0 k)) (λ k. ground (arith, c.1 k))

  inode_open_inc-Counts :
      (s s1 : Inodes W) (n : ℕ) → Counts s s1 n 1 0 → Counts s (inode_open_inc ops n s1) n 1 1
  unfolding inode_open_inc
  inode_open_inc-Counts s s1 n c = (c.0, (λ k. ground (arith, c.1 k)))

  abbrev Opens : Inodes W → Option (Result ℕ × Inodes W) → Type 0
  Opens s r = (r' : Result ℕ × Inodes W) × (r ≡ some r') × Opened s r'

  truncated-Opened :
      (s : Inodes W) (n : ℕ) (r : Result (Unit {0}) × Inodes W)
      → CanOpen W ops s
      → n ≢ 0
      → Counts s r.1 n 1 1
      → Opens s (truncated ops n r)
  truncated-Opened s n (ok u, s1) can ne c = ((ok n, s1), refl, (ne, c))
  truncated-Opened s n (err e, s1) can ne c =
      let (s2, run, d) = inode_open_dec-Counts s s1 n 1 can ne (omega arith) c in
      let (s3, run', same) = drop_reference s s2 n can ne d in
      ((err e, s3), rw (run, run') refl, same)

  opened-Opened :
      (s : Inodes W) (n : ℕ) (truncate : Bool) (r : Result (Unit {0}) × Inodes W)
      → CanOpen W ops s
      → n ≢ 0
      → (r.0 ≡ ok tt → truncate ≡ true → ops.has_truncate n ≡ true)
      → Counts s r.1 n 1 0
      → Opens s (opened ops n truncate r)
  opened-Opened s n truncate (err e, s1) can ne has c =
      let (s2, run, same) = drop_reference s s1 n can ne c in ((err e, s2), rw run refl, same)
  opened-Opened s n false (ok u, s1) can ne has c =
      ((ok n, inode_open_inc ops n s1), refl, (ne, inode_open_inc-Counts s s1 n c))
  opened-Opened s n true (ok u, s1) can ne has c =
      let t = inode_open_inc ops n s1 in
      let d = inode_open_inc-Counts s s1 n c in
      let checked =
        inode_check_lem (ops.has_truncate n) n t ne (has refl refl)
          (ground (arith, d.0 n, d.1 n, can.counted n)) (ground (arith, d.0 n, can.room n)) in
      rw checked (
        truncated-Opened s n (ops.vop_truncate n 0 t) can ne
          (Counts-Same s t (ops.vop_truncate n 0 t).1 n 1 1 d (laws.truncate n 0 t)))

  truncates :
      (trunc creat reads : Bool)
      → creat ≡ false
      → (trunc && reads) ≡ false
      → (trunc || creat) ≡ true
      → (trunc ≡ true) × (reads ≡ false)
  truncates true creat reads old mode cut = (refl, mode)
  truncates false creat reads old mode cut = cc (old, cut)

  open_node-Opened :
      (s s1 : Inodes W) (n open_flags : ℕ)
      → CanOpen W ops s
      → o_creat open_flags ≡ false
      → (o_trunc open_flags && bit_and open_flags 3 == 0) ≡ false
      → n ≢ 0
      → Counts s s1 n 1 0
      → Opens s (open_node ops n open_flags s1)
  unfolding open_node
  open_node-Opened s s1 n open_flags can old mode ne c =
      let there : (n == 0) ≡ false = ground (arith, ne) in
      let checked =
        inode_check_lem (ops.has_open n) n s1 ne (laws.can_open n)
          (ground (arith, c.0 n, c.1 n, can.counted n)) (ground (arith, c.0 n, can.room n)) in
      rw (checked, there)
        (opened-Opened s n (o_trunc open_flags || o_creat open_flags) (ops.vop_open n open_flags s1)
          can ne
          (λ e cut.
            let (trunc, writes) =
              truncates (o_trunc open_flags) (o_creat open_flags) _ old mode cut in
            laws.can_truncate n open_flags s1 e trunc writes)
          (Counts-Same s s1 (ops.vop_open n open_flags s1).1 n 1 0 c (laws.opens n open_flags s1)))

  open_found-Opened :
      (stale : ℕ) (path : List ℕ) (open_flags : ℕ) (s : Inodes W) (r : Result ℕ × Inodes W)
      → CanOpen W ops s
      → o_creat open_flags ≡ false
      → (o_trunc open_flags && bit_and open_flags 3 == 0) ≡ false
      → Balanced s r
      → Opens s (open_found ops stale path open_flags r.0 r.1)
  unfolding open_found
  open_found-Opened stale path open_flags s (ok n, s1) can old mode b =
      let f : (o_excl open_flags && o_creat open_flags) ≡ false =
        rw old (and_false (o_excl open_flags)) in
      rw f (open_node-Opened s s1 n open_flags can old mode b.0 b.1)
  open_found-Opened stale path open_flags s (err e, s1) can old mode b =
      let f : (e == 16 && o_creat open_flags) ≡ false = rw old (and_false (e == 16)) in
      rw f ((err e, s1), refl, b)

  vfs_open-Opens :
      (stale : ℕ) (path : List ℕ) (open_flags : ℕ) (s : Inodes W)
      → CanOpen W ops s
      → o_creat open_flags ≡ false
      → Opens s (vfs_open ops stale path open_flags s)
  unfolding vfs_open
  vfs_open-Opens stale path open_flags s can old =
      let (r, run, b) = vfs_lookup-Balanced ops laws path s can in
      elim (Bool-cases (bit_and open_flags 3 == 3)) [
        | inl bad ↦ rw bad ((err e_inval, s), refl, Same-refl s)
        | inr mode ↦ elim (Bool-cases (o_trunc open_flags && bit_and open_flags 3 == 0)) [
          | inl bad ↦ rw (mode, bad) ((err e_inval, s), refl, Same-refl s)
          | inr good ↦
              rw (mode, good, run) (open_found-Opened stale path open_flags s r can old good b)
        ]
      ]

  close_opened-Same :
      (s : Inodes W) (r : Result ℕ × Inodes W)
      → CanOpen W ops s
      → Opened s r
      → (s' : Inodes W) × (close_opened ops r ≡ some s') × Same s s'
  unfolding vfs_close
  close_opened-Same s (ok n, s1) can o =
      let (s2, run, d) = inode_open_dec-Counts s s1 n 1 can o.0 (omega arith) o.1 in
      let (s3, run', same) = drop_reference s s2 n can o.0 d in (s3, rw (run, run') refl, same)
  close_opened-Same s (err e, s1) can o = (s1, refl, o)

  -- Let the file systems hand out references and keep the counts otherwise, nodes have the operations that they are asked for,
  -- each node have at most as many opens as references and room for three more references below `MAX_INODE_COUNT`, and the current
  -- directory lie in a file system. Then an open without `O_CREAT` fails no assertion of inode.c, vfslookup.c or vfsfile.c,
  -- whatever the path and the other flags: `inode_check` holds before each operation. A node that it returns has one
  -- reference and one open more than before; an error, also one of `vop_open` or `vop_truncate`, leaves all counts as they
  -- were. Closing the node gives back both.
  pub vfs_open-Opened :
      (stale : ℕ) (path : List ℕ) (open_flags : ℕ) (s : Inodes W)
      → CanOpen W ops s
      → o_creat open_flags ≡ false
      → (r : Result ℕ × Inodes W) × (s' : Inodes W) × (vfs_open ops stale path open_flags s
          ≡ some r)
        × Opened s r
        × (close_opened ops r ≡ some s')
        × Same s s'
  vfs_open-Opened stale path open_flags s can old =
      let (r, run, o) = vfs_open-Opens stale path open_flags s can old in
      let (s', run', same) = close_opened-Same s r can o in (r, s', run, o, run', same)

  -- An open with `O_CREAT` and `O_EXCL` of a name that exists returns `-E_EXISTS`, but keeps the reference that
  -- `vfs_lookup` took: the node has one more than before, and the caller gets no node to close.
  pub vfs_open-leaks :
      (stale : ℕ) (path : List ℕ) (open_flags : ℕ) (s : Inodes W) (n : ℕ) (s1 : Inodes W)
      → CanOpen W ops s
      → bit_and open_flags 3 == 3 ≡ false
      → (o_trunc open_flags && bit_and open_flags 3 == 0) ≡ false
      → o_creat open_flags ≡ true
      → o_excl open_flags ≡ true
      → vfs_lookup ops path s ≡ some (ok n, s1)
      → (vfs_open ops stale path open_flags s ≡ some (err e_exists, s1))
        × (s1.ref_count n ≡ s.ref_count n + 1)
  unfolding vfs_open open_found
  vfs_open-leaks stale path open_flags s n s1 can mode trunc creat excl found =
      let (r, run, b) = vfs_lookup-Balanced ops laws path s can in
      let b' : BalancedIf s (some (ok n, s1)) = subst (λ o. BalancedIf s o) (sym run ∙ found) b in
      (rw (mode, trunc, found, creat, excl) refl, ground (arith, b'.1.0 n))
