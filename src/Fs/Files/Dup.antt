-- ===== src/Fs/Files/Dup.antt =====
-- What `dup_files` gives the new process.
use nku_os.Prelude.{
  ℕ, zero, suc, ◌+◌, ◌≤◌, ◌<◌, ◌≡◌, ◌≢◌, ◌∙◌, ◌⊎◌, refl, sym, ap, true, false, not, ◌&&◌, some, ltb,
  lt→ltb, ◌==◌, if◌then◌else◌, arith, Bool-cases, inl, inr,
}
use nku_os.Prelude.Partial.{if_true}
use nku_os.Fs.Vfs.{Vfs}
use nku_os.Fs.File.{Status, File, Files, set_file, is_init, is_opened, fd_array_dup, fd_array_open}
use nku_os.Fs.Files.{FilesStruct, dup_entry, dup_from, dup_files}

-- The entry `g` after `dup_files`, where `f` is the one to copy.
abbrev pub duplicate : File → File → File
duplicate f g =
    if is_opened f.status
    then record g {
      status = Status.fd_opened;
      open_count = g.open_count + 1;
      pos = f.pos;
      readable = f.readable;
      writable = f.writable;
      node = f.node;
    }
    else g

-- Counting references to an inode leaves the tables alone.
pub record Counting (W : Type 0) (v : Vfs (Files W)) : Type 0 where
  pub ref_inc : (node : ℕ) (s : Files W) → (v.vop_ref_inc node s).file ≡ s.file
  pub open_inc : (node : ℕ) (s : Files W) → (v.vop_open_inc node s).file ≡ s.file

plus_one : (a i : ℕ) → a + 1 + i ≡ a + suc i
plus_one a i = omega arith

-- An open entry has an inode.
abbrev pub HasNode : File → Type 0
HasNode f = (is_opened f.status ≡ false) ⊎ (f.node ≢ 0)

with_node : (f f' : File) → f ≡ f' → is_opened f'.status ≡ true → HasNode f' → f.node ≢ 0
with_node f f' e is_open (inl shut) = absurd (ground (arith, is_open, shut))
with_node f f' e is_open (inr ne) = λ h. ne (sym (ap (λ (x : File). x.node) e) ∙ h)

whole :
    (f f' g g' : File)
    → f ≡ f'
    → g ≡ record g' { status = Status.fd_init }
    → is_opened f'.status ≡ true
    → record g {
      node = f.node;
      status = Status.fd_opened;
      open_count = g.open_count + 1;
      pos = f.pos;
      readable = f.readable;
      writable = f.writable;
    }
      ≡ duplicate f' g'
whole f f' g g' e e' is_open = rw is_open (λ i. record (e' i) {
  node = (e i).node;
  status = Status.fd_opened;
  open_count = (e' i).open_count + 1;
  pos = (e i).pos;
  readable = (e i).readable;
  writable = (e i).writable;
})

module _ {W : Type 0} (nentry : ℕ) (v : Vfs (Files W))
    (vop_ref_dec : (node : ℕ) → Files W → Files W) (counting : Counting W v) where
  fd_array_open-run :
      (t : ℕ) (s : Files W)
      → (is_init (s.file t).status && not ((s.file t).node == 0)) ≡ true
      → fd_array_open nentry v t s
        ≡ some (
            set_file t
              (record (s.file t) {
                status = Status.fd_opened;
                open_count = (s.file t).open_count + 1;
              })
              s)
  unfolding fd_array_open
  fd_array_open-run t s h = rw h refl

  at_self : (t : ℕ) (g : File) (s : Files W) → (set_file t g s).file t ≡ g
  at_self t g s = let self : (t == t) ≡ true = ground arith in rw self refl

  at_other : (t k : ℕ) (g : File) (s : Files W) → k ≢ t → (set_file t g s).file k ≡ s.file k
  at_other t k g s ne = let other : (k == t) ≡ false = ground (arith, ne) in rw other refl

  -- The end of `fd_array_dup`, in a state whose entry is as the copies of the fields left it.
  open_copy :
      (t node : ℕ) (g : File) (s : Files W)
      → node ≢ 0
      → is_init g.status ≡ true
      → s.file t ≡ g
      → (s' : Files W) × (fd_array_open nentry v t
            (set_file t (record (s.file t) { node = node }) s)
          ≡ some s')
        × (s'.file t
            ≡ record g { node = node; status = Status.fd_opened; open_count = g.open_count + 1 })
        × ((k : ℕ) → k ≢ t → s'.file k ≡ s.file k)
  open_copy t node g s ne init e =
      let s3 = set_file t (record (s.file t) { node = node }) s in
      let entry : s3.file t ≡ record g { node = node } =
        at_self t (record (s.file t) { node = node }) s
        ∙ ap (λ (h : File). record h { node = node }) e in
      let there : (node == 0) ≡ false = ground (arith, ne) in
      let ready : (is_init (s3.file t).status && not ((s3.file t).node == 0)) ≡ true =
        rw entry (rw (init, there) refl) in
      let g' = record (s3.file t) {
        status = Status.fd_opened;
        open_count = (s3.file t).open_count + 1;
      } in
      (
        set_file t g' s3,
        fd_array_open-run t s3 ready,
        at_self t g' s3
            ∙ ap
                (λ (h : File). record h {
                  status = Status.fd_opened;
                  open_count = h.open_count + 1;
                })
                entry,
        λ k h. at_other t k g' s3 h ∙ at_other t k (record (s.file t) { node = node }) s h,
      )

  copy_entry :
      (t f : ℕ) (s : Files W)
      → t ≢ f
      → is_opened (s.file f).status ≡ true
      → is_init (s.file t).status ≡ true
      → (s.file f).node ≢ 0
      → (s' : Files W) × (fd_array_dup nentry v t f s ≡ some s')
        × (s'.file t ≡ record (s.file t) {
          node = (s.file f).node;
          status = Status.fd_opened;
          open_count = (s.file t).open_count + 1;
          pos = (s.file f).pos;
          readable = (s.file f).readable;
          writable = (s.file f).writable;
        })
        × ((k : ℕ) → k ≢ t → s'.file k ≡ s.file k)
  unfolding fd_array_dup
  copy_entry t f s ne is_open init node =
      let c = s.file f in
      let g = record (s.file t) { pos = c.pos; readable = c.readable; writable = c.writable } in
      let s1 = set_file t g s in
      let s2 = v.vop_open_inc c.node (v.vop_ref_inc c.node s1) in
      let same : s2.file ≡ s1.file =
        counting.open_inc c.node (v.vop_ref_inc c.node s1) ∙ counting.ref_inc c.node s1 in
      let entry : s2.file t ≡ g = ap (λ (h : ℕ → File). h t) same ∙ at_self t g s in
      let (s', run, at_t, elsewhere) = open_copy t c.node g s2 node init entry in
      (
        s',
        rw (init, is_open) run,
        at_t,
        λ k h. elsewhere k h ∙ (ap (λ (h' : ℕ → File). h' k) same ∙ at_other t k g s h),
      )

  dup_entry-duplicate :
      (t f : ℕ) (s : Files W)
      → t ≢ f
      → HasNode (s.file f)
      → (s' : Files W) × (dup_entry nentry v vop_ref_dec t f s ≡ some s')
        × (s'.file t ≡ duplicate (s.file f) (s.file t))
        × ((k : ℕ) → k ≢ t → s'.file k ≡ s.file k)
  unfolding dup_entry
  dup_entry-duplicate t f s ne node = elim (Bool-cases (is_opened (s.file f).status)) [
    | inl is_open ↦
        let g = record (s.file t) { status = Status.fd_init } in
        let s0 = set_file t g s in
        let from_same : s0.file f ≡ s.file f = at_other t f g s (λ h. ne (sym h)) in
        let to_same : s0.file t ≡ g = at_self t g s in
        let init : is_init (s0.file t).status ≡ true =
          ap (λ (h : File). is_init h.status) to_same in
        let open0 : is_opened (s0.file f).status ≡ true =
          ap (λ (h : File). is_opened h.status) from_same ∙ is_open in
        let (s', run, at_t, elsewhere) =
          copy_entry t f s0 ne open0 init
            (with_node (s0.file f) (s.file f) from_same is_open node) in
        (
          s',
          if_true (is_opened (s.file f).status) (fd_array_dup nentry v t f s0) (some s) is_open
              ∙ run,
          at_t ∙ (whole (s0.file f) (s.file f) (s0.file t) (s.file t) from_same to_same is_open),
          λ k h. elsewhere k h ∙ at_other t k g s h,
        )
    | inr shut ↦ (s, rw shut refl, rw shut refl, λ k h. refl)
  ]

  all_copies :
      (n t f : ℕ) (s s1 s2 : Files W)
      → f + suc n ≤ t
      → s1.file t ≡ duplicate (s.file f) (s.file t)
      → ((k : ℕ) → k ≢ t → s1.file k ≡ s.file k)
      → ((i : ℕ)
          → i < n
          → s2.file (t + 1 + i) ≡ duplicate (s1.file (f + 1 + i)) (s1.file (t + 1 + i)))
      → ((k : ℕ) → k < t + 1 → s2.file k ≡ s1.file k)
      → (i : ℕ) → i < suc n
      → s2.file (t + i) ≡ duplicate (s.file (f + i)) (s.file (t + i))
  all_copies n t f s s1 s2 apart at_t elsewhere copies below zero h =
      let zt : t + 0 ≡ t = omega arith in
      let zf : f + 0 ≡ f = omega arith in
      ap s2.file zt
      ∙ (below t (omega arith) ∙ (at_t ∙ (λ j. duplicate (s.file (sym zf j)) (s.file (sym zt j)))))
  all_copies n t f s s1 s2 apart at_t elsewhere copies below (suc i) h =
      let e1 = elsewhere (f + 1 + i) (omega (arith, apart, h)) in
      let e2 = elsewhere (t + 1 + i) (omega arith) in
      let c = copies i (omega (arith, h)) in
      ap s2.file (sym (plus_one t i))
      ∙ (c
          ∙ ((λ j. duplicate (e1 j) (e2 j))
              ∙ (λ j. duplicate (s.file (plus_one f i j)) (s.file (plus_one t i j)))))

  dup_from-duplicate :
      (n t f : ℕ) (s : Files W)
      → f + n ≤ t
      → ((i : ℕ) → i < n → HasNode (s.file (f + i)))
      → (s' : Files W) × (dup_from nentry v vop_ref_dec n t f s ≡ some s')
        × ((i : ℕ) → i < n → s'.file (t + i) ≡ duplicate (s.file (f + i)) (s.file (t + i)))
        × ((k : ℕ) → k < t → s'.file k ≡ s.file k)
  unfolding dup_from
  dup_from-duplicate zero t f s apart node =
      (s, refl, (λ i h. absurd (omega (arith, h))), λ k h. refl)
  dup_from-duplicate (suc n) t f s apart node =
      let z : f + 0 ≡ f = omega arith in
      let first : HasNode (s.file f) = rw z at (node 0 (omega arith)) in
      let (s1, run, at_t, elsewhere) = dup_entry-duplicate t f s (omega (arith, apart)) first in
      let nodes : (i : ℕ) → i < n → HasNode (s1.file (f + 1 + i)) = λ i h.
        rw (elsewhere (f + 1 + i) (omega (arith, apart, h)), plus_one f i)
          (node (suc i) (omega (arith, h))) in
      let (s2, run', copies, below) =
        dup_from-duplicate n (t + 1) (f + 1) s1 (omega (arith, apart)) nodes in
      (
        s2,
        rw run run',
        all_copies n t f s s1 s2 (omega (arith, apart)) at_t elsewhere copies below,
        λ k h. below k (omega (arith, h)) ∙ elsewhere k (omega (arith, h)),
      )

  -- `dup_files` of a table whose open entries have inodes, into another table behind it, fails no assertion. Each entry of
  -- the new table is open with the inode, position and modes of the old one if that is open, and as it was
  -- otherwise; the old table stays as it is, and the new process has the same current directory.
  pub dup_files-duplicate :
      (to from : FilesStruct) (s : Files W)
      → to.files_count ≡ 0
      → 0 < from.files_count
      → from.fd_array + nentry ≤ to.fd_array
      → ((i : ℕ) → i < nentry → HasNode (s.file (from.fd_array + i)))
      → (to' : FilesStruct) × (s' : Files W) × (dup_files nentry v vop_ref_dec to from s
          ≡ some (to', s'))
        × (to'.pwd ≡ from.pwd)
        × ((i : ℕ)
            → i < nentry
            → s'.file (to.fd_array + i)
              ≡ duplicate (s.file (from.fd_array + i)) (s.file (to.fd_array + i)))
        × ((k : ℕ) → k < to.fd_array → s'.file k ≡ s.file k)
  unfolding dup_files
  dup_files-duplicate to from s new used apart node =
      let s1 = if not (from.pwd == 0) then v.vop_ref_inc from.pwd s else s in
      let same : s1.file ≡ s.file = referred from.pwd s in
      let tests : ((to.files_count == 0) && ltb 0 from.files_count) ≡ true =
        rw (new, lt→ltb 0 from.files_count used) refl in
      let (s2, run, copies, below) =
        dup_from-duplicate nentry to.fd_array from.fd_array s1 apart
          (λ i h. rw (ap (λ (g : ℕ → File). g (from.fd_array + i)) same) (node i h)) in
      (
        record to { pwd = from.pwd },
        s2,
        rw (tests, run) refl,
        refl,
        λ i h.
            copies i h ∙ (λ j. duplicate (same j (from.fd_array + i)) (same j (to.fd_array + i))),
        λ k h. below k h ∙ (λ j. same j k),
      )
    where
      referred :
          (pwd : ℕ) (s : Files W)
          → (if not (pwd == 0) then v.vop_ref_inc pwd s else s).file ≡ s.file
      referred pwd s = elim (Bool-cases (pwd == 0)) [
        | inl e ↦ rw e refl
        | inr e ↦ rw e (counting.ref_inc pwd s)
      ]
