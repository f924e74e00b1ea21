-- ===== src/Process/Resources/Shares.antt =====
-- Which memory and files the processes have after a fork and after an exit.
use nku_os.Prelude.{
  ℕ, ◌+◌, ◌-◌, ◌%◌, ◌^◌, ◌≡◌, ◌≢◌, ◌∙◌, ap, sym, subst, refl, Bool, true, false, ◌&&◌, Option, none,
  some, ◌==◌, if◌then◌else◌, arith, Bool-cases, inl, inr,
}
use nku_os.Process.Resources.{
  Resources, Grants, drop_files, put_files, drop_mm, release, good_files_struct, dup_new_files,
  copy_files, dup_new_mm, copy_old, copy_mm, cleanup_fs, then_mm, copy_all,
}

-- No assertion of `files_destroy` has failed.
abbrev pub IsQuiet : Resources → Type 0
IsQuiet r = r.files_panic ≡ false

drop_files-IsQuiet :
    (o : Option ℕ) (r : Resources)
    → IsQuiet r
    → ((f : ℕ) → o ≡ some f → r.closable f ≡ true)
    → IsQuiet (drop_files o r)
drop_files-IsQuiet none r h c = h
drop_files-IsQuiet (some f) r h c =
    elim (Bool-cases ((r.files_count f + 2 ^ 32 - 1) % 2 ^ 32 == 0)) [
      | inl last ↦ rw last (ground (arith, h, c f refl))
      | inr more ↦ rw more h
    ]

drop_mm-IsQuiet :
    (o : Option ℕ) (p : ℕ) (r : Resources)
    → IsQuiet r
    → ((f : ℕ) → r.filesp p ≡ some f → r.closable f ≡ true)
    → IsQuiet (drop_mm o p r)
drop_mm-IsQuiet none p r h c = h
drop_mm-IsQuiet (some m) p r h c = elim (Bool-cases ((r.mm_count m + 2 ^ 32 - 1) % 2 ^ 32 == 0)) [
  | inl last ↦ rw last (drop_files-IsQuiet (r.filesp p) _ h c)
  | inr more ↦ rw more (drop_files-IsQuiet (r.filesp p) _ h c)
]

-- Giving back a process's memory and files fails no assertion where its files are closable.
pub release-IsQuiet :
    (p : ℕ) (r : Resources)
    → IsQuiet r
    → ((f : ℕ) → r.filesp p ≡ some f → r.closable f ≡ true)
    → IsQuiet (release p r)
unfolding release
release-IsQuiet p r h c = drop_mm-IsQuiet (r.mm p) p r h c

-- What the processes other than `proc` have is as before.
abbrev pub Others : (proc : ℕ) → Resources → Resources → Type 0
Others proc r s = (q : ℕ) → q ≢ proc → (s.filesp q ≡ r.filesp q) × (s.mm q ≡ r.mm q)

-- The memory that a new process gets: none from a kernel thread, that of its parent, or a new one.
abbrev pub given_mm : (clone_vm : Bool) → (made old : Option ℕ) → Option ℕ
given_mm clone_vm made none = none
given_mm clone_vm made (some m) = if clone_vm then some m else made

-- A fork that succeeds shares what its flags say and has new memory and files otherwise; no other process is touched.
abbrev pub Shares :
    (clone_fs clone_vm : Bool) → Grants → (current proc : ℕ) → Resources → Bool × Resources → Type 0
Shares clone_fs clone_vm g current proc r (true, s) =
    (s.filesp proc ≡ (if clone_fs then r.filesp current else g.files_create))
    × (s.mm proc ≡ given_mm clone_vm g.mm_create (r.mm current))
    × Others proc r s
    × IsQuiet s
Shares clone_fs clone_vm g current proc r (false, s) = Others proc r s × IsQuiet s

module _ (proc : ℕ) where
  -- The files that a fork gives: `want`.
  abbrev GivesFiles : (want : Option ℕ) → Resources → Bool × Resources → Type 0
  GivesFiles want r (true, s) =
      (s.filesp proc ≡ want)
      × ((q : ℕ) → q ≢ proc → s.filesp q ≡ r.filesp q)
      × (s.mm ≡ r.mm)
      × IsQuiet s
      × ((f : ℕ) → want ≡ some f → s.closable f ≡ true)
  GivesFiles want r (false, s) = Others proc r s × IsQuiet s

  dup_new_files-GivesFiles :
      (made : Option ℕ) (dup : Bool) (r : Resources)
      → IsQuiet r
      → ((f : ℕ) → made ≡ some f → r.closable f ≡ true)
      → GivesFiles made r (dup_new_files made dup proc r)
  dup_new_files-GivesFiles none dup r h c = (λ q ne. (refl, refl), h)
  dup_new_files-GivesFiles (some a) true r h c =
      (ground arith, λ q ne. ground (arith, ne), refl, h, c)
  dup_new_files-GivesFiles (some a) false r h c =
      (λ q ne. (refl, refl), ground (arith, h, c a refl))

  copy_files-GivesFiles :
      (clone_fs : Bool) (g : Grants) (current old : ℕ) (r : Resources)
      → r.filesp current ≡ some old
      → IsQuiet r
      → ((f : ℕ) → g.files_create ≡ some f → r.closable f ≡ true)
      → r.closable old ≡ true
      → (t : Bool × Resources) × (copy_files clone_fs g current proc r ≡ some t)
        × GivesFiles (if clone_fs then some old else g.files_create) r t
  unfolding copy_files
  copy_files-GivesFiles true g current old r e h c d = (
    (true, good_files_struct proc old r),
    rw e refl,
    (ground arith, λ q ne. ground (arith, ne), refl, h, λ f e. ground (arith, e, d)),
  )
  copy_files-GivesFiles false g current old r e h c d = (
    dup_new_files g.files_create g.files_dup proc r,
    rw e refl,
    dup_new_files-GivesFiles g.files_create g.files_dup r h c,
  )

  -- The memory that a fork gives.
  abbrev GivesMm : (want : Option ℕ) → Resources → Bool × Resources → Type 0
  GivesMm want r (ok, s) =
      (ok ≡ true → s.mm proc ≡ want)
      × ((q : ℕ) → q ≢ proc → s.mm q ≡ r.mm q)
      × (s.filesp ≡ r.filesp)
      × (s.files_panic ≡ r.files_panic)
      × (s.closable ≡ r.closable)

  dup_new_mm-GivesMm :
      (made : Option ℕ) (ready : Bool) (r : Resources)
      → GivesMm made r (dup_new_mm made ready proc r)
  dup_new_mm-GivesMm none ready r = (λ e. cc, λ q ne. refl, refl, refl, refl)
  dup_new_mm-GivesMm (some m) true r =
      (λ e. ground arith, λ q ne. ground (arith, ne), refl, refl, refl)
  dup_new_mm-GivesMm (some m) false r = (λ e. cc, λ q ne. refl, refl, refl, refl)

  copy_old-GivesMm :
      (old : Option ℕ) (clone_vm : Bool) (g : Grants) (r : Resources)
      → r.mm proc ≡ none
      → GivesMm (given_mm clone_vm g.mm_create old) r (copy_old old clone_vm g proc r)
  copy_old-GivesMm none clone_vm g r empty = (λ e. empty, λ q ne. refl, refl, refl, refl)
  copy_old-GivesMm (some m) true g r empty =
      (λ e. ground arith, λ q ne. ground (arith, ne), refl, refl, refl)
  copy_old-GivesMm (some m) false g r empty =
      dup_new_mm-GivesMm g.mm_create (g.setup_pgdir && g.mmap_dup) r

  drop_files-keeps :
      (o : Option ℕ) (r : Resources)
      → ((drop_files o r).mm ≡ r.mm) × ((drop_files o r).filesp ≡ r.filesp)
  drop_files-keeps none r = (refl, refl)
  drop_files-keeps (some f) r = elim (Bool-cases ((r.files_count f + 2 ^ 32 - 1) % 2 ^ 32 == 0)) [
    | inl last ↦ rw last (refl, refl)
    | inr more ↦ rw more (refl, refl)
  ]

  module _ (clone_fs clone_vm : Bool) (g : Grants) (current : ℕ) (want : Option ℕ) (r s : Resources)
      (asked : (if clone_fs then r.filesp current else g.files_create) ≡ want)
      (files : GivesFiles want r (true, s)) where
    cleanup_fs-Shares :
        (u : Bool × Resources)
        → GivesMm (given_mm clone_vm g.mm_create (r.mm current)) s u
        → Shares clone_fs clone_vm g current proc r (cleanup_fs proc u)
    unfolding cleanup_fs
    cleanup_fs-Shares (true, x) (own, mms, same, panic, close) =
        let (e, others, mm, quiet, closes) = files in
        (
          ap (λ f. f proc) same ∙ e ∙ sym asked,
          own refl,
          λ q ne. (ap (λ f. f q) same ∙ others q ne, mms q ne ∙ ap (λ f. f q) mm),
          panic ∙ quiet,
        )
    cleanup_fs-Shares (false, x) (own, mms, same, panic, close) =
        let (e, others, mm, quiet, closes) = files in
        let here : x.filesp proc ≡ want = ap (λ f. f proc) same ∙ e in
        let (kept_mm, kept_files) = drop_files-keeps (x.filesp proc) x in
        unfold put_files in
        (
          λ q ne. (
            ap (λ f. f q) (kept_files ∙ same) ∙ others q ne,
            ap (λ f. f q) kept_mm ∙ mms q ne ∙ ap (λ f. f q) mm,
          ),
          drop_files-IsQuiet (x.filesp proc) x (panic ∙ quiet)
              (λ f e'. ap (λ h. h f) close ∙ closes f (sym here ∙ e')),
        )

    copy_mm-Shares :
        r.mm proc ≡ none
        → Shares clone_fs clone_vm g current proc r
            (cleanup_fs proc (copy_mm clone_vm g current proc s))
    unfolding copy_mm
    copy_mm-Shares empty =
        let (e, others, mm, quiet, closes) = files in
        cleanup_fs-Shares (copy_old (s.mm current) clone_vm g proc s) (
          subst
            (λ m.
              GivesMm (given_mm clone_vm g.mm_create m) s
                (copy_old (s.mm current) clone_vm g proc s))
            (ap (λ f. f current) mm)
            (copy_old-GivesMm (s.mm current) clone_vm g s (ap (λ f. f proc) mm ∙ empty)))

  then_mm-Shares :
      (clone_fs clone_vm : Bool) (g : Grants) (current : ℕ) (want : Option ℕ) (r : Resources)
      (t : Bool × Resources)
      → (if clone_fs then r.filesp current else g.files_create) ≡ want
      → GivesFiles want r t
      → r.mm proc ≡ none
      → Shares clone_fs clone_vm g current proc r (then_mm clone_vm g current proc t)
  unfolding then_mm
  then_mm-Shares clone_fs clone_vm g current want r (true, s) asked files empty =
      unfold copy_mm in copy_mm-Shares clone_fs clone_vm g current want r s asked files empty
  then_mm-Shares clone_fs clone_vm g current want r (false, s) asked files empty = files

  -- The copies of a fork fail no assertion where the tables that they may give back are closable.
  pub copy_all-Shares :
      (clone_fs clone_vm : Bool) (g : Grants) (current old : ℕ) (r : Resources)
      → r.filesp current ≡ some old
      → r.mm proc ≡ none
      → IsQuiet r
      → ((f : ℕ) → g.files_create ≡ some f → r.closable f ≡ true)
      → r.closable old ≡ true
      → (t : Bool × Resources) × (copy_all clone_fs clone_vm g current proc r ≡ some t)
        × Shares clone_fs clone_vm g current proc r t
  unfolding copy_all
  copy_all-Shares clone_fs clone_vm g current old r has empty quiet made mine =
      let (t, run, files) = copy_files-GivesFiles clone_fs g current old r has quiet made mine in
      (
        then_mm clone_vm g current proc t,
        rw run refl,
        then_mm-Shares clone_fs clone_vm g current (if clone_fs then some old else g.files_create) r
            t (rw has refl) files empty,
      )
