-- ===== src/Process/Resources/Copies.antt =====
-- A fork copies or shares files and memory, and keeps the reference counts, also where it fails.
use nku_os.Prelude.{
  ℕ, ◌+◌, ◌-◌, ◌%◌, ◌^◌, ◌≤◌, ◌<◌, ◌≡◌, sym, refl, Bool, true, false, ◌&&◌, Option, none, some,
  List, [], ◌∷◌, ◌==◌, arith, count, length, Bool-cases, inl, inr, update,
}
use nku_os.Process.Resources.{
  Resources, Grants, copy_files, copy_mm, copy_all, good_files_struct, dup_new_files, dup_new_mm,
  copy_old, cleanup_fs, then_mm,
}
use nku_os.Process.Resources.Counts.{
  holders, Counted, Counts, holders-update, holders-le-length, put_files-Put,
}

-- What is held has a new holder.
share-Counted :
    (c : ℕ → ℕ) (f : ℕ → Option ℕ) (ps : List ℕ) (p a : ℕ)
    → Counted c f ps
    → count p ps ≡ 0
    → length ps + 1 < 2 ^ 32
    → c a ≡ holders f a ps
    → Counted (update c a ((c a + 1) % 2 ^ 32)) (update f p (some a)) (p ∷ ps)
share-Counted c f ps p a v new few e b h =
    ground (arith, h, holders-update f p (some a) b ps new, holders-le-length f a ps, v b, e, few)

-- A new structure has no holder yet.
new-Counted :
    (c : ℕ → ℕ) (f : ℕ → Option ℕ) (ps : List ℕ) (a : ℕ)
    → Counted c f ps
    → holders f a ps ≡ 0
    → Counted (update c a 0) f ps
new-Counted c f ps a v e b h = ground (arith, h, e, v b)

skip-Counted :
    (c : ℕ → ℕ) (f : ℕ → Option ℕ) (ps : List ℕ) (p : ℕ)
    → Counted c f ps
    → f p ≡ none
    → Counted c f (p ∷ ps)
skip-Counted c f ps p v e b = rw e (v b)

Counted-cast :
    {c c' : ℕ → ℕ} {f f' : ℕ → Option ℕ}
    → c' ≡ c
    → f' ≡ f
    → (ps : List ℕ) → Counted c f ps
    → Counted c' f' ps
Counted-cast ce fe ps v = rw (ce, fe) v

-- The last holder goes again.
drop-Counted :
    (c : ℕ → ℕ) (f : ℕ → Option ℕ) (ps : List ℕ) (p a : ℕ)
    → Counted c f (p ∷ ps)
    → f p ≡ some a
    → Counted (update c a (c a - 1)) f ps
drop-Counted c f ps p a v e b h = let w = rw e at (v b) in ground (arith, h, w)

-- A structure that is made anew has no holder.
abbrev pub IsNew : Option ℕ → (ℕ → Option ℕ) → List ℕ → Type 0
IsNew made field ps = (a : ℕ) → made ≡ some a → holders field a ps ≡ 0

-- The processes that hold what they should: with the new one if the copies succeed, and without it if not.
abbrev pub AllCopied : List ℕ → (proc : ℕ) → Bool × Resources → Type 0
AllCopied ps proc (true, s) = Counts s (proc ∷ ps)
AllCopied ps proc (false, s) = Counts s ps

module _ (ps : List ℕ) (current proc : ℕ) (few : length ps + 1 < 2 ^ 32)
    (new : count proc ps ≡ 0) where
  abbrev FilesCopied : Resources → Bool × Resources → Type 0
  FilesCopied r (true, s) =
      (s.mm ≡ r.mm)
      × (s.mm_count ≡ r.mm_count)
      × ((a : ℕ) × (s.filesp proc ≡ some a) × Counted s.files_count s.filesp (proc ∷ ps))
  FilesCopied r (false, s) =
      (s.mm ≡ r.mm) × (s.mm_count ≡ r.mm_count) × Counted s.files_count s.filesp ps

  new_files :
      (made : Option ℕ) (dup : Bool) (r : Resources)
      → Counted r.files_count r.filesp ps
      → IsNew made r.filesp ps
      → FilesCopied r (dup_new_files made dup proc r)
  new_files none dup r v fresh = (refl, refl, v)
  new_files (some a) true r v fresh =
      let e = fresh a refl in
      let started = new-Counted r.files_count r.filesp ps a v e in
      let first : update r.files_count a 0 a ≡ holders r.filesp a ps = ground (arith, e) in
      (
        refl,
        refl,
        (
          a,
          ground arith,
          share-Counted (update r.files_count a 0) r.filesp ps proc a started new few first,
        ),
      )
  new_files (some a) false r v fresh =
      (refl, refl, new-Counted r.files_count r.filesp ps a v (fresh a refl))

  held :
      (field : ℕ → Option ℕ) (a : ℕ) (qs : List ℕ)
      → 1 ≤ count current qs
      → field current ≡ some a
      → 1 ≤ holders field a qs
  held field a [] h e = absurd (omega (arith, h))
  held field a (q ∷ qs) h e = elim (Bool-cases (current == q)) [
    | inl same ↦
        let e' : current ≡ q = ground (arith, same) in
        let at_q : field q ≡ some a = rw e' at e in rw at_q (ground arith)
    | inr other ↦ ground (arith, held field a qs (ground (arith, h, other)) e)
  ]

  copy_files-FilesCopied :
      (clone_fs : Bool) (g : Grants) (r : Resources) (old : ℕ)
      → Counted r.files_count r.filesp ps
      → 1 ≤ count current ps
      → r.filesp current ≡ some old
      → IsNew g.files_create r.filesp ps
      → (t : Bool × Resources) × (copy_files clone_fs g current proc r ≡ some t) × FilesCopied r t
  unfolding copy_files
  copy_files-FilesCopied true g r old v cur e fresh =
      let shared =
        share-Counted r.files_count r.filesp ps proc old v new few
          (v old (held r.filesp old ps cur e)) in
      ((true, good_files_struct proc old r), rw e refl, (refl, refl, (old, ground arith, shared)))
  copy_files-FilesCopied false g r old v cur e fresh = (
    dup_new_files g.files_create g.files_dup proc r,
    rw e refl,
    new_files g.files_create g.files_dup r v fresh,
  )

  abbrev MmCopied : Resources → Bool × Resources → Type 0
  MmCopied r (true, s) =
      (s.filesp ≡ r.filesp) × (s.files_count ≡ r.files_count) × Counted s.mm_count s.mm (proc ∷ ps)
  MmCopied r (false, s) =
      (s.filesp ≡ r.filesp) × (s.files_count ≡ r.files_count) × Counted s.mm_count s.mm ps

  new_mm :
      (made : Option ℕ) (ready : Bool) (r : Resources)
      → Counted r.mm_count r.mm ps
      → IsNew made r.mm ps
      → MmCopied r (dup_new_mm made ready proc r)
  new_mm none ready r v fresh = (refl, refl, v)
  new_mm (some a) true r v fresh =
      let e = fresh a refl in
      let started = new-Counted r.mm_count r.mm ps a v e in
      let first : update r.mm_count a 0 a ≡ holders r.mm a ps = ground (arith, e) in
      (refl, refl, share-Counted (update r.mm_count a 0) r.mm ps proc a started new few first)
  new_mm (some a) false r v fresh = (refl, refl, new-Counted r.mm_count r.mm ps a v (fresh a refl))

  copy_old-MmCopied :
      (old : Option ℕ) (clone_vm : Bool) (g : Grants) (r : Resources)
      → old ≡ r.mm current
      → Counted r.mm_count r.mm ps
      → 1 ≤ count current ps
      → r.mm proc ≡ none
      → IsNew g.mm_create r.mm ps
      → MmCopied r (copy_old old clone_vm g proc r)
  copy_old-MmCopied none clone_vm g r e v cur empty fresh =
      (refl, refl, skip-Counted r.mm_count r.mm ps proc v empty)
  copy_old-MmCopied (some a) true g r e v cur empty fresh = (
    refl,
    refl,
    share-Counted r.mm_count r.mm ps proc a v new few (v a (held r.mm a ps cur (sym e))),
  )
  copy_old-MmCopied (some a) false g r e v cur empty fresh =
      new_mm g.mm_create (g.setup_pgdir && g.mmap_dup) r v fresh

  mm_step :
      (r1 : Resources) (t : Bool × Resources) (a : ℕ)
      → r1.filesp proc ≡ some a
      → Counted r1.files_count r1.filesp (proc ∷ ps)
      → MmCopied r1 t
      → AllCopied ps proc (cleanup_fs proc t)
  unfolding cleanup_fs
  mm_step r1 (true, s) a e v (f, fc, m) = record {
    mms = m;
    files = Counted-cast fc f (proc ∷ ps) v;
  }
  mm_step r1 (false, s) a e v (f, fc, m) =
      let e' : s.filesp proc ≡ some a = rw f e in
      let v' : Counted s.files_count s.filesp (proc ∷ ps) = Counted-cast fc f (proc ∷ ps) v in
      let n = s.files_count a in
      let holds : 1 ≤ holders s.filesp a (proc ∷ ps) = rw e' (ground arith) in
      let n_eq = v' a holds in
      let (m', mc', f', fc', dm', df') =
        put_files-Put s proc a n e' refl (omega (arith, n_eq, holds))
          (omega (arith, n_eq, few, holders-le-length s.filesp a (proc ∷ ps))) in
      record {
        mms = rw (m', mc') m;
        files = rw (f', fc') (drop-Counted s.files_count s.filesp ps proc a v' e');
      }

  files_step :
      (clone_vm : Bool) (g : Grants) (r : Resources) (t : Bool × Resources)
      → Counted r.mm_count r.mm ps
      → 1 ≤ count current ps
      → r.mm proc ≡ none
      → IsNew g.mm_create r.mm ps
      → FilesCopied r t
      → AllCopied ps proc (then_mm clone_vm g current proc t)
  unfolding then_mm copy_mm
  files_step clone_vm g r (false, r1) v cur empty fresh (m, mc, f) = record {
    mms = rw (m, mc) v;
    files = f;
  }
  files_step clone_vm g r (true, r1) v cur empty fresh (m, mc, (a, e, f)) =
      mm_step r1 (copy_old (r1.mm current) clone_vm g proc r1) a e f (
        copy_old-MmCopied (r1.mm current) clone_vm g r1 refl (rw (m, mc) v) cur (rw m empty)
          (rw m fresh))

-- `copy_files` and `copy_mm` of a fork end with the counts right: with the new process among the holders, where both
-- succeed, and without it, where one fails and `do_fork` cleans up, whichever call it is that lacks memory.
pub copy_all-AllCopied :
    (clone_fs clone_vm : Bool) (g : Grants) (r : Resources) (ps : List ℕ) (current proc old : ℕ)
    (few : length ps + 1 < 2 ^ 32) (new : count proc ps ≡ 0)
    → Counts r ps
    → 1 ≤ count current ps
    → r.filesp current ≡ some old
    → r.mm proc ≡ none
    → IsNew g.files_create r.filesp ps
    → IsNew g.mm_create r.mm ps
    → (t : Bool × Resources) × (copy_all clone_fs clone_vm g current proc r ≡ some t)
      × AllCopied ps proc t
unfolding copy_all
copy_all-AllCopied clone_fs clone_vm g r ps current proc old few new v cur files empty fresh_files
      fresh_mm =
    let (t, run, copied) =
      copy_files-FilesCopied ps current proc few new clone_fs g r old v.files cur files
        fresh_files in
    (
      then_mm clone_vm g current proc t,
      rw run refl,
      files_step ps current proc few new clone_vm g r t v.mms cur empty fresh_mm copied,
    )
