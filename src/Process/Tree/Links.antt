-- ===== src/Process/Tree/Links.antt =====
-- `set_links` and `remove_links` change the list of children of one process.
use nku_os.Prelude.{
  ℕ, ◌+◌, ◌%◌, ◌^◌, ◌≤◌, ◌≡◌, ◌≢◌, sym, subst, refl, true, false, none, some, List, ◌∷◌, ◌==◌,
  arith, count, Distinct, Bool-cases, inl, inr, update,
}
use nku_os.Process.Tree.{Family, points_to, set_yptr, set_links}
use nku_os.Process.Tree.Siblings.{
  Siblings, IsFamily, Siblings-frame, Siblings-disjoint, Siblings-eldest, Siblings-restart,
}

other_child :
    (f : Family) (kids : ℕ → List ℕ) (p q c : ℕ)
    → IsFamily f kids
    → q ≢ p
    → 1 ≤ count c (kids q)
    → points_to (f.cptr p) c ≡ false
other_child f kids p q c v ne h =
    Siblings-eldest f p none (f.cptr p) (kids p) (v.linked p) c
      (Siblings-disjoint f kids p q c v ne h)

-- `set_links` makes a process that is nobody's child the youngest child of its parent, and puts it at the head of the
-- list of all processes.
pub set_links-IsFamily :
    (proc p : ℕ) (f : Family) (kids : ℕ → List ℕ)
    → IsFamily f kids
    → f.parent proc ≡ some p
    → ((q : ℕ) → count proc (kids q) ≡ 0)
    → (g : Family) × (set_links proc f ≡ some g)
      × IsFamily g (update kids p (proc ∷ kids p))
      × (g.proc_list ≡ proc ∷ f.proc_list)
      × (g.nr_process ≡ (f.nr_process + 1) % 2 ^ 32)
      × (g.parent ≡ f.parent)
      × (g.pid ≡ f.pid)
      × (g.hash_list ≡ f.hash_list)
unfolding set_links
set_links-IsFamily proc p f kids v par fresh =
    let f1 : Family = record f {
      proc_list = proc ∷ f.proc_list;
      yptr = update f.yptr proc none;
      optr = update f.optr proc (f.cptr p);
    } in
    let f2 = set_yptr (f.cptr p) (some proc) f1 in
    let g : Family = record f2 {
      cptr = update f.cptr p (some proc);
      nr_process = (f.nr_process + 1) % 2 ^ 32;
    } in
    let not_eldest = Siblings-eldest f p none (f.cptr p) (kids p) (v.linked p) proc (fresh p) in
    let young : Siblings g p (some proc) (f.cptr p) (kids p) =
      Siblings-restart f g p none (some proc) (f.cptr p) (kids p) (v.distinct p)
        (λ c h. (refl, ground (arith, h, fresh p), ground (arith, h, fresh p))) (v.linked p) in
    let same_optr : g.optr proc ≡ f.cptr p = ground arith in
    let self : (p == p) ≡ true = ground arith in
    let here : Siblings g p none (g.cptr p) (update kids p (proc ∷ kids p) p) =
      rw self (refl, par, ground (arith, not_eldest), rw same_optr young) in
    let linked : (q : ℕ) → Siblings g q none (g.cptr q) (update kids p (proc ∷ kids p) q) = λ q.
      elim (Bool-cases (q == p)) [
        | inl e ↦
            let same : q ≡ p = ground (arith, e) in
            subst (λ x. Siblings g x none (g.cptr x) (update kids p (proc ∷ kids p) x)) (sym same)
              here
        | inr ne ↦ rw ne (
            Siblings-frame f g q none (f.cptr q) (kids q)
              (λ c h. (
                refl,
                ground (arith, h, fresh q, other_child f kids p q c v (ground (arith, ne)) h),
                ground (arith, h, fresh q),
              ))
              (v.linked q))
      ] in
    let distinct : (q : ℕ) → Distinct (update kids p (proc ∷ kids p) q) =
      λ q n. ground (arith, v.distinct q n, v.distinct p n, fresh p) in
    (
      g,
      ground (arith, par),
      record { linked = linked; distinct = distinct },
      refl,
      refl,
      refl,
      refl,
      refl,
    )
