-- ===== src/Process/Tree/Cut.antt =====
-- `remove_links` takes a child out of the list of its parent's children.
use nku_os.Prelude.{
  ℕ, ◌+◌, ◌-◌, ◌%◌, ◌^◌, ◌≤◌, ◌≡◌, ◌≢◌, ◌∙◌, sym, subst, refl, true, false, ◌⊎◌, Option, none, some,
  List, [], ◌∷◌, ◌==◌, if◌then◌else◌, arith, count, Distinct, Bool-cases, inl, inr, update, remove,
  remove-none, count-remove,
}
use nku_os.Process.Tree.{Family, points_to, set_yptr, remove_links}
use nku_os.Process.Tree.Siblings.{
  Siblings, IsFamily, Agree, Siblings-frame, Siblings-parent, Siblings-disjoint, Siblings-eldest,
  Siblings-restart, Distinct-cons,
}

module _ (f : Family) (p : ℕ) where
  -- The older sibling of a child is a child.
  optr-absent :
      (y o : Option ℕ) (cs : List ℕ) (a x : ℕ)
      → Siblings f p y o cs
      → 1 ≤ count a cs
      → count x cs ≡ 0
      → points_to (f.optr a) x ≡ false
  optr-absent y o [] a x s h n = absurd (omega (arith, h))
  optr-absent y o (c ∷ cs) a x (e, par, yo, rest) h n = elim (Bool-cases (a == c)) [
    | inl same ↦
        let e' : a ≡ c = ground (arith, same) in
        rw e' (Siblings-eldest f p (some c) (f.optr c) cs rest x (ground (arith, n)))
    | inr ne ↦
        optr-absent (some c) (f.optr c) cs a x rest (ground (arith, h, ne)) (ground (arith, n))
  ]

  -- The younger sibling of a child is a child, or stands before the list.
  yptr-absent :
      (y o : Option ℕ) (cs : List ℕ) (a x : ℕ)
      → Siblings f p y o cs
      → 1 ≤ count a cs
      → count x cs ≡ 0
      → points_to y x ≡ false
      → points_to (f.yptr a) x ≡ false
  yptr-absent y o [] a x s h n before = absurd (omega (arith, h))
  yptr-absent y o (c ∷ cs) a x (e, par, yo, rest) h n before = elim (Bool-cases (a == c)) [
    | inl same ↦ let e' : a ≡ c = ground (arith, same) in rw (e', yo) before
    | inr ne ↦
        yptr-absent (some c) (f.optr c) cs a x rest (ground (arith, h, ne)) (ground (arith, n))
          (ground (arith, n))
  ]

  optr-not_self :
      (y o : Option ℕ) (cs : List ℕ) (a : ℕ)
      → Siblings f p y o cs
      → Distinct cs
      → 1 ≤ count a cs
      → points_to (f.optr a) a ≡ false
  optr-not_self y o [] a s d h = absurd (omega (arith, h))
  optr-not_self y o (c ∷ cs) a (e, par, yo, rest) d h =
      let (fresh, d') = Distinct-cons c cs d in
      elim (Bool-cases (a == c)) [
        | inl same ↦
            let e' : a ≡ c = ground (arith, same) in
            rw e' (Siblings-eldest f p (some c) (f.optr c) cs rest c fresh)
        | inr ne ↦ optr-not_self (some c) (f.optr c) cs a rest d' (ground (arith, h, ne))
      ]

  -- A child is the first of its list exactly if its younger sibling is the one before the list.
  yptr-first :
      (z : ℕ) (o : Option ℕ) (cs : List ℕ) (a : ℕ)
      → Siblings f p (some z) o cs
      → 1 ≤ count a cs
      → count z cs ≡ 0
      → points_to (f.yptr a) z ≡ points_to o a
  yptr-first z o [] a s h n = absurd (omega (arith, h))
  yptr-first z o (c ∷ cs) a (e, par, yo, rest) h n = elim (Bool-cases (a == c)) [
    | inl same ↦ let e' : a ≡ c = ground (arith, same) in rw (e', yo, e) (ground arith)
    | inr ne ↦
        yptr-absent (some c) (f.optr c) cs a z rest (ground (arith, h, ne)) (ground (arith, n))
          (ground (arith, n))
        ∙ sym (rw e ne)
  ]

  yptr-some :
      (z : ℕ) (o : Option ℕ) (cs : List ℕ) (a : ℕ)
      → Siblings f p (some z) o cs
      → 1 ≤ count a cs
      → (b : ℕ) × (f.yptr a ≡ some b)
  yptr-some z o [] a s h = absurd (omega (arith, h))
  yptr-some z o (c ∷ cs) a (e, par, yo, rest) h = elim (Bool-cases (a == c)) [
    | inl same ↦ let e' : a ≡ c = ground (arith, same) in (z, rw e' yo)
    | inr ne ↦ yptr-some c (f.optr c) cs a rest (ground (arith, h, ne))
  ]

  -- The links of the other children, after `proc` is taken out.
  abbrev Skips : ℕ → Family → ℕ → Type 0
  Skips proc g c =
      (g.parent c ≡ f.parent c)
      × (g.yptr c ≡ (if points_to (f.optr proc) c then f.yptr proc else f.yptr c))
      × (g.optr c ≡ (if points_to (f.yptr proc) c then f.optr proc else f.optr c))

  cut :
      (g : Family) (proc : ℕ) (y o : Option ℕ) (cs : List ℕ)
      → Siblings f p y o cs
      → Distinct cs
      → 1 ≤ count proc cs
      → ((c : ℕ) → 1 ≤ count c cs → Skips proc g c)
      → ((c : ℕ) → 1 ≤ count c cs → points_to y c ≡ false)
      → Siblings g p y (if points_to o proc then f.optr proc else o) (remove proc cs)
  cut g proc y o [] s d h skips before = absurd (omega (arith, h))
  cut g proc y o (c ∷ cs) (e, par, yo, rest) d h skips before =
      let (fresh, d') = Distinct-cons c cs d in
      elim (Bool-cases (proc == c)) [
        | inl same ↦
            let e' : proc ≡ c = ground (arith, same) in
            let restart : Siblings g p y (f.optr c) cs =
              Siblings-restart f g p (some c) y (f.optr c) cs d'
                (λ x hx.
                  let (p1, y1, o1) = skips x (ground (arith, hx)) in
                  (p1, rw (e', yo) at y1, rw (e', yo, before x (ground (arith, hx))) at o1))
                rest in
            rw (e, same, e', remove-none proc cs (rw e' fresh)) restart
        | inr ne ↦
            let within : 1 ≤ count proc cs = ground (arith, h, ne) in
            let (p1, y1, o1) = skips c (ground arith) in
            let tail =
              cut g proc (some c) (f.optr c) cs rest d' within
                (λ x hx. skips x (ground (arith, hx))) (λ x hx. ground (arith, hx, fresh)) in
            let keeps = rw (optr-absent (some c) (f.optr c) cs proc c rest within fresh) at y1 in
            let next = rw (yptr-first c (f.optr c) cs proc rest within fresh) at o1 in
            rw (e, ne) (refl, p1 ∙ par, keeps ∙ yo, rw next tail)
      ]

eldest-yptr :
    (f : Family) (p : ℕ) (o : Option ℕ) (cs : List ℕ) (a : ℕ)
    → Siblings f p none o cs
    → 1 ≤ count a cs
    → ((f.yptr a ≡ none) × (points_to o a ≡ true))
      ⊎ ((z : ℕ) × (f.yptr a ≡ some z) × (points_to o a ≡ false))
eldest-yptr f p o [] a s h = absurd (omega (arith, h))
eldest-yptr f p o (c ∷ cs) a (e, par, yo, rest) h = elim (Bool-cases (a == c)) [
  | inl same ↦ let e' : a ≡ c = ground (arith, same) in inl (rw e' yo, rw e same)
  | inr ne ↦
      let (z, older) = yptr-some f p c (f.optr c) cs a rest (ground (arith, h, ne)) in
      inr (z, older, rw e ne)
]

rewired-IsFamily :
    (f g : Family) (p proc : ℕ) (kids : ℕ → List ℕ)
    → IsFamily f kids
    → 1 ≤ count proc (kids p)
    → ((c : ℕ) → Skips f p proc g c)
    → (g.cptr p ≡ (if points_to (f.cptr p) proc then f.optr proc else f.cptr p))
    → ((q : ℕ) → q ≢ p → g.cptr q ≡ f.cptr q)
    → IsFamily g (update kids p (remove proc (kids p)))
rewired-IsFamily f g p proc kids v h skips first others = record {
  linked = linked;
  distinct = distinct;
}
  where
    self : (p == p) ≡ true
    self = ground arith

    here : Siblings g p none (g.cptr p) (update kids p (remove proc (kids p)) p)
    here =
        rw (self, first)
          (cut f p g proc none (f.cptr p) (kids p) (v.linked p) (v.distinct p) h (λ c hc. skips c)
            (λ c hc. refl))

    linked : (q : ℕ) → Siblings g q none (g.cptr q) (update kids p (remove proc (kids p)) q)
    linked q = elim (Bool-cases (q == p)) [
      | inl e ↦
          let same : q ≡ p = ground (arith, e) in
          subst (λ x. Siblings g x none (g.cptr x) (update kids p (remove proc (kids p)) x))
            (sym same) here
      | inr e ↦
          let ne : q ≢ p = ground (arith, e) in
          let agree : (c : ℕ) → 1 ≤ count c (kids q) → Agree f g c = λ c hc.
            let (p1, y1, o1) = skips c in
            let apart = Siblings-disjoint f kids p q c v ne hc in
            (
              p1,
              rw (optr-absent f p none (f.cptr p) (kids p) proc c (v.linked p) h apart) at y1,
              rw (yptr-absent f p none (f.cptr p) (kids p) proc c (v.linked p) h apart refl) at o1,
            ) in
          rw (e, others q ne) (Siblings-frame f g q none (f.cptr q) (kids q) agree (v.linked q))
    ]

    distinct : (q : ℕ) → Distinct (update kids p (remove proc (kids p)) q)
    distinct q n = ground (arith, v.distinct q n, v.distinct p n, count-remove n proc (kids p))

-- `remove_links` takes a child out of its parent's list of children, and out of the list of all processes. The other
-- children of the parent, and those of every other process, stay in their order.
pub remove_links-IsFamily :
    (proc p : ℕ) (f : Family) (kids : ℕ → List ℕ)
    → IsFamily f kids
    → 1 ≤ count proc (kids p)
    → (g : Family) × (remove_links proc f ≡ some g)
      × IsFamily g (update kids p (remove proc (kids p)))
      × (g.proc_list ≡ remove proc f.proc_list)
      × (g.nr_process ≡ (f.nr_process + 2 ^ 32 - 1) % 2 ^ 32)
      × (g.parent ≡ f.parent)
      × (g.pid ≡ f.pid)
      × (g.hash_list ≡ f.hash_list)
unfolding remove_links
remove_links-IsFamily proc p f kids v h =
    let par = Siblings-parent f p none (f.cptr p) (kids p) (v.linked p) proc h in
    let own = optr-not_self f p none (f.cptr p) (kids p) proc (v.linked p) (v.distinct p) h in
    let f2 =
      set_yptr (f.optr proc) (f.yptr proc) (record f { proc_list = remove proc f.proc_list }) in
    let nr = (f.nr_process + 2 ^ 32 - 1) % 2 ^ 32 in
    elim (eldest-yptr f p (f.cptr p) (kids p) proc (v.linked p) h) [
      | inl (young, first) ↦
          let g : Family = record f2 { cptr = update f.cptr p (f.optr proc); nr_process = nr } in
          let fam =
            rewired-IsFamily f g p proc kids v h (λ c. (refl, refl, rw young refl))
              (rw first (ground arith)) (λ q ne. ground (arith, ne)) in
          (g, rw (own, young, par) refl, fam, refl, refl, refl, refl, refl)
      | inr (z, young, later) ↦
          let g : Family = record f2 { optr = update f.optr z (f.optr proc); nr_process = nr } in
          let fam =
            rewired-IsFamily f g p proc kids v h (λ c. (refl, refl, rw young refl)) (rw later refl)
              (λ q ne. refl) in
          (g, rw (own, young) refl, fam, refl, refl, refl, refl, refl)
    ]
