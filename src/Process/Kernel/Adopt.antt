-- ===== src/Process/Kernel/Adopt.antt =====
-- The loop of `do_exit`: the children of the process that exits become children of `initproc`.
use nku_os.Prelude.{
  ℕ, ◌≤◌, ◌≡◌, ◌≢◌, sym, subst, refl, true, false, Option, none, some, List, ◌∷◌, ◌==◌, arith,
  count, Distinct, Bool-cases, inl, inr, update,
}
use nku_os.Process.Tree.{Family, points_to}
use nku_os.Process.Tree.Siblings.{
  Siblings, Agree, Siblings-frame, Siblings-parent, Siblings-eldest, Siblings-restart,
  Distinct-cons,
}
use nku_os.Process.Kernel.{adopt}

-- In the middle of the loop: the children that `current` has still, the first of which may keep a link to one that has gone.
pub record Orphans (f : Family) (children : ℕ → List ℕ) (current : ℕ) (y : Option ℕ) (cs : List ℕ)
    : Type 0 where
  pub others : (q : ℕ) → q ≢ current → Siblings f q none (f.cptr q) (children q)
  pub own : Siblings f current y (f.cptr current) cs
  pub distinct : (q : ℕ) → q ≢ current → Distinct (children q)
  pub own_distinct : Distinct cs

others-disjoint :
    (f : Family) (kids : ℕ → List ℕ) (current : ℕ) (y : Option ℕ) (cs : List ℕ) (p q c : ℕ)
    → Orphans f kids current y cs
    → p ≢ current
    → q ≢ current
    → q ≢ p
    → 1 ≤ count c (kids q)
    → count c (kids p) ≡ 0
others-disjoint f kids current y cs p q c v np nq ne h = elim (Bool-cases (count c (kids p) == 0)) [
  | inl absent ↦ ground (arith, absent)
  | inr there ↦
      let eq = Siblings-parent f q none (f.cptr q) (kids q) (v.others q nq) c h in
      let ep =
        Siblings-parent f p none (f.cptr p) (kids p) (v.others p np) c (ground (arith, there)) in
      absurd (ground (arith, eq, ep, ne))
]

own-disjoint :
    (f : Family) (kids : ℕ → List ℕ) (current : ℕ) (y : Option ℕ) (cs : List ℕ) (q c : ℕ)
    → Orphans f kids current y cs
    → q ≢ current
    → 1 ≤ count c cs
    → count c (kids q) ≡ 0
own-disjoint f kids current y cs q c v nq h = elim (Bool-cases (count c (kids q) == 0)) [
  | inl absent ↦ ground (arith, absent)
  | inr there ↦
      let eq =
        Siblings-parent f q none (f.cptr q) (kids q) (v.others q nq) c (ground (arith, there)) in
      let ep = Siblings-parent f current y (f.cptr current) cs v.own c h in
      absurd (ground (arith, eq, ep, nq))
]

pub adopt-Orphans :
    (initproc : ℕ) (f : Family) (kids : ℕ → List ℕ) (current proc : ℕ) (y : Option ℕ) (cs : List ℕ)
    → Orphans f kids current y (proc ∷ cs)
    → initproc ≢ current
    → Orphans
        (adopt initproc current proc f)
        (update kids initproc (proc ∷ kids initproc))
        current
        (some proc)
        cs
unfolding adopt
adopt-Orphans initproc f kids current proc y cs v ni = record {
  others = others;
  own = own;
  distinct = distinct;
  own_distinct = tail.1;
}
  where
    g : Family
    g = adopt initproc current proc f

    apart : (initproc == current) ≡ false
    apart = ground (arith, ni)

    tail : (count proc cs ≡ 0) × Distinct cs
    tail = Distinct-cons proc cs v.own_distinct

    new : (q : ℕ) → q ≢ current → count proc (kids q) ≡ 0
    new q nq = own-disjoint f kids current y (proc ∷ cs) q proc v nq (ground arith)

    not_eldest : (c : ℕ) → count c (kids initproc) ≡ 0 → points_to (f.cptr initproc) c ≡ false
    not_eldest c h =
        Siblings-eldest f initproc none (f.cptr initproc) (kids initproc) (v.others initproc ni) c h

    agree : (c : ℕ) → (c == proc) ≡ false → points_to (f.cptr initproc) c ≡ false → Agree f g c
    agree c other eldest = (ground (arith, other), rw (apart, eldest, other) refl, rw other refl)

    own : Siblings g current (some proc) (g.cptr current) cs
    own =
        let (e, par, yo, rest) = v.own in
        let back : (current == initproc) ≡ false = ground (arith, ni) in
        let self : (current == current) ≡ true = ground arith in
        rw (back, self)
          (Siblings-frame f g current (some proc) (f.optr proc) cs
            (λ c h. agree c (ground (arith, h, tail.0)) (
              not_eldest c
                (own-disjoint f kids current y (proc ∷ cs) initproc c v ni (ground (arith, h)))))
            rest)

    at_init :
        Siblings g initproc none
          (g.cptr initproc)
          (update kids initproc (proc ∷ kids initproc) initproc)
    at_init =
        let self : (initproc == initproc) ≡ true = ground arith in
        let self_proc : (proc == proc) ≡ true = ground arith in
        let first : points_to (f.cptr initproc) proc ≡ false = not_eldest proc (new initproc ni) in
        let own_y : g.yptr proc ≡ none = rw (apart, first, self_proc) refl in
        let own_o : g.optr proc ≡ f.cptr initproc = rw (apart, self_proc) refl in
        let own_p : g.parent proc ≡ some initproc = rw self_proc refl in
        let older : Siblings g initproc (some proc) (f.cptr initproc) (kids initproc) =
          Siblings-restart f g initproc none (some proc) (f.cptr initproc) (kids initproc)
            (v.distinct initproc ni)
            (λ c h.
              let other : (c == proc) ≡ false = ground (arith, h, new initproc ni) in
              (rw other refl, rw (apart, other) refl, rw other refl))
            (v.others initproc ni) in
        rw self (refl, own_p, own_y, rw own_o older)

    others :
        (q : ℕ)
        → q ≢ current
        → Siblings g q none (g.cptr q) (update kids initproc (proc ∷ kids initproc) q)
    others q nq = elim (Bool-cases (q == initproc)) [
      | inl e ↦
          let same : q ≡ initproc = ground (arith, e) in
          subst (λ x. Siblings g x none (g.cptr x) (update kids initproc (proc ∷ kids initproc) x))
            (sym same) at_init
      | inr e ↦
          let not_current : (q == current) ≡ false = ground (arith, nq) in
          rw (e, not_current)
            (Siblings-frame f g q none (f.cptr q) (kids q)
              (λ c h. agree c (ground (arith, h, new q nq)) (
                not_eldest c (
                  others-disjoint f kids current y (proc ∷ cs) initproc q c v ni nq
                    (ground (arith, e)) h)))
              (v.others q nq))
    ]

    distinct : (q : ℕ) → q ≢ current → Distinct (update kids initproc (proc ∷ kids initproc) q)
    distinct q nq n = ground (arith, v.distinct q nq n, v.distinct initproc ni n, new initproc ni)
