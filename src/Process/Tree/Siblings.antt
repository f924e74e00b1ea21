-- ===== src/Process/Tree/Siblings.antt =====
-- The children of a process as a list, the youngest first, which the sibling pointers hold in both directions.
use nku_os.Prelude.{
  ℕ, ◌≤◌, ◌≡◌, ◌≢◌, ◌∙◌, refl, false, Option, none, some, List, [], ◌∷◌, ◌==◌, if◌then◌else◌, arith,
  count, Distinct, Bool-cases, inl, inr,
}
use nku_os.Process.Tree.{Family, points_to}

abbrev pub Siblings : Family → (p : ℕ) → (younger eldest : Option ℕ) → List ℕ → Type 0
Siblings f p y o [] = o ≡ none
Siblings f p y o (c ∷ cs) =
    (o ≡ some c) × (f.parent c ≡ some p) × (f.yptr c ≡ y) × Siblings f p (some c) (f.optr c) cs

-- The children of each process.
pub record IsFamily (f : Family) (children : ℕ → List ℕ) : Type 0 where
  pub linked : (p : ℕ) → Siblings f p none (f.cptr p) (children p)
  pub distinct : (p : ℕ) → Distinct (children p)

-- Two families agree on the links of a process.
abbrev pub Agree : (f g : Family) → ℕ → Type 0
Agree f g c = (g.parent c ≡ f.parent c) × (g.yptr c ≡ f.yptr c) × (g.optr c ≡ f.optr c)

pub Siblings-frame :
    (f g : Family) (p : ℕ) (y o : Option ℕ) (cs : List ℕ)
    → ((c : ℕ) → 1 ≤ count c cs → Agree f g c)
    → Siblings f p y o cs
    → Siblings g p y o cs
Siblings-frame f g p y o [] same s = s
Siblings-frame f g p y o (c ∷ cs) same (e, par, yo, rest) =
    let (p', y', o') = same c (ground arith) in
    let tail =
      Siblings-frame f g p (some c) (f.optr c) cs (λ d h. same d (ground (arith, h))) rest in
    (e, p' ∙ par, y' ∙ yo, rw o' tail)

pub Siblings-parent :
    (f : Family) (p : ℕ) (y o : Option ℕ) (cs : List ℕ)
    → Siblings f p y o cs
    → (c : ℕ) → 1 ≤ count c cs
    → f.parent c ≡ some p
Siblings-parent f p y o [] s c h = absurd (omega (arith, h))
Siblings-parent f p y o (d ∷ ds) (e, par, yo, rest) c h = elim (Bool-cases (c == d)) [
  | inl same ↦ let e' : c ≡ d = ground (arith, same) in rw e' par
  | inr other ↦ Siblings-parent f p (some d) (f.optr d) ds rest c (ground (arith, h, other))
]

pub Siblings-eldest :
    (f : Family) (p : ℕ) (y o : Option ℕ) (cs : List ℕ)
    → Siblings f p y o cs
    → (c : ℕ) → count c cs ≡ 0
    → points_to o c ≡ false
Siblings-eldest f p y o [] s c h = rw s refl
Siblings-eldest f p y o (e ∷ es) (same, par, yo, rest) c h = rw same (ground (arith, h))

pub Siblings-disjoint :
    (f : Family) (kids : ℕ → List ℕ) (p q c : ℕ)
    → IsFamily f kids
    → q ≢ p
    → 1 ≤ count c (kids q)
    → count c (kids p) ≡ 0
Siblings-disjoint f kids p q c v ne h = elim (Bool-cases (count c (kids p) == 0)) [
  | inl absent ↦ ground (arith, absent)
  | inr there ↦
      let eq = Siblings-parent f q none (f.cptr q) (kids q) (v.linked q) c h in
      let ep =
        Siblings-parent f p none (f.cptr p) (kids p) (v.linked p) c (ground (arith, there)) in
      absurd (ground (arith, eq, ep, ne))
]

abbrev pub TailDistinct : ℕ → List ℕ → Type 0
TailDistinct c cs = (count c cs ≡ 0) × Distinct cs

pub Distinct-cons : (c : ℕ) (cs : List ℕ) → Distinct (c ∷ cs) → TailDistinct c cs
Distinct-cons c cs d = (ground (arith, d c), λ n. ground (arith, d n))

-- The eldest of a list gets another younger sibling, and nothing else changes.
pub Siblings-restart :
    (f g : Family) (p : ℕ) (y y' o : Option ℕ) (cs : List ℕ)
    → Distinct cs
    → ((c : ℕ)
        → 1 ≤ count c cs
        → (g.parent c ≡ f.parent c)
          × (g.yptr c ≡ (if points_to o c then y' else f.yptr c))
          × (g.optr c ≡ f.optr c))
    → Siblings f p y o cs
    → Siblings g p y' o cs
Siblings-restart f g p y y' o [] d same s = s
Siblings-restart f g p y y' o (c ∷ cs) d same (e, par, yo, rest) =
    let (p', y1, o') = same c (ground arith) in
    let (fresh, d') = Distinct-cons c cs d in
    let agree : (x : ℕ) → 1 ≤ count x cs → Agree f g x = λ x h.
      let (p2, y2, o2) = same x (ground (arith, h)) in (p2, ground (arith, y2, e, h, fresh), o2) in
    let tail = Siblings-frame f g p (some c) (f.optr c) cs agree rest in
    (e, p' ∙ par, ground (arith, y1, e), rw o' tail)
