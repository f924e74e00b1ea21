-- ===== src/Mm/Swap/Clock.antt =====
-- The clock policy of lab3/kern/mm/swap_clock.c: the search for a victim ends, and where it leaves the hand.
use nku_os.Prelude.{
  ℕ, zero, suc, ◌≤◌, ◌<◌, ◌≡◌, ◌≢◌, ◌⊎◌, refl, ap, ◌∙◌, true, false, some, List, [], ◌∷◌, ◌++◌, ◌-◌,
  map, arith, count, count-append, ◌==◌, if◌then◌else◌, Bool-cases, inl, inr, length, update,
}
use mathlib.Core.Path.{subst}
use nku_os.LinkedList.{Links, list_next, list_del}
use nku_os.LinkedList.Chain.{Chain-split}
use nku_os.LinkedList.Laws.{IsRing}
use nku_os.Mm.Swap.{pra_list_head, pra_page_link, ClockState, skip_head, clock_swap_out_victim}
use nku_os.Mm.Swap.Lists.{Holds, split, map-append, list_del-Holds}

-- How many of the pages have the mark.
abbrev pub marked : (ℕ → ℕ) → List ℕ → ℕ
marked v [] = 0
marked v (q ∷ qs) = if v q == 1 then suc (marked v qs) else marked v qs

marked-length : (v : ℕ → ℕ) (ps : List ℕ) → marked v ps ≤ length ps
marked-length v [] = omega arith
marked-length v (q ∷ qs) = ground (arith, marked-length v qs)

marked-update_le : (v : ℕ → ℕ) (p : ℕ) (ps : List ℕ) → marked (update v p 0) ps ≤ marked v ps
marked-update_le v p [] = omega arith
marked-update_le v p (q ∷ qs) = ground (arith, marked-update_le v p qs)

marked-update :
    (v : ℕ → ℕ) (p : ℕ) (ps : List ℕ)
    → v p ≡ 1
    → 0 < count p ps
    → marked (update v p 0) ps < marked v ps
marked-update v p [] m c = omega (arith, c)
marked-update v p (q ∷ qs) m c = elim (Bool-cases (p == q)) [
  | inl e ↦ ground (arith, m, e, marked-update_le v p qs)
  | inr e ↦ ground (arith, m, e, c, marked-update v p qs m)
]

-- The hand stands on the list head or on a page of the list.
abbrev pub HandIn : ClockState → List ℕ → Type 0
HandIn s ps =
    (s.curr_ptr ≡ pra_list_head) ⊎ ((q : ℕ) × (0 < count q ps) × (s.curr_ptr ≡ pra_page_link q))

-- The hand, or the first page where it is on the head.
skip_head-mem :
    (s : ClockState) (q : ℕ) (qs : List ℕ)
    → Holds s.links (q ∷ qs)
    → HandIn s (q ∷ qs)
    → (p : ℕ) × (0 < count p (q ∷ qs)) × (skip_head s ≡ suc p)
skip_head-mem s q qs r (inl e) = (q, ground arith, ground (arith, e, r.chain.0))
skip_head-mem s q qs r (inr (p, c, e)) = (p, c, ground (arith, e))

-- From a page of the list, `list_next` leads to a page or to the head.
list_next-HandIn :
    (l : Links) (v : ℕ → ℕ) (ps : List ℕ) (p : ℕ)
    → Holds l ps
    → 0 < count p ps
    → HandIn (record { links = l; visited = v; curr_ptr = list_next (suc p) l }) ps
list_next-HandIn l v ps p r c =
    let (xs, ys, s) = split p ps c in
    let r' : IsRing l 0 (map pra_page_link xs ++ suc p ∷ map pra_page_link ys) =
      subst (λ zs. IsRing l 0 zs) (ap (map pra_page_link) s ∙ map-append xs p ys) r in
    go xs ys s r'
  where
    go :
        (xs ys : List ℕ)
        → ps ≡ xs ++ p ∷ ys
        → IsRing l 0 (map pra_page_link xs ++ suc p ∷ map pra_page_link ys)
        → HandIn (record { links = l; visited = v; curr_ptr = list_next (suc p) l }) ps
    go xs [] s r' = inl (Chain-split l 0 (map pra_page_link xs) (suc p) [] 0 r'.chain).1.0
    go xs (y ∷ ys) s r' = inr (
      y,
      rw s (ground (arith, count-append y xs (p ∷ y ∷ ys))),
      (Chain-split l 0 (map pra_page_link xs) (suc p) (suc y ∷ map pra_page_link ys) 0
          r'.chain).1.0,
    )

-- The victim `p` was a page of the list without the mark; it left the list, and the hand stands on it.
abbrev pub Evicted : List ℕ → ℕ → ClockState → Type 0
Evicted ps p s =
    ((xs : List ℕ) × (ys : List ℕ) × (ps ≡ xs ++ p ∷ ys) × Holds s.links (xs ++ ys))
    × (s.visited p ≢ 1)
    × (s.curr_ptr ≡ pra_page_link p)

-- One round, at a page `p` with and without the mark.
stop :
    (fuel : ℕ) (s : ClockState) (p : ℕ)
    → skip_head s ≡ suc p
    → (s.visited p == 1) ≡ false
    → clock_swap_out_victim (suc fuel) s
      ≡ some (p, record s { links = list_del (suc p) s.links; curr_ptr = suc p })
unfolding clock_swap_out_victim
stop fuel s p e m = let page : suc p - 1 ≡ p = omega arith in rw (e, page, m) refl

go_on :
    (fuel : ℕ) (s : ClockState) (p : ℕ)
    → skip_head s ≡ suc p
    → (s.visited p == 1) ≡ true
    → clock_swap_out_victim (suc fuel) s
      ≡ clock_swap_out_victim fuel
          (record s { visited = update s.visited p 0; curr_ptr = list_next (suc p) s.links })
unfolding clock_swap_out_victim
go_on fuel s p e m = let page : suc p - 1 ≡ p = omega arith in rw (e, page, m) refl

clock_swap_out_victim-Evicted :
    (fuel : ℕ) (s : ClockState) (q : ℕ) (qs : List ℕ)
    → Holds s.links (q ∷ qs)
    → HandIn s (q ∷ qs)
    → marked s.visited (q ∷ qs) < fuel
    → (p : ℕ) × (s' : ClockState) × (clock_swap_out_victim fuel s ≡ some (p, s'))
      × Evicted (q ∷ qs) p s'
clock_swap_out_victim-Evicted zero s q qs r i enough = absurd (omega (arith, enough))
clock_swap_out_victim-Evicted (suc fuel) s q qs r i enough =
    let (p, c, e) = skip_head-mem s q qs r i in
    elim (Bool-cases (s.visited p == 1)) [
      | inl m ↦
          let s1 : ClockState = record s {
            visited = update s.visited p 0;
            curr_ptr = list_next (suc p) s.links;
          } in
          let less = marked-update s.visited p (q ∷ qs) (ground (arith, m)) c in
          let (p', s', run, v) =
            clock_swap_out_victim-Evicted fuel s1 q qs r
              (list_next-HandIn s.links (update s.visited p 0) (q ∷ qs) p r c)
              (omega (arith, less, enough)) in
          (p', s', go_on fuel s p e m ∙ run, v)
      | inr m ↦ (
        p,
        _,
        stop fuel s p e m,
        (list_del-Holds s.links (q ∷ qs) p r c, ground (arith, m), refl),
      )
    ]

-- On a list with a page, and with the hand on a page or on the head, the search ends within as many rounds as
-- there are pages and one more. Its victim has no mark and leaves the list, but the hand stays on it, so the next call
-- returns the same page again, which is in the list no more.
pub clock_swap_out_victim-repeats :
    (fuel n : ℕ) (s : ClockState) (q : ℕ) (qs : List ℕ)
    → Holds s.links (q ∷ qs)
    → HandIn s (q ∷ qs)
    → length (q ∷ qs) < fuel
    → (p : ℕ) × (s' : ClockState) × (s'' : ClockState) × (clock_swap_out_victim fuel s
        ≡ some (p, s'))
      × Evicted (q ∷ qs) p s'
      × (clock_swap_out_victim (suc n) s' ≡ some (p, s''))
clock_swap_out_victim-repeats fuel n s q qs r i enough =
    let (p, s', run, v) =
      clock_swap_out_victim-Evicted fuel s q qs r i
        (omega (arith, enough, marked-length s.visited (q ∷ qs))) in
    (p, s', _, run, v, stop n s' p (ground (arith, v.2)) (ground (arith, v.1)))
