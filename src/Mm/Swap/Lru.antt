-- ===== src/Mm/Swap/Lru.antt =====
-- The loop of `_lru_tick_event` in lab3/kern/mm/swap_lru.c.
use nku_os.Prelude.{
  ℕ, zero, suc, ◌≡◌, ◌≢◌, refl, false, none, List, [], ◌∷◌, ◌++◌, ◌-◌, ap, length, arith, ◌==◌,
  Bool-cases, inl, inr, count, ◌<◌,
}
use nku_os.LinkedList.{list_next, list_prev, list_add, list_del}
use nku_os.Mm.Swap.{
  pra_list_head, LruState, lru_map_swappable, lru_touch, lru_tick_from, lru_tick_event,
}
use nku_os.Mm.Swap.Lists.{Holds, list_del-Holds, list_prev-mem, lru_lists, Holds-once}

-- A step at a page of the list leaves a list that has a page.
lru_touch-Holds :
    (s : LruState) (ps : List ℕ) (p : ℕ)
    → Holds s.links ps
    → 0 < count p ps
    → (qs : List ℕ) × (qs ≢ []) × Holds (lru_touch (suc p) s).links qs
unfolding lru_touch lru_map_swappable
lru_touch-Holds s ps p r c = elim (Bool-cases (s.accessed p)) [
  | inl a ↦
      let page : suc p - 1 ≡ p = omega arith in
      let (xs, ys, e, gone) = list_del-Holds s.links ps p r c in
      let new : Holds (list_add 0 (suc p) (list_del (suc p) s.links)) (p ∷ xs ++ ys) =
        lru_lists (list_del (suc p) s.links) (xs ++ ys) p (Holds-once s.links ps xs p ys r e)
          gone in
      (p ∷ xs ++ ys, λ h. absurd (ground (arith, ap length h)), rw (page, a) new)
  | inr a ↦
      let page : suc p - 1 ≡ p = omega arith in
      (ps, λ h. absurd (ground (arith, h, c)), rw (page, a) r)
]

lru_tick_from-none :
    (fuel entry : ℕ) (s : LruState) (ps : List ℕ)
    → Holds s.links ps
    → ps ≢ []
    → (p : ℕ) × (0 < count p ps) × (entry ≡ suc p)
    → lru_tick_from fuel entry s ≡ none
unfolding lru_tick_from
lru_tick_from-none zero entry s ps r ne at_page = refl
lru_tick_from-none (suc fuel) entry s ps r ne (p, c, e) =
    let (qs, ne', r') = lru_touch-Holds s ps p r c in
    let s' = lru_touch (suc p) s in
    let rest : lru_tick_from fuel (list_prev pra_list_head s'.links) s' ≡ none =
      lru_tick_from-none fuel (list_prev pra_list_head s'.links) s' qs r' ne'
        (list_prev-mem s'.links qs r' ne') in
    let other : (suc p == 0) ≡ false = ground arith in rw (e, rest, other) refl

-- With a page in the list, the loop of the LRU tick never ends: no number of rounds is enough, since
-- each round goes back to the last page of the list, which is never the head.
pub lru_tick_event-none :
    (fuel : ℕ) (s : LruState) (p : ℕ) (ps : List ℕ)
    → Holds s.links (p ∷ ps)
    → lru_tick_event fuel s ≡ none
unfolding lru_tick_event
lru_tick_event-none fuel s p ps r =
    lru_tick_from-none fuel (list_next pra_list_head s.links) s (p ∷ ps) r
      (λ h. absurd (ground (arith, ap length h))) (p, ground arith, r.chain.0)
