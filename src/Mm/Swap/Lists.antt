-- ===== src/Mm/Swap/Lists.antt =====
-- The FIFO and LRU lists as queues of pages.
use mathlib.Core.Path.{subst}
use nku_os.Prelude.{
  ℕ, suc, ◌≡◌, ◌≢◌, refl, ap, Option, none, some, List, [], ◌∷◌, ◌++◌, ◌<◌, ◌∙◌, map, arith, count,
  count-append, ◌==◌, if◌then◌else◌, Bool-cases, inl, inr,
}
use nku_os.Prelude.Partial.{◌>>=◌}
use nku_os.LinkedList.{Links, list_add, list_del, list_prev}
use nku_os.LinkedList.Laws.{IsRing, list_add_after-head, list_add_before-head}
use nku_os.LinkedList.Ops.{list_del_lem, snoc-cases}
use nku_os.LinkedList.Chain.{Chain-split}
use nku_os.Mm.Swap.{
  pra_list_head, pra_page_link, fifo_map_swappable, fifo_swap_out_victim, lru_map_swappable,
}

-- The list holds these pages in this order.
abbrev pub Holds : Links → List ℕ → Type 0
Holds l ps = IsRing l pra_list_head (map pra_page_link ps)

count-links : (p : ℕ) (ps : List ℕ) → count (suc p) (map pra_page_link ps) ≡ count p ps
count-links p [] = refl
count-links p (q ∷ ps) = ground (arith, count-links p ps)

pub map-snoc :
    (ps : List ℕ) (p : ℕ) → map pra_page_link (ps ++ p ∷ []) ≡ map pra_page_link ps ++ suc p ∷ []
map-snoc [] p = refl
map-snoc (q ∷ ps) p = ap (λ xs. suc q ∷ xs) (map-snoc ps p)

fifo_map_swappable-Holds :
    (l : Links) (ps : List ℕ) (p : ℕ)
    → Holds l ps
    → count p ps ≡ 0
    → Holds (fifo_map_swappable p l) (ps ++ p ∷ [])
unfolding fifo_map_swappable
fifo_map_swappable-Holds l ps p r out = rw (map-snoc ps p) (
    list_add_before-head l 0 (suc p) (map pra_page_link ps) r
      (ground (arith, out, count-links p ps)))

fifo_swap_out_victim-Holds :
    (l : Links) (ps : List ℕ) (p : ℕ)
    → Holds l (p ∷ ps)
    → ((fifo_swap_out_victim l).0 ≡ p) × Holds (fifo_swap_out_victim l).1 ps
unfolding fifo_swap_out_victim
fifo_swap_out_victim-Holds l ps p r =
    let first = r.chain.0 in
    let gone = list_del_lem l 0 [] (suc p) (map pra_page_link ps) r in
    (ground (arith, first), rw first gone)

-- What happens to the pages of one address space: one becomes swappable, or a victim is chosen.
pub data Event : Type 0 where
  arrive : ℕ → Event
  evict : Event

-- The victims, in order, and the list at the end.
unfoldable pub fifo_run : List Event → Links → List ℕ × Links
fifo_run [] l = ([], l)
fifo_run (arrive p ∷ es) l = fifo_run es (fifo_map_swappable p l)
fifo_run (evict ∷ es) l =
    let (p, l') = fifo_swap_out_victim l in
    let (victims, l'') = fifo_run es l' in (p ∷ victims, l'')

-- The same for a queue, where no page arrives twice and a victim is asked for only if there is one.
unfoldable pub queue_run : List Event → List ℕ → Option (List ℕ × List ℕ)
queue_run [] ps = some ([], ps)
queue_run (arrive p ∷ es) ps =
    let rest = queue_run es (ps ++ p ∷ []) in if count p ps == 0 then rest else none
queue_run (evict ∷ es) [] = none
queue_run (evict ∷ es) (p ∷ ps) = do (victims, qs) ← queue_run es ps; some (p ∷ victims, qs)

-- The run of the list does what the run of the queue does, if that makes sense.
abbrev Follows : Option (List ℕ × List ℕ) → List ℕ × Links → Type 0
Follows none r = Unit {0}
Follows (some (victims, qs)) (us, l) = (us ≡ victims) × Holds l qs

Follows-evict :
    (p q : ℕ) (o : Option (List ℕ × List ℕ)) (r : List ℕ × Links)
    → q ≡ p
    → Follows o r
    → Follows (do (victims, qs) ← o; some (p ∷ victims, qs)) (q ∷ r.0, r.1)
Follows-evict p q none r e h = tt
Follows-evict p q (some (victims, qs)) (us, l) e h = (cc (e, h.0), h.1)

fifo_run-Follows :
    (es : List Event) (l : Links) (ps : List ℕ)
    → Holds l ps
    → Follows (queue_run es ps) (fifo_run es l)
unfolding fifo_run queue_run
fifo_run-Follows [] l ps r = (refl, r)
fifo_run-Follows (arrive p ∷ es) l ps r = elim (Bool-cases (count p ps == 0)) [
  | inl new ↦ rw new (
      fifo_run-Follows es (fifo_map_swappable p l) (ps ++ p ∷ [])
        (fifo_map_swappable-Holds l ps p r (ground (arith, new))))
  | inr old ↦ rw old tt
]
fifo_run-Follows (evict ∷ es) l [] r = tt
fifo_run-Follows (evict ∷ es) l (p ∷ ps) r =
    let v = fifo_swap_out_victim-Holds l ps p r in
    Follows-evict p (fifo_swap_out_victim l).0 (queue_run es ps)
      (fifo_run es (fifo_swap_out_victim l).1) v.0
      (fifo_run-Follows es (fifo_swap_out_victim l).1 ps v.1)

-- The FIFO policy on the linked list chooses the victims that a queue chooses, for every sequence
-- of arrivals and evictions that makes sense for the queue, and the list holds the queue's pages at the end.
pub fifo_run-Holds :
    (es : List Event) (l : Links) (ps victims qs : List ℕ)
    → Holds l ps
    → queue_run es ps ≡ some (victims, qs)
    → ((fifo_run es l).0 ≡ victims) × Holds (fifo_run es l).1 qs
fifo_run-Holds es l ps victims qs r h =
    subst (λ o. Follows o (fifo_run es l)) h (fifo_run-Follows es l ps r)

-- The LRU list has the page that became swappable last at its front; the victim is the one at the back, and
-- there is none in an empty list.
pub lru_lists :
    (l : Links) (ps : List ℕ) (p : ℕ)
    → count p ps ≡ 0
    → Holds l ps
    → Holds (lru_map_swappable p l) (p ∷ ps)
unfolding lru_map_swappable list_add
lru_lists l ps p out r =
    list_add_after-head l 0 (suc p) (map pra_page_link ps) r (ground (arith, out, count-links p ps))

pub split :
    (p : ℕ) (ps : List ℕ) → 0 < count p ps → (xs : List ℕ) × (ys : List ℕ) × (ps ≡ xs ++ p ∷ ys)
split p [] c = absurd (omega (arith, c))
split p (q ∷ qs) c = elim (Bool-cases (p == q)) [
  | inl e ↦ (let same : q ≡ p = ground (arith, e) in ([], qs, ap (λ x. x ∷ qs) same))
  | inr e ↦ let (xs, ys, s) = split p qs (ground (arith, c, e)) in (q ∷ xs, ys, ap (λ zs. q ∷ zs) s)
]

pub map-append :
    (xs : List ℕ) (p : ℕ) (ys : List ℕ)
    → map pra_page_link (xs ++ p ∷ ys) ≡ map pra_page_link xs ++ suc p ∷ map pra_page_link ys
map-append [] p ys = refl
map-append (x ∷ xs) p ys = ap (λ zs. suc x ∷ zs) (map-append xs p ys)

-- `list_del` of a page takes it out.
pub list_del-Holds :
    (l : Links) (ps : List ℕ) (p : ℕ)
    → Holds l ps
    → 0 < count p ps
    → (xs : List ℕ) × (ys : List ℕ) × (ps ≡ xs ++ p ∷ ys) × Holds (list_del (suc p) l) (xs ++ ys)
list_del-Holds l ps p r c =
    let (xs, ys, s) = split p ps c in
    let r' : IsRing l 0 (map pra_page_link xs ++ suc p ∷ map pra_page_link ys) =
      subst (λ zs. IsRing l 0 zs) (ap (map pra_page_link) s ∙ map-append xs p ys) r in
    (
      xs,
      ys,
      s,
      rw (map-append-map xs ys)
          (list_del_lem l 0 (map pra_page_link xs) (suc p) (map pra_page_link ys) r'),
    )
  where
    map-append-map :
        (xs ys : List ℕ)
        → map pra_page_link (xs ++ ys) ≡ map pra_page_link xs ++ map pra_page_link ys
    map-append-map [] ys = refl
    map-append-map (x ∷ xs) ys = ap (λ zs. suc x ∷ zs) (map-append-map xs ys)

-- The last page of a list that has one.
pub list_prev-mem :
    (l : Links) (ps : List ℕ)
    → Holds l ps
    → ps ≢ []
    → (p : ℕ) × (0 < count p ps) × (list_prev pra_list_head l ≡ suc p)
list_prev-mem l ps r some_page = elim (snoc-cases ps) [
  | inl e ↦ absurd (some_page e)
  | inr (ys, z, e) ↦
      let r' : IsRing l 0 (map pra_page_link ys ++ suc z ∷ []) =
        subst (λ zs. IsRing l 0 zs) (ap (map pra_page_link) e ∙ map-append ys z []) r in
      (
        z,
        rw e (ground (arith, count-append z ys (z ∷ []))),
        (Chain-split l 0 (map pra_page_link ys) (suc z) [] 0 r'.chain).1.1,
      )
]

-- No page is twice in a list.
pub Holds-once :
    (l : Links) (ps xs : List ℕ) (p : ℕ) (ys : List ℕ)
    → Holds l ps
    → ps ≡ xs ++ p ∷ ys
    → count p (xs ++ ys) ≡ 0
Holds-once l ps xs p ys r e =
    let all : count p ps ≡ count p (xs ++ p ∷ ys) = ap (count p) e in
    ground (
      arith,
      all,
      r.distinct (suc p),
      count-links p ps,
      count-append p xs ys,
      count-append p xs (p ∷ ys),
    )
