-- ===== src/Mm/Buddy/Free.antt =====
-- What `buddy_free_pages` does with a block whose buddy is free.
use nku_os.Prelude.{
  ℕ, suc, ◌+◌, ◌%◌, ◌^◌, ◌<◌, ◌≡◌, ◌∙◌, refl, Bool, true, false, ◌&&◌, some, List, [], ◌∷◌, ◌++◌,
  ltb, lt→ltb, ◌==◌, if◌then◌else◌, Bool-cases, inl, inr, arith, count, count-append,
}
use nku_os.Prelude.Partial.{if_true, if_false}
use nku_os.LinkedList.{Links, list_add, list_del}
use nku_os.LinkedList.Laws.{IsRing, IsRing-rotate, list_add_after-head}
use nku_os.LinkedList.Ops.{list_del_lem, list_ops_frame}
use nku_os.Mm.Buddy.{
  FreeBuddy, free_array, buddy_link, ceil_pow2, get_buddy, merge_pair, merge_from, buddy_free_pages,
}

-- No node of the second list is in the first.
abbrev pub Apart : List ℕ → List ℕ → Type 0
Apart xs zs = (n : ℕ) → 0 < count n zs → count n xs ≡ 0

list_del-rings :
    (l : Links) (h : ℕ) (xs : List ℕ) (m : ℕ) (ys : List ℕ) (k : ℕ) (zs : List ℕ)
    → IsRing l h (xs ++ m ∷ ys)
    → IsRing l k zs
    → Apart (h ∷ xs ++ m ∷ ys) (k ∷ zs)
    → IsRing (list_del m l) h (xs ++ ys) × IsRing (list_del m l) k zs
list_del-rings l h xs m ys k zs r q apart =
    let away : count m (k ∷ zs) ≡ 0 = ground (arith, apart m, count-append m xs (m ∷ ys)) in
    let apart' : Apart (m ∷ ys ++ h ∷ xs) (k ∷ zs) =
      λ n p. ground (arith, apart n p, count-append n xs (m ∷ ys), count-append n ys (h ∷ xs)) in
    (
      list_del_lem l h xs m ys r,
      (list_ops_frame l m (ys ++ h ∷ xs) k m zs (IsRing-rotate l h xs m ys r) q apart' away).2,
    )

list_add-rings :
    (l : Links) (h : ℕ) (ys : List ℕ) (k : ℕ) (zs : List ℕ) (e : ℕ)
    → IsRing l h ys
    → IsRing l k zs
    → Apart (h ∷ ys) (k ∷ zs)
    → count e (h ∷ ys) ≡ 0
    → count e (k ∷ zs) ≡ 0
    → IsRing (list_add h e l) h (e ∷ ys) × IsRing (list_add h e l) k zs
unfolding list_add
list_add-rings l h ys k zs e r q apart out away =
    (list_add_after-head l h e ys r out, (list_ops_frame l h ys k e zs r q apart away).0)

-- Both nodes, the first at the front, are taken out in either order.
list_del-two :
    (l : Links) (h e : ℕ) (xs : List ℕ) (m : ℕ) (ys : List ℕ) (k : ℕ) (zs : List ℕ)
    → IsRing l h (e ∷ xs ++ m ∷ ys)
    → IsRing l k zs
    → Apart (h ∷ e ∷ xs ++ m ∷ ys) (k ∷ zs)
    → (IsRing (list_del m (list_del e l)) h (xs ++ ys) × IsRing (list_del m (list_del e l)) k zs)
      × (IsRing (list_del e (list_del m l)) h (xs ++ ys) × IsRing (list_del e (list_del m l)) k zs)
list_del-two l h e xs m ys k zs r q apart =
    let (a, b) = list_del-rings l h [] e (xs ++ m ∷ ys) k zs r q apart in
    let (c, d) = list_del-rings l h (e ∷ xs) m ys k zs r q apart in
    (
      list_del-rings (list_del e l) h xs m ys k zs a b (λ n p. ground (arith, apart n p)),
      list_del-rings (list_del m l) h [] e (xs ++ ys) k zs c d
          (λ n p. ground (arith, apart n p, count-append n xs (m ∷ ys), count-append n xs ys)),
    )

merge_stop :
    (fuel left_block buddy : ℕ) (b : FreeBuddy)
    → (b.page buddy).property_flag ≡ false
    → merge_from (suc fuel) left_block buddy b ≡ some b
unfolding merge_from
merge_stop fuel left_block buddy b clear =
    if_false (ltb (b.page left_block).property b.max_order && (b.page buddy).property_flag) _
      (some b) (rw clear (and_false (ltb (b.page left_block).property b.max_order)))
  where
    and_false : (t : Bool) → (t && false) ≡ false
    and_false true = refl
    and_false false = refl

cleared :
    (left right : ℕ) (b : FreeBuddy) → ((merge_pair left right b).page right).property_flag ≡ false
cleared left right b = let self : (right == right) ≡ true = ground arith in rw self refl

-- The loop stops after one round: the mark of the head of the buddy is gone.
merge_once :
    (fuel left_block buddy : ℕ) (b : FreeBuddy)
    → ltb (b.page left_block).property b.max_order ≡ true
    → (b.page buddy).property_flag ≡ true
    → merge_from (suc (suc fuel)) left_block buddy b
      ≡ some (
          merge_pair
            (if ltb buddy left_block then buddy else left_block)
            (if ltb buddy left_block then left_block else buddy)
            b)
unfolding merge_from
merge_once fuel left_block buddy b low free =
    let left = if ltb buddy left_block then buddy else left_block in
    let right = if ltb buddy left_block then left_block else buddy in
    let both : (ltb (b.page left_block).property b.max_order && (b.page buddy).property_flag)
        ≡ true =
      rw (low, free) refl in
    if_true (ltb (b.page left_block).property b.max_order && (b.page buddy).property_flag) _
      (some b) both
    ∙ merge_stop fuel left right (merge_pair left right b) (cleared left right b)

-- The lists after a merge of the block at the front with its buddy, in either order.
abbrev Gone : Links → (order : ℕ) → (ys : List ℕ) → (k : ℕ) → List ℕ → Type 0
Gone l order ys k zs = IsRing l (free_array order) ys × IsRing l k zs

merge_pair-Gone :
    (b : FreeBuddy) (order base buddy : ℕ) (xs ys : List ℕ) (k : ℕ) (zs : List ℕ)
    → IsRing b.links (free_array order) (buddy_link base ∷ xs ++ buddy_link buddy ∷ ys)
    → IsRing b.links k zs
    → Apart (free_array order ∷ buddy_link base ∷ xs ++ buddy_link buddy ∷ ys) (k ∷ zs)
    → Gone
        (merge_pair
          (if ltb buddy base then buddy else base)
          (if ltb buddy base then base else buddy)
          b).links
        order
        (xs ++ ys)
        k
        zs
merge_pair-Gone b order base buddy xs ys k zs r q apart =
    let (up, down) =
      list_del-two b.links (free_array order) (buddy_link base) xs (buddy_link buddy) ys k zs r q
        apart in
    elim (Bool-cases (ltb buddy base)) [ inl t ↦ rw t down | inr t ↦ rw t up ]

-- A block of `2 ^ order` pages that is freed while its buddy is marked as a free head in the list of that order is
-- lost with it, where larger orders exist: the buddy leaves its list, the joined block enters neither
-- that list nor any other one, such as that of the next order, and yet its pages count as free.
pub buddy_free_pages-loses :
    (fuel base n : ℕ) (b : FreeBuddy) (xs ys : List ℕ) (k : ℕ) (zs : List ℕ)
    → 0 < n
    → ceil_pow2 (suc (suc fuel)) n ≡ some (2 ^ (b.page base).property)
    → (b.page base).property < b.max_order
    → (b.page (get_buddy base b)).property_flag ≡ true
    → IsRing b.links (free_array (b.page base).property) (xs ++ buddy_link (get_buddy base b) ∷ ys)
    → IsRing b.links k zs
    → Apart (free_array (b.page base).property ∷ xs ++ buddy_link (get_buddy base b) ∷ ys) (k ∷ zs)
    → count
        (buddy_link base)
        (free_array (b.page base).property ∷ xs ++ buddy_link (get_buddy base b) ∷ ys)
      ≡ 0
    → count (buddy_link base) (k ∷ zs) ≡ 0
    → (b' : FreeBuddy) × (buddy_free_pages (suc (suc fuel)) base n b ≡ some b')
      × IsRing b'.links (free_array (b.page base).property) (xs ++ ys)
      × IsRing b'.links k zs
      × (b'.nr_free ≡ (b.nr_free + 2 ^ (b.page base).property) % 2 ^ 32)
unfolding buddy_free_pages get_buddy
buddy_free_pages-loses fuel base n b xs ys k zs pos size low free r q apart out away =
    let order = (b.page base).property in
    let buddy = get_buddy base b in
    let b1 : FreeBuddy = record b {
      links = list_add (free_array order) (buddy_link base) b.links;
    } in
    let (r1, q1) =
      list_add-rings b.links (free_array order) (xs ++ buddy_link buddy ∷ ys) k zs (buddy_link base)
        r q apart out away in
    let gone =
      merge_pair-Gone b1 order base buddy xs ys k zs r1 q1
        (λ m p. ground (arith, apart m p, p, away)) in
    let once = merge_once fuel base buddy b1 (lt→ltb order b.max_order low) free in
    let self : (2 ^ order == 2 ^ order) ≡ true = ground arith in
    let b2 =
      merge_pair (if ltb buddy base then buddy else base) (if ltb buddy base then base else buddy)
        b1 in
    let b' : FreeBuddy = record b2 { nr_free = (b2.nr_free + 2 ^ order) % 2 ^ 32 } in
    (b', rw (lt→ltb 0 n pos, size, self, once) refl, gone.0, gone.1, refl)
