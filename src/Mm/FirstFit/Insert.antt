-- ===== src/Mm/FirstFit/Insert.antt =====
-- Where the walk of default_init_memmap and default_free_pages puts a block.
use nku_os.Prelude.{
  ℕ, zero, suc, ◌+◌, ◌-◌, ◌≤◌, ◌<◌, ◌≡◌, ◌≢◌, some, List, [], ◌∷◌, ◌++◌, arith, ◌==◌, if◌then◌else◌,
  count, length,
}
use nku_os.LinkedList.{Links, list_add, list_add_before, list_del, list_next, list_prev}
use nku_os.LinkedList.Chain.{Chain, Chain-split}
use nku_os.LinkedList.Laws.{IsRing}
use nku_os.LinkedList.Ops.{list_add_before_lem}
use nku_os.Mm.FirstFit.{free_list, page_link, insert_walk, insert_block}
use nku_os.Mm.FirstFit.Blocks.{Block, addrs, addrs-append, NotAfter}

-- A link that is followed by a block's link is not the last one.
next-not_end :
    (l : Links) (a : ℕ) (xs : List Block) (y : ℕ)
    → Chain l a (addrs xs) (page_link y)
    → l.next a ≢ free_list
next-not_end l a [] y c = ground (arith, c.0)
next-not_end l a ((b, n) ∷ xs) y c = ground (arith, c.0)

-- The walk stops at the first block behind `base`.
insert_walk-before :
    (fuel a base : ℕ) (l : Links) (xs : List Block) (y : ℕ)
    → length xs < fuel
    → NotAfter base xs
    → base < y
    → Chain l a (addrs xs) (page_link y)
    → insert_walk fuel a base l ≡ some (list_add_before (page_link y) (page_link base) l)
unfolding insert_walk
insert_walk-before zero a base l xs y f b h c = absurd (omega arith)
insert_walk-before (suc fuel) a base l [] y f b h c = ground (arith, c.0)
insert_walk-before (suc fuel) a base l ((x, n) ∷ xs) y f b h c = ground (
  arith,
  c.0,
  next-not_end l (page_link x) xs y c.2,
  insert_walk-before fuel (page_link x) base l xs y (omega arith) b.1 h c.2,
)

-- One round at a block that does not lie behind `base`.
insert_walk-round :
    (fuel a base x : ℕ) (l : Links)
    → l.next a ≡ page_link x
    → x ≤ base
    → insert_walk (suc fuel) a base l ≡ (
        if l.next (page_link x) == free_list
        then insert_walk fuel (page_link x) base (list_add (page_link x) (page_link base) l)
        else insert_walk fuel (page_link x) base l)
unfolding insert_walk
insert_walk-round fuel a base x l e h = ground (arith, e)

-- The last round.
insert_walk-stop :
    (fuel a base : ℕ) (l : Links) → l.next a ≡ free_list → insert_walk (suc fuel) a base l ≡ some l
unfolding insert_walk
insert_walk-stop fuel a base l e = ground (arith, e)

-- After the insertion at the end the walk meets the new block.
insert_walk-again :
    (fuel base z : ℕ) (l : Links)
    → z < base
    → l.next (page_link z) ≡ free_list
    → let g = list_add (page_link z) (page_link base) l in
      insert_walk (suc (suc fuel)) (page_link z) base g
      ≡ some (list_add (page_link base) (page_link base) g)
unfolding list_add
insert_walk-again fuel base z l h e =
    let g = list_add (page_link z) (page_link base) l in
    ground (
      arith,
      insert_walk-round (suc fuel) (page_link z) base base g,
      insert_walk-stop fuel (page_link base) base (list_add (page_link base) (page_link base) g),
    )

-- With no block behind `base` the walk inserts it at the end, and once more behind itself.
insert_walk-last :
    (fuel a base : ℕ) (l : Links) (xs : List Block) (z : ℕ)
    → length xs < fuel
    → NotAfter base xs
    → z < base
    → Chain l a (addrs xs) (page_link z)
    → list_next (page_link z) l ≡ free_list
    → insert_walk (suc (suc fuel)) a base l
      ≡ some
          (list_add (page_link base) (page_link base) (list_add (page_link z) (page_link base) l))
insert_walk-last zero a base l xs z f b h c e = absurd (omega arith)
insert_walk-last (suc fuel) a base l [] z f b h c e =
    ground (
      arith,
      insert_walk-round (suc (suc fuel)) a base z l c.0,
      insert_walk-again fuel base z l h e,
    )
insert_walk-last (suc fuel) a base l ((x, m) ∷ xs) z f b h c e = ground (
  arith,
  insert_walk-round (suc (suc fuel)) a base x l c.0 b.0,
  next-not_end l (page_link x) xs z c.2,
  insert_walk-last fuel (page_link x) base l xs z (omega arith) b.1 h c.2 e,
)

module _ (fuel base : ℕ) (l : Links) (xs : List Block) where
  -- When some block of a well-formed list lies behind `base`, the walk ends, and inserts the block
  -- by address: before the first block behind it, and nothing else moves.
  pub insert_block-ordered :
      (y n m : ℕ) (ys : List Block)
      → IsRing l free_list (addrs (xs ++ (y, m) ∷ ys))
      → count (page_link base) (addrs (xs ++ (y, m) ∷ ys)) ≡ 0
      → NotAfter base xs
      → base < y
      → length xs < fuel
      → (g : Links) × (insert_block fuel base l ≡ some g)
        × IsRing g free_list (addrs (xs ++ (base, n) ∷ (y, m) ∷ ys))
  unfolding insert_block
  insert_block-ordered y n m ys r out before h f =
      let e = addrs-append xs ((y, m) ∷ ys) in
      let r' : IsRing l free_list (addrs xs ++ page_link y ∷ addrs ys) = rw e at r in
      let c = Chain-split l free_list (addrs xs) (page_link y) (addrs ys) free_list r'.chain in
      (
        list_add_before (page_link y) (page_link base) l,
        ground (
          arith,
          insert_walk-before fuel free_list base l xs y f before h c.0,
          next-not_end l free_list xs y c.0,
        ),
        rw (addrs-append xs ((base, n) ∷ (y, m) ∷ ys)) (
            list_add_before_lem l free_list (addrs xs) (page_link y) (addrs ys) r' (page_link base)
              (ground (arith, out, e))),
      )

  -- When no block of the list lies behind `base`, the walk inserts the block at the end and then
  -- a second time behind itself: its `prev` points to itself, the list read forwards ends with it,
  -- and `list_del` of it changes no `next` pointer, so that it cannot be unlinked.
  -- The other `next` pointers are as before.
  pub insert_block-self_link :
      (z n : ℕ)
      → IsRing l free_list (addrs (xs ++ (z, n) ∷ []))
      → NotAfter base xs
      → z < base
      → length xs + 2 < fuel
      → (g : Links) × (insert_block fuel base l ≡ some g)
        × (list_prev (page_link base) g ≡ page_link base)
        × (list_next (page_link z) g ≡ page_link base)
        × (list_next (page_link base) g ≡ free_list)
        × ((k : ℕ) → list_next k (list_del (page_link base) g) ≡ list_next k g)
        × ((k : ℕ) → k ≢ page_link z → k ≢ page_link base → list_next k g ≡ list_next k l)
  unfolding insert_block list_add list_del
  insert_block-self_link z n r before h f =
      let e = addrs-append xs ((z, n) ∷ []) in
      let r' : IsRing l free_list (addrs xs ++ page_link z ∷ []) = rw e at r in
      let c = Chain-split l free_list (addrs xs) (page_link z) [] free_list r'.chain in
      let k : fuel ≡ suc (suc (fuel - 2)) = omega arith in
      (
        list_add (page_link base) (page_link base) (list_add (page_link z) (page_link base) l),
        rw k (
            ground (
              arith,
              insert_walk-last (fuel - 2) free_list base l xs z (omega arith) before h c.0 c.1.0,
              next-not_end l free_list xs z c.0,
            )),
        ground arith,
        ground arith,
        ground (arith, c.1.0),
        λ j. ground (arith, c.1.0),
        λ j p q. ground (arith, c.1.0),
      )
