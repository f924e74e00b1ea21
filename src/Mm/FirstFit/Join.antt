-- ===== src/Mm/FirstFit/Join.antt =====
-- The two joins at the end of default_free_pages, on a well-formed free list.
use nku_os.Prelude.{
  ℕ, ◌+◌, ◌^◌, ◌≤◌, ◌<◌, ◌≡◌, ◌≢◌, refl, sym, true, List, [], ◌∷◌, ◌++◌, arith, ◌==◌, if◌then◌else◌,
  count, count-append, append_assoc, ◌⊎◌, inl, inr, Bool-cases,
}
use mathlib.Core.Path.{subst}
use nku_os.LinkedList.Chain.{Chain, Chain-split}
use nku_os.LinkedList.Laws.{IsRing}
use nku_os.LinkedList.Ops.{list_del_lem, snoc-cases}
use nku_os.Mm.FirstFit.{FreeArea, free_list, page_link, join_blocks, merge_before, merge_after}
use nku_os.Mm.FirstFit.Blocks.{
  Block, addrs, addrs-append, total, total-append, IsArea, ordered_replace, ordered_tail,
  Heads-frame, Heads-append, Heads-split,
}

module _ (s : FreeArea) (xs : List Block) (p k m : ℕ) (ys : List Block)
    (v : IsArea s (xs ++ (p, k) ∷ (p + k, m) ∷ ys)) where
  whole :
      addrs (xs ++ (p, k) ∷ (p + k, m) ∷ ys)
      ≡ addrs xs ++ page_link p ∷ page_link (p + k) ∷ addrs ys
  whole = addrs-append xs ((p, k) ∷ (p + k, m) ∷ ys)

  once : (j : ℕ) → count j (addrs xs) + count j (page_link p ∷ page_link (p + k) ∷ addrs ys) ≤ 1
  once j = ground (
    arith,
    v.ring.distinct j,
    whole,
    count-append j (addrs xs) (page_link p ∷ page_link (p + k) ∷ addrs ys),
  )

  sizes : ((s.page p).property ≡ k) × ((s.page (p + k)).property ≡ m) × ((s.page p).head ≡ true)
  sizes =
      let t = (Heads-split s.page xs ((p, k) ∷ (p + k, m) ∷ ys) v.heads).1 in
      (t.0.0, t.1.0.0, t.0.1)

  sum_small : k + m + total ys < 2 ^ 32
  sum_small = omega (arith, v.small, total-append xs ((p, k) ∷ (p + k, m) ∷ ys))

  join_blocks-IsArea : IsArea (join_blocks p (p + k) s) (xs ++ (p, k + m) ∷ ys)
  unfolding join_blocks
  join_blocks-IsArea = record {
    ring =
        rw
          (
            addrs-append xs ((p, k + m) ∷ ys),
            ← append_assoc (addrs xs) (page_link p ∷ []) (addrs ys),
          )
          (list_del_lem s.links free_list (addrs xs ++ page_link p ∷ []) (page_link (p + k))
            (addrs ys)
            (rw (append_assoc (addrs xs) (page_link p ∷ []) (page_link (p + k) ∷ addrs ys))
              (rw whole at v.ring)));
    heads =
        let (h, t) = Heads-split s.page xs ((p, k) ∷ (p + k, m) ∷ ys) v.heads in
        Heads-append (join_blocks p (p + k) s).page xs ((p, k + m) ∷ ys)
          (Heads-frame s.page (join_blocks p (p + k) s).page xs h
            (λ j c. ground (arith, once (page_link j), c)))
          (
            ground (arith, sizes, sum_small, v.ordered, once (page_link p)),
            Heads-frame s.page (join_blocks p (p + k) s).page ys t.1.1
                (λ j c. ground (arith, once (page_link j), c)),
          );
    ordered =
        let o = ordered_tail 0 xs p k ((p + k, m) ∷ ys) v.ordered in
        ordered_replace 0 xs p k ((p + k, m) ∷ ys) ((p, k + m) ∷ ys) v.ordered
          (omega arith, omega (arith, o.1), rw (regroup p k m) at o.2.2);
    counted = omega (
      arith,
      v.counted,
      total-append xs ((p, k) ∷ (p + k, m) ∷ ys),
      total-append xs ((p, k + m) ∷ ys),
    );
    small = omega (
      arith,
      v.small,
      total-append xs ((p, k) ∷ (p + k, m) ∷ ys),
      total-append xs ((p, k + m) ∷ ys),
    );
  }
    where
      regroup : (a b c : ℕ) → a + b + c ≡ a + (b + c)
      regroup a b c = omega arith

-- Joins a block to the first of the blocks that follow it, if they touch.
unfoldable pub join_next : Block → List Block → List Block
join_next x [] = x ∷ []
join_next (b, n) ((c, m) ∷ xs) = if b + n == c then (b, n + m) ∷ xs else (b, n) ∷ (c, m) ∷ xs

merge_after-joins :
    (s : FreeArea) (b y : ℕ)
    → s.links.next (page_link b) ≡ page_link y
    → b + (s.page b).property ≡ y
    → merge_after b s ≡ join_blocks b y s
unfolding merge_after
merge_after-joins s b y e h = ground (arith, e, h)

merge_after-last :
    (s : FreeArea) (b : ℕ) → s.links.next (page_link b) ≡ free_list → merge_after b s ≡ s
unfolding merge_after
merge_after-last s b e = ground (arith, e)

merge_after-keeps :
    (s : FreeArea) (b y : ℕ)
    → s.links.next (page_link b) ≡ page_link y
    → b + (s.page b).property ≢ y
    → merge_after b s ≡ s
unfolding merge_after
merge_after-keeps s b y e h = ground (arith, e, h)

merge_after-IsArea :
    (s : FreeArea) (xs : List Block) (b n : ℕ) (ys : List Block)
    → IsArea s (xs ++ (b, n) ∷ ys)
    → IsArea (merge_after b s) (xs ++ join_next (b, n) ys)
unfolding join_next
merge_after-IsArea s xs b n ys v =
    let e = addrs-append xs ((b, n) ∷ ys) in
    let r : IsRing s.links free_list (addrs xs ++ page_link b ∷ addrs ys) = rw e at v.ring in
    let size = (Heads-split s.page xs ((b, n) ∷ ys) v.heads).1.0.0 in
    go ys v (Chain-split s.links free_list (addrs xs) (page_link b) (addrs ys) free_list r.chain).1
      size
  where
    go :
        (zs : List Block)
        → IsArea s (xs ++ (b, n) ∷ zs)
        → Chain s.links (page_link b) (addrs zs) free_list
        → (s.page b).property ≡ n
        → IsArea (merge_after b s) (xs ++ join_next (b, n) zs)
    go [] a c p = rw (merge_after-last s b c.0) a
    go ((y, m) ∷ zs) a c p = elim (Bool-cases (b + n == y)) [
      | inl touch ↦
          let t : b + n ≡ y = ground (arith, touch) in
          rw (merge_after-joins s b y c.0 (ground (arith, p, t)), touch)
            (subst (λ u. IsArea (join_blocks b u s) (xs ++ (b, n + m) ∷ zs)) t
              (join_blocks-IsArea s xs b n m zs
                (subst (λ u. IsArea s (xs ++ (b, n) ∷ (u, m) ∷ zs)) (sym t) a)))
      | inr apart ↦ rw (merge_after-keeps s b y c.0 (ground (arith, p, apart)), apart) a
    ]

-- The blocks `xs` and `ys` with a block put between them, joined to its neighbours if they touch.
unfoldable pub join_between : List Block → Block → List Block → List Block
unfolding join_next
join_between [] x ys = join_next x ys
join_between ((z, k) ∷ []) (b, n) ys =
    if z + k == b then join_next (z, k + n) ys else (z, k) ∷ join_next (b, n) ys
join_between (v ∷ w ∷ xs) x ys = v ∷ join_between (w ∷ xs) x ys

join_between-snoc :
    (us : List Block) (z k b n : ℕ) (ys : List Block)
    → join_between (us ++ (z, k) ∷ []) (b, n) ys
      ≡ (if z + k == b then us ++ join_next (z, k + n) ys else us ++ (z, k) ∷ join_next (b, n) ys)
unfolding join_between
join_between-snoc [] z k b n ys = refl
join_between-snoc (v ∷ []) z k b n ys = elim (Bool-cases (z + k == b)) [
  | inl e ↦ rw e
  | inr e ↦ rw e
]
join_between-snoc (v ∷ w ∷ us) z k b n ys = elim (Bool-cases (z + k == b)) [
  | inl e ↦ rw (join_between-snoc (w ∷ us) z k b n ys, e)
  | inr e ↦ rw (join_between-snoc (w ∷ us) z k b n ys, e)
]

merge_before-first :
    (s : FreeArea) (b : ℕ) → s.links.prev (page_link b) ≡ free_list → merge_before b s ≡ (b, s)
unfolding merge_before
merge_before-first s b e = ground (arith, e)

merge_before-joins :
    (s : FreeArea) (b z : ℕ)
    → s.links.prev (page_link b) ≡ page_link z
    → z + (s.page z).property ≡ b
    → merge_before b s ≡ (z, join_blocks z b s)
unfolding merge_before
merge_before-joins s b z e h = ground (arith, e, h)

merge_before-keeps :
    (s : FreeArea) (b z : ℕ)
    → s.links.prev (page_link b) ≡ page_link z
    → z + (s.page z).property ≢ b
    → merge_before b s ≡ (b, s)
unfolding merge_before
merge_before-keeps s b z e h = ground (arith, e, h)

-- Both joins, on a state in which the new block is listed.
abbrev pub merge_both : ℕ → FreeArea → FreeArea
merge_both b s = let (c, t) = merge_before b s in merge_after c t

pub merge_both-IsArea :
    (s : FreeArea) (xs : List Block) (b n : ℕ) (ys : List Block)
    → IsArea s (xs ++ (b, n) ∷ ys)
    → IsArea (merge_both b s) (join_between xs (b, n) ys)
unfolding join_between
merge_both-IsArea s xs b n ys v =
    let e = addrs-append xs ((b, n) ∷ ys) in
    let r : IsRing s.links free_list (addrs xs ++ page_link b ∷ addrs ys) = rw e at v.ring in
    go (snoc-cases xs)
      (Chain-split s.links free_list (addrs xs) (page_link b) (addrs ys) free_list r.chain).0
  where
    snoc :
        (us : List Block) (z k : ℕ)
        → IsArea s (us ++ (z, k) ∷ (b, n) ∷ ys)
        → s.links.prev (page_link b) ≡ page_link z
        → IsArea (merge_both b s) (join_between (us ++ (z, k) ∷ []) (b, n) ys)
    snoc us z k a p =
        let size = (Heads-split s.page us ((z, k) ∷ (b, n) ∷ ys) a.heads).1.0.0 in
        elim (Bool-cases (z + k == b)) [
          | inl touch ↦
              let t : z + k ≡ b = ground (arith, touch) in
              let j : IsArea (join_blocks z b s) (us ++ (z, k + n) ∷ ys) =
                subst (λ u. IsArea (join_blocks z u s) (us ++ (z, k + n) ∷ ys)) t
                  (join_blocks-IsArea s us z k n ys
                    (subst (λ u. IsArea s (us ++ (z, k) ∷ (u, n) ∷ ys)) (sym t) a)) in
              rw
                (
                  merge_before-joins s b z p (ground (arith, size, t)),
                  join_between-snoc us z k b n ys,
                  touch,
                )
                (merge_after-IsArea (join_blocks z b s) us z (k + n) ys j)
          | inr apart ↦
              rw
                (
                  merge_before-keeps s b z p (ground (arith, size, apart)),
                  join_between-snoc us z k b n ys,
                  apart,
                )
                (rw (append_assoc us ((z, k) ∷ []) (join_next (b, n) ys)) at (
                  merge_after-IsArea s (us ++ (z, k) ∷ []) b n ys
                    (rw (append_assoc us ((z, k) ∷ []) ((b, n) ∷ ys)) a)))
        ]

    last_link :
        (us : List Block) (z k : ℕ)
        → Chain s.links free_list (addrs (us ++ (z, k) ∷ [])) (page_link b)
        → s.links.prev (page_link b) ≡ page_link z
    last_link us z k c =
        (Chain-split s.links free_list (addrs us) (page_link z) [] (page_link b)
          (rw (addrs-append us ((z, k) ∷ [])) at c)).1.1

    go :
        (xs ≡ []) ⊎ ((us : List Block) × (z : Block) × (xs ≡ us ++ z ∷ []))
        → Chain s.links free_list (addrs xs) (page_link b)
        → IsArea (merge_both b s) (join_between xs (b, n) ys)
    go (inl h) c =
        rw
          (merge_before-first s b
            (subst (λ us. Chain s.links free_list (addrs us) (page_link b)) h c).1)
          (subst (λ us. IsArea (merge_after b s) (join_between us (b, n) ys)) (sym h)
            (merge_after-IsArea s [] b n ys (subst (λ us. IsArea s (us ++ (b, n) ∷ ys)) h v)))
    go (inr (us, (z, k), h)) c =
        subst (λ ws. IsArea (merge_both b s) (join_between ws (b, n) ys)) (sym h)
          (snoc us z k
            (rw (append_assoc us ((z, k) ∷ []) ((b, n) ∷ ys)) at
              (subst (λ ws. IsArea s (ws ++ (b, n) ∷ ys)) h v))
            (last_link us z k (subst (λ ws. Chain s.links free_list (addrs ws) (page_link b)) h c)))
