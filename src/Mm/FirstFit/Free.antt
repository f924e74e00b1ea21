-- ===== src/Mm/FirstFit/Free.antt =====
-- default_free_pages on a well-formed free list: the loop over the freed pages, the insertion by
-- address when a block lies behind the freed one or none is listed, and the joins.
use nku_os.Prelude.{
  ℕ, zero, suc, ◌+◌, ◌^◌, ◌≤◌, ◌<◌, ◌≡◌, refl, true, false, some, List, [], ◌∷◌, ◌++◌, arith, count,
  count-append, length,
}
use nku_os.LinkedList.{Links, list_add}
use nku_os.LinkedList.Laws.{IsRing, list_add_after-head}
use nku_os.Mm.FirstFit.{
  Page, FreeArea, free_list, page_link, to_uint, set_page, set_property, set_head, reset_freed,
  insert_block, add_block, default_free_pages,
}
use nku_os.Mm.FirstFit.Blocks.{
  Block, addrs, addrs-append, total, total-append, Heads, AllBlocks, NotAfter, OrderedFrom, IsArea,
  below-not_block, Heads-frame, Heads-append, Heads-split, inside, covered,
}
use nku_os.Mm.FirstFit.Insert.{insert_block-ordered}
use nku_os.Mm.FirstFit.Join.{join_next, join_between, merge_both, merge_both-IsArea}

-- No page of the range is reserved or heads a free block.
abbrev pub InUse : ℕ → ℕ → FreeArea → Type 0
InUse base n s =
    (p : ℕ) → base ≤ p → p < base + n → ((s.page p).reserved ≡ false) × ((s.page p).head ≡ false)

-- What the loop over the freed pages leaves alone.
pub record Reset (s t : FreeArea) : Type 0 where
  pub links : t.links ≡ s.links
  pub nr_free : t.nr_free ≡ s.nr_free
  pub pages :
      (p : ℕ) → ((t.page p).property ≡ (s.page p).property) × ((t.page p).head ≡ (s.page p).head)

pub reset_freed-Reset :
    (n base : ℕ) (s : FreeArea)
    → InUse base n s
    → (t : FreeArea) × (reset_freed n base s ≡ some t) × Reset s t
unfolding reset_freed
reset_freed-Reset zero base s u =
    (s, refl, record { links = refl; nr_free = refl; pages = λ p. (refl, refl) })
reset_freed-Reset (suc n) base s u =
    let q : Page = record {
      ref = 0;
      reserved = false;
      head = false;
      property = (s.page base).property;
    } in
    let s1 = set_page base q s in
    let (t, e, r) = reset_freed-Reset n (suc base) s1 (λ p h k. ground (arith, u p)) in
    (
      t,
      ground (arith, u base, e),
      record {
        links = r.links;
        nr_free = r.nr_free;
        pages = λ p. ground (arith, r.pages p, u base);
      },
    )

-- All blocks end at or before a page.
abbrev pub EndBy : ℕ → List Block → Type 0
EndBy base = AllBlocks (λ x. x.0 + x.1 ≤ base)

pub EndBy-NotAfter : (base : ℕ) (xs : List Block) → EndBy base xs → NotAfter base xs
EndBy-NotAfter base [] e = tt
EndBy-NotAfter base ((b, n) ∷ xs) e = (omega arith, EndBy-NotAfter base xs e.1)

module _ (base n : ℕ) (pos : 0 < n) where
  pub EndBy-not_block :
      (low : ℕ) (xs zs : List Block)
      → OrderedFrom low (xs ++ zs)
      → EndBy base xs
      → OrderedFrom (base + n) zs
      → count (page_link base) (addrs (xs ++ zs)) ≡ 0
  EndBy-not_block low [] zs o e q = below-not_block (base + n) base zs (omega arith) q
  EndBy-not_block low ((b, m) ∷ xs) zs o e q =
      ground (arith, EndBy-not_block (b + m) xs zs o.2 e.1 q)

  ordered_insert :
      (low : ℕ) (xs zs : List Block)
      → low ≤ base
      → OrderedFrom low (xs ++ zs)
      → EndBy base xs
      → OrderedFrom (base + n) zs
      → OrderedFrom low (xs ++ (base, n) ∷ zs)
  ordered_insert low [] zs h o e q = (h, pos, q)
  ordered_insert low ((b, m) ∷ xs) zs h o e q =
      (o.0, o.1, ordered_insert (b + m) xs zs e.0 o.2 e.1 q)

covered-join_next :
    (k b n : ℕ) (ys : List Block) → covered k (join_next (b, n) ys) ≡ inside k (b, n) + covered k ys
unfolding join_next
covered-join_next k b n [] = refl
covered-join_next k b n ((c, m) ∷ ys) = ground arith

covered-join_between :
    (k : ℕ) (xs : List Block) (b n : ℕ) (ys : List Block)
    → covered k (join_between xs (b, n) ys) ≡ inside k (b, n) + covered k (xs ++ ys)
unfolding join_between
covered-join_between k [] b n ys = covered-join_next k b n ys
covered-join_between k ((z, m) ∷ []) b n ys =
    ground (arith, covered-join_next k z (m + n) ys, covered-join_next k b n ys)
covered-join_between k (v ∷ w ∷ xs) b n ys = omega (arith, covered-join_between k (w ∷ xs) b n ys)

Heads-Reset : {s t : FreeArea} → Reset s t → (xs : List Block) → Heads s.page xs → Heads t.page xs
Heads-Reset {s} {t} r xs h = Heads-frame s.page t.page xs h (λ p _. r.pages p)

pub Reset-IsArea : {s t : FreeArea} → Reset s t → (xs : List Block) → IsArea s xs → IsArea t xs
Reset-IsArea {s} {t} r xs v = record {
  ring = rw r.links v.ring;
  heads = Heads-Reset r xs v.heads;
  ordered = v.ordered;
  counted = rw r.nr_free v.counted;
  small = v.small;
}

-- The block fits between the blocks before and behind it, and is not the last of a longer list.
pub record Fits (base n : ℕ) (xs zs : List Block) : Type 0 where
  pub before : EndBy base xs
  pub behind : OrderedFrom (base + n) zs
  pub not_last : zs ≡ [] → xs ≡ []
  pub small : total (xs ++ zs) + n < 2 ^ 32

module _ (fuel base n : ℕ) (xs : List Block) (pos : 0 < n) (f : length xs < fuel) where
  insert-Fits :
      (l : Links) (zs : List Block)
      → IsRing l free_list (addrs (xs ++ zs))
      → count (page_link base) (addrs (xs ++ zs)) ≡ 0
      → Fits base n xs zs
      → (g : Links) × (insert_block fuel base l ≡ some g)
        × IsRing g free_list (addrs (xs ++ (base, n) ∷ zs))
  unfolding insert_block list_add
  insert-Fits l [] r out fit =
      let e = fit.not_last refl in
      let r' : IsRing l free_list [] = rw e at r in
      (
        list_add free_list (page_link base) l,
        ground (arith, r'.chain.0),
        rw e (list_add_after-head l free_list (page_link base) [] r' (ground arith)),
      )
  insert-Fits l ((y, m) ∷ zs) r out fit =
      insert_block-ordered fuel base l xs y n m zs r out (EndBy-NotAfter base xs fit.before)
        (omega (arith, fit.behind)) f

  pub add_block-IsArea :
      (s : FreeArea) (zs : List Block)
      → IsArea s (xs ++ zs)
      → Fits base n xs zs
      → (t : FreeArea) × (add_block fuel base n s ≡ some t) × IsArea t (xs ++ (base, n) ∷ zs)
  unfolding add_block
  add_block-IsArea s zs v fit =
      let out = EndBy-not_block base n pos 0 xs zs v.ordered fit.before fit.behind in
      let (g, e, r) = insert-Fits s.links zs v.ring out fit in
      let s1 = set_head base true (set_property base n s) in
      (
        record s1 { links = g; nr_free = to_uint (s.nr_free + n) },
        rw e,
        record {
          ring = r;
          heads =
              let (h, t) = Heads-split s.page xs zs v.heads in
              Heads-append s1.page xs ((base, n) ∷ zs)
                (Heads-frame s.page s1.page xs h (λ p c. ground (
                  arith,
                  c,
                  out,
                  addrs-append xs zs,
                  count-append (page_link base) (addrs xs) (addrs zs),
                )))
                (
                  ground (arith, fit.small),
                  Heads-frame s.page s1.page zs t (λ p c. ground (
                    arith,
                    c,
                    out,
                    addrs-append xs zs,
                    count-append (page_link base) (addrs xs) (addrs zs),
                  )),
                );
          ordered = ordered_insert base n pos 0 xs zs (omega arith) v.ordered fit.before fit.behind;
          counted =
              omega
                (arith, v.counted, fit.small, total-append xs zs, total-append xs ((base, n) ∷ zs));
          small = omega (arith, fit.small, total-append xs zs, total-append xs ((base, n) ∷ zs));
        },
      )

-- Freeing `n > 0` pages from `base` that are in use and overlap no free block of a well-formed list
-- succeeds with enough rounds, if a free block lies behind them or the list is empty: the pages
-- become free and no others, in one block that is joined to the block that ends where it starts
-- and to the one that starts where it ends, and the state left is well-formed.
pub default_free_pages-join_between :
    (fuel base n : ℕ) (s : FreeArea) (xs zs : List Block)
    → IsArea s (xs ++ zs)
    → 0 < n
    → InUse base n s
    → Fits base n xs zs
    → length xs < fuel
    → (t : FreeArea) × (default_free_pages fuel base n s ≡ some t)
      × IsArea t (join_between xs (base, n) zs)
      × ((k : ℕ)
          → covered k (join_between xs (base, n) zs) ≡ inside k (base, n) + covered k (xs ++ zs))
unfolding default_free_pages
default_free_pages-join_between fuel base n s xs zs v pos busy fit f =
    let (s1, e1, r1) = reset_freed-Reset n base s busy in
    let (s2, e2, v2) =
      add_block-IsArea fuel base n xs pos f s1 zs (Reset-IsArea r1 (xs ++ zs) v) fit in
    (
      merge_both base s2,
      ground (arith, e1, e2),
      merge_both-IsArea s2 xs base n zs v2,
      λ k. covered-join_between k xs base n zs,
    )
