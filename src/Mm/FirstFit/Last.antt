-- ===== src/Mm/FirstFit/Last.antt =====
-- What default_free_pages does with a block that lies behind all listed ones.
use nku_os.Prelude.{
  ℕ, zero, suc, ◌+◌, ◌-◌, ◌≤◌, ◌<◌, ◌≡◌, refl, true, some, List, [], ◌∷◌, ◌++◌, arith, length,
  length-append, count, count-append, append-nil, ◌^◌,
}
use nku_os.LinkedList.{Links}
use nku_os.LinkedList.Chain.{Chain, Chain-split}
use nku_os.Mm.FirstFit.{
  Page, FreeArea, free_list, page_link, set_property, set_head, to_uint, find_fit, take_block,
  add_block, merge_before, merge_after, default_alloc_pages, default_free_pages,
}
use nku_os.Mm.FirstFit.Blocks.{
  Block, addrs, addrs-append, total, Smaller, Heads, IsArea, ordered_tail,
}
use nku_os.Mm.FirstFit.Join.{merge_both}
use nku_os.Mm.FirstFit.Insert.{insert_block-self_link}
use nku_os.Mm.FirstFit.Free.{
  EndBy, EndBy-not_block, EndBy-NotAfter, InUse, reset_freed-Reset, Reset-IsArea,
}

-- The `next` pointers alone.
abbrev Forward : (ℕ → ℕ) → ℕ → List ℕ → ℕ → Type 0
Forward next a [] b = next a ≡ b
Forward next a (x ∷ xs) b = (next a ≡ x) × Forward next x xs b

Chain-Forward : (l : Links) (a : ℕ) (xs : List ℕ) (b : ℕ) → Chain l a xs b → Forward l.next a xs b
Chain-Forward l a [] b c = c.0
Chain-Forward l a (x ∷ xs) b c = (c.0, Chain-Forward l x xs b c.2)

abbrev Sized : (ℕ → Page) → List Block → Type 0
Sized page [] = Unit {0}
Sized page ((b, n) ∷ xs) = ((page b).property ≡ n) × Sized page xs

find_fit-last :
    (fuel a base n : ℕ) (s : FreeArea) (xs : List Block)
    → length xs < fuel
    → Forward s.links.next a (addrs xs) (page_link base)
    → Sized s.page xs
    → Smaller n xs
    → n ≤ (s.page base).property
    → find_fit fuel a n s ≡ some (some base)
unfolding find_fit
find_fit-last zero a base n s xs f c z h k = absurd (omega arith)
find_fit-last (suc fuel) a base n s [] f c z h k = ground (arith, c)
find_fit-last (suc fuel) a base n s ((b, m) ∷ xs) f c z h k =
    ground (
      arith,
      c.0,
      z.0,
      h.0,
      find_fit-last fuel (page_link b) base n s xs (omega arith) c.1 z.1 h.1 k,
    )

-- A state in which the last block, `base`, is linked to itself backwards.
record SelfLinked (base n : ℕ) (xs : List Block) (s : FreeArea) : Type 0 where
  back : s.links.prev (page_link base) ≡ page_link base
  end : s.links.next (page_link base) ≡ free_list
  forward : Forward s.links.next free_list (addrs xs) (page_link base)
  size : (s.page base).property ≡ n
  sizes : Sized s.page xs

Forward-frame :
    (f g : ℕ → ℕ) (a : ℕ) (xs : List ℕ) (b : ℕ)
    → ((k : ℕ) → 0 < count k (a ∷ xs) → g k ≡ f k)
    → Forward f a xs b
    → Forward g a xs b
Forward-frame f g a [] b e c = ground (arith, e a, c)
Forward-frame f g a (x ∷ xs) b e c =
    (ground (arith, e a, c.0), Forward-frame f g x xs b (λ k h. ground (arith, e k, h)) c.1)

Sized-frame :
    (f g : ℕ → Page) (xs : List Block)
    → ((p : ℕ) → 0 < count (page_link p) (addrs xs) → (g p).property ≡ (f p).property)
    → Sized f xs
    → Sized g xs
Sized-frame f g [] e z = tt
Sized-frame f g ((b, n) ∷ xs) e z =
    (ground (arith, e b, z.0), Sized-frame f g xs (λ p h. ground (arith, e p, h)) z.1)

take_block_same :
    (base n : ℕ) (s : FreeArea)
    → s.links.prev (page_link base) ≡ page_link base
    → (s.page base).property ≡ n
    → ((k : ℕ) → (take_block base n s).links.next k ≡ s.links.next k)
      × ((p : ℕ) → ((take_block base n s).page p).property ≡ (s.page p).property)
unfolding take_block
take_block_same base n s e z = (λ k. ground (arith, e, z), λ p. ground (arith, z))

-- Taking the whole of that block leaves it where it is.
alloc-SelfLinked :
    (fuel base n : ℕ) (xs : List Block) (s : FreeArea)
    → SelfLinked base n xs s
    → 0 < n
    → n ≤ s.nr_free
    → Smaller n xs
    → length xs < fuel
    → (t : FreeArea) × (default_alloc_pages fuel n s ≡ some (some base, t))
      × SelfLinked base n xs t
      × (t.nr_free ≡ s.nr_free - n)
unfolding default_alloc_pages take_block
alloc-SelfLinked fuel base n xs s v pos free small f =
    let fit =
      find_fit-last fuel free_list base n s xs f v.forward v.sizes small (omega (arith, v.size)) in
    (
      take_block base n s,
      ground (arith, fit),
      record {
        back = ground (arith, v.back, v.end, v.size);
        end = ground (arith, v.back, v.end, v.size);
        forward =
            Forward-frame s.links.next (take_block base n s).links.next free_list (addrs xs)
              (page_link base) (λ k _. (take_block_same base n s v.back v.size).0 k) v.forward;
        size = ground (arith, v.size);
        sizes =
            Sized-frame s.page (take_block base n s).page xs
              (λ p _. (take_block_same base n s v.back v.size).1 p) v.sizes;
      },
      ground (arith, v.size),
    )

Heads-Sized : (f : ℕ → Page) (xs : List Block) → Heads f xs → Sized f xs
Heads-Sized f [] h = tt
Heads-Sized f ((b, n) ∷ xs) h = (h.0.0, Heads-Sized f xs h.1)

Forward-snoc :
    (next : ℕ → ℕ) (a : ℕ) (xs : List ℕ) (z b : ℕ)
    → Forward next a xs z
    → next z ≡ b
    → Forward next a (xs ++ z ∷ []) b
Forward-snoc next a [] z b c e = (c, e)
Forward-snoc next a (x ∷ xs) z b c e = (c.0, Forward-snoc next x xs z b c.1 e)

EndBy-split :
    (base : ℕ) (xs ys : List Block) → EndBy base (xs ++ ys) → EndBy base xs × EndBy base ys
EndBy-split base [] ys e = (tt, e)
EndBy-split base ((b, n) ∷ xs) ys e = let (h, t) = EndBy-split base xs ys e.1 in ((e.0, h), t)

-- The block is listed, and the state is left as it is by the joins.
module _ (fuel base n : ℕ) (xs : List Block) (z k : ℕ) (pos : 0 < n) (f : length xs + 2 < fuel)
    (small : n < 2 ^ 32) where
  abbrev listed : List Block
  listed = xs ++ (z, k) ∷ []

  add_block-SelfLinked :
      (s : FreeArea)
      → IsArea s listed
      → EndBy base listed
      → (t : FreeArea) × (add_block fuel base n s ≡ some t)
        × SelfLinked base n listed t
        × (t.nr_free ≡ to_uint (s.nr_free + n))
  unfolding add_block
  add_block-SelfLinked s v e =
      let (before, last) = EndBy-split base xs ((z, k) ∷ []) e in
      let filled = (ordered_tail 0 xs z k [] v.ordered).1 in
      let split = addrs-append xs ((z, k) ∷ []) in
      let out : count (page_link base) (addrs listed) ≡ 0 =
        rw (append-nil listed) at
          (EndBy-not_block base n pos 0 listed [] (rw (append-nil listed) v.ordered) e tt) in
      let (g, got, back, to, end, stuck, same) =
        insert_block-self_link fuel base s.links xs z k v.ring (EndBy-NotAfter base xs before)
          (omega (arith, filled, last)) f in
      let s1 = set_head base true (set_property base n s) in
      let r : Chain s.links free_list (addrs xs ++ page_link z ∷ []) free_list =
        rw split at v.ring.chain in
      let c = (Chain-split s.links free_list (addrs xs) (page_link z) [] free_list r).0 in
      (
        record s1 { links = g; nr_free = to_uint (s.nr_free + n) },
        rw got,
        record {
          back = back;
          end = end;
          forward = rw split (
              Forward-snoc g.next free_list (addrs xs) (page_link z) (page_link base)
                (Forward-frame s.links.next g.next free_list (addrs xs) (page_link z)
                  (λ j h.
                    same j
                      (ground (
                        arith,
                        h,
                        v.ring.distinct j,
                        split,
                        count-append j (addrs xs) (page_link z ∷ []),
                      ))
                      (ground (
                        arith,
                        h,
                        out,
                        split,
                        count-append (page_link base) (addrs xs) (page_link z ∷ []),
                      )))
                  (Chain-Forward s.links free_list (addrs xs) (page_link z) c))
                to);
          size = ground (arith, small);
          sizes =
              Sized-frame s.page s1.page listed (λ p h. ground (arith, h, out))
                (Heads-Sized s.page listed v.heads);
        },
        refl,
      )

merge_both-SelfLinked :
    (base n : ℕ) (xs : List Block) (s : FreeArea)
    → SelfLinked base n xs s
    → 0 < n
    → merge_both base s ≡ s
unfolding merge_before merge_after
merge_both-SelfLinked base n xs s v pos = ground (arith, v.back, v.end, v.size)

-- Freeing the pages behind every free block of a well-formed, non-empty list, while no free block
-- holds as many pages as are freed: the pages can then be allocated twice in a row, that is, to
-- two owners, if the list held as many free pages in all, fewer than 2 ^ 32 after the call, and rounds enough are given.
pub default_free_pages-double_alloc :
    (fuel base n : ℕ) (s : FreeArea) (xs : List Block) (z k : ℕ)
    → IsArea s (xs ++ (z, k) ∷ [])
    → 0 < n
    → n ≤ total (xs ++ (z, k) ∷ [])
    → total (xs ++ (z, k) ∷ []) + n < 2 ^ 32
    → InUse base n s
    → EndBy base (xs ++ (z, k) ∷ [])
    → Smaller n (xs ++ (z, k) ∷ [])
    → length xs + 2 < fuel
    → (t u w : FreeArea) × (default_free_pages fuel base n s ≡ some t)
      × (default_alloc_pages fuel n t ≡ some (some base, u))
      × (default_alloc_pages fuel n u ≡ some (some base, w))
unfolding default_free_pages
default_free_pages-double_alloc fuel base n s xs z k v pos free small busy e sm f =
    let many : length (xs ++ (z, k) ∷ []) < fuel = omega (arith, length-append xs ((z, k) ∷ [])) in
    let (s1, e1, r1) = reset_freed-Reset n base s busy in
    let (t, e2, q, total_t) =
      add_block-SelfLinked fuel base n xs z k pos f (omega arith) s1
        (Reset-IsArea r1 (xs ++ (z, k) ∷ []) v) e in
    let nr : t.nr_free ≡ total (xs ++ (z, k) ∷ []) + n =
      omega (arith, total_t, r1.nr_free, v.counted) in
    let (u, e3, q', nr') =
      alloc-SelfLinked fuel base n (xs ++ (z, k) ∷ []) t q pos (omega (arith, nr)) sm many in
    let (w, e4, q'', nr'') =
      alloc-SelfLinked fuel base n (xs ++ (z, k) ∷ []) u q' pos (omega (arith, nr, nr')) sm many in
    (
      t,
      u,
      w,
      ground (arith, e1, e2, merge_both-SelfLinked base n (xs ++ (z, k) ∷ []) t q pos),
      e3,
      e4,
    )
