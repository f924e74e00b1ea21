-- ===== src/Mm/FirstFit/Alloc.antt =====
-- default_alloc_pages on a well-formed free list.
use nku_os.Prelude.{
  ℕ, zero, suc, ◌+◌, ◌-◌, ◌≤◌, ◌<◌, ◌≡◌, refl, true, false, Option, none, some, List, [], ◌∷◌, ◌++◌,
  arith, ltb, leb, if◌then◌else◌, count, count-append, length, Option-cases, Bool-cases, inl, inr,
}
use nku_os.LinkedList.{list_add, list_add_after, list_del}
use nku_os.LinkedList.Chain.{Chain}
use nku_os.LinkedList.Laws.{IsRing}
use nku_os.LinkedList.Ops.{list_del_lem, list_replace}
use nku_os.Mm.FirstFit.{FreeArea, free_list, page_link, find_fit, take_block, default_alloc_pages}
use nku_os.Mm.FirstFit.Blocks.{
  Block, addrs, addrs-append, total, total-append, Smaller, Heads, OrderedFrom, IsArea,
  ordered_replace, ordered_tail, ordered_weaken, inside-not_block, Heads-frame, Heads-append,
  Heads-split, inside, covered, covered-append,
}

-- What stays of a block of `m` pages when its first `n` are taken.
abbrev pub leftover : (b m n : ℕ) → List Block → List Block
leftover b m n xs = if ltb n m then (b + n, m - n) ∷ xs else xs

-- First fit, on the sequence of blocks.
unfoldable pub first_fit : ℕ → List Block → Option (ℕ × List Block)
first_fit n [] = none
first_fit n ((b, m) ∷ xs) = elim (leb n m) [
  | true ↦ some (b, leftover b m n xs)
  | false ↦ elim (first_fit n xs) [ none ↦ none | some (p, ys) ↦ some (p, (b, m) ∷ ys) ]
]

abbrev pub chosen : Option (ℕ × List Block) → Option ℕ
chosen none = none
chosen (some (p, xs)) = some p

find_fit-first_fit :
    (fuel a n : ℕ) (s : FreeArea) (xs : List Block)
    → length xs < fuel
    → Chain s.links a (addrs xs) free_list
    → Heads s.page xs
    → find_fit fuel a n s ≡ some (chosen (first_fit n xs))
unfolding find_fit first_fit
find_fit-first_fit zero a n s xs f c h = absurd (omega arith)
find_fit-first_fit (suc fuel) a n s [] f c h = ground (arith, c.0)
find_fit-first_fit (suc fuel) a n s ((b, m) ∷ xs) f c h =
    ground (arith, c.0, h.0, find_fit-first_fit fuel (page_link b) n s xs (omega arith) c.2 h.1)

-- Where the block that is found stands.
record Found (n : ℕ) (xs : List Block) (p : ℕ) (ys : List Block) : Type 0 where
  before : List Block
  size : ℕ
  after : List Block
  whole : xs ≡ before ++ (p, size) ∷ after
  left : ys ≡ before ++ leftover p size n after
  fits : n ≤ size
  first : Smaller n before

first_fit-Found :
    (n : ℕ) (xs : List Block) (p : ℕ) (ys : List Block)
    → first_fit n xs ≡ some (p, ys)
    → Found n xs p ys
unfolding first_fit
first_fit-Found n [] p ys e = cc
first_fit-Found n ((b, m) ∷ xs) p ys e = elim (Bool-cases (leb n m)) [
  | inl fit ↦ record {
    before = [];
    size = m;
    after = xs;
    whole = ground (arith, e, fit);
    left = ground (arith, e, fit);
    fits = ground (arith, fit);
    first = tt;
  }
  | inr small ↦ elim (Option-cases (first_fit n xs)) [
    | inl nothing ↦ absurd (ground (arith, e, small, nothing))
    | inr ((q, zs), got) ↦
        let rest = first_fit-Found n xs q zs got in
        record {
          before = (b, m) ∷ rest.before;
          size = rest.size;
          after = rest.after;
          whole = ground (arith, e, small, got, rest.whole);
          left = ground (arith, e, small, got, rest.left);
          fits = ground (arith, e, small, got, rest.fits);
          first = (ground (arith, small), rest.first);
        }
  ]
]

module _ (s : FreeArea) (xs : List Block) (b m : ℕ) (ys : List Block) (n : ℕ)
    (v : IsArea s (xs ++ (b, m) ∷ ys)) (pos : 0 < n) (fit : n ≤ m) where
  split : addrs (xs ++ (b, m) ∷ ys) ≡ addrs xs ++ page_link b ∷ addrs ys
  split = addrs-append xs ((b, m) ∷ ys)

  ring : IsRing s.links free_list (addrs xs ++ page_link b ∷ addrs ys)
  ring = rw split at v.ring

  size : (s.page b).property ≡ m
  size = (Heads-split s.page xs ((b, m) ∷ ys) v.heads).1.0.0

  tail : OrderedFrom b ((b, m) ∷ ys)
  tail = ordered_tail 0 xs b m ys v.ordered

  alone : (k : ℕ) → count k (addrs xs) + count k (page_link b ∷ addrs ys) ≤ 1
  alone k =
      ground (arith, v.ring.distinct k, split, count-append k (addrs xs) (page_link b ∷ addrs ys))

  pub take_block-exact :
      n ≡ m → IsArea (take_block b n s) (xs ++ ys) × (((take_block b n s).page b).head ≡ false)
  unfolding take_block
  take_block-exact e = (
    record {
      ring = rw addrs-append (
          ground
            (arith, size, list_del_lem s.links free_list (addrs xs) (page_link b) (addrs ys) ring));
      heads =
          let (h, t) = Heads-split s.page xs ((b, m) ∷ ys) v.heads in
          Heads-append (take_block b n s).page xs ys
            (Heads-frame s.page (take_block b n s).page xs h
              (λ p k. ground (arith, size, alone (page_link p), k)))
            (Heads-frame s.page (take_block b n s).page ys t.1
              (λ p k. ground (arith, size, alone (page_link p), k)));
      ordered =
          ordered_replace 0 xs b m ys ys v.ordered
            (ordered_weaken (b + m) b ys (omega arith) tail.2);
      counted = ground (arith, size, v.counted, total-append xs ys, total-append xs ((b, m) ∷ ys));
      small = omega (arith, v.small, total-append xs ys, total-append xs ((b, m) ∷ ys));
    },
    ground (arith, size),
  )

  fresh : n < m → count (page_link (b + n)) (addrs xs ++ page_link b ∷ addrs ys) ≡ 0
  fresh lt =
      rw (← split) (inside-not_block 0 (b + n) xs b m ys v.ordered (omega arith) (omega arith)).0

  others :
      n < m
      → (p : ℕ) → 0 < count (page_link p) (addrs xs) + count (page_link p) (addrs ys)
      → ((take_block b n s).page p ≡ s.page p)
  unfolding take_block
  others lt p k = ground (
    arith,
    size,
    alone (page_link p),
    fresh lt,
    k,
    count-append (page_link (b + n)) (addrs xs) (page_link b ∷ addrs ys),
  )

  -- The state after the split of a block, field by field.
  split_links :
      n < m
      → (take_block b n s).links
        ≡ list_add_after
            (s.links.prev (page_link b))
            (page_link (b + n))
            (list_del (page_link b) s.links)
  unfolding take_block list_add
  split_links lt = ground (arith, size)

  split_heads :
      n < m
      → (((take_block b n s).page (b + n)).property ≡ m - n)
        × (((take_block b n s).page (b + n)).head ≡ true)
        × (((take_block b n s).page b).head ≡ false)
        × ((take_block b n s).nr_free ≡ s.nr_free - n)
  unfolding take_block
  split_heads lt = ground (arith, size, v.small, total-append xs ((b, m) ∷ ys))

  pub take_block-split :
      n < m
      → IsArea (take_block b n s) (xs ++ (b + n, m - n) ∷ ys)
        × (((take_block b n s).page b).head ≡ false)
  take_block-split lt = (
    record {
      ring = rw addrs-append (
          rw (split_links lt) (
            list_replace s.links free_list (addrs xs) (page_link b) (addrs ys) (page_link (b + n))
              ring (ground (arith, fresh lt))));
      heads =
          let (h, t) = Heads-split s.page xs ((b, m) ∷ ys) v.heads in
          Heads-append (take_block b n s).page xs ((b + n, m - n) ∷ ys)
            (Heads-frame s.page (take_block b n s).page xs h
              (λ p k. ground (arith, others lt p (omega (arith, k)))))
            (
              ((split_heads lt).0, (split_heads lt).1),
              Heads-frame s.page (take_block b n s).page ys t.1
                  (λ p k. ground (arith, others lt p (omega (arith, k)))),
            );
      ordered =
          ordered_replace 0 xs b m ys ((b + n, m - n) ∷ ys) v.ordered
            (omega arith, omega arith, rw the_end tail.2);
      counted = ground (
        arith,
        (split_heads lt).3,
        v.counted,
        total-append xs ((b + n, m - n) ∷ ys),
        total-append xs ((b, m) ∷ ys),
      );
      small =
          omega
            (arith, v.small, total-append xs ((b + n, m - n) ∷ ys), total-append xs ((b, m) ∷ ys));
    },
    (split_heads lt).2,
  )
    where
      the_end : b + n + (m - n) ≡ b + m
      the_end = omega arith

first_fit-none : (n : ℕ) (xs : List Block) → total xs < n → first_fit n xs ≡ none
unfolding first_fit
first_fit-none n [] h = refl
first_fit-none n ((b, m) ∷ xs) h = ground (arith, first_fit-none n xs (omega arith))

-- What an allocation of `n` pages from the blocks `xs` in state `s` is to do.
abbrev pub Allocated :
    ℕ → FreeArea → List Block → Option (ℕ × List Block) → Option ℕ × FreeArea → Type 0
Allocated n s xs none (out, t) = (out ≡ none) × (t ≡ s)
Allocated n s xs (some (p, ys)) (out, t) =
    (out ≡ some p)
    × IsArea t ys
    × ((t.page p).head ≡ false)
    × ((k : ℕ) → covered k xs ≡ inside k (p, n) + covered k ys)

pub covered-leftover :
    (k b m n : ℕ) (xs : List Block)
    → n ≤ m
    → covered k ((b, m) ∷ xs) ≡ inside k (b, n) + covered k (leftover b m n xs)
covered-leftover k b m n xs h = ground arith

take_block-Allocated :
    (n : ℕ) (s : FreeArea) (xs : List Block) (p : ℕ) (ys : List Block)
    → IsArea s xs
    → 0 < n
    → Found n xs p ys
    → Allocated n s xs (some (p, ys)) (some p, take_block p n s)
take_block-Allocated n s xs p ys v pos f =
    let v' : IsArea s (f.before ++ (p, f.size) ∷ f.after) = rw f.whole at v in
    let cover : (k : ℕ) → covered k xs ≡ inside k (p, n) + covered k ys = λ k.
      rw (f.whole, f.left)
        (omega (
          arith,
          covered-append k f.before ((p, f.size) ∷ f.after),
          covered-append k f.before (leftover p f.size n f.after),
          covered-leftover k p f.size n f.after f.fits,
        )) in
    elim (Bool-cases (ltb n f.size)) [
      | inl lt ↦
          let (area, head) =
            take_block-split s f.before p f.size f.after n v' pos f.fits (ground (arith, lt)) in
          (refl, rw (f.left, lt) area, head, cover)
      | inr ge ↦
          let (area, head) =
            take_block-exact s f.before p f.size f.after n v' pos f.fits
              (ground (arith, ge, f.fits)) in
          (refl, rw (f.left, ge) area, head, cover)
    ]

-- On a well-formed free list, with as many rounds as there are blocks and one more, the allocation
-- of `n > 0` pages ends and is first fit: it returns NULL and changes nothing when no block is large
-- enough, and else the first page of the first block that is; the state left is well-formed, its
-- free pages are the old ones less the `n` pages from the returned one, and that page heads no
-- block.
pub default_alloc_pages-first_fit :
    (fuel n : ℕ) (s : FreeArea) (xs : List Block)
    → IsArea s xs
    → 0 < n
    → length xs < fuel
    → (r : Option ℕ × FreeArea) × (default_alloc_pages fuel n s ≡ some r)
      × Allocated n s xs (first_fit n xs) r
unfolding default_alloc_pages
default_alloc_pages-first_fit fuel n s xs v pos f =
    let search = find_fit-first_fit fuel free_list n s xs f v.ring.chain v.heads in
    elim (Option-cases (first_fit n xs)) [
      | inl none' ↦ ((none, s), ground (arith, search, none'), rw none' (refl, refl))
      | inr ((p, ys), got) ↦ (
        (some p, take_block p n s),
        ground (arith, search, got, first_fit-none n xs, v.counted),
        rw got (take_block-Allocated n s xs p ys v pos (first_fit-Found n xs p ys got)),
      )
    ]
