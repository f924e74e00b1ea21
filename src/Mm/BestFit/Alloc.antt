-- ===== src/Mm/BestFit/Alloc.antt =====
-- best_fit_alloc_pages on a well-formed free list.
use nku_os.Prelude.{
  ℕ, zero, suc, ◌+◌, ◌^◌, ◌≤◌, ◌<◌, ◌≡◌, ◌⊎◌, ◌∙◌, refl, ap, false, ◌&&◌, Option, none, some, List,
  [], ◌∷◌, ◌++◌, arith, ltb, leb, if◌then◌else◌, length, Bool-cases, inl, inr,
}
use nku_os.LinkedList.Chain.{Chain}
use nku_os.Mm.FirstFit.{FreeArea, to_uint, free_list, page_link, take_block}
use nku_os.Mm.FirstFit.Blocks.{
  Block, addrs, total, Smaller, Heads, IsArea, inside, covered, covered-append,
}
use nku_os.Mm.FirstFit.Alloc.{leftover, take_block-exact, take_block-split, covered-leftover}
use nku_os.Mm.BestFit.{find_best, best_fit_alloc_pages}

-- The search on the sequence of blocks.
best : ℕ → List Block → Option ℕ → ℕ → Option ℕ
best n [] page min_size = page
best n ((b, m) ∷ xs) page min_size =
    let better = best n xs (some b) m in
    let on = best n xs page min_size in if leb n m && ltb m min_size then better else on

find_best-best :
    (fuel a n : ℕ) (page : Option ℕ) (min_size : ℕ) (s : FreeArea) (xs : List Block)
    → length xs < fuel
    → Chain s.links a (addrs xs) free_list
    → Heads s.page xs
    → find_best fuel a n page min_size s ≡ some (best n xs page min_size)
unfolding find_best best
find_best-best zero a n page min_size s xs f c h = absurd (omega arith)
find_best-best (suc fuel) a n page min_size s [] f c h = ground (arith, c.0)
find_best-best (suc fuel) a n page min_size s ((b, m) ∷ xs) f c h = ground (
  arith,
  c.0,
  h.0,
  find_best-best fuel (page_link b) n (some b) m s xs (omega arith) c.2 h.1,
  find_best-best fuel (page_link b) n page min_size s xs (omega arith) c.2 h.1,
)

-- No block has a size from `n` on that is below `m`.
abbrev pub NoBetter : (n m : ℕ) → List Block → Type 0
NoBetter n m [] = Unit {0}
NoBetter n m ((b, k) ∷ xs) = ((k < n) ⊎ (m ≤ k)) × NoBetter n m xs

-- The block of `p` is in the list, and large enough, and no smaller one is.
pub record IsBest (n : ℕ) (xs : List Block) (p : ℕ) : Type 0 where
  pub before : List Block
  pub size : ℕ
  pub after : List Block
  pub whole : xs ≡ before ++ (p, size) ∷ after
  pub fits : n ≤ size
  pub least : NoBetter n size xs

best-IsBest :
    (n : ℕ) (xs : List Block) (page : Option ℕ) (min_size : ℕ)
    → ((best n xs page min_size ≡ page) × NoBetter n min_size xs)
      ⊎ ((p : ℕ) × (best n xs page min_size ≡ some p) × (b : IsBest n xs p) × (b.size < min_size))
unfolding best
best-IsBest n [] page min_size = inl (refl, tt)
best-IsBest n ((b, m) ∷ xs) page min_size = elim (Bool-cases (leb n m && ltb m min_size)) [
  | inl better ↦ elim (best-IsBest n xs (some b) m) [
    | inl (e, none_left) ↦ inr (
      b,
      rw better e,
      record {
        before = [];
        size = m;
        after = xs;
        whole = refl;
        fits = ground (arith, better);
        least = (inr (omega arith), none_left);
      },
      ground (arith, better),
    )
    | inr (p, e, r, lt) ↦ inr (
      p,
      rw better e,
      record {
        before = (b, m) ∷ r.before;
        size = r.size;
        after = r.after;
        whole = ap (λ zs. (b, m) ∷ zs) r.whole;
        fits = r.fits;
        least = (inr (omega (arith, lt)), r.least);
      },
      ground (arith, better, lt),
    )
  ]
  | inr worse ↦ elim (best-IsBest n xs page min_size) [
    | inl (e, none_left) ↦ inl (rw worse e, (too_small_or_large m min_size worse, none_left))
    | inr (p, e, r, lt) ↦ inr (
      p,
      rw worse e,
      record {
        before = (b, m) ∷ r.before;
        size = r.size;
        after = r.after;
        whole = ap (λ zs. (b, m) ∷ zs) r.whole;
        fits = r.fits;
        least = (
          elim (too_small_or_large m min_size worse) [
            | inl few ↦ inl few
            | inr many ↦ inr (omega (arith, many, lt))
          ],
          r.least,
        );
      },
      lt,
    )
  ]
]
  where
    too_small_or_large : (m size : ℕ) → (leb n m && ltb m size) ≡ false → (m < n) ⊎ (size ≤ m)
    too_small_or_large m size h = elim (Bool-cases (ltb m n)) [
      | inl lt ↦ inl (ground (arith, lt))
      | inr ge ↦ inr (ground (arith, ge, h))
    ]

NoBetter-Smaller : (n m : ℕ) (xs : List Block) → total xs < m → NoBetter n m xs → Smaller n xs
NoBetter-Smaller n m [] h b = tt
NoBetter-Smaller n m ((a, k) ∷ xs) h b = (
  elim b.0 [ inl few ↦ few | inr many ↦ absurd (omega (arith, h, many)) ],
  NoBetter-Smaller n m xs (omega (arith, h)) b.1,
)

total-Smaller : (n : ℕ) (xs : List Block) → total xs < n → Smaller n xs
total-Smaller n [] h = tt
total-Smaller n ((a, k) ∷ xs) h = (omega (arith, h), total-Smaller n xs (omega (arith, h)))

-- What an allocation of `n` pages from the blocks `xs` in state `s` is to do: take them from the front of a
-- smallest block among those that are large enough, or nothing where none is.
abbrev pub BestAllocated : ℕ → FreeArea → List Block → Option ℕ × FreeArea → Type 0
BestAllocated n s xs (none, t) = (t ≡ s) × Smaller n xs
BestAllocated n s xs (some p, t) =
    (b : IsBest n xs p) × IsArea t (b.before ++ leftover p b.size n b.after)
    × ((t.page p).head ≡ false)
    × ((k : ℕ)
        → covered k xs ≡ inside k (p, n) + covered k (b.before ++ leftover p b.size n b.after))

take_best :
    (n : ℕ) (s : FreeArea) (xs : List Block) (p : ℕ)
    → IsArea s xs
    → 0 < n
    → IsBest n xs p
    → BestAllocated n s xs (some p, take_block p n s)
take_best n s xs p v pos b =
    let v' : IsArea s (b.before ++ (p, b.size) ∷ b.after) = rw b.whole at v in
    let cover : (k : ℕ)
        → covered k xs ≡ inside k (p, n) + covered k (b.before ++ leftover p b.size n b.after) =
      λ k.
        ap (covered k) b.whole
        ∙ omega (
          arith,
          covered-append k b.before ((p, b.size) ∷ b.after),
          covered-append k b.before (leftover p b.size n b.after),
          covered-leftover k p b.size n b.after b.fits,
        ) in
    elim (Bool-cases (ltb n b.size)) [
      | inl lt ↦
          let (area, head) =
            take_block-split s b.before p b.size b.after n v' pos b.fits (ground (arith, lt)) in
          (b, rw lt area, head, cover)
      | inr ge ↦
          let (area, head) =
            take_block-exact s b.before p b.size b.after n v' pos b.fits
              (ground (arith, ge, b.fits)) in
          (b, rw ge area, head, cover)
    ]

few_pages :
    (fuel n : ℕ) (s : FreeArea)
    → 0 < n
    → s.nr_free < n
    → best_fit_alloc_pages fuel n s ≡ some (none, s)
unfolding best_fit_alloc_pages
few_pages fuel n s pos few = ground (arith, pos, few)

searched :
    (fuel n : ℕ) (s : FreeArea) (found : Option ℕ)
    → 0 < n
    → n ≤ s.nr_free
    → find_best fuel free_list n none (to_uint (s.nr_free + 1)) s ≡ some found
    → best_fit_alloc_pages fuel n s
      ≡ some (elim found [ none ↦ (none, s) | some page ↦ (some page, take_block page n s) ])
unfolding best_fit_alloc_pages
searched fuel n s found pos enough run = ground (arith, pos, enough, run)

-- On a well-formed free list that does not have all of 2^32 - 1 pages, with a round for each block and one more, the allocation
-- of `n > 0` pages ends and is best fit: it returns NULL and changes nothing when no block is large enough, and
-- else the first page of a smallest block that is; the state left is well-formed, its free pages are the old ones
-- less the `n` pages from the returned one, and that page heads no block.
pub best_fit_alloc_pages-BestAllocated :
    (fuel n : ℕ) (s : FreeArea) (xs : List Block)
    → IsArea s xs
    → s.nr_free + 1 < 2 ^ 32
    → 0 < n
    → length xs < fuel
    → (r : Option ℕ × FreeArea) × (best_fit_alloc_pages fuel n s ≡ some r) × BestAllocated n s xs r
best_fit_alloc_pages-BestAllocated fuel n s xs v small pos f = elim (Bool-cases (ltb s.nr_free n)) [
  | inl few ↦
      let lt : s.nr_free < n = ground (arith, few) in
      (
        (none, s),
        few_pages fuel n s pos lt,
        (refl, total-Smaller n xs (omega (arith, lt, v.counted))),
      )
  | inr enough ↦
      let le : n ≤ s.nr_free = ground (arith, enough) in
      let limit : to_uint (s.nr_free + 1) ≡ s.nr_free + 1 = omega (arith, small) in
      let run =
        find_best-best fuel free_list n none (to_uint (s.nr_free + 1)) s xs f v.ring.chain
          v.heads in
      elim (best-IsBest n xs none (to_uint (s.nr_free + 1))) [
        | inl (e, none_left) ↦ (
          (none, s),
          searched fuel n s none pos le (run ∙ ap some e),
          (
            refl,
            NoBetter-Smaller n (to_uint (s.nr_free + 1)) xs (omega (arith, limit, v.counted))
                none_left,
          ),
        )
        | inr (p, e, b, lt) ↦ (
          (some p, take_block p n s),
          searched fuel n s (some p) pos le (run ∙ ap some e),
          take_best n s xs p v pos b,
        )
      ]
]
