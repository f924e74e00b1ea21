-- ===== src/Mm/FirstFit/Blocks.antt =====
-- The free list of kern/mm/default_pmm.c as a sequence of blocks.
use nku_os.Prelude.{
  ℕ, ◌+◌, ◌^◌, ◌≤◌, ◌<◌, ◌≡◌, refl, ap, true, List, [], ◌∷◌, ◌++◌, arith, ltb, leb, if◌then◌else◌,
  count,
}
use nku_os.LinkedList.Laws.{IsRing}
use nku_os.Mm.FirstFit.{Page, FreeArea, free_list, page_link}

-- First page and number of pages.
abbrev pub Block : Type 0
Block = ℕ × ℕ

-- The links of the blocks' first pages.
abbrev pub addrs : List Block → List ℕ
addrs [] = []
addrs ((b, n) ∷ xs) = page_link b ∷ addrs xs

pub addrs-append : (xs ys : List Block) → addrs (xs ++ ys) ≡ addrs xs ++ addrs ys
addrs-append [] ys = refl
addrs-append ((b, n) ∷ xs) ys = ap (λ zs. page_link b ∷ zs) (addrs-append xs ys)

abbrev pub total : List Block → ℕ
total [] = 0
total ((b, n) ∷ xs) = n + total xs

abbrev pub AllBlocks : (Block → Type 0) → List Block → Type 0
AllBlocks P [] = Unit {0}
AllBlocks P (x ∷ xs) = P x × AllBlocks P xs

-- Blocks that start at or before a page, that are smaller than `n`, and that a page array describes.
abbrev pub NotAfter : ℕ → List Block → Type 0
NotAfter base = AllBlocks (λ x. x.0 ≤ base)

abbrev pub Smaller : ℕ → List Block → Type 0
Smaller n = AllBlocks (λ x. x.1 < n)

abbrev pub Heads : (ℕ → Page) → List Block → Type 0
Heads page = AllBlocks (λ x. ((page x.0).property ≡ x.1) × ((page x.0).head ≡ true))

-- No link of a block is the list head.
pub free_list-not_block : (xs : List Block) → count free_list (addrs xs) ≡ 0
free_list-not_block [] = refl
free_list-not_block ((b, n) ∷ xs) = ground (arith, free_list-not_block xs)

-- The blocks stand in the order of their addresses from `low` on, none is empty and no two overlap.
abbrev pub OrderedFrom : ℕ → List Block → Type 0
OrderedFrom low [] = Unit {0}
OrderedFrom low ((b, n) ∷ xs) = (low ≤ b) × (0 < n) × OrderedFrom (b + n) xs

-- The state stands for the free blocks `xs`.
pub record IsArea (s : FreeArea) (xs : List Block) : Type 0 where
  pub ring : IsRing s.links free_list (addrs xs)
  pub heads : Heads s.page xs
  pub ordered : OrderedFrom 0 xs
  pub counted : s.nr_free ≡ total xs
  pub small : total xs < 2 ^ 32

pub total-append : (xs ys : List Block) → total (xs ++ ys) ≡ total xs + total ys
total-append [] ys = omega arith
total-append ((b, n) ∷ xs) ys = omega (arith, total-append xs ys)

pub ordered_weaken :
    (low low' : ℕ) (xs : List Block) → low' ≤ low → OrderedFrom low xs → OrderedFrom low' xs
ordered_weaken low low' [] h o = o
ordered_weaken low low' ((b, n) ∷ xs) h o = (omega arith, o.1, o.2)

-- The tail of an ordered list may be replaced by one that starts no lower.
pub ordered_replace :
    (low : ℕ) (xs : List Block) (b m : ℕ) (ys zs : List Block)
    → OrderedFrom low (xs ++ (b, m) ∷ ys)
    → OrderedFrom b zs
    → OrderedFrom low (xs ++ zs)
ordered_replace low [] b m ys zs o q = ordered_weaken b low zs o.0 q
ordered_replace low ((x, n) ∷ xs) b m ys zs o q =
    (o.0, o.1, ordered_replace (x + n) xs b m ys zs o.2 q)

pub ordered_tail :
    (low : ℕ) (xs : List Block) (b m : ℕ) (ys : List Block)
    → OrderedFrom low (xs ++ (b, m) ∷ ys)
    → OrderedFrom b ((b, m) ∷ ys)
ordered_tail low [] b m ys o = (omega arith, o.1, o.2)
ordered_tail low ((x, n) ∷ xs) b m ys o = ordered_tail (x + n) xs b m ys o.2

pub below-not_block :
    (low p : ℕ) (xs : List Block)
    → p < low
    → OrderedFrom low xs
    → count (page_link p) (addrs xs) ≡ 0
below-not_block low p [] h o = refl
below-not_block low p ((b, n) ∷ xs) h o =
    ground (arith, below-not_block (b + n) p xs (omega arith) o.2)

-- A page inside a listed block, but not its first, is the head of no listed block.
pub inside-not_block :
    (low p : ℕ) (xs : List Block) (b m : ℕ) (ys : List Block)
    → OrderedFrom low (xs ++ (b, m) ∷ ys)
    → b < p
    → p < b + m
    → (count (page_link p) (addrs (xs ++ (b, m) ∷ ys)) ≡ 0) × (low ≤ b)
inside-not_block low p [] b m ys o h k = (ground (arith, below-not_block (b + m) p ys k o.2), o.0)
inside-not_block low p ((x, n) ∷ xs) b m ys o h k =
    let (c, d) = inside-not_block (x + n) p xs b m ys o.2 h k in (ground (arith, c, d), omega arith)

pub Heads-frame :
    (f g : ℕ → Page) (xs : List Block)
    → Heads f xs
    → ((p : ℕ)
        → 0 < count (page_link p) (addrs xs)
        → ((g p).property ≡ (f p).property) × ((g p).head ≡ (f p).head))
    → Heads g xs
Heads-frame f g [] h same = tt
Heads-frame f g ((b, n) ∷ xs) h same =
    (ground (arith, same b, h.0), Heads-frame f g xs h.1 (λ p k. same p (ground (arith, k))))

pub Heads-append :
    (f : ℕ → Page) (xs ys : List Block) → Heads f xs → Heads f ys → Heads f (xs ++ ys)
Heads-append f [] ys h k = k
Heads-append f ((b, n) ∷ xs) ys h k = (h.0, Heads-append f xs ys h.1 k)

pub Heads-split : (f : ℕ → Page) (xs ys : List Block) → Heads f (xs ++ ys) → Heads f xs × Heads f ys
Heads-split f [] ys h = (tt, h)
Heads-split f ((b, n) ∷ xs) ys h = let (k, t) = Heads-split f xs ys h.1 in ((h.0, k), t)

-- How many of the blocks hold page `k`.
abbrev pub inside : ℕ → Block → ℕ
inside k (b, n) = if leb b k then (if ltb k (b + n) then 1 else 0) else 0

abbrev pub covered : ℕ → List Block → ℕ
covered k [] = 0
covered k (x ∷ xs) = inside k x + covered k xs

pub covered-append :
    (k : ℕ) (xs ys : List Block) → covered k (xs ++ ys) ≡ covered k xs + covered k ys
covered-append k [] ys = omega arith
covered-append k (x ∷ xs) ys = omega (arith, covered-append k xs ys)

-- Ordered blocks share no page, and hold none below their bound.
pub ordered_covered :
    (k low : ℕ) (xs : List Block)
    → OrderedFrom low xs
    → (covered k xs ≤ 1) × (k < low → covered k xs ≡ 0)
ordered_covered k low [] o = (omega arith, λ h. refl)
ordered_covered k low ((b, n) ∷ xs) o =
    let (one, out) = ordered_covered k (b + n) xs o.2 in
    (ground (arith, one, out), ground (arith, one, out))
