-- ===== src/Mm/FirstFit/Tests.antt =====
-- Runs of the first-fit manager, and its theorems at a list of two blocks.
use nku_os.Prelude.{ℕ, ◌+◌, ◌≡◌, refl, true, false, Option, some, List, [], ◌∷◌, arith, update}
use nku_os.LinkedList.{Links}
use nku_os.LinkedList.Laws.{IsRing}
use nku_os.Mm.FirstFit.{Page, FreeArea, free_list, default_alloc_pages, default_free_pages}
use nku_os.Mm.FirstFit.Blocks.{Block, addrs, IsArea, inside, covered}
use nku_os.Mm.FirstFit.Alloc.{first_fit, Allocated, default_alloc_pages-first_fit}
use nku_os.Mm.FirstFit.Free.{default_free_pages-join_between}
use nku_os.Mm.FirstFit.Join.{join_between}

abbrev used : Page
used = record { ref = 1; reserved = false; head = false; property = 0 }

abbrev head_of : ℕ → Page
head_of n = record { ref = 0; reserved = false; head = true; property = n }

abbrev two_links : Links
two_links = record {
  next = update (update (update (λ _. 0) 0 3) 3 11) 11 0;
  prev = update (update (update (λ _. 0) 0 11) 3 0) 11 3;
}

-- Free: pages 2 to 4 and 10 to 13.
abbrev two_blocks : List Block
two_blocks = (2, 3) ∷ (10, 4) ∷ []

abbrev two : FreeArea
two = record {
  page = update (update (λ _. used) 2 (head_of 3)) 10 (head_of 4);
  links = two_links;
  nr_free = 7;
}

two-IsRing : IsRing two_links free_list (addrs two_blocks)
two-IsRing = record { chain = omega arith; distinct = λ n. ground arith }

two-IsArea : IsArea two two_blocks
two-IsArea = record {
  ring = two-IsRing;
  heads = ((refl, refl), ((refl, refl), tt));
  ordered = omega arith;
  counted = refl;
  small = omega arith;
}

default_alloc_pages-first_fit_example :
    (r : Option ℕ × FreeArea) × (default_alloc_pages 3 4 two ≡ some r)
    × Allocated 4 two two_blocks (first_fit 4 two_blocks) r
default_alloc_pages-first_fit_example =
    default_alloc_pages-first_fit 3 4 two two_blocks two-IsArea (omega arith) (omega arith)

default_free_pages-join_between_example :
    (t : FreeArea) × (default_free_pages 2 5 5 two ≡ some t)
    × IsArea t (join_between ((2, 3) ∷ []) (5, 5) ((10, 4) ∷ []))
    × ((k : ℕ)
        → covered k (join_between ((2, 3) ∷ []) (5, 5) ((10, 4) ∷ []))
          ≡ inside k (5, 5) + covered k two_blocks)
default_free_pages-join_between_example =
    default_free_pages-join_between 2 5 5 two ((2, 3) ∷ []) ((10, 4) ∷ []) two-IsArea (omega arith)
      (λ p h k. (ground arith, ground arith))
      (record {
        before = omega arith;
        behind = omega arith;
        not_last = λ e. cc;
        small = omega arith;
      })
      (omega arith)

-- The three blocks are joined to one.
join_all : join_between ((2, 3) ∷ []) (5, 5) ((10, 4) ∷ []) ≡ (2, 12) ∷ []
unfolding join_between
join_all = refl

abbrev all_reserved : FreeArea
all_reserved = record two { page = λ _. record used { reserved = true } }
