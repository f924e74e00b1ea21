-- ===== src/Mm/BestFit/Tests.antt =====
-- A list of two blocks, of which the second is the smaller one.
use nku_os.Prelude.{ℕ, ◌≡◌, refl, true, false, Option, some, List, [], ◌∷◌, arith, update}
use nku_os.LinkedList.{Links}
use nku_os.LinkedList.Laws.{IsRing}
use nku_os.Mm.FirstFit.{Page, FreeArea, free_list}
use nku_os.Mm.FirstFit.Blocks.{Block, addrs, IsArea}
use nku_os.Mm.BestFit.{best_fit_alloc_pages}
use nku_os.Mm.BestFit.Alloc.{BestAllocated, best_fit_alloc_pages-BestAllocated}

abbrev free_head : ℕ → Page
free_head n = record { ref = 0; reserved = false; head = true; property = n }

abbrev area_links : Links
area_links = record {
  next = update (update (update (λ _. 0) 0 2) 2 9) 9 0;
  prev = update (update (update (λ _. 0) 0 9) 2 0) 9 2;
}

-- Free: pages 1 to 6 and 8 to 10.
abbrev area_blocks : List Block
area_blocks = (1, 6) ∷ (8, 3) ∷ []

abbrev area : FreeArea
area = record {
  page =
      update
        (update (λ p. record { ref = 1; reserved = false; head = false; property = 0 }) 1
          (free_head 6))
        8 (free_head 3);
  links = area_links;
  nr_free = 9;
}

area-IsRing : IsRing area_links free_list (addrs area_blocks)
area-IsRing = record { chain = omega arith; distinct = λ n. ground arith }

area-IsArea : IsArea area area_blocks
area-IsArea = record {
  ring = area-IsRing;
  heads = ((refl, refl), ((refl, refl), tt));
  ordered = omega arith;
  counted = refl;
  small = omega arith;
}

best_fit_alloc_pages-BestAllocated_example :
    (r : Option ℕ × FreeArea) × (best_fit_alloc_pages 3 2 area ≡ some r)
    × BestAllocated 2 area area_blocks r
best_fit_alloc_pages-BestAllocated_example =
    best_fit_alloc_pages-BestAllocated 3 2 area area_blocks area-IsArea (omega arith) (omega arith)
      (omega arith)
