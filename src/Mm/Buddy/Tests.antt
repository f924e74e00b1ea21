-- ===== src/Mm/Buddy/Tests.antt =====
-- Two blocks of one page, 0 and 1, of which 1 is free.
use nku_os.Prelude.{ℕ, suc, ◌*◌, ◌^◌, ◌≡◌, ◌≤◌, ◌<◌, ◌⊎◌, refl, false, some, [], ◌∷◌, arith, ◌==◌}
use nku_os.LinkedList.{Links, list_add, list_init}
use nku_os.LinkedList.Laws.{IsRing, list_add_after-head}
use nku_os.LinkedList.Ops.{list_init-empty}
use nku_os.Mm.Buddy.{
  BuddyPage, FreeBuddy, free_array, buddy_link, floor_pow2, log2, ceil_pow2, get_buddy,
  buddy_free_pages,
}
use nku_os.Mm.Buddy.Powers.{IsLog, pow2_lem}
use nku_os.Mm.Buddy.Free.{Apart}

pow2_lem_example :
    (k : ℕ) × (floor_pow2 101 100 ≡ some (2 ^ k))
    × (log2 101 100 ≡ some k)
    × IsLog 100 k
    × (c : ℕ) × (ceil_pow2 101 100 ≡ some c)
    × (100 ≤ c)
    × (c < 2 * 100)
    × ((c ≡ 2 ^ k) ⊎ (c ≡ 2 ^ suc k))
pow2_lem_example = pow2_lem 100 (omega arith) (omega arith)

-- Every node is a ring of its own, but for page 1 in the list of order 0.
abbrev alone : Links
alone = record { next = λ n. n; prev = λ n. n }

abbrev listed : Links
listed = list_add 0 (buddy_link 1) (list_init 0 alone)

listed-0 : IsRing listed 0 (buddy_link 1 ∷ [])
unfolding list_add
listed-0 =
    list_add_after-head (list_init 0 alone) 0 (buddy_link 1) [] (list_init-empty alone 0).0 refl

abbrev two_pages : FreeBuddy
two_pages = record {
  page = λ p. record { reserved = false; property_flag = p == 1; property = 0; ref = 0 };
  links = listed;
  max_order = 1;
  nr_free = 1;
}

listed-1 : IsRing listed 1 []
unfolding list_add list_init
listed-1 = record { chain = (refl, refl); distinct = λ n. ground arith }

buddy_1 : get_buddy 0 two_pages ≡ 1
unfolding get_buddy
buddy_1 = refl

one_page : ceil_pow2 3 1 ≡ some 1
unfolding ceil_pow2 floor_pow2 nku_os.Mm.Buddy.floor_pow2_from
one_page = refl

apart : Apart (0 ∷ buddy_link 1 ∷ []) (1 ∷ [])
apart n p = ground (arith, p)
