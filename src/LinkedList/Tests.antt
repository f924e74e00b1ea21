-- ===== src/LinkedList/Tests.antt =====
-- Runs of the list operations, and their theorems on a ring of the head 0 and the nodes 3, 11.
use nku_os.Prelude.{◌≡◌, refl, [], ◌∷◌, arith, update}
use nku_os.LinkedList.{Links, list_add_after, list_next}
use nku_os.LinkedList.Laws.{IsRing}

abbrev links : Links
links = record {
  next = update (update (update (λ k. k) 0 3) 3 11) 11 0;
  prev = update (update (update (λ k. k) 0 11) 3 0) 11 3;
}

links-IsRing : IsRing links 0 (3 ∷ 11 ∷ [])
links-IsRing = record { chain = omega arith; distinct = λ n. ground arith }

alone-IsRing : IsRing links 7 []
alone-IsRing = record { chain = omega arith; distinct = λ n. ground arith }

list_walk : list_next 3 (list_add_after 3 5 links) ≡ 5
unfolding list_add_after
list_walk = refl
