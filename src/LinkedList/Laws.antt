-- ===== src/LinkedList/Laws.antt =====
-- The operations of libs/list.h on a whole ring, seen as the sequence of its nodes.
use nku_os.Prelude.{ℕ, ◌<◌, ◌≡◌, List, [], ◌∷◌, ◌++◌, arith, count, count-append, Distinct}
use nku_os.LinkedList.{Links, raw_list_add, list_add_before, list_add_after, list_del}
use nku_os.LinkedList.Chain.{Chain, Chain-split, Chain-join, Chain-frame, last_mem, Chain-retarget}

-- The nodes of the ring of `h`, in order, are `xs`, and all are distinct.
pub record IsRing (l : Links) (h : ℕ) (xs : List ℕ) : Type 0 where
  pub chain : Chain l h xs h
  pub distinct : Distinct (h ∷ xs)

-- The ring read from another of its nodes.
pub IsRing-rotate :
    (l : Links) (h : ℕ) (xs : List ℕ) (m : ℕ) (ys : List ℕ)
    → IsRing l h (xs ++ m ∷ ys)
    → IsRing l m (ys ++ h ∷ xs)
IsRing-rotate l h xs m ys r = record {
  chain = let (c, d) = Chain-split l h xs m ys h r.chain in Chain-join l m ys h xs m d c;
  distinct =
      λ n. ground (arith, r.distinct n, count-append n xs (m ∷ ys), count-append n ys (h ∷ xs));
}

module _ (l : Links) (h e : ℕ) (xs : List ℕ) (r : IsRing l h xs) (out : count e (h ∷ xs) ≡ 0) where
  -- A node that is in no list goes behind the head.
  pub list_add_after-head : IsRing (list_add_after h e l) h (e ∷ xs)
  unfolding list_add_after
  list_add_after-head = record {
    chain = go xs r.chain r.distinct out;
    distinct = λ n. ground (arith, r.distinct n, out);
  }
    where
      go :
          (zs : List ℕ)
          → Chain l h zs h
          → Distinct (h ∷ zs)
          → count e (h ∷ zs) ≡ 0
          → Chain (raw_list_add e h (l.next h) l) h (e ∷ zs) h
      go [] c d o = ground arith
      go (z ∷ zs) c d o =
          let g = raw_list_add e h (l.next h) l in
          let rest : Chain g z zs h =
            Chain-frame l g z zs h c.2 (λ n k. ground (arith, d n, k, o, c.0))
              (λ n k. ground (arith, d n, k, o, c.0, count-append n zs (h ∷ []))) in
          (ground arith, ground arith, (ground arith, ground arith, rest))

  -- A node that is in no list goes before the head, which is the end of the ring.
  pub list_add_before-head : IsRing (list_add_before h e l) h (xs ++ e ∷ [])
  unfolding list_add_before
  list_add_before-head = record {
    chain = Chain-join g h xs e [] h front (ground arith, ground arith);
    distinct = λ n. ground (arith, r.distinct n, out, count-append n xs (e ∷ []));
  }
    where
      g : Links
      g = raw_list_add e (l.prev h) h l

      last : 0 < count (l.prev h) (h ∷ xs)
      last = last_mem l h xs h r.chain

      front : Chain g h xs e
      front =
          Chain-retarget l g h xs h e r.chain r.distinct (ground (arith, last, out)) (ground arith)
            (λ n k ne. ground (arith, out)) (λ n k. ground (arith, out, r.distinct n))

-- `list_del` of a node takes it out of its ring, and leaves the others in order.
pub list_del-IsRing :
    (l : Links) (m z : ℕ) (zs : List ℕ) → IsRing l m (z ∷ zs) → IsRing (list_del m l) z zs
unfolding list_del
list_del-IsRing l m z zs r = record {
  chain =
      Chain-retarget l (list_del m l) z zs m z r.chain.2 (λ n. ground (arith, r.distinct n))
        (ground (arith, r.chain.0)) (ground (arith, r.chain.0)) (λ n k ne. ground arith)
        (λ n k. ground (arith, r.distinct n, r.chain.0));
  distinct = λ n. ground (arith, r.distinct n);
}
