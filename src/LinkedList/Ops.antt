-- ===== src/LinkedList/Ops.antt =====
-- The operations of libs/list.h at any node of a ring, and the rings that they leave alone.
use nku_os.Prelude.{
  ℕ, ◌<◌, ◌≡◌, ◌≢◌, refl, ap, true, ◌↔◌, ◌⊎◌, inl, inr, List, [], ◌∷◌, ◌++◌, arith, count,
  count-append, append_assoc, append-nil,
}
use nku_os.LinkedList.{
  Links, list_init, list_add_before, list_add_after, list_del, list_del_init, list_empty,
}
use nku_os.LinkedList.Chain.{Chain, Chain-split, Chain-frame, last_mem}
use mathlib.Core.Path.{subst}
use nku_os.LinkedList.Laws.{
  IsRing, IsRing-rotate, list_add_after-head, list_add_before-head, list_del-IsRing,
}

-- `list_init` makes a ring with no other node, and `list_empty` holds of a ring exactly when it
-- has no node besides its head.
pub list_init-empty :
    (l : Links) (h : ℕ)
    → IsRing (list_init h l) h []
      × ((k : ℕ) (xs : List ℕ) → IsRing l k xs → (list_empty k l ≡ true) ↔ (xs ≡ []))
unfolding list_init
list_init-empty l h = (record { chain = ground arith; distinct = λ n. ground arith }, go)
  where
    go : (k : ℕ) (xs : List ℕ) → IsRing l k xs → (list_empty k l ≡ true) ↔ (xs ≡ [])
    go k [] r = (λ _. refl, λ _. ground (arith, r.chain.0))
    go k (x ∷ xs) r = (λ p. ground (arith, p, r.chain.0, r.distinct x), λ p. ground (arith, p))

module _ (l : Links) (h : ℕ) (xs : List ℕ) (m : ℕ) (ys : List ℕ)
    (r : IsRing l h (xs ++ m ∷ ys)) where
  -- A node `e` of no list, added after a node `m` of the ring of `h`, stands right behind it.
  pub list_add_after_lem :
      (e : ℕ) → count e (h ∷ xs ++ m ∷ ys) ≡ 0 → IsRing (list_add_after m e l) h (xs ++ m ∷ e ∷ ys)
  list_add_after_lem e out = IsRing-rotate (list_add_after m e l) m (e ∷ ys) h xs (
      list_add_after-head l m e (ys ++ h ∷ xs) (IsRing-rotate l h xs m ys r)
        (ground (arith, out, count-append e xs (m ∷ ys), count-append e ys (h ∷ xs))))

  -- A node `e` of no list, added before a node `m` of the ring of `h`, stands right before it.
  pub list_add_before_lem :
      (e : ℕ) → count e (h ∷ xs ++ m ∷ ys) ≡ 0 → IsRing (list_add_before m e l) h (xs ++ e ∷ m ∷ ys)
  list_add_before_lem e out =
      let g = list_add_before m e l in
      let s : IsRing g m ((ys ++ h ∷ xs) ++ e ∷ []) =
        list_add_before-head l m e (ys ++ h ∷ xs) (IsRing-rotate l h xs m ys r)
          (ground (arith, out, count-append e xs (m ∷ ys), count-append e ys (h ∷ xs))) in
      let t : IsRing g h ((xs ++ e ∷ []) ++ m ∷ ys) =
        IsRing-rotate g m ys h (xs ++ e ∷ []) (rw (append_assoc ys (h ∷ xs) (e ∷ [])) at s) in
      rw (append_assoc xs (e ∷ []) (m ∷ ys)) at t

  -- `list_del` takes exactly the node `m` out of the ring of `h`, at whatever place it stands.
  pub list_del_lem : IsRing (list_del m l) h (xs ++ ys)
  list_del_lem = go ys (IsRing-rotate l h xs m ys r)
    where
      go : (zs : List ℕ) → IsRing l m (zs ++ h ∷ xs) → IsRing (list_del m l) h (xs ++ zs)
      go [] q = rw (append-nil xs) (list_del-IsRing l m h xs q)
      go (z ∷ zs) q =
          IsRing-rotate (list_del m l) z zs h xs (list_del-IsRing l m z (zs ++ h ∷ xs) q)

-- A ring stays one under any change that spares the pointers of its nodes.
pub IsRing-frame :
    (l g : Links) (k : ℕ) (zs : List ℕ)
    → IsRing l k zs
    → ((n : ℕ) → 0 < count n (k ∷ zs) → (g.next n ≡ l.next n) × (g.prev n ≡ l.prev n))
    → IsRing g k zs
IsRing-frame l g k zs r same = record {
  chain =
      Chain-frame l g k zs k r.chain (λ n h. (same n h).0)
        (λ n h. (same n (ground (arith, h, count-append n zs (k ∷ [])))).1);
  distinct = r.distinct;
}

first_mem :
    (l : Links) (a : ℕ) (xs : List ℕ) (b : ℕ) → Chain l a xs b → 0 < count (l.next a) (xs ++ b ∷ [])
first_mem l a [] b c = ground arith
first_mem l a (x ∷ xs) b c = ground (arith, c.0)

module _ (l : Links) (m : ℕ) (ys : List ℕ) (r : IsRing l m ys) (n e : ℕ)
    (out : count n (m ∷ ys) ≡ 0) where
  next-ne : n ≢ l.next m
  next-ne = ground (arith, out, first_mem l m ys m r.chain, count-append (l.next m) ys (m ∷ []))

  prev-ne : n ≢ l.prev m
  prev-ne = ground (arith, out, last_mem l m ys m r.chain)

  -- The node `n` keeps its two pointers.
  abbrev Same : Links → Type 0
  Same g = (g.next n ≡ l.next n) × (g.prev n ≡ l.prev n)

  list_add_after-Same : n ≢ e → Same (list_add_after m e l)
  unfolding list_add_after
  list_add_after-Same ne = ground (arith, out, next-ne, ne)

  list_add_before-Same : n ≢ e → Same (list_add_before m e l)
  unfolding list_add_before
  list_add_before-Same ne = ground (arith, out, prev-ne, ne)

  list_del-Same : Same (list_del m l)
  unfolding list_del
  list_del-Same = ground (arith, next-ne, prev-ne)

-- Adding a node `e` before or after a node of one ring, and deleting that node, leave every other
-- ring that shares no node with it, nor holds `e`, as it was.
pub list_ops_frame :
    (l : Links) (m : ℕ) (ys : List ℕ) (k e : ℕ) (zs : List ℕ)
    → IsRing l m ys
    → IsRing l k zs
    → ((n : ℕ) → 0 < count n (k ∷ zs) → count n (m ∷ ys) ≡ 0)
    → count e (k ∷ zs) ≡ 0
    → IsRing (list_add_after m e l) k zs
      × IsRing (list_add_before m e l) k zs
      × IsRing (list_del m l) k zs
list_ops_frame l m ys k e zs r q apart out = (
  IsRing-frame l (list_add_after m e l) k zs q
      (λ n h. list_add_after-Same l m ys r n e (apart n h) (ground (arith, out, h))),
  IsRing-frame l (list_add_before m e l) k zs q
      (λ n h. list_add_before-Same l m ys r n e (apart n h) (ground (arith, out, h))),
  IsRing-frame l (list_del m l) k zs q (λ n h. list_del-Same l m ys r n e (apart n h)),
)

-- `list_del_init` takes the node `m` out of the ring of `h`, and makes it a ring of its own.
pub list_del_init_lem :
    (l : Links) (h : ℕ) (xs : List ℕ) (m : ℕ) (ys : List ℕ)
    → IsRing l h (xs ++ m ∷ ys)
    → IsRing (list_del_init m l) h (xs ++ ys) × IsRing (list_del_init m l) m []
unfolding list_del_init
list_del_init_lem l h xs m ys r = (
  IsRing-frame (list_del m l) (list_del_init m l) h (xs ++ ys) (list_del_lem l h xs m ys r)
      (λ n k. ground (arith, k, r.distinct m, count-append m xs ys, count-append m xs (m ∷ ys))),
  (list_init-empty (list_del m l) m).0,
)

pub snoc-cases {ℓ} :
    {A : Type ℓ} (xs : List A) → (xs ≡ []) ⊎ ((ys : List A) × (z : A) × (xs ≡ ys ++ z ∷ []))
snoc-cases [] = inl refl
snoc-cases (x ∷ xs) = elim (snoc-cases xs) [
  | inl e ↦ inr ([], x, ap (λ zs. x ∷ zs) e)
  | inr (ys, z, e) ↦ inr (x ∷ ys, z, ap (λ zs. x ∷ zs) e)
]

-- A node `e` of no list, added after the old predecessor of a deleted node, takes its place.
pub list_replace :
    (l : Links) (h : ℕ) (xs : List ℕ) (m : ℕ) (ys : List ℕ) (e : ℕ)
    → IsRing l h (xs ++ m ∷ ys)
    → count e (h ∷ xs ++ m ∷ ys) ≡ 0
    → IsRing (list_add_after (l.prev m) e (list_del m l)) h (xs ++ e ∷ ys)
list_replace l h xs m ys e r out = elim (snoc-cases xs) [
  | inl none ↦
      let r0 : IsRing l h (m ∷ ys) = subst (λ zs. IsRing l h (zs ++ m ∷ ys)) none r in
      rw (r0.chain.1, none)
        (list_add_after-head (list_del m l) h e ys (list_del_lem l h [] m ys r0)
          (ground (arith, out, count-append e xs (m ∷ ys))))
  | inr (zs, z, last) ↦
      let r1 : IsRing l h ((zs ++ z ∷ []) ++ m ∷ ys) =
        subst (λ ws. IsRing l h (ws ++ m ∷ ys)) last r in
      let r2 : IsRing l h (zs ++ z ∷ m ∷ ys) = rw (append_assoc zs (z ∷ []) (m ∷ ys)) at r1 in
      let d : IsRing (list_del m l) h (zs ++ z ∷ ys) =
        rw (append_assoc zs (z ∷ []) ys) at (list_del_lem l h (zs ++ z ∷ []) m ys r1) in
      let c = Chain-split l h zs z (m ∷ ys) h r2.chain in
      rw (c.1.1, last, append_assoc zs (z ∷ []) (e ∷ ys))
        (list_add_after_lem (list_del m l) h zs z ys d e (
          ground (
            arith,
            out,
            last,
            count-append e xs (m ∷ ys),
            count-append e zs (z ∷ []),
            count-append e zs (z ∷ ys),
          )))
]
