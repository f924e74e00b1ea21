-- ===== src/Sched/SkewHeap/Order.antt =====
-- The heap order that the operations of libs/skew_heap.h keep.
use nku_os.Prelude.{ℕ, ◌+◌, ◌≤◌, ◌<◌, ◌≡◌, Bool, true, false, arith, ◌==◌, Bool-cases, inl, inr}
use nku_os.Sched.SkewHeap.{
  SkewHeap, null, node, skew_heap_merge, skew_heap_insert, remove_below, skew_heap_remove, occurs,
}
use nku_os.Sched.SkewHeap.Laws.{occurs-merge, occurs-remove_le, remove-below}

-- Every node's key is at most the keys below it.
abbrev pub IsHeap : (ℕ → ℕ) → SkewHeap → Type 0
IsHeap key null = Unit {0}
IsHeap key (node x l r) =
    ((n : ℕ) → 0 < occurs n l + occurs n r → key x ≤ key n) × IsHeap key l × IsHeap key r

-- The comparison of two nodes goes by their keys.
abbrev pub Compares : (ℕ → ℕ → Bool) → (ℕ → ℕ) → ℕ → ℕ → Type 0
Compares less key x y = (less x y ≡ true → key x ≤ key y) × (less x y ≡ false → key y ≤ key x)

abbrev pub Agree : (ℕ → ℕ → Bool) → (ℕ → ℕ) → SkewHeap → SkewHeap → Type 0
Agree less key a b = (x y : ℕ) → 0 < occurs x a → 0 < occurs y b → Compares less key x y

module _ (less : ℕ → ℕ → Bool) (key : ℕ → ℕ) where
  pub merge-IsHeap :
      (a b : SkewHeap)
      → Agree less key a b
      → IsHeap key a
      → IsHeap key b
      → IsHeap key (skew_heap_merge less a b)
  unfolding skew_heap_merge
  merge-IsHeap null b g h k = k
  merge-IsHeap (node x l r) null g h k = h
  merge-IsHeap (node x l r) (node y l' r') g h k = elim (Bool-cases (less x y)) [
    | inl e ↦
        rw (e, IsHeap)
          (
            λ n p. ground (arith, p, occurs-merge less r (node y l' r') n, h.0 n, k.0 n, g x y, e),
            merge-IsHeap r (node y l' r') (λ u v p q. g u v (ground (arith, p)) q) h.2 k,
            h.1,
          )
    | inr e ↦
        rw (e, IsHeap)
          (
            λ n p. ground (arith, p, occurs-merge less (node x l r) r' n, h.0 n, k.0 n, g x y, e),
            merge-IsHeap (node x l r) r' (λ u v p q. g u v p (ground (arith, q))) h k.2,
            k.1,
          )
  ]

  remove-IsHeap :
      (t : SkewHeap) (b : ℕ)
      → Agree less key t t
      → IsHeap key t
      → IsHeap key (remove_below less t b)
  unfolding remove_below
  remove-IsHeap null b g h = h
  remove-IsHeap (node x l r) b g h = elim (Bool-cases (x == b)) [
    | inl e ↦
        rw e (merge-IsHeap l r (λ u v p q. g u v (ground (arith, p)) (ground (arith, q))) h.1 h.2)
    | inr e ↦
        rw (e, IsHeap)
          (
            λ n p.
                ground (arith, p, h.0 n, occurs-remove_le less l b n, occurs-remove_le less r b n),
            remove-IsHeap l b (λ u v p q. g u v (ground (arith, p)) (ground (arith, q))) h.1,
            remove-IsHeap r b (λ u v p q. g u v (ground (arith, p)) (ground (arith, q))) h.2,
          )
  ]

  -- Under a comparison that goes by a key on the nodes concerned, inserting a node `b` into a heap in
  -- order and removing a node `d` that stands in it once leave it in order, and the root of such a heap has the least key.
  pub skew_heap_order :
      (a : SkewHeap) (b d : ℕ)
      → Agree less key a a
      → Agree less key a (node b null null)
      → occurs d a ≡ 1
      → IsHeap key a
      → IsHeap key (skew_heap_insert less a b)
        × IsHeap key (skew_heap_remove less a d)
        × ((x n : ℕ) (l r : SkewHeap) → a ≡ node x l r → 0 < occurs n a → key x ≤ key n)
  unfolding skew_heap_insert
  skew_heap_order a b d g g' once h = (
    merge-IsHeap a (node b null null) g' h ((λ n p. absurd (omega arith)), tt, tt),
    rw (remove-below less a d once) (remove-IsHeap a d g h),
    λ x n l r e p. root_least x n l r (rw e at h) (rw e at p),
  )
    where
      root_least :
          (x n : ℕ) (l r : SkewHeap)
          → IsHeap key (node x l r)
          → 0 < occurs n (node x l r)
          → key x ≤ key n
      root_least x n l r k p = ground (arith, k.0 n, p)
