-- ===== src/Sched/SkewHeap/Laws.antt =====
-- What the operations of libs/skew_heap.h do to the contents of a heap.
use nku_os.Prelude.{ℕ, suc, ◌+◌, ◌≤◌, ◌≡◌, refl, Bool, false, arith, ◌==◌, if◌then◌else◌}
use nku_os.Sched.SkewHeap.{
  SkewHeap, null, node, skew_heap_merge, skew_heap_insert, remove_below, skew_heap_remove, occurs,
}

module _ (less : ℕ → ℕ → Bool) where
  pub occurs-merge :
      (a b : SkewHeap) (n : ℕ) → occurs n (skew_heap_merge less a b) ≡ occurs n a + occurs n b
  unfolding skew_heap_merge
  occurs-merge null b n = omega arith
  occurs-merge (node x l r) null n = omega arith
  occurs-merge (node x l r) (node y l' r') n =
      ground (arith, occurs-merge r (node y l' r') n, occurs-merge (node x l r) r' n)

  pub occurs-remove_le : (t : SkewHeap) (b n : ℕ) → occurs n (remove_below less t b) ≤ occurs n t
  unfolding remove_below
  occurs-remove_le null b n = omega arith
  occurs-remove_le (node x l r) b n =
      ground (arith, occurs-merge l r n, occurs-remove_le l b n, occurs-remove_le r b n)

  -- Inserting a node adds it once to the heap, and every other node stands there as often as before.
  pub occurs-insert :
      (a : SkewHeap) (b n : ℕ)
      → occurs n (skew_heap_insert less a b) ≡ (if n == b then suc (occurs n a) else occurs n a)
  unfolding skew_heap_insert
  occurs-insert a b n = ground (arith, occurs-merge a (node b null null) n)

  occurs-below :
      (a : SkewHeap) (b n : ℕ)
      → occurs b a ≤ 1
      → occurs n (remove_below less a b) ≡ (if n == b then 0 else occurs n a)
  unfolding remove_below
  occurs-below null b n h = ground arith
  occurs-below (node x l r) b n h =
      ground (arith, occurs-merge l r n, occurs-below l b n, occurs-below r b n)

  pub remove-below :
      (a : SkewHeap) (b : ℕ) → occurs b a ≡ 1 → skew_heap_remove less a b ≡ remove_below less a b
  unfolding skew_heap_remove
  remove-below a b h = let there : (occurs b a == 0) ≡ false = ground (arith, h) in rw there refl

  -- Removing a node that stands in the heap once takes out that node and no other.
  pub occurs-remove :
      (a : SkewHeap) (b n : ℕ)
      → occurs b a ≡ 1
      → occurs n (skew_heap_remove less a b) ≡ (if n == b then 0 else occurs n a)
  occurs-remove a b n h = rw (remove-below a b h) (occurs-below a b n (omega (arith, h)))
