-- ===== src/Sched/SkewHeap.antt =====
-- libs/skew_heap.h: a heap of nodes, each of them a process number, under a comparison. A tree
-- stands for its `left` and `right` pointers; `parent` is the node above.
pub mod Laws
pub mod Order
use nku_os.Prelude.{ℕ, suc, ◌+◌, Bool, true, false, ◌==◌, if◌then◌else◌}

pub data SkewHeap : Type 0 where
  null : SkewHeap
  node : ℕ → SkewHeap → SkewHeap → SkewHeap

-- `less x y` is `comp(x, y) == -1`.
module _ (less : ℕ → ℕ → Bool) where
  unfoldable pub skew_heap_merge : SkewHeap → SkewHeap → SkewHeap
  skew_heap_merge null b = b
  skew_heap_merge (node x l r) null = node x l r
  skew_heap_merge (node x l r) (node y l' r') = elim (less x y) [
    | true ↦ node x (skew_heap_merge r (node y l' r')) l
    | false ↦ node y (skew_heap_merge (node x l r) r') l'
  ]

  unfoldable pub skew_heap_insert : SkewHeap → ℕ → SkewHeap
  unfolding skew_heap_merge
  skew_heap_insert a b = skew_heap_merge a (node b null null)

  -- The subtree of the node `b`, in its place under its parent, gives way to the children of `b` merged.
  unfoldable pub remove_below : SkewHeap → ℕ → SkewHeap
  unfolding skew_heap_merge
  remove_below null b = null
  remove_below (node x l r) b =
      if x == b then skew_heap_merge l r else node x (remove_below l b) (remove_below r b)

-- How often a number stands in a heap.
abbrev pub occurs : ℕ → SkewHeap → ℕ
occurs n null = 0
occurs n (node x l r) = if n == x then suc (occurs n l + occurs n r) else occurs n l + occurs n r

-- A node that is in no heap has the NULL pointers of `skew_heap_init`: the heap `a` is not looked at, and what is returned is empty.
unfoldable pub skew_heap_remove : (ℕ → ℕ → Bool) → SkewHeap → ℕ → SkewHeap
unfolding remove_below
skew_heap_remove less a b = if occurs b a == 0 then null else remove_below less a b
