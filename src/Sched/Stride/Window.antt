-- ===== src/Sched/Stride/Window.antt =====
-- Strides are compared modulo 2 ^ 32. This is right while all queued strides lie within
-- `big_stride` of a common base, which the policy keeps up.
use nku_os.Prelude.{update, ℕ, ◌+◌, ◌-◌, ◌%◌, ◌^◌, ◌≤◌, ◌<◌, ◌≡◌, ◌≢◌, arith}
use nku_os.Sched.Proc.{Procs}
use nku_os.Sched.SkewHeap.{SkewHeap, null, node, occurs, skew_heap_merge, skew_heap_insert}
use nku_os.Sched.SkewHeap.Laws.{occurs-merge}
use nku_os.Sched.SkewHeap.Order.{IsHeap, Compares, merge-IsHeap}
use nku_os.Sched.Stride.{big_stride, pass, less, proc_stride_comp_f}

-- How far a stride lies ahead of the base, modulo 2 ^ 32.
abbrev pub ahead : ℕ → ℕ → ℕ
ahead base x = (x + 2 ^ 32 - base) % 2 ^ 32

abbrev pub offset : ℕ → Procs → ℕ → ℕ
offset base t n = ahead base (t n).lab6_stride

abbrev pub InWindow : ℕ → Procs → ℕ → Type 0
InWindow base t n = ((t n).lab6_stride < 2 ^ 32) × (offset base t n ≤ big_stride)

ahead_compare :
    (base x y : ℕ)
    → base < 2 ^ 32
    → x < 2 ^ 32
    → y < 2 ^ 32
    → ahead base x ≤ big_stride
    → ahead base y ≤ big_stride
    → ((0 < (x + 2 ^ 32 - y) % 2 ^ 32
          → (x + 2 ^ 32 - y) % 2 ^ 32 < 2 ^ 31
          → ahead base y < ahead base x)
        × (((x + 2 ^ 32 - y) % 2 ^ 32 ≡ 0) → ahead base y ≡ ahead base x)
        × (2 ^ 31 ≤ (x + 2 ^ 32 - y) % 2 ^ 32 → ahead base x < ahead base y))
ahead_compare base x y b hx hy wx wy = omega arith

-- For strides in one window the wrapped comparison is that of the distances from the base.
pub less-Compares :
    (base x y : ℕ) (t : Procs)
    → base < 2 ^ 32
    → InWindow base t x
    → InWindow base t y
    → Compares (less t) (offset base t) x y
unfolding proc_stride_comp_f
less-Compares base x y t b wx wy =
    let c = ahead_compare base (t x).lab6_stride (t y).lab6_stride b wx.0 wy.0 wx.1 wy.1 in
    (ground (arith, c), ground (arith, c))

-- The run queue is in order around a base.
pub record IsStride (base : ℕ) (t : Procs) (h : SkewHeap) : Type 0 where
  pub base_small : base < 2 ^ 32
  pub window : (n : ℕ) → 0 < occurs n h → InWindow base t n
  pub heap : IsHeap (offset base t) h
  pub once : (n : ℕ) → occurs n h ≤ 1

pass-le : (k : ℕ) → pass k ≤ big_stride
pass-le k = ground arith

-- A base further on, and other processes changed: the order of the heap stays.
pub heap_rebase :
    (base base' : ℕ) (t t' : Procs) (h : SkewHeap)
    → ((x y : ℕ)
        → 0 < occurs x h
        → 0 < occurs y h
        → offset base t x ≤ offset base t y
        → offset base' t' x ≤ offset base' t' y)
    → IsHeap (offset base t) h
    → IsHeap (offset base' t') h
heap_rebase base base' t t' null e k = tt
heap_rebase base base' t t' (node x l r) e k = (
  λ n p. e x n (ground arith) (ground (arith, p)) (k.0 n p),
  heap_rebase base base' t t' l (λ u v p q. e u v (ground (arith, p)) (ground (arith, q))) k.1,
  heap_rebase base base' t t' r (λ u v p q. e u v (ground (arith, p)) (ground (arith, q))) k.2,
)

rebase :
    (base x y : ℕ)
    → base < 2 ^ 32
    → x < 2 ^ 32
    → y < 2 ^ 32
    → ahead base x ≤ ahead base y
    → ahead base y ≤ big_stride
    → ahead x y + ahead base x ≡ ahead base y
rebase base x y b hx hy le w = omega arith

moved_ahead : (x k : ℕ) → x < 2 ^ 32 → k ≤ big_stride → ahead x ((x + k) % 2 ^ 32) ≤ big_stride
moved_ahead x k h p = omega arith

module _ (base : ℕ) (t : Procs) (p : ℕ) (l r : SkewHeap) (v : IsStride base t (node p l r)) where
  -- The process table after the pick.
  abbrev pub moved : Procs
  moved =
      let w = t p in
      update t p (record w { lab6_stride = (w.lab6_stride + pass w.lab6_priority) % 2 ^ 32 })

  -- The new base: the stride of the process that was picked.
  abbrev pub start : ℕ
  start = (t p).lab6_stride

  rest_ne : (n : ℕ) → 0 < occurs n l + occurs n r → n ≢ p
  rest_ne n h e = ground (arith, v.once p, h, e)

  rest_offset :
      (n : ℕ)
      → 0 < occurs n l + occurs n r
      → offset start moved n + offset base t p ≡ offset base t n
  rest_offset n h = ground (
    arith,
    rest_ne n h,
    rebase base start (t n).lab6_stride v.base_small (v.window p (ground arith)).0
        (v.window n (ground (arith, h))).0 (v.heap.0 n h) (v.window n (ground (arith, h))).1,
  )

  rest_window : (n : ℕ) → 0 < occurs n l + occurs n r → InWindow start moved n
  rest_window n h = (
    ground (arith, rest_ne n h, v.window n, h),
    omega (arith, rest_offset n h, v.window n (ground (arith, h))),
  )

  pub moved_window : InWindow start moved p
  moved_window =
      let w = v.window p (ground arith) in
      let q = pass-le (t p).lab6_priority in
      (ground arith, ground (arith, moved_ahead (t p).lab6_stride (pass (t p).lab6_priority) w.0 q))

  pub rest_IsStride : IsStride start moved (skew_heap_merge (less moved) l r)
  rest_IsStride =
      let small = (v.window p (ground arith)).0 in
      record {
        base_small = small;
        window = λ n h. rest_window n (omega (arith, h, occurs-merge (less moved) l r n));
        heap =
            merge-IsHeap (less moved) (offset start moved) l r
              (λ x y h k.
                less-Compares start x y moved small (rest_window x (omega (arith, h)))
                  (rest_window y (omega (arith, k))))
              (heap_rebase base start t moved l
                (λ x y h k e.
                  omega
                    (arith, e, rest_offset x (omega (arith, h)), rest_offset y (omega (arith, k))))
                v.heap.1)
              (heap_rebase base start t moved r
                (λ x y h k e.
                  omega
                    (arith, e, rest_offset x (omega (arith, h)), rest_offset y (omega (arith, k))))
                v.heap.2);
        once = λ n. ground (arith, v.once n, occurs-merge (less moved) l r n);
      }

-- A process whose stride lies in the window may be queued.
pub insert_IsStride :
    (base p : ℕ) (t : Procs) (h : SkewHeap)
    → IsStride base t h
    → InWindow base t p
    → occurs p h ≡ 0
    → IsStride base t (skew_heap_insert (less t) h p)
unfolding skew_heap_insert
insert_IsStride base p t h v w out = record {
  base_small = v.base_small;
  window = λ n k. ground (arith, v.window n, w, k, occurs-merge (less t) h (node p null null) n);
  heap =
      merge-IsHeap (less t) (offset base t) h (node p null null)
        (λ x y k j. less-Compares base x y t v.base_small (v.window x k) (ground (arith, w, j)))
        v.heap ((λ n k. absurd (omega arith)), tt, tt);
  once = λ n. ground (arith, v.once n, out, occurs-merge (less t) h (node p null null) n);
}
