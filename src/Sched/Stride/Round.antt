-- ===== src/Sched/Stride/Round.antt =====
-- One round of the stride policy: pick, take out, and put back.
use mathlib.Core.Path.{subst}
use nku_os.Prelude.{ℕ, ◌+◌, ◌-◌, ◌%◌, ◌^◌, ◌≤◌, ◌<◌, ◌≡◌, refl, sym, true, some, arith, ◌==◌}
use nku_os.Sched.Proc.{Procs}
use nku_os.Sched.SkewHeap.{
  SkewHeap, node, occurs, skew_heap_merge, skew_heap_insert, skew_heap_remove,
}
use nku_os.Sched.SkewHeap.Laws.{occurs-merge}
use nku_os.Sched.Stride.{RunQueue, pass, less, stride_enqueue, stride_dequeue, stride_pick_next}
use nku_os.Sched.Stride.Window.{
  offset, InWindow, IsStride, moved, rest_IsStride, moved_window, insert_IsStride, heap_rebase,
}

IsStride-frame :
    (base : ℕ) (t t' : Procs) (h : SkewHeap)
    → IsStride base t h
    → ((n : ℕ) → (t' n).lab6_stride ≡ (t n).lab6_stride)
    → IsStride base t' h
IsStride-frame base t t' h v e = record {
  base_small = v.base_small;
  window = λ n k. ground (arith, v.window n k, e n);
  heap = heap_rebase base base t t' h (λ x y k j le. ground (arith, e x, e y, le)) v.heap;
  once = v.once;
}

-- The queue in order, and what is to hold after a round in which `p` is picked.
abbrev pub Round : ℕ → Procs → RunQueue → ℕ → Type 0
Round base t q p =
    let (found, t1, q1) = stride_pick_next t q in
    let (t2, q2) = stride_dequeue p t1 q1 in
    let (t3, q3) = stride_enqueue p t2 q2 in
    (found ≡ some p)
    × ((n : ℕ) → 0 < occurs n q.lab6_run_pool → offset base t p ≤ offset base t n)
    × ((t1 p).lab6_stride ≡ ((t p).lab6_stride + pass (t p).lab6_priority) % 2 ^ 32)
    × IsStride (t p).lab6_stride t2 q2.lab6_run_pool
    × IsStride (t p).lab6_stride t3 q3.lab6_run_pool

-- Taking out the root merges its children.
dequeue_root :
    (p : ℕ) (t : Procs) (q : RunQueue) (l r : SkewHeap)
    → occurs p (node p l r) ≡ 1
    → stride_dequeue p t (record q { lab6_run_pool = node p l r }) ≡ (
      t,
      record q {
        lab6_run_pool = skew_heap_merge (less t) l r;
        proc_num = (q.proc_num + 2 ^ 32 - 1) % 2 ^ 32;
      },
    )
unfolding stride_dequeue skew_heap_remove
dequeue_root p t q l r once =
    let same : (p == p) ≡ true = ground arith in ground (arith, same, once)

enqueue_IsStride :
    (base p : ℕ) (t : Procs) (q : RunQueue)
    → IsStride base t q.lab6_run_pool
    → InWindow base t p
    → occurs p q.lab6_run_pool ≡ 0
    → let (t', q') = stride_enqueue p t q in IsStride base t' q'.lab6_run_pool
unfolding stride_enqueue
enqueue_IsStride base p t q v w out =
    IsStride-frame base t (stride_enqueue p t q).0 (skew_heap_insert (less t) q.lab6_run_pool p)
      (insert_IsStride base p t q.lab6_run_pool v w out) (λ n. ground arith)

round_lem :
    (base : ℕ) (t : Procs) (q : RunQueue) (p : ℕ) (l r : SkewHeap)
    → IsStride base t (node p l r)
    → Round base t (record q { lab6_run_pool = node p l r }) p
unfolding stride_pick_next
round_lem base t q p l r v =
    let t1 = moved base t p l r v in
    let rest = rest_IsStride base t p l r v in
    let gone : occurs p (skew_heap_merge (less t1) l r) ≡ 0 =
      ground (arith, v.once p, occurs-merge (less t1) l r p) in
    let step = dequeue_root p t1 q l r (ground (arith, v.once p)) in
    (
      refl,
      λ n h. ground (arith, v.heap.0 n, h),
      ground arith,
      rw step rest,
      rw step (enqueue_IsStride (t p).lab6_stride p t1 _ rest (moved_window base t p l r v) gone),
    )

-- With a queue in order, `stride_pick_next` picks a process whose stride is the least, counted
-- from the base and so modulo 2 ^ 32, and moves it on by `big_stride` over its priority (by
-- `big_stride` if that is 0). After `stride_dequeue` and after a further `stride_enqueue` of that
-- process the queue is in order again, around its old stride.
pub stride-Round :
    (base : ℕ) (t : Procs) (q : RunQueue) (p : ℕ) (l r : SkewHeap)
    → q.lab6_run_pool ≡ node p l r
    → IsStride base t q.lab6_run_pool
    → Round base t q p
stride-Round base t q p l r e v =
    subst (λ h. Round base t (record q { lab6_run_pool = h }) p) (sym e)
      (round_lem base t q p l r (subst (λ h. IsStride base t h) e v))
