-- ===== src/Sched/Stride.antt =====
-- kern/schedule/default_sched_stride.c, as it is compiled (`USE_SKEW_HEAP` is 1): the stride policy.
pub mod Laws
pub mod Window
pub mod Round
pub mod Tick
use nku_os.Prelude.{
  ℕ, ◌+◌, ◌-◌, ◌/◌, ◌%◌, ◌^◌, Bool, true, false, ◌&&◌, ◌||◌, Option, none, some, ltb, leb, ◌==◌,
  if◌then◌else◌, update,
}
use nku_os.Sched.Proc.{Proc, Procs}
use nku_os.Sched.Class.{SchedClass}
use nku_os.Sched.SkewHeap.{SkewHeap, null, node, skew_heap_insert, skew_heap_remove}

abbrev pub big_stride : ℕ
big_stride = 0x7fffffff

-- `struct run_queue`; `run_list` is not used, and `proc->rq` always points to the one run queue.
pub record RunQueue : Type 0 where
  pub lab6_run_pool : SkewHeap
  pub proc_num : ℕ
  pub max_time_slice : ℕ

-- The sign of `int32_t c = p->lab6_stride - q->lab6_stride`.
pub data Sign : Type 0 where
  negative zero positive : Sign

unfoldable pub proc_stride_comp_f : Procs → ℕ → ℕ → Sign
proc_stride_comp_f procs a b =
    let c = ((procs a).lab6_stride + 2 ^ 32 - (procs b).lab6_stride) % 2 ^ 32 in
    if ltb 0 c && ltb c (2 ^ 31) then Sign.positive else if c == 0 then Sign.zero else Sign.negative

abbrev pub is_negative : Sign → Bool
is_negative Sign.negative = true
is_negative _ = false

-- The test that the skew heap makes.
abbrev pub less : Procs → ℕ → ℕ → Bool
less procs a b = is_negative (proc_stride_comp_f procs a b)

unfoldable pub stride_init : RunQueue → RunQueue
stride_init rq = record rq { lab6_run_pool = null; proc_num = 0 }

-- `time_slice` is an `int`: a pattern from 2 ^ 31 on is negative, and so not above the maximum.
unfoldable pub stride_enqueue : ℕ → Procs → RunQueue → Procs × RunQueue
unfolding skew_heap_insert proc_stride_comp_f
stride_enqueue proc procs rq =
    let v = procs proc in
    let full = record v { time_slice = rq.max_time_slice } in
    let procs' =
      if v.time_slice == 0 || (ltb v.time_slice (2 ^ 31) && ltb rq.max_time_slice v.time_slice)
      then update procs proc full
      else procs in
    (
      procs',
      record rq {
        lab6_run_pool = skew_heap_insert (less procs) rq.lab6_run_pool proc;
        proc_num = (rq.proc_num + 1) % 2 ^ 32;
      },
    )

unfoldable pub stride_dequeue : ℕ → Procs → RunQueue → Procs × RunQueue
unfolding skew_heap_remove proc_stride_comp_f
stride_dequeue proc procs rq = (
  procs,
  record rq {
    lab6_run_pool = skew_heap_remove (less procs) rq.lab6_run_pool proc;
    proc_num = (rq.proc_num + 2 ^ 32 - 1) % 2 ^ 32;
  },
)

-- How far a process moves when it is picked.
abbrev pub pass : ℕ → ℕ
pass priority = if priority == 0 then big_stride else big_stride / priority

abbrev pub root : SkewHeap → Option ℕ
root null = none
root (node p l r) = some p

unfoldable pub stride_pick_next : Procs → RunQueue → Option ℕ × Procs × RunQueue
stride_pick_next procs rq = elim (root rq.lab6_run_pool) [
  | none ↦ (none, procs, rq)
  | some p ↦
      let v = procs p in
      let moved = record v { lab6_stride = (v.lab6_stride + pass v.lab6_priority) % 2 ^ 32 } in
      (some p, update procs p moved, rq)
]

unfoldable pub stride_proc_tick : ℕ → Procs → RunQueue → Procs × RunQueue
stride_proc_tick proc procs rq =
    let v = procs proc in
    let left = if v.time_slice == 1 then 1 else (v.time_slice + 2 ^ 32 - 1) % 2 ^ 32 in
    (update procs proc (record v { time_slice = left }), rq)

abbrev pub default_sched_class : SchedClass
default_sched_class = record {
  Queue = RunQueue;
  enqueue = stride_enqueue;
  dequeue = stride_dequeue;
  pick_next = stride_pick_next;
  proc_tick = stride_proc_tick;
}
