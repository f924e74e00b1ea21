-- ===== src/Sched/Tests.antt =====
-- Runs of the scheduler, and its theorems at a table of a few processes under the stride policy.
use nku_os.Prelude.{
  ℕ, ◌≤◌, ◌<◌, ◌≡◌, ◌≢◌, ◌⊎◌, refl, true, false, some, List, [], ◌∷◌, ◌++◌, arith, ltb, update,
}
use nku_os.Prelude.Partial.{◌>>=◌}
use nku_os.Sched.SkewHeap.{SkewHeap, null, node, occurs, skew_heap_insert, skew_heap_remove}
use nku_os.Sched.SkewHeap.Order.{IsHeap, skew_heap_order}
use nku_os.Sched.Proc.{runnable, sleeping, Proc, Procs, is_runnable}
use nku_os.Sched.Core.{Sched, wakeup_proc, schedule}
use nku_os.Sched.Core.Laws.{IsScheduled, wakeup_proc-IsScheduled, schedule-IsScheduled}
use nku_os.Sched.Stride.{RunQueue, default_sched_class}
use nku_os.Sched.Stride.Laws.{stride_laws}
use nku_os.Sched.Stride.Window.{IsStride}
use nku_os.Sched.Stride.Round.{Round, stride-Round}
use nku_os.Sched.Timer.{Timer, add_timer, del_timer, count_down}
use nku_os.Sched.Timer.Deadlines.{
  deadline, deadlines, insert_deadline, remove_deadline, add_timer-deadlines, del_timer-deadlines,
}
use nku_os.Sched.Timer.Tick.{all_at, NotDue, fire_all, count_down-deadlines}

abbrev heap : SkewHeap
heap = node 3 (node 5 null null) null

skew_heap_order_example :
    IsHeap (λ n. n) (skew_heap_insert ltb heap 4)
    × IsHeap (λ n. n) (skew_heap_remove ltb heap 3)
    × ((x n : ℕ) (l r : SkewHeap) → heap ≡ node x l r → 0 < occurs n heap → x ≤ n)
skew_heap_order_example =
    skew_heap_order ltb (λ n. n) heap 4 3 (λ x y p q. (ground arith, ground arith))
      (λ x y p q. (ground arith, ground arith)) refl
      (λ n p. ground arith, (λ n p. absurd (omega arith), tt, tt), tt)

-- Processes 2 and 3 can run, 4 sleeps; 1 is `idleproc`.
abbrev asleep : Proc
asleep = record {
  state = sleeping;
  runs = 0;
  need_resched = false;
  wait_state = 0;
  time_slice = 5;
  lab6_stride = 0;
  lab6_priority = 0;
}

abbrev at : ℕ → ℕ → Proc
at stride priority = record asleep {
  state = runnable;
  lab6_stride = stride;
  lab6_priority = priority;
}

abbrev table : Procs
table = update (update (λ _. asleep) 2 (at 10 3)) 3 (at 0xfffffff0 1)

abbrev queue : RunQueue
queue = record { lab6_run_pool = node 3 null null; proc_num = 1; max_time_slice = 5 }

abbrev system : Sched RunQueue
system = record { procs = table; queue = queue; current = 2 }

system-IsScheduled : IsScheduled default_sched_class stride_laws 1 system
system-IsScheduled n = ground arith

wakeup_proc-IsScheduled_example :
    (t : Sched RunQueue) × (wakeup_proc default_sched_class 1 4 system ≡ some t)
    × IsScheduled default_sched_class stride_laws 1 t
    × (is_runnable (t.procs 4).state ≡ true)
    × (t.current ≡ 2)
    × ((n : ℕ)
        → n ≢ 4
        → ((t.procs n).state ≡ (table n).state) × ((t.procs n).wait_state ≡ (table n).wait_state))
wakeup_proc-IsScheduled_example =
    wakeup_proc-IsScheduled default_sched_class stride_laws 1 4 system system-IsScheduled refl

schedule-IsScheduled_example :
    let t = schedule default_sched_class 1 system in
    IsScheduled default_sched_class stride_laws 1 t
    × ((n : ℕ) → (t.procs n).state ≡ (table n).state)
    × (((is_runnable (table t.current).state ≡ true) × (t.current ≢ 1))
        ⊎ ((t.current ≡ 1) × ((n : ℕ) → n ≢ 1 → is_runnable (table n).state ≡ false)))
schedule-IsScheduled_example =
    schedule-IsScheduled default_sched_class stride_laws 1 system system-IsScheduled

-- The stride of 3 is about to wrap around, and that of 2 has done so.
abbrev both : RunQueue
both = record { lab6_run_pool = node 3 (node 2 null null) null; proc_num = 2; max_time_slice = 5 }

both-IsStride : IsStride 0xfffffff0 table both.lab6_run_pool
both-IsStride = record {
  base_small = omega arith;
  window = λ n p. (ground arith, ground arith);
  heap = (λ n p. ground arith, (λ n p. absurd (omega arith), tt, tt), tt);
  once = λ n. ground arith;
}

stride-Round_example : Round 0xfffffff0 table both 3
stride-Round_example =
    stride-Round 0xfffffff0 table both 3 (node 2 null null) null refl both-IsStride

abbrev timer : ℕ → ℕ → ℕ → Timer
timer a e p = record { address = a; expires = e; proc = p }

abbrev timers : List Timer
timers = timer 100 5 4 ∷ timer 200 0 3 ∷ timer 300 7 4 ∷ []

add_timer-deadlines_example :
    (us : List Timer) × (add_timer (timer 400 8 2) timers ≡ some us)
    × (deadlines 50 us ≡ insert_deadline (deadline (timer 400 8 2) 58) (deadlines 50 timers))
add_timer-deadlines_example =
    add_timer-deadlines 50 (timer 400 8 2) timers (omega arith) (omega arith) refl

del_timer-deadlines_example :
    deadlines 50 (del_timer 100 timers) ≡ remove_deadline 100 (deadlines 50 timers)
del_timer-deadlines_example = del_timer-deadlines 50 100 timers (omega arith)

count_down-deadlines_example :
    (fired left : List Timer) × (count_down default_sched_class 1 (timer 500 1 4 ∷ timers) system
      ≡ (fire_all default_sched_class 1 fired system >>= λ s'. some (left, s')))
    × (deadlines 50 (timer 500 1 4 ∷ timers) ≡ all_at 51 fired ++ deadlines 51 left)
    × NotDue left
count_down-deadlines_example =
    count_down-deadlines default_sched_class 1 50 (timer 500 1 4) timers system (omega arith)
