-- ===== src/Sched/Core.antt =====
-- kern/schedule/sched.c: the core scheduler over a scheduling class.
pub mod Laws
use nku_os.Prelude.{
  ℕ, ◌+◌, ◌%◌, ◌^◌, Bool, true, false, not, ◌&&◌, Option, none, some, ◌==◌, if◌then◌else◌, update,
}
use nku_os.Prelude.Partial.{◌>>=◌, ◌>>◌, assert}
use nku_os.Sched.Proc.{ProcState, runnable, Proc, Procs, is_runnable, is_zombie}
use nku_os.Sched.Class.{SchedClass}

-- The process table, the run queue and `current`.
pub record Sched (Queue : Type 0) : Type 0 where
  pub procs : Procs
  pub queue : Queue
  pub current : ℕ

abbrev pub set_proc : {Q : Type 0} → ℕ → Proc → Sched Q → Sched Q
set_proc p v s = record s { procs = update s.procs p v }

-- The policy and the number of `idleproc`.
module _ (c : SchedClass) (idleproc : ℕ) where
  unfoldable pub sched_class_enqueue : ℕ → Sched c.Queue → Sched c.Queue
  sched_class_enqueue proc s =
      let (t, q) = c.enqueue proc s.procs s.queue in
      if proc == idleproc then s else record s { procs = t; queue = q }

  unfoldable pub sched_class_dequeue : ℕ → Sched c.Queue → Sched c.Queue
  sched_class_dequeue proc s =
      let (t, q) = c.dequeue proc s.procs s.queue in record s { procs = t; queue = q }

  unfoldable pub sched_class_pick_next : Sched c.Queue → Option ℕ × Sched c.Queue
  sched_class_pick_next s =
      let (next, t, q) = c.pick_next s.procs s.queue in (next, record s { procs = t; queue = q })

  unfoldable pub sched_class_proc_tick : ℕ → Sched c.Queue → Sched c.Queue
  sched_class_proc_tick proc s =
      let (t, q) = c.proc_tick proc s.procs s.queue in
      let v = s.procs proc in
      if proc == idleproc
      then set_proc proc (record v { need_resched = true }) s
      else record s { procs = t; queue = q }

  unfoldable pub wakeup_proc : ℕ → Sched c.Queue → Option (Sched c.Queue)
  unfolding sched_class_enqueue
  wakeup_proc proc s = do
    let v = s.procs proc
    let s1 = set_proc proc (record v { state = runnable; wait_state = 0 }) s
    assert (not (is_zombie v.state))
    some (
        if is_runnable v.state
        then s
        else if proc == s.current
        then s1
        else sched_class_enqueue proc s1)

  -- The current process is put back into the queue if it can still run.
  unfoldable pub requeue_current : Sched c.Queue → Sched c.Queue
  unfolding sched_class_enqueue
  requeue_current s =
      let v = s.procs s.current in
      let s1 = set_proc s.current (record v { need_resched = false }) s in
      if is_runnable v.state then sched_class_enqueue s.current s1 else s1

  -- `runs ++` and `proc_run`, from which on `next` is `current`.
  unfoldable pub run_next : ℕ → Sched c.Queue → Sched c.Queue
  run_next next s =
      let w = s.procs next in
      let s1 = set_proc next (record w { runs = (w.runs + 1) % 2 ^ 32 }) s in
      if next == s.current then s1 else record s1 { current = next }

  unfoldable pub schedule : Sched c.Queue → Sched c.Queue
  unfolding requeue_current sched_class_dequeue sched_class_pick_next run_next
  schedule s =
      let (next, s1) = sched_class_pick_next (requeue_current s) in
      elim next [ none ↦ run_next idleproc s1 | some p ↦ run_next p (sched_class_dequeue p s1) ]
