-- ===== src/Process/Kernel/Exit.antt =====
-- `do_exit`: the children go to `initproc`, and whoever waits for a child is woken.
use nku_os.Prelude.{ℕ, ◌≤◌, ◌≡◌, ◌≢◌, true, List, count}
use nku_os.Sched.Proc.{ProcState, Proc, is_zombie}
use nku_os.Sched.Class.{SchedClass, SchedLaws}
use nku_os.Sched.Core.{Sched, set_proc}
use nku_os.Sched.Core.Laws.{IsScheduled}
use nku_os.Process.Tree.Siblings.{IsFamily}
use nku_os.Process.Resources.{release}
use nku_os.Process.Resources.Shares.{IsQuiet}
use nku_os.Process.Kernel.{Kernel, wt_child}
use nku_os.Process.Kernel.Reparent.{HandedOver, RunsIn}

module _ (c : SchedClass) (laws : SchedLaws c) (idleproc initproc : ℕ) where
  -- What `do_exit` of the current process leaves behind.
  abbrev pub Exited :
      (code : ℕ) → (kids : ℕ → List ℕ) → (parent : ℕ) → (k k' : Kernel c.Queue) → Type 0
  Exited code kids parent k k' =
      let current = k.sched.current in
      ((kids' : ℕ → List ℕ) × IsFamily k'.family kids'
        × HandedOver initproc current (kids current) kids kids')
      × IsScheduled c laws idleproc k'.sched
      × (k'.sched.current ≢ current)
      × (is_zombie (k'.sched.procs current).state ≡ true)
      × (k'.exit_code current ≡ code)
      × ((k.sched.procs parent).wait_state ≡ wt_child
          → RunsIn c laws idleproc initproc k'.sched parent)
      × ((k.sched.procs initproc).wait_state ≡ wt_child
          → (n : ℕ) → 1 ≤ count n (kids current)
          → is_zombie (k.sched.procs n).state ≡ true
          → RunsIn c laws idleproc initproc k'.sched initproc)
      × (k'.resources ≡ release current k.resources)
      × IsQuiet k'.resources

  abbrev ended : Sched c.Queue → Sched c.Queue
  ended s = set_proc s.current (record (s.procs s.current) { state = ProcState.zombie }) s
