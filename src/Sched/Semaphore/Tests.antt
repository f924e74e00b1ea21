-- ===== src/Sched/Semaphore/Tests.antt =====
-- Runs of a semaphore, and its theorems where one process waits and another runs.
use nku_os.Prelude.{◌≡◌, inl, refl, Bool, false, some, [], ◌∷◌, arith, update}
use nku_os.Sched.Proc.{runnable, sleeping, Proc}
use nku_os.Sched.SkewHeap.{null, node}
use nku_os.Sched.Core.{Sched}
use nku_os.Sched.Core.Laws.{IsScheduled}
use nku_os.Sched.Stride.{RunQueue, default_sched_class}
use nku_os.Sched.Stride.Laws.{stride_laws}
use nku_os.Sched.Semaphore.{Semaphore, wt_ksem, up, down}
use nku_os.Sched.Semaphore.Handover.{IsSemaphore, Given, Asked, up_lem, down_lem}

abbrev proc : Proc
proc = record {
  state = sleeping;
  runs = 0;
  need_resched = false;
  wait_state = wt_ksem;
  time_slice = 5;
  lab6_stride = 0;
  lab6_priority = 0;
}

-- Processes 2, which runs, and 3 can run, and 4 waits for the semaphore; 1 is `idleproc`.
abbrev system : Sched RunQueue
system = record {
  procs =
      update (update (λ _. proc) 2 (record proc { state = runnable })) 3
        (record proc { state = runnable });
  queue = record { lab6_run_pool = node 3 null null; proc_num = 1; max_time_slice = 5 };
  current = 2;
}

abbrev sem : Semaphore
sem = record { value = 0; wait_queue = 4 ∷ []; wakeup_flags = λ _. 0 }

system-IsScheduled : IsScheduled default_sched_class stride_laws 1 system
system-IsScheduled n = ground arith

sem-IsSemaphore : IsSemaphore default_sched_class stride_laws 1 sem system
sem-IsSemaphore =
    (inl refl, λ n. ground arith, λ p k. (ground (arith, k), ground (arith, k)), omega arith)

up_lem_example :
    (sem' : Semaphore) × (s' : Sched RunQueue) × (up default_sched_class 1 sem system
      ≡ some (sem', s'))
    × IsSemaphore default_sched_class stride_laws 1 sem' s'
    × IsScheduled default_sched_class stride_laws 1 s'
    × Given default_sched_class stride_laws 1 sem system sem' s'
up_lem_example =
    up_lem default_sched_class stride_laws 1 sem system sem-IsSemaphore system-IsScheduled
      (omega arith)

down_lem_example :
    (done : Bool) × (sem' : Semaphore) × (s' : Sched RunQueue) × (down default_sched_class 1 sem
        system
      ≡ some (done, sem', s'))
    × IsSemaphore default_sched_class stride_laws 1 sem' s'
    × IsScheduled default_sched_class stride_laws 1 s'
    × Asked default_sched_class stride_laws 1 done sem system sem' s'
down_lem_example =
    down_lem default_sched_class stride_laws 1 sem system sem-IsSemaphore system-IsScheduled refl
