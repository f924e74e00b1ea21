-- ===== src/Sched/Semaphore.antt =====
-- kern/sync/sem.c, and the wait queues of kern/sync/wait.c that it uses.
pub mod Handover
mod Tests
use nku_os.Prelude.{
  ℕ, ◌+◌, ◌-◌, ◌%◌, ◌^◌, Bool, true, false, not, ◌&&◌, Option, none, some, List, [], ◌∷◌, ◌++◌, ltb,
  ◌==◌, if◌then◌else◌, update,
}
use nku_os.Prelude.Partial.{◌>>=◌, ◌>>◌, assert}
use nku_os.Sched.Proc.{Proc, sleeping}
use nku_os.Sched.Class.{SchedClass}
use nku_os.Sched.Core.{Sched, set_proc, wakeup_proc}

abbrev pub wt_interrupted : ℕ
wt_interrupted = 0x80000000

abbrev pub wt_ksem : ℕ
wt_ksem = 0x100

-- A `wait_t` stands on the kernel stack of the process that waits, and so goes by its process. The
-- queue has the processes in its order, `wakeup_flags` the flags of each one's wait. `value` is the bit
-- pattern of an `int`.
pub record Semaphore : Type 0 where
  pub value : ℕ
  pub wait_queue : List ℕ
  pub wakeup_flags : ℕ → ℕ

-- `wait_queue_del` under the test of `wait_current_del`: a wait in no queue is left alone.
abbrev pub wait_queue_del : ℕ → List ℕ → List ℕ
wait_queue_del p [] = []
wait_queue_del p (q ∷ qs) = if p == q then qs else q ∷ wait_queue_del p qs

unfoldable pub sem_init : ℕ → Semaphore → Semaphore
sem_init value sem = record sem { value = value; wait_queue = [] }

-- `value > 0`
abbrev pub is_positive : ℕ → Bool
is_positive value = ltb 0 value && ltb value (2 ^ 31)

abbrev pub try_down : Semaphore → Bool × Semaphore
try_down sem =
    if is_positive sem.value then (true, record sem { value = sem.value - 1 }) else (false, sem)

-- After `schedule()` in `down`, when process `p` runs again.
unfoldable pub down_return : ℕ → Semaphore → Option Semaphore
down_return p sem = do
  let flags = if not (sem.wakeup_flags p == wt_ksem) then sem.wakeup_flags p else 0
  assert (flags == 0)
  some (record sem { wait_queue = wait_queue_del p sem.wait_queue })

module _ (c : SchedClass) (idleproc : ℕ) where
  unfoldable pub wait_current_set :
      ℕ → Semaphore → Sched c.Queue → Option (Semaphore × Sched c.Queue)
  wait_current_set wait_state sem s = do
    let v = s.procs s.current
    let s1 = set_proc s.current (record v { state = sleeping; wait_state = wait_state }) s
    some (
      record sem {
        wait_queue = sem.wait_queue ++ s.current ∷ [];
        wakeup_flags = update sem.wakeup_flags s.current wt_interrupted;
      },
      s1,
    )

  -- `down` up to its call of `schedule`, with whether it is done already.
  unfoldable pub down : Semaphore → Sched c.Queue → Option (Bool × Semaphore × Sched c.Queue)
  unfolding wait_current_set
  down sem s =
      if is_positive sem.value
      then some (true, record sem { value = sem.value - 1 }, s)
      else (do (sem', s') ← wait_current_set wt_ksem sem s; some (false, sem', s'))

  -- `wakeup_wait` of the first wait, which it takes out of the queue.
  unfoldable pub wakeup_wait :
      (p : ℕ) → List ℕ → ℕ → Semaphore → Sched c.Queue → Option (Semaphore × Sched c.Queue)
  unfolding wakeup_proc
  wakeup_wait p rest flags sem s = do
    s' ← wakeup_proc c idleproc p s
    some (record sem { wait_queue = rest; wakeup_flags = update sem.wakeup_flags p flags }, s')

  unfoldable pub up : Semaphore → Sched c.Queue → Option (Semaphore × Sched c.Queue)
  unfolding wakeup_wait
  up sem s = elim sem.wait_queue [
    | [] ↦ some (record sem { value = (sem.value + 1) % 2 ^ 32 }, s)
    | p ∷ rest ↦ do assert ((s.procs p).wait_state == wt_ksem); wakeup_wait p rest wt_ksem sem s
  ]
