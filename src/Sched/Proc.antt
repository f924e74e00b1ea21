-- ===== src/Sched/Proc.antt =====
-- kern/process/proc.h: the part of `struct proc_struct` that the scheduler and the wait queues use.
-- A process is its index in the table of processes.
use nku_os.Prelude.{ℕ, Bool, true, false}

pub data ProcState : Type 0 where
  uninit sleeping runnable zombie : ProcState

-- `int` and `uint32_t` fields are the bit patterns below 2 ^ 32.
pub record Proc : Type 0 where
  pub state : ProcState
  pub runs : ℕ
  pub need_resched : Bool
  pub wait_state : ℕ
  pub time_slice : ℕ
  pub lab6_stride : ℕ
  pub lab6_priority : ℕ

abbrev pub Procs : Type 0
Procs = ℕ → Proc

abbrev pub is_runnable : ProcState → Bool
is_runnable ProcState.runnable = true
is_runnable _ = false

abbrev pub is_zombie : ProcState → Bool
is_zombie ProcState.zombie = true
is_zombie _ = false
