-- ===== src/Sched/Class.antt =====
-- kern/schedule/sched.h: `struct sched_class`, the operations by which the core scheduler calls a
-- scheduling policy, and what the core relies on.
use nku_os.Prelude.{ℕ, suc, ◌<◌, ◌≡◌, Option, none, some, ◌==◌, if◌then◌else◌}
use nku_os.Sched.Proc.{Procs}

-- The operations read and write the run queue and the process table.
pub record SchedClass : Type 1 where
  pub Queue : Type 0
  pub enqueue : ℕ → Procs → Queue → Procs × Queue
  pub dequeue : ℕ → Procs → Queue → Procs × Queue
  pub pick_next : Procs → Queue → Option ℕ × Procs × Queue
  pub proc_tick : ℕ → Procs → Queue → Procs × Queue

-- The queue as a bag of processes; no operation changes the state of a
-- process, nor does `enqueue` change what it waits for.
pub record SchedLaws (c : SchedClass) : Type 1 where
  pub members : c.Queue → ℕ → ℕ
  pub enqueue_members :
      (p : ℕ) (t : Procs) (q : c.Queue) (n : ℕ)
      → members (c.enqueue p t q).1 n ≡ (if n == p then suc (members q n) else members q n)
  pub dequeue_members :
      (p : ℕ) (t : Procs) (q : c.Queue) (n : ℕ)
      → members q p ≡ 1
      → members (c.dequeue p t q).1 n ≡ (if n == p then 0 else members q n)
  pub pick_members : (t : Procs) (q : c.Queue) (n : ℕ) → members (c.pick_next t q).2 n ≡ members q n
  pub pick_some : (t : Procs) (q : c.Queue) (p : ℕ) → (c.pick_next t q).0 ≡ some p → 0 < members q p
  pub pick_none : (t : Procs) (q : c.Queue) (n : ℕ) → (c.pick_next t q).0 ≡ none → members q n ≡ 0
  pub enqueue_states :
      (p : ℕ) (t : Procs) (q : c.Queue) (n : ℕ) → ((c.enqueue p t q).0 n).state ≡ (t n).state
  pub enqueue_wait_states :
      (p : ℕ) (t : Procs) (q : c.Queue) (n : ℕ)
      → ((c.enqueue p t q).0 n).wait_state ≡ (t n).wait_state
  pub dequeue_states :
      (p : ℕ) (t : Procs) (q : c.Queue) (n : ℕ) → ((c.dequeue p t q).0 n).state ≡ (t n).state
  pub pick_states : (t : Procs) (q : c.Queue) (n : ℕ) → ((c.pick_next t q).1 n).state ≡ (t n).state
