-- ===== src/Sched/Stride/Tick.antt =====
-- Clock ticks while one process runs.
use nku_os.Prelude.{ℕ, zero, suc, ◌-◌, ◌^◌, ◌<◌, ◌≡◌, refl, ◌∙◌, arith, leb, if◌then◌else◌}
use nku_os.Sched.Proc.{Procs}
use nku_os.Sched.Stride.{RunQueue, stride_proc_tick}

-- The process table after `k` ticks of process `p`.
unfoldable pub ticks : ℕ → ℕ → Procs → RunQueue → Procs
ticks zero p t q = t
ticks (suc k) p t q = let (t', q') = stride_proc_tick p t q in ticks k p t' q'

one_tick :
    (p : ℕ) (t : Procs) (q : RunQueue)
    → 0 < (t p).time_slice
    → (t p).time_slice < 2 ^ 32
    → let t' = (stride_proc_tick p t q).0 in
      ((n : ℕ) → (t' n).need_resched ≡ (t n).need_resched)
      × ((t' p).time_slice ≡ (if leb (t p).time_slice 1 then 1 else (t p).time_slice - 1))
unfolding stride_proc_tick
one_tick p t q pos small = (λ n. ground arith, ground arith)

-- However many ticks of a process with a slice of at least one tick pass, no process is asked to give up the processor, and the running one keeps
-- a slice of at least one tick: the slice counts down to 1 and stays there.
pub ticks-no_resched :
    (k p : ℕ) (t : Procs) (q : RunQueue)
    → 0 < (t p).time_slice
    → (t p).time_slice < 2 ^ 32
    → ((n : ℕ) → (ticks k p t q n).need_resched ≡ (t n).need_resched)
      × ((ticks k p t q p).time_slice
          ≡ (if leb (t p).time_slice k then 1 else (t p).time_slice - k))
unfolding ticks
ticks-no_resched zero p t q pos small = (λ n. refl, ground arith)
ticks-no_resched (suc k) p t q pos small =
    let t' = (stride_proc_tick p t q).0 in
    let now = one_tick p t q pos small in
    let later =
      ticks-no_resched k p t' (stride_proc_tick p t q).1 (ground (arith, now))
        (ground (arith, now)) in
    (λ n. later.0 n ∙ now.0 n, ground (arith, now, later.1))
