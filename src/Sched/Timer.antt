-- ===== src/Sched/Timer.antt =====
-- The timer list of kern/schedule/sched.c: each timer's `expires` counts from the one before it.
pub mod Deadlines
pub mod Tick
use nku_os.Prelude.{
  ℕ, suc, ◌+◌, ◌-◌, ◌%◌, ◌^◌, Bool, true, false, not, ◌&&◌, ◌||◌, Option, none, some, List, [], ◌∷◌,
  ltb, ◌==◌, if◌then◌else◌,
}
use nku_os.Prelude.Partial.{◌>>=◌, ◌>>◌, assert}
use nku_os.Sched.Proc.{Proc, ProcState}
use nku_os.Sched.Class.{SchedClass}
use nku_os.Sched.Core.{Sched, wakeup_proc, sched_class_proc_tick}

-- `timer_t`, with its address; a NULL `proc` is 0, and processes are numbered from 1 on here.
pub record Timer : Type 0 where
  pub address : ℕ
  pub expires : ℕ
  pub proc : ℕ

abbrev pub has_timer : ℕ → List Timer → Bool
has_timer a [] = false
has_timer a (x ∷ xs) = (a == x.address) || has_timer a xs

unfoldable pub timer_init : (address proc expires : ℕ) → Timer
timer_init a p e = record { address = a; expires = e % 2 ^ 32; proc = p }

-- The walk of `add_timer`: the new timer's time shrinks as it passes others.
unfoldable pub insert_timer : Timer → List Timer → List Timer
insert_timer t [] = t ∷ []
insert_timer t (next ∷ ts) =
    if ltb t.expires next.expires
    then t ∷ record next { expires = next.expires - t.expires } ∷ ts
    else next ∷ insert_timer (record t { expires = t.expires - next.expires }) ts

-- A timer that is linked to itself alone is in no list.
unfoldable pub add_timer : Timer → List Timer → Option (List Timer)
unfolding insert_timer
add_timer t ts = do
  assert (ltb 0 t.expires && not (t.proc == 0))
  assert (not (has_timer t.address ts))
  some (insert_timer t ts)

abbrev pub give : ℕ → List Timer → List Timer
give e [] = []
give e (next ∷ ts) = record next { expires = (next.expires + e) % 2 ^ 32 } ∷ ts

-- `del_timer`: the next timer takes over the time of the one that goes, and nothing happens to a
-- timer that is in no list.
unfoldable pub del_timer : ℕ → List Timer → List Timer
del_timer a [] = []
del_timer a (t ∷ ts) =
    if a == t.address
    then (if t.expires == 0 then ts else give t.expires ts)
    else t ∷ del_timer a ts

-- `WT_INTERRUPTED` is the highest bit.
abbrev pub interruptible : ℕ → Bool
interruptible w = not (ltb (w % 2 ^ 32) (2 ^ 31))

module _ (c : SchedClass) (idleproc : ℕ) where
  -- The wake-up of one timer's process.
  unfoldable pub fire : ℕ → Sched c.Queue → Option (Sched c.Queue)
  unfolding wakeup_proc
  fire proc s = do
    let w = (s.procs proc).wait_state
    assert (w == 0 || interruptible w)
    wakeup_proc c idleproc proc s

  -- The loop of `run_timer_list` from the first timer on.
  unfoldable pub fire_expired : List Timer → Sched c.Queue → Option (List Timer × Sched c.Queue)
  unfolding fire
  fire_expired [] s = some ([], s)
  fire_expired (t ∷ ts) s =
      let next = fire t.proc s >>= λ s'. fire_expired ts s' in
      if t.expires == 0 then next else some (t ∷ ts, s)

  -- One tick for the first timer.
  unfoldable pub count_down : List Timer → Sched c.Queue → Option (List Timer × Sched c.Queue)
  unfolding fire_expired
  count_down [] s = some ([], s)
  count_down (t ∷ ts) s = do
    assert (not (t.expires == 0))
    fire_expired (record t { expires = t.expires - 1 } ∷ ts) s

  unfoldable pub run_timer_list : List Timer → Sched c.Queue → Option (List Timer × Sched c.Queue)
  unfolding count_down sched_class_proc_tick
  run_timer_list ts s = do
    r ← count_down ts s
    some (let (ts', s') = r in (ts', sched_class_proc_tick c idleproc s'.current s'))
