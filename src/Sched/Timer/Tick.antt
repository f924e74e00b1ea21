-- ===== src/Sched/Timer/Tick.antt =====
-- One tick of the timer list.
use nku_os.Prelude.{
  ℕ, ◌+◌, ◌-◌, ◌<◌, ◌≡◌, refl, ap, Option, some, List, [], ◌∷◌, ◌++◌, arith, ◌==◌, if◌then◌else◌,
  Bool-cases, Option-cases, ◌∙◌, inl, inr,
}
use nku_os.Prelude.Partial.{◌>>=◌}
use nku_os.Sched.Class.{SchedClass}
use nku_os.Sched.Core.{Sched}
use nku_os.Sched.Timer.{Timer, fire, fire_expired, count_down}
use nku_os.Sched.Timer.Deadlines.{Deadline, deadline, deadlines}

-- The timers that go off at a time, each of them then.
abbrev pub all_at : ℕ → List Timer → List Deadline
all_at time [] = []
all_at time (t ∷ ts) = deadline t time ∷ all_at time ts

-- The first timer, if any, is not due.
abbrev pub NotDue : List Timer → Type 0
NotDue [] = Unit {0}
NotDue (t ∷ ts) = 0 < t.expires

-- The timers at the front that are due, and the list from the first one that is not.
unfoldable due : List Timer → List Timer
due [] = []
due (t ∷ ts) = if t.expires == 0 then t ∷ due ts else []

unfoldable waiting : List Timer → List Timer
waiting [] = []
waiting (t ∷ ts) = if t.expires == 0 then waiting ts else t ∷ ts

waiting-NotDue : (ts : List Timer) → NotDue (waiting ts)
unfolding waiting
waiting-NotDue [] = tt
waiting-NotDue (t ∷ ts) = elim (Bool-cases (t.expires == 0)) [
  | inl z ↦ rw (z, NotDue) (waiting-NotDue ts)
  | inr nz ↦ rw (nz, NotDue) (ground (arith, nz))
]

due-waiting :
    (now : ℕ) (ts : List Timer)
    → deadlines now ts ≡ all_at now (due ts) ++ deadlines now (waiting ts)
unfolding due waiting
due-waiting now [] = refl
due-waiting now (t ∷ ts) = elim (Bool-cases (t.expires == 0)) [
  | inr nz ↦ rw (nz, all_at)
  | inl z ↦
      let e : now + t.expires ≡ now = ground (arith, z) in
      rw (z, all_at, e) (ap (λ ds. deadline t now ∷ ds) (due-waiting now ts))
]

module _ (c : SchedClass) (idleproc : ℕ) where
  -- The wake-ups of a list of timers, in order.
  unfoldable pub fire_all : List Timer → Sched c.Queue → Option (Sched c.Queue)
  fire_all [] s = some s
  fire_all (t ∷ ts) s = fire c idleproc t.proc s >>= λ s'. fire_all ts s'

  fire_expired-split :
      (ts : List Timer) (s : Sched c.Queue)
      → fire_expired c idleproc ts s ≡ (fire_all (due ts) s >>= λ s'. some (waiting ts, s'))
  unfolding fire_expired fire_all due waiting
  fire_expired-split [] s = refl
  fire_expired-split (t ∷ ts) s = elim (Bool-cases (t.expires == 0)) [
    | inr later ↦ rw (later, fire_all)
    | inl now ↦ elim (Option-cases (fire c idleproc t.proc s)) [
      | inl fault ↦ rw (now, fire_all, fault)
      | inr (s', woken) ↦ rw (now, fire_all, woken) (fire_expired-split ts s')
    ]
  ]

  -- One tick with a list whose first timer is armed: exactly the timers whose deadline is the next
  -- tick are taken out, in order, and their processes are woken one after the other, each in the
  -- state that the last wake-up left; a failed assertion of a wake-up is the only way to fail. The
  -- timers that stay keep their deadlines, and none of them is due.
  pub count_down-deadlines :
      (now : ℕ) (t : Timer) (ts : List Timer) (s : Sched c.Queue)
      → 0 < t.expires
      → (fired left : List Timer) × (count_down c idleproc (t ∷ ts) s
          ≡ (fire_all fired s >>= λ s'. some (left, s')))
        × (deadlines now (t ∷ ts) ≡ all_at (now + 1) fired ++ deadlines (now + 1) left)
        × NotDue left
  unfolding count_down
  count_down-deadlines now t ts s pos =
      let first = record t { expires = t.expires - 1 } in
      (
        due (first ∷ ts),
        waiting (first ∷ ts),
        ground (arith, fire_expired-split (first ∷ ts) s),
        shift ∙ due-waiting (now + 1) (first ∷ ts),
        waiting-NotDue (first ∷ ts),
      )
    where
      shift :
          deadlines now (t ∷ ts) ≡ deadlines (now + 1) (record t { expires = t.expires - 1 } ∷ ts)
      shift =
          let e : now + t.expires ≡ now + 1 + (t.expires - 1) = omega arith in
          ap (λ k. deadline t k ∷ deadlines k ts) e
