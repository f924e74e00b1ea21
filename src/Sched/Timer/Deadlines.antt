-- ===== src/Sched/Timer/Deadlines.antt =====
-- What the timer list stands for: the time from now at which each timer goes off.
use nku_os.Prelude.{
  ℕ, ◌+◌, ◌-◌, ◌%◌, ◌^◌, ◌<◌, ◌≡◌, ◌≢◌, refl, ap, true, false, some, List, [], ◌∷◌, arith, ltb,
  ◌==◌, if◌then◌else◌, Bool-cases, inl, inr,
}
use nku_os.Sched.Timer.{Timer, has_timer, insert_timer, add_timer, give, del_timer}

-- A timer's address, its process, and the time until it goes off.
pub record Deadline : Type 0 where
  pub address : ℕ
  pub proc : ℕ
  pub time : ℕ

abbrev pub deadline : Timer → ℕ → Deadline
deadline t e = record { address = t.address; proc = t.proc; time = e }

abbrev pub deadlines : ℕ → List Timer → List Deadline
deadlines now [] = []
deadlines now (t ∷ ts) = deadline t (now + t.expires) ∷ deadlines (now + t.expires) ts

-- Insertion by time, behind those of the same time.
unfoldable pub insert_deadline : Deadline → List Deadline → List Deadline
insert_deadline d [] = d ∷ []
insert_deadline d (x ∷ xs) = if ltb d.time x.time then d ∷ x ∷ xs else x ∷ insert_deadline d xs

unfoldable pub remove_deadline : ℕ → List Deadline → List Deadline
remove_deadline a [] = []
remove_deadline a (x ∷ xs) = if a == x.address then xs else x ∷ remove_deadline a xs

insert_timer-deadlines :
    (now : ℕ) (t : Timer) (ts : List Timer)
    → deadlines now (insert_timer t ts)
      ≡ insert_deadline (deadline t (now + t.expires)) (deadlines now ts)
unfolding insert_timer insert_deadline
insert_timer-deadlines now t [] = refl
insert_timer-deadlines now t (next ∷ ts) = ground (
  arith,
  insert_timer-deadlines (now + next.expires) (record t { expires = t.expires - next.expires }) ts,
)

-- `add_timer` of a timer that is armed, has a process and is in no list succeeds. The timer goes off after the time
-- that it was given, in the order of the times, and every other timer when it would have before.
pub add_timer-deadlines :
    (now : ℕ) (t : Timer) (ts : List Timer)
    → 0 < t.expires
    → t.proc ≢ 0
    → has_timer t.address ts ≡ false
    → (us : List Timer) × (add_timer t ts ≡ some us)
      × (deadlines now us ≡ insert_deadline (deadline t (now + t.expires)) (deadlines now ts))
unfolding add_timer
add_timer-deadlines now t ts pos p out =
    (insert_timer t ts, ground (arith, out), insert_timer-deadlines now t ts)

-- The time until the last timer goes off.
abbrev pub span : List Timer → ℕ
span [] = 0
span (t ∷ ts) = t.expires + span ts

deadlines-give :
    (now e : ℕ) (ts : List Timer)
    → e + span ts < 2 ^ 32
    → deadlines now (give e ts) ≡ deadlines (now + e) ts
deadlines-give now e [] h = refl
deadlines-give now e (t ∷ ts) h =
    let k : (t.expires + e) % 2 ^ 32 ≡ t.expires + e = omega arith in
    let j : now + (t.expires + e) ≡ now + e + t.expires = omega arith in rw (k, j)

-- `del_timer` takes out the one timer, and every other timer goes off when it would have before,
-- if the whole list spans less than 2 ^ 32 ticks.
pub del_timer-deadlines :
    (now a : ℕ) (ts : List Timer)
    → span ts < 2 ^ 32
    → deadlines now (del_timer a ts) ≡ remove_deadline a (deadlines now ts)
unfolding del_timer remove_deadline
del_timer-deadlines now a [] h = refl
del_timer-deadlines now a (t ∷ ts) h = elim (Bool-cases (a == t.address)) [
  | inl hit ↦ elim (Bool-cases (t.expires == 0)) [
    | inl z ↦ rw (hit, z) (zero_step now t ts z)
    | inr nz ↦ rw (hit, nz) (deadlines-give now t.expires ts (omega arith))
  ]
  | inr miss ↦ rw miss (
      ap (λ ds. deadline t (now + t.expires) ∷ ds)
        (del_timer-deadlines (now + t.expires) a ts (omega arith)))
]
  where
    zero_step :
        (m : ℕ) (x : Timer) (xs : List Timer)
        → (x.expires == 0) ≡ true
        → deadlines m xs ≡ deadlines (m + x.expires) xs
    zero_step m x xs z = ap (λ k. deadlines k xs) (ground (arith, z))
