-- ===== src/Sched/Core/Laws.antt =====
-- The run queue holds what it should: the invariant of kern/schedule/sched.c.
use nku_os.Prelude.{
  ℕ, ◌≡◌, ◌≢◌, ◌⊎◌, refl, true, false, not, ◌&&◌, none, some, arith, ◌==◌, if◌then◌else◌,
  Bool-cases, Option-cases, inl, inr,
}
use nku_os.Sched.Proc.{runnable, is_runnable, is_zombie}
use nku_os.Sched.Class.{SchedClass, SchedLaws}
use nku_os.Sched.Core.{Sched, set_proc, sched_class_enqueue, requeue_current, wakeup_proc, schedule}

module _ (c : SchedClass) (laws : SchedLaws c) (idleproc : ℕ) where
  -- Each runnable process other than `current` and `idleproc` is queued once, and nothing else is.
  abbrev pub IsScheduled : Sched c.Queue → Type 0
  IsScheduled s =
      (n : ℕ)
      → laws.members s.queue n ≡ (
          if is_runnable (s.procs n).state && (not (n == s.current) && not (n == idleproc))
          then 1
          else 0)

  -- Under the invariant, waking a process that is no zombie succeeds, makes it runnable, keeps the
  -- invariant, and leaves `current`, and what every other process does or waits for, alone.
  pub wakeup_proc-IsScheduled :
      (p : ℕ) (s : Sched c.Queue)
      → IsScheduled s
      → is_zombie (s.procs p).state ≡ false
      → (t : Sched c.Queue) × (wakeup_proc c idleproc p s ≡ some t)
        × IsScheduled t
        × (is_runnable (t.procs p).state ≡ true)
        × (t.current ≡ s.current)
        × ((n : ℕ)
            → n ≢ p
            → ((t.procs n).state ≡ (s.procs n).state)
              × ((t.procs n).wait_state ≡ (s.procs n).wait_state))
  unfolding wakeup_proc
  wakeup_proc-IsScheduled p s v h =
      let w = s.procs p in
      let s1 = set_proc p (record w { state = runnable; wait_state = 0 }) s in
      let s2 = sched_class_enqueue c idleproc p s1 in
      elim (Bool-cases (is_runnable w.state)) [
        | inl run ↦ (s, ground (arith, h, run), v, run, refl, λ n ne. (refl, refl))
        | inr wait ↦ elim (Bool-cases (p == s.current)) [
          | inl self ↦ (
            s1,
            ground (arith, h, wait, self),
            λ n. ground (arith, v n, wait, self),
            ground arith,
            refl,
            λ n ne. (ground (arith, ne), ground (arith, ne)),
          )
          | inr other ↦ (
            s2,
            ground (arith, h, wait, other),
            λ n. ground (
              arith,
              v n,
              wait,
              other,
              laws.enqueue_members p s1.procs s1.queue n,
              laws.enqueue_states p s1.procs s1.queue n,
            ),
            ground (arith, laws.enqueue_states p s1.procs s1.queue p),
            ground arith,
            λ n ne. (
              ground (arith, ne, laws.enqueue_states p s1.procs s1.queue n),
              ground (arith, ne, laws.enqueue_wait_states p s1.procs s1.queue n),
            ),
          )
        ]
      ]

  requeue_current-members :
      (s : Sched c.Queue) (n : ℕ)
      → IsScheduled s
      → (laws.members (requeue_current c idleproc s).queue n
          ≡ (if is_runnable (s.procs n).state && not (n == idleproc) then 1 else 0))
        × (((requeue_current c idleproc s).procs n).state ≡ (s.procs n).state)
  unfolding requeue_current
  requeue_current-members s n v =
      let w = s.procs s.current in
      let s1 = set_proc s.current (record w { need_resched = false }) s in
      (
        ground (arith, v n, laws.enqueue_members s.current s1.procs s1.queue n),
        ground (arith, laws.enqueue_states s.current s1.procs s1.queue n),
      )

  module _ (s : Sched c.Queue) (v : IsScheduled s) where
    abbrev r : Sched c.Queue
    r = requeue_current c idleproc s

    abbrev Outcome : Sched c.Queue → Type 0
    Outcome t =
        IsScheduled t
        × ((n : ℕ) → (t.procs n).state ≡ (s.procs n).state)
        × (((is_runnable (s.procs t.current).state ≡ true) × (t.current ≢ idleproc))
            ⊎ ((t.current ≡ idleproc)
                × ((n : ℕ) → n ≢ idleproc → is_runnable (s.procs n).state ≡ false)))

    idle_free :
        (c.pick_next r.procs r.queue).0 ≡ none
        → (n : ℕ) → n ≢ idleproc
        → is_runnable (s.procs n).state ≡ false
    idle_free nothing n ne =
        ground
          (arith, laws.pick_none r.procs r.queue n nothing, (requeue_current-members s n v).0, ne)

    schedule_idle : (c.pick_next r.procs r.queue).0 ≡ none → Outcome (schedule c idleproc s)
    unfolding schedule
    schedule_idle nothing = (
      λ n. ground (
        arith,
        nothing,
        laws.pick_none r.procs r.queue n nothing,
        laws.pick_members r.procs r.queue n,
        laws.pick_states r.procs r.queue n,
        (requeue_current-members s n v).0,
        (requeue_current-members s n v).1,
      ),
      λ n.
          ground
            (arith, nothing, laws.pick_states r.procs r.queue n, (requeue_current-members s n v).1),
      inr (ground (arith, nothing), idle_free nothing),
    )

    schedule-some :
        (p : ℕ) → (c.pick_next r.procs r.queue).0 ≡ some p → Outcome (schedule c idleproc s)
    unfolding schedule
    schedule-some p got =
        let t = (c.pick_next r.procs r.queue).1 in
        let q = (c.pick_next r.procs r.queue).2 in
        let here = laws.pick_some r.procs r.queue p got in
        let mine = requeue_current-members s p v in
        let once : laws.members q p ≡ 1 =
          ground (arith, mine.0, here, laws.pick_members r.procs r.queue p) in
        (
          λ n. ground (
            arith,
            got,
            here,
            mine.0,
            laws.dequeue_members p t q n once,
            laws.dequeue_states p t q n,
            laws.pick_members r.procs r.queue n,
            laws.pick_states r.procs r.queue n,
            (requeue_current-members s n v).0,
            (requeue_current-members s n v).1,
          ),
          λ n. ground (
            arith,
            got,
            laws.dequeue_states p t q n,
            laws.pick_states r.procs r.queue n,
            (requeue_current-members s n v).1,
          ),
          inl (ground (arith, got, here, mine.0), ground (arith, got, here, mine.0)),
        )

  -- `schedule` keeps the invariant of the run queue, and then changes the state of no process. The process it switches
  -- to is a runnable one other than `idleproc`; `idleproc` runs only if there is no such process.
  pub schedule-IsScheduled :
      (s : Sched c.Queue)
      → IsScheduled s
      → let t = schedule c idleproc s in
        IsScheduled t
        × ((n : ℕ) → (t.procs n).state ≡ (s.procs n).state)
        × (((is_runnable (s.procs t.current).state ≡ true) × (t.current ≢ idleproc))
            ⊎ ((t.current ≡ idleproc)
                × ((n : ℕ) → n ≢ idleproc → is_runnable (s.procs n).state ≡ false)))
  schedule-IsScheduled s v =
      let r = requeue_current c idleproc s in
      elim (Option-cases (c.pick_next r.procs r.queue).0) [
        | inl nothing ↦ schedule_idle s v nothing
        | inr (p, got) ↦ schedule-some s v p got
      ]
