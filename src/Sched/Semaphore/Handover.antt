-- ===== src/Sched/Semaphore/Handover.antt =====
-- Permits of a semaphore are handed over in the order of arrival.
use nku_os.Prelude.{
  ℕ, ◌+◌, ◌-◌, ◌%◌, ◌^◌, ◌<◌, ◌≡◌, ◌≢◌, ◌⊎◌, inl, inr, refl, ap, ◌∙◌, Bool, true, false, some, List,
  [], ◌∷◌, ◌++◌, arith, count, count-append, Distinct, ltb, ◌==◌, update, Bool-cases,
}
use nku_os.Sched.Proc.{sleeping, is_runnable}
use nku_os.Sched.Class.{SchedClass, SchedLaws}
use nku_os.Sched.Core.{Sched, set_proc}
use nku_os.Sched.Core.Laws.{IsScheduled, wakeup_proc-IsScheduled}
use nku_os.Sched.Semaphore.{
  Semaphore, wt_ksem, wt_interrupted, wait_queue_del, down_return, wait_current_set, down,
  wakeup_wait, up, is_positive,
}

wait_queue_del-absent : (p : ℕ) (qs : List ℕ) → count p qs ≡ 0 → wait_queue_del p qs ≡ qs
wait_queue_del-absent p [] h = refl
wait_queue_del-absent p (q ∷ qs) h = elim (Bool-cases (p == q)) [
  | inl e ↦ absurd (ground (arith, e, h))
  | inr ne ↦ rw ne (ap (λ xs. q ∷ xs) (wait_queue_del-absent p qs (ground (arith, ne, h))))
]

module _ (c : SchedClass) (laws : SchedLaws c) (idleproc : ℕ) where
  -- The value is not negative, and a permit that is left means that nobody waits; each process that waits does so
  -- once, sleeps, and waits for a semaphore.
  abbrev pub IsSemaphore : Semaphore → Sched c.Queue → Type 0
  IsSemaphore sem s =
      ((sem.value ≡ 0) ⊎ (sem.wait_queue ≡ []))
      × Distinct sem.wait_queue
      × ((p : ℕ)
          → 0 < count p sem.wait_queue
          → ((s.procs p).state ≡ sleeping) × ((s.procs p).wait_state ≡ wt_ksem))
      × (sem.value < 2 ^ 31)

  -- Giving a permit back: it is kept, or given to the first process that waits.
  abbrev pub Given : Semaphore → Sched c.Queue → Semaphore → Sched c.Queue → Type 0
  Given sem s sem' s' =
      ((sem.wait_queue ≡ []) × (sem'.value ≡ sem.value + 1) × (s' ≡ s))
      ⊎ ((p : ℕ) × (rest : List ℕ) × (sem.wait_queue ≡ p ∷ rest)
          × (sem'.wait_queue ≡ rest)
          × (sem'.value ≡ sem.value)
          × (is_runnable (s'.procs p).state ≡ true)
          × (down_return p sem' ≡ some sem'))

  return_lem :
      (p : ℕ) (sem : Semaphore)
      → sem.wakeup_flags p ≡ wt_ksem
      → count p sem.wait_queue ≡ 0
      → down_return p sem ≡ some sem
  unfolding down_return
  return_lem p sem e out = rw (e, wait_queue_del-absent p sem.wait_queue out) refl

  up_woken :
      (v : ℕ) (p : ℕ) (rest : List ℕ) (flags : ℕ → ℕ) (s : Sched c.Queue)
      → let sem : Semaphore = record { value = v; wait_queue = p ∷ rest; wakeup_flags = flags } in
        IsSemaphore sem s
        → IsScheduled c laws idleproc s
        → v + 1 < 2 ^ 31
        → (sem' : Semaphore) × (s' : Sched c.Queue) × (up c idleproc sem s ≡ some (sem', s'))
          × IsSemaphore sem' s'
          × IsScheduled c laws idleproc s'
          × Given sem s sem' s'
  unfolding up wakeup_wait
  up_woken v p rest flags s h sched small =
      let own = h.2 p (ground arith) in
      let w = wakeup_proc-IsScheduled c laws idleproc p s sched (rw own.0 refl) in
      let sem' : Semaphore = record {
        value = v;
        wait_queue = rest;
        wakeup_flags = update flags p wt_ksem;
      } in
      let gone : count p rest ≡ 0 = ground (arith, h.1 p) in
      let ksem : ((s.procs p).wait_state == wt_ksem) ≡ true = rw own.1 refl in
      (
        sem',
        w.0,
        rw (ksem, up, w.1) refl,
        (
          elim h.0 [ inl z ↦ inl z | inr e ↦ absurd (ground (arith, e)) ],
          λ q. ground (arith, h.1 q),
          λ q k.
              let ne : q ≢ p = ground (arith, k, gone) in
              let o = w.5 q ne in let old = h.2 q (ground (arith, k)) in (o.0 ∙ old.0, o.1 ∙ old.1),
          h.3,
        ),
        w.2,
        inr (p, rest, refl, refl, refl, w.3, return_lem p sem' (ground arith) gone),
      )

  up_any :
      (v : ℕ) (queue : List ℕ) (flags : ℕ → ℕ) (s : Sched c.Queue)
      → let sem : Semaphore = record { value = v; wait_queue = queue; wakeup_flags = flags } in
        IsSemaphore sem s
        → IsScheduled c laws idleproc s
        → v + 1 < 2 ^ 31
        → (sem' : Semaphore) × (s' : Sched c.Queue) × (up c idleproc sem s ≡ some (sem', s'))
          × IsSemaphore sem' s'
          × IsScheduled c laws idleproc s'
          × Given sem s sem' s'
  unfolding up
  up_any v [] flags s h sched small =
      let sem' : Semaphore = record {
        value = (v + 1) % 2 ^ 32;
        wait_queue = [];
        wakeup_flags = flags;
      } in
      let grown : (v + 1) % 2 ^ 32 ≡ v + 1 = omega (arith, small) in
      (sem', s, refl, (inr refl, h.1, h.2, omega (arith, small)), sched, inl (refl, grown, refl))
  up_any v (p ∷ rest) flags s h sched small = up_woken v p rest flags s h sched small

  -- Where the value is below the greatest `int`, `up` fails no assertion and keeps both invariants. If nobody waits, the value grows by one and no
  -- process is touched; otherwise the value stays, the process that has waited longest is taken out of the
  -- queue and made runnable, and its `down` returns with success, with no further change.
  pub up_lem :
      (sem : Semaphore) (s : Sched c.Queue)
      → IsSemaphore sem s
      → IsScheduled c laws idleproc s
      → sem.value + 1 < 2 ^ 31
      → (sem' : Semaphore) × (s' : Sched c.Queue) × (up c idleproc sem s ≡ some (sem', s'))
        × IsSemaphore sem' s'
        × IsScheduled c laws idleproc s'
        × Given sem s sem' s'
  up_lem sem s h sched small = up_any sem.value sem.wait_queue sem.wakeup_flags s h sched small

  -- Asking for a permit: there is one, or the current process sleeps at the end of the queue.
  abbrev pub Asked : Bool → Semaphore → Sched c.Queue → Semaphore → Sched c.Queue → Type 0
  Asked done sem s sem' s' =
      ((done ≡ true) × (sem'.value + 1 ≡ sem.value) × (sem'.wait_queue ≡ sem.wait_queue) × (s' ≡ s))
      ⊎ ((done ≡ false)
          × (sem.value ≡ 0)
          × (sem'.value ≡ 0)
          × (sem'.wait_queue ≡ sem.wait_queue ++ s.current ∷ [])
          × ((s'.procs s.current).state ≡ sleeping))

  running_apart :
      (sem : Semaphore) (s : Sched c.Queue)
      → IsSemaphore sem s
      → is_runnable (s.procs s.current).state ≡ true
      → count s.current sem.wait_queue ≡ 0
  running_apart sem s h run = elim (Bool-cases (ltb 0 (count s.current sem.wait_queue))) [
    | inl inside ↦
        let asleep = (h.2 s.current (ground (arith, inside))).0 in
        absurd (ground (arith, asleep, run))
    | inr outside ↦ ground (arith, outside)
  ]

  -- `down` of a running process keeps both invariants up to its call of `schedule`: it takes a permit
  -- and returns, or there is none, and it sleeps behind all others that wait.
  pub down_lem :
      (sem : Semaphore) (s : Sched c.Queue)
      → IsSemaphore sem s
      → IsScheduled c laws idleproc s
      → is_runnable (s.procs s.current).state ≡ true
      → (done : Bool) × (sem' : Semaphore) × (s' : Sched c.Queue) × (down c idleproc sem s
          ≡ some (done, sem', s'))
        × IsSemaphore sem' s'
        × IsScheduled c laws idleproc s'
        × Asked done sem s sem' s'
  unfolding down wait_current_set
  down_lem sem s h sched run = elim (Bool-cases (is_positive sem.value)) [
    | inl some' ↦
        let pos : 0 < sem.value = ground (arith, some') in
        let sem' = record sem { value = sem.value - 1 } in
        (
          true,
          sem',
          s,
          rw (some', down) refl,
          (
            elim h.0 [ inl z ↦ absurd (omega (arith, z, pos)) | inr e ↦ inr e ],
            h.1,
            h.2,
            omega (arith, h.3),
          ),
          sched,
          inl (refl, omega (arith, pos), refl, refl),
        )
    | inr none' ↦
        let z : sem.value ≡ 0 = ground (arith, none', h.3) in
        let v = s.procs s.current in
        let s' = set_proc s.current (record v { state = sleeping; wait_state = wt_ksem }) s in
        let sem' = record sem {
          wait_queue = sem.wait_queue ++ s.current ∷ [];
          wakeup_flags = update sem.wakeup_flags s.current wt_interrupted;
        } in
        let out = running_apart sem s h run in
        let add = λ (n : ℕ). count-append n sem.wait_queue (s.current ∷ []) in
        (
          false,
          sem',
          s',
          rw (none', down) refl,
          (
            inl z,
            λ n. ground (arith, add n, h.1 n, out),
            λ p k. elim (Bool-cases (p == s.current)) [
              | inl self ↦ (ground (arith, self), ground (arith, self))
              | inr other ↦
                  let old = h.2 p (ground (arith, k, add p, other)) in
                  (ground (arith, other, old), ground (arith, other, old))
            ],
            h.3,
          ),
          λ n. ground (arith, sched n),
          inr (refl, z, z, refl, ground arith),
        )
  ]
