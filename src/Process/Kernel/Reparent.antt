-- ===== src/Process/Kernel/Reparent.antt =====
-- The loop of `do_exit` over the children, with the wake-ups of `initproc`.
use nku_os.Prelude.{
  ℕ, zero, suc, ◌≤◌, ◌<◌, ◌≡◌, ◌≢◌, ◌∙◌, ap, ◌⊎◌, refl, true, false, Option, none, some, List, [],
  ◌∷◌, ◌==◌, if◌then◌else◌, arith, count, Distinct, length, Bool-cases, inl, inr, update,
}
use nku_os.Sched.Proc.{ProcState, is_runnable, is_zombie}
use nku_os.Sched.Class.{SchedClass, SchedLaws}
use nku_os.Sched.Core.{Sched}
use nku_os.Sched.Core.Laws.{IsScheduled, wakeup_proc-IsScheduled}
use nku_os.Process.Tree.{Family}
use nku_os.Process.Tree.Siblings.{Siblings, IsFamily}
use nku_os.Process.Kernel.{wt_child, adopt, wake_waiting, adopt_all}
use nku_os.Process.Kernel.Adopt.{Orphans, adopt-Orphans}

runnable-not_zombie : (v : ProcState) → is_runnable v ≡ true → is_zombie v ≡ false
runnable-not_zombie ProcState.runnable h = refl
runnable-not_zombie ProcState.uninit h = cc
runnable-not_zombie ProcState.sleeping h = cc
runnable-not_zombie ProcState.zombie h = cc

-- The children that went over, in front of those that were there.
abbrev pub adopted : List ℕ → List ℕ → List ℕ
adopted [] old = old
adopted (c ∷ cs) old = adopted cs (c ∷ old)

-- `initproc` has all children of `current`, and no other process has lost or gained any.
abbrev pub HandedOver : (initproc current : ℕ) → List ℕ → (kids kids' : ℕ → List ℕ) → Type 0
HandedOver initproc current cs kids kids' =
    (kids' current ≡ [])
    × (kids' initproc ≡ adopted cs (kids initproc))
    × ((q : ℕ) → q ≢ current → q ≢ initproc → kids' q ≡ kids q)

module _ (c : SchedClass) (laws : SchedLaws c) (idleproc initproc : ℕ) where
  abbrev pub S : Type 0
  S = Sched c.Queue

  abbrev pub RunsIn : S → ℕ → Type 0
  RunsIn s p = is_runnable (s.procs p).state ≡ true

  -- What a wake-up of `p` that may not be due does.
  abbrev pub Woken : (p : ℕ) → (s t : S) → Type 0
  Woken p s t =
      IsScheduled c laws idleproc t
      × (t.current ≡ s.current)
      × (is_zombie (t.procs p).state ≡ false)
      × (RunsIn s p → RunsIn t p)
      × ((s.procs p).wait_state ≡ wt_child → RunsIn t p)
      × ((n : ℕ) → n ≢ p → (t.procs n).state ≡ (s.procs n).state)
      × ((n : ℕ) → n ≢ p → (t.procs n).wait_state ≡ (s.procs n).wait_state)

  pub wake_waiting-Woken :
      (p : ℕ) (s : S)
      → IsScheduled c laws idleproc s
      → is_zombie (s.procs p).state ≡ false
      → (t : S) × (wake_waiting c idleproc initproc p s ≡ some t) × Woken p s t
  unfolding wake_waiting
  wake_waiting-Woken p s v nz = elim (Bool-cases ((s.procs p).wait_state == wt_child)) [
    | inl waits ↦
        let (t, run, v', up, cur, frame) = wakeup_proc-IsScheduled c laws idleproc p s v nz in
        (
          t,
          rw waits run,
          (
            v',
            cur,
            runnable-not_zombie (t.procs p).state up,
            λ r. up,
            λ w. up,
            λ n ne. (frame n ne).0,
            λ n ne. (frame n ne).1,
          ),
        )
    | inr idle ↦ (
      s,
      rw idle refl,
      (v, refl, nz, λ r. r, λ w. absurd (ground (arith, w, idle)), λ n ne. refl, λ n ne. refl),
    )
  ]

  -- What the loop over the children `cs` does.
  abbrev pub Adopted : (current : ℕ) → List ℕ → (kids : ℕ → List ℕ) → S → Family → S → Type 0
  Adopted current cs kids s g t =
      ((kids' : ℕ → List ℕ) × IsFamily g kids' × HandedOver initproc current cs kids kids')
      × IsScheduled c laws idleproc t
      × (t.current ≡ s.current)
      × (RunsIn s initproc → RunsIn t initproc)
      × ((s.procs initproc).wait_state ≡ wt_child
          → (k : ℕ) → 1 ≤ count k cs
          → is_zombie (s.procs k).state ≡ true
          → RunsIn t initproc)
      × ((n : ℕ) → n ≢ initproc → (t.procs n).state ≡ (s.procs n).state)

  none_left :
      (f : Family) (kids : ℕ → List ℕ) (current : ℕ) (y : Option ℕ)
      → Orphans f kids current y []
      → initproc ≢ current
      → (kids' : ℕ → List ℕ) × IsFamily f kids' × HandedOver initproc current [] kids kids'
  none_left f kids current y v ni = (
    update kids current [],
    record { linked = linked; distinct = distinct },
    (ground arith, ground (arith, ni), λ q nq nqi. ground (arith, nq)),
  )
    where
      self : (current == current) ≡ true
      self = ground arith

      linked : (q : ℕ) → Siblings f q none (f.cptr q) (update kids current [] q)
      linked q = elim (Bool-cases (q == current)) [
        | inl e ↦ let same : q ≡ current = ground (arith, e) in rw (e, same) v.own
        | inr ne ↦ rw ne (v.others q (ground (arith, ne)))
      ]

      distinct : (q : ℕ) → Distinct (update kids current [] q)
      distinct q = elim (Bool-cases (q == current)) [
        | inl e ↦ λ n. rw e (omega arith)
        | inr ne ↦ λ n. rw ne (v.distinct q (ground (arith, ne)) n)
      ]

  -- The wake-up of `initproc` in the round for the child `proc`.
  abbrev FirstWoken : (proc : ℕ) → (s t : S) → Type 0
  FirstWoken proc s t =
      IsScheduled c laws idleproc t
      × (t.current ≡ s.current)
      × (is_zombie (t.procs initproc).state ≡ false)
      × (RunsIn s initproc → RunsIn t initproc)
      × ((s.procs initproc).wait_state ≡ wt_child
          → (RunsIn t initproc)
            ⊎ ((is_zombie (s.procs proc).state ≡ false)
                × ((t.procs initproc).wait_state ≡ wt_child)))
      × ((n : ℕ) → n ≢ initproc → (t.procs n).state ≡ (s.procs n).state)

  first_woken :
      (proc : ℕ) (s : S)
      → IsScheduled c laws idleproc s
      → is_zombie (s.procs initproc).state ≡ false
      → (t : S) × ((if is_zombie (s.procs proc).state
            then wake_waiting c idleproc initproc initproc s
            else some s)
          ≡ some t)
        × FirstWoken proc s t
  first_woken proc s sch nz = elim (Bool-cases (is_zombie (s.procs proc).state)) [
    | inl dead ↦
        let (t, run, (sch', cur, nz', keep, wake, frame, frame_w)) =
          wake_waiting-Woken initproc s sch nz in
        (t, rw dead run, (sch', cur, nz', keep, λ w. inl (wake w), frame))
    | inr lives ↦ (s, rw lives refl, (sch, refl, nz, λ r. r, λ w. inr (lives, w), λ n ne. refl))
  ]

  -- A zombie among the children in the state before is one in the state behind the first wake-up.
  later_woken :
      (proc : ℕ) (cs : List ℕ) (s s' t : S)
      → is_zombie (s.procs initproc).state ≡ false
      → FirstWoken proc s s'
      → (RunsIn s' initproc → RunsIn t initproc)
      → ((s'.procs initproc).wait_state ≡ wt_child
          → (k : ℕ) → 1 ≤ count k cs
          → is_zombie (s'.procs k).state ≡ true
          → RunsIn t initproc)
      → (s.procs initproc).wait_state ≡ wt_child
      → (k : ℕ) → 1 ≤ count k (proc ∷ cs)
      → is_zombie (s.procs k).state ≡ true
      → RunsIn t initproc
  later_woken proc cs s s' t nz (sch', cur, nz', keep, wake, frame) keep' rest w k h dead =
      elim (wake w) [
        | inl up ↦ keep' up
        | inr (lives, waits) ↦
            let not_init : k ≢ initproc =
              λ e. cc (nz, dead, ap (λ x. is_zombie (s.procs x).state) e) in
            let not_proc : k ≢ proc =
              λ e. cc (lives, dead, ap (λ x. is_zombie (s.procs x).state) e) in
            rest waits k (ground (arith, h, not_proc)) (ap is_zombie (frame k not_init) ∙ dead)
      ]

  pub adopt_all-Adopted :
      (fuel : ℕ) (f : Family) (kids : ℕ → List ℕ) (current : ℕ) (y : Option ℕ) (cs : List ℕ) (s : S)
      → Orphans f kids current y cs
      → initproc ≢ current
      → length cs < fuel
      → IsScheduled c laws idleproc s
      → is_zombie (s.procs initproc).state ≡ false
      → (g : Family) × (t : S) × (adopt_all c idleproc initproc fuel current f s ≡ some (g, t))
        × Adopted current cs kids s g t
  unfolding adopt_all
  adopt_all-Adopted zero f kids current y cs s v ni lt sch nz = absurd (omega (arith, lt))
  adopt_all-Adopted (suc fuel) f kids current y [] s v ni lt sch nz = (
    f,
    s,
    rw v.own refl,
    (
      none_left f kids current y v ni,
      sch,
      refl,
      λ r. r,
      λ w k h. absurd (omega (arith, h)),
      λ n ne. refl,
    ),
  )
  adopt_all-Adopted (suc fuel) f kids current y (proc ∷ cs) s v ni lt sch nz =
      let (s', run, woken) = first_woken proc s sch nz in
      let (sch', cur, nz', keep, wake, frame) = woken in
      let (g, t, run', ((kids', fam, (gone, over, same)), sch2, cur2, keep2, wake2, frame2)) =
        adopt_all-Adopted fuel (adopt initproc current proc f)
          (update kids initproc (proc ∷ kids initproc)) current (some proc) cs s'
          (adopt-Orphans initproc f kids current proc y cs v ni) ni (omega (arith, lt)) sch' nz' in
      let front : kids' initproc ≡ adopted (proc ∷ cs) (kids initproc) =
        let self : (initproc == initproc) ≡ true = ground arith in rw self at over in
      let kept : (q : ℕ) → q ≢ current → q ≢ initproc → kids' q ≡ kids q = λ q nq nqi.
        let other : (q == initproc) ≡ false = ground (arith, nqi) in rw other at (same q nq nqi) in
      (
        g,
        t,
        rw (v.own.0, run) run',
        (
          (kids', fam, (gone, front, kept)),
          sch2,
          cur2 ∙ cur,
          λ r. keep2 (keep r),
          later_woken proc cs s s' t nz woken keep2 wake2,
          λ n ne. frame2 n ne ∙ frame n ne,
        ),
      )
