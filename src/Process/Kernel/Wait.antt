-- ===== src/Process/Kernel/Wait.antt =====
-- `do_wait` for any child, in each of its outcomes.
use nku_os.Prelude.{
  ℕ, ◌≡◌, ◌≢◌, ◌⊎◌, Option, none, some, List, [], ◌∷◌, if◌then◌else◌, update, remove,
}
use nku_os.Errors.{e_bad_proc}
use nku_os.Sched.Proc.{sleeping, Proc, is_zombie}
use nku_os.Sched.Class.{SchedClass, SchedLaws}
use nku_os.Sched.Core.{Sched}
use nku_os.Sched.Core.Laws.{IsScheduled}
use nku_os.Process.Tree.Siblings.{Siblings, IsFamily}
use nku_os.Process.Tree.Hash.{IsHashed}
use nku_os.Process.Kernel.{Kernel, Waited, reaped, refused, blocks}

-- The first zombie among the children, the youngest first.
abbrev pub first_zombie : (ℕ → Proc) → List ℕ → Option ℕ
first_zombie procs [] = none
first_zombie procs (c ∷ cs) = if is_zombie (procs c).state then some c else first_zombie procs cs

module _ (c : SchedClass) (laws : SchedLaws c) (idleproc initproc : ℕ) where
  -- What `do_wait` for any child comes to, by the first zombie among the children of the current process.
  abbrev pub WaitedFor :
      (kids : ℕ → List ℕ) → (k : Kernel c.Queue) → Option ℕ → Waited → Kernel c.Queue → Type 0
  WaitedFor kids k (some z) w k' =
      (w ≡ reaped (k.exit_code z))
      × IsFamily k'.family (update kids k.sched.current (remove z (kids k.sched.current)))
      × IsHashed k'.family
      × (k'.family.proc_list ≡ remove z k.family.proc_list)
      × (k'.sched ≡ k.sched)
  WaitedFor kids k none w k' =
      ((kids k.sched.current ≡ []) × (w ≡ refused e_bad_proc) × (k' ≡ k))
      ⊎ ((kids k.sched.current ≢ [])
          × (w ≡ blocks)
          × IsScheduled c laws idleproc k'.sched
          × ((k'.sched.procs k.sched.current).state ≡ sleeping)
          × (k'.family ≡ k.family))
