-- ===== src/Process/Kernel/Fork.antt =====
-- `do_fork`: the new process enters every list, or everything is as before.
use nku_os.Prelude.{
  ℕ, ◌+◌, ◌^◌, ◌≤◌, ◌<◌, ◌≡◌, ◌≢◌, ◌⊎◌, Bool, true, false, not, Option, some, List, ◌∷◌, count,
  length, map, update,
}
use nku_os.Prelude.Partial.{◌>>=◌, ◌>>◌, assert}
use nku_os.Errors.{e_no_mem, e_no_free_proc}
use nku_os.Sched.Proc.{is_runnable}
use nku_os.Sched.Class.{SchedClass, SchedLaws}
use nku_os.Sched.Core.Laws.{IsScheduled}
use nku_os.Process.{max_process}
use nku_os.Process.Pids.{PidsSafe}
use nku_os.Process.Tree.Siblings.{Siblings}
use nku_os.Process.Resources.{Resources, Grants}
use nku_os.Process.Resources.Counts.{Counts}
use nku_os.Process.Resources.Shares.{IsQuiet, Shares}
use nku_os.Process.Resources.Copies.{IsNew}
use nku_os.Process.Kernel.{
  Kernel, Forked, child, failed, alloc_proc, publish_if, clone_fs, clone_vm,
}
use nku_os.Process.Kernel.Publish.{IsTable, Unlisted, Published}

module _ (c : SchedClass) (laws : SchedLaws c) (idleproc initproc : ℕ) where
  abbrev K : Type 0
  K = Kernel c.Queue

  -- What `alloc_proc` leaves, and the parent that `do_fork` sets.
  unfoldable pub started : (proc : ℕ) → K → K
  unfolding alloc_proc
  started proc k =
      let k1 = alloc_proc proc k in
      let f = k1.family in
      record k1 { family = record f { parent = update f.parent proc (some k.sched.current) } }

  -- What a fork starts from: the processes that hold memory and files are `ps`.
  pub record CanFork (g : Grants) (ps : List ℕ) (k : K) (kids : ℕ → List ℕ) : Type 0 where
    pub table : IsTable k.family kids
    pub safe : PidsSafe (map k.family.pid k.family.proc_list) k.pids
    pub scheduled : IsScheduled c laws idleproc k.sched
    pub all : k.family.nr_process ≡ length k.family.proc_list + 1
    pub counts : Counts k.resources ps
    pub few : length ps + 1 < 2 ^ 32
    pub holds : 1 ≤ count k.sched.current ps
    pub awake : (k.sched.procs k.sched.current).wait_state ≡ 0
    pub new_files : IsNew g.files_create k.resources.filesp ps
    pub new_mm : IsNew g.mm_create k.resources.mm ps
    pub quiet : IsQuiet k.resources
    pub made_closable : (f : ℕ) → g.files_create ≡ some f → k.resources.closable f ≡ true
    pub own_closable :
        (f : ℕ) → k.resources.filesp k.sched.current ≡ some f → k.resources.closable f ≡ true

  -- What holds of the memory that `kmalloc` gives for a process.
  pub record IsUnused (proc : ℕ) (ps : List ℕ) (k : K) (kids : ℕ → List ℕ) : Type 0 where
    pub unlisted : Unlisted proc k.family kids
    pub other : proc ≢ k.sched.current
    pub not_held : count proc ps ≡ 0
    pub idle : is_runnable (k.sched.procs proc).state ≡ false

  -- The processes but the one that the fork makes are scheduled, and have memory and files, as before.
  abbrev OthersKept : Grants → (k k' : K) → Type 0
  OthersKept g k k' =
      (k'.sched.queue ≡ k.sched.queue)
      × (k'.sched.current ≡ k.sched.current)
      × ((q : ℕ)
          → g.proc_memory ≢ some q
          → (k'.sched.procs q ≡ k.sched.procs q)
            × (k'.resources.filesp q ≡ k.resources.filesp q)
            × (k'.resources.mm q ≡ k.resources.mm q))

  -- The outcomes of a fork.
  abbrev pub ForkEnds :
      Grants → (flags : ℕ) → (ps : List ℕ) → (kids : ℕ → List ℕ) → (k : K) → Forked → K → Type 0
  ForkEnds g flags ps kids k (child pid) k' =
      (proc : ℕ) × (g.proc_memory ≡ some proc)
      × Published c laws idleproc initproc proc k.sched.current pid kids (started proc k) k'
      × Counts k'.resources (proc ∷ ps)
      × Shares (clone_fs flags) (clone_vm flags) g k.sched.current proc k.resources
          (true, k'.resources)
  ForkEnds g flags ps kids k (failed e) k' =
      ((e ≡ e_no_mem) ⊎ (e ≡ e_no_free_proc))
      × IsTable k'.family kids
      × (k'.family.proc_list ≡ k.family.proc_list)
      × (k'.pids ≡ k.pids)
      × IsScheduled c laws idleproc k'.sched
      × Counts k'.resources ps
      × OthersKept g k k'

  module _ (g : Grants) (ps : List ℕ) (k : K) (kids : ℕ → List ℕ) (v : CanFork g ps k kids)
      (flags : ℕ) (room : length k.family.proc_list ≤ max_process) where
    -- `do_fork` behind `alloc_proc`, with the calls that may fail.
    copy_and_publish : (proc : ℕ) → Option (Bool × Resources) → Option (Forked × K)
    copy_and_publish proc copied = copied >>= λ t.
        assert (not t.1.files_panic)
        >> publish_if c idleproc initproc t.0 proc (record (started proc k) { resources = t.1 })
