-- ===== src/Process/Kernel/Publish.antt =====
-- The end of `do_fork`: the new process gets an identifier and enters every list.
use nku_os.Prelude.{
  ℕ, suc, ◌≤◌, ◌<◌, ◌≡◌, ◌∙◌, sym, subst, refl, true, false, none, some, List, [], ◌∷◌, ◌==◌, arith,
  count, length, map, update, ap,
}
use nku_os.Sched.Proc.{is_runnable, is_zombie}
use nku_os.Sched.Class.{SchedClass, SchedLaws}
use nku_os.Sched.Core.Laws.{IsScheduled, wakeup_proc-IsScheduled}
use nku_os.Process.{max_process, max_pid}
use nku_os.Process.Pids.{PidsSafe, get_pid-GivesFresh}
use nku_os.Process.Tree.{Family, hash_proc, pid_hashfn}
use nku_os.Process.Tree.Siblings.{IsFamily, Siblings-frame}
use nku_os.Process.Tree.Links.{set_links-IsFamily}
use nku_os.Process.Tree.Hash.{IsHashed, IsHashed-added}
use nku_os.Process.Kernel.{Kernel, child, publish}

pub map-update :
    (f : ℕ → ℕ) (p v : ℕ) (ps : List ℕ) → count p ps ≡ 0 → map (update f p v) ps ≡ map f ps
map-update f p v [] h = refl
map-update f p v (q ∷ qs) h =
    let other : (q == p) ≡ false = ground (arith, h) in
    rw (other, map-update f p v qs (ground (arith, h))) refl

map-added :
    (f : ℕ → ℕ) (p v : ℕ) (ps : List ℕ)
    → count p ps ≡ 0
    → map (update f p v) (p ∷ ps) ≡ v ∷ map f ps
map-added f p v ps h =
    let self : (p == p) ≡ true = ground arith in rw (self, map-update f p v ps h) refl

length-map : (f : ℕ → ℕ) (ps : List ℕ) → length (map f ps) ≡ length ps
length-map f [] = refl
length-map f (p ∷ ps) = ap suc (length-map f ps)

listed :
    (f g : Family) (proc pid : ℕ)
    → g.proc_list ≡ proc ∷ f.proc_list
    → g.pid ≡ update f.pid proc pid
    → count proc f.proc_list ≡ 0
    → map g.pid g.proc_list ≡ pid ∷ map f.pid f.proc_list
listed f g proc pid list' pid' new =
    let p : map g.pid g.proc_list ≡ map (update f.pid proc pid) (proc ∷ f.proc_list) =
      λ i. map (pid' i) (list' i) in
    p ∙ map-added f.pid proc pid f.proc_list new

-- The lists of the processes, for the children of each.
pub record IsTable (f : Family) (kids : ℕ → List ℕ) : Type 0 where
  pub family : IsFamily f kids
  pub hashed : IsHashed f

-- A process in no list.
pub record Unlisted (proc : ℕ) (f : Family) (kids : ℕ → List ℕ) : Type 0 where
  pub no_child : (q : ℕ) → count proc (kids q) ≡ 0
  pub no_parent : kids proc ≡ []
  pub not_listed : count proc f.proc_list ≡ 0

module _ (c : SchedClass) (laws : SchedLaws c) (idleproc initproc : ℕ) where
  abbrev K : Type 0
  K = Kernel c.Queue

  -- A process that `publish` has entered into the lists, with its identifier.
  abbrev pub Published : (proc parent pid : ℕ) → (kids : ℕ → List ℕ) → (k k' : K) → Type 0
  Published proc parent pid kids k k' =
      (1 ≤ pid)
      × (pid < max_pid)
      × (count pid (map k.family.pid k.family.proc_list) ≡ 0)
      × (k'.family.pid proc ≡ pid)
      × (k'.family.proc_list ≡ proc ∷ k.family.proc_list)
      × IsTable k'.family (update kids parent (proc ∷ kids parent))
      × PidsSafe (map k'.family.pid k'.family.proc_list) k'.pids
      × IsScheduled c laws idleproc k'.sched
      × (is_runnable (k'.sched.procs proc).state ≡ true)

  pub publish-Published :
      (proc parent : ℕ) (k : K) (kids : ℕ → List ℕ)
      → IsTable k.family kids
      → Unlisted proc k.family kids
      → k.family.parent proc ≡ some parent
      → PidsSafe (map k.family.pid k.family.proc_list) k.pids
      → length k.family.proc_list ≤ max_process
      → IsScheduled c laws idleproc k.sched
      → is_zombie (k.sched.procs proc).state ≡ false
      → (pid : ℕ) × (k' : K) × (publish c idleproc initproc proc k ≡ some (child pid, k'))
        × Published proc parent pid kids k k'
        × (k'.resources ≡ k.resources)
  unfolding publish hash_proc
  publish-Published proc parent k kids table new par safe few sch nz =
      let f = k.family in
      let (pid, pids, run, low, high, fresh, safe') =
        get_pid-GivesFresh (map f.pid f.proc_list) k.pids
          (omega (arith, few, length-map f.pid f.proc_list)) safe in
      let h = pid_hashfn pid in
      let self : (proc == proc) ≡ true = ground arith in
      let f1 : Family = record f {
        pid = update f.pid proc pid;
        hash_list = update f.hash_list h (proc ∷ f.hash_list h);
      } in
      let fam1 : IsFamily f1 kids = record {
        linked = λ p.
            Siblings-frame f f1 p none (f.cptr p) (kids p) (λ x hx. (refl, refl, refl))
              (table.family.linked p);
        distinct = table.family.distinct;
      } in
      let (g, run2, fam2, list2, nr2, par2, pid2, hash2) =
        set_links-IsFamily proc parent f1 kids fam1 par new.no_child in
      let (s, run3, sch3, up, cur, frame) =
        wakeup_proc-IsScheduled c laws idleproc proc k.sched sch nz in
      (
        pid,
        record k { sched = s; family = g; pids = pids },
        rw (run, self, run2, run3) refl,
        (
          low,
          high,
          fresh,
          rw (pid2, self) refl,
          list2,
          record {
            family = fam2;
            hashed = IsHashed-added f g proc pid table.hashed new.not_listed pid2 hash2 list2;
          },
          subst (λ l. PidsSafe l pids) (sym (listed f g proc pid list2 pid2 new.not_listed)) safe',
          sch3,
          up,
        ),
        refl,
      )
