-- ===== src/Process/Kernel/Tests.antt =====
-- A small system of processes, and the theorems on it.
use nku_os.Prelude.{
  ℕ, ◌+◌, ◌-◌, ◌%◌, ◌^◌, ◌≡◌, refl, true, false, none, some, List, [], ◌∷◌, ◌==◌, if◌then◌else◌,
  arith, count, Bool-cases, inl, inr, update, remove,
}
use nku_os.Sched.Proc.{ProcState, Proc, Procs, sleeping, runnable}
use nku_os.Sched.Core.{Sched}
use nku_os.Sched.Stride.{RunQueue}
use nku_os.Sched.SkewHeap.{null}
use nku_os.Process.{max_pid}
use nku_os.Process.Tree.{Family, pid_hashfn, find_proc, remove_links}
use nku_os.Process.Tree.Siblings.{Siblings, IsFamily}
use nku_os.Process.Tree.Cut.{remove_links-IsFamily}
use nku_os.Process.Tree.Hash.{IsHashed, FindsPid, find_proc-FindsPid}
use nku_os.Process.Resources.{Resources, Grants, release}
use nku_os.Process.Resources.Counts.{holders, Counts, release-Counts, release-leaks}
use nku_os.Process.Kernel.{Kernel, wt_child}

abbrev pids : ℕ → ℕ
pids p = p - 1

-- The processes whose identifier has the hash `h`.
abbrev bucket : ℕ → List ℕ → List ℕ
bucket h [] = []
bucket h (p ∷ ps) = if pid_hashfn (pids p) == h then p ∷ bucket h ps else bucket h ps

count-bucket :
    (h p : ℕ) (ps : List ℕ)
    → count p (bucket h ps) ≡ (if pid_hashfn (pids p) == h then count p ps else 0)
count-bucket h p [] = ground arith
count-bucket h p (q ∷ qs) = elim (Bool-cases (p == q)) [
  | inl e ↦ let same : p ≡ q = ground (arith, e) in rw same (ground (arith, count-bucket h q qs))
  | inr ne ↦ ground (arith, ne, count-bucket h p qs)
]

-- `idleproc` is 1 and `initproc` 2; 3 runs, and has the children 5 and 4.
abbrev listed : List ℕ
listed = 5 ∷ 4 ∷ 3 ∷ 2 ∷ []

abbrev kids : ℕ → List ℕ
kids p = if p == 1 then 2 ∷ [] else if p == 2 then 3 ∷ [] else if p == 3 then 5 ∷ 4 ∷ [] else []

abbrev family : Family
family = record {
  pid = pids;
  parent = λ p. if p == 2 then some 1 else if p == 3 then some 2 else some 3;
  cptr = λ p. if p == 1 then some 2 else if p == 2 then some 3 else if p == 3 then some 5 else none;
  yptr = λ p. if p == 4 then some 5 else none;
  optr = λ p. if p == 5 then some 4 else none;
  proc_list = listed;
  hash_list = λ h. bucket h listed;
  nr_process = 5;
}

siblings : (p : ℕ) → Siblings family p none (family.cptr p) (kids p)
siblings p = elim (Bool-cases (p == 1)) [
  | inl e ↦ rw e (refl, ground (arith, e), refl, refl)
  | inr n1 ↦ elim (Bool-cases (p == 2)) [
    | inl e ↦ rw (n1, e) (refl, ground (arith, e), refl, refl)
    | inr n2 ↦ elim (Bool-cases (p == 3)) [
      | inl e ↦
          rw (n1, n2, e) (refl, ground (arith, e), refl, (refl, ground (arith, e), refl, refl))
      | inr n3 ↦ rw (n1, n2, n3) refl
    ]
  ]
]

family-IsFamily : IsFamily family kids
family-IsFamily = record { linked = siblings; distinct = λ p n. ground arith }

family-IsHashed : IsHashed family
family-IsHashed h p = count-bucket h p listed

abbrev proc : ProcState → ℕ → Proc
proc state wait_state = record {
  state = state;
  runs = 0;
  need_resched = false;
  wait_state = wait_state;
  time_slice = 5;
  lab6_stride = 0;
  lab6_priority = 1;
}

-- `initproc` waits for a child, and 4 is a zombie.
abbrev procs : Procs
procs p =
    if p == 2
    then proc sleeping wt_child
    else if p == 3
    then proc runnable 0
    else if p == 4
    then proc ProcState.zombie 0
    else proc sleeping 0

abbrev sched : Sched RunQueue
sched = record {
  procs = procs;
  queue = record { lab6_run_pool = null; proc_num = 0; max_time_slice = 5 };
  current = 3;
}

-- 3 has the memory 10, and 2 and 3 have the files 20.
abbrev resources : Resources
resources = record {
  mm = λ p. if p == 3 then some 10 else none;
  mm_count = λ a. 1;
  filesp = λ p. if p == 2 then some 20 else if p == 3 then some 20 else none;
  files_count = λ a. 2;
  dead_mms = [];
  dead_files = [];
  closable = λ f. true;
  files_panic = false;
}

abbrev holding : List ℕ
holding = 3 ∷ 2 ∷ []

resources-Counts : Counts resources holding
resources-Counts = record { mms = λ a h. ground (arith, h); files = λ a h. ground (arith, h) }

abbrev kernel : Kernel RunQueue
kernel = record {
  sched = sched;
  family = family;
  pids = record { next_safe = max_pid; last_pid = 4 };
  resources = resources;
  exit_code = λ p. 7;
  flags = λ p. 0;
}

remove_links-IsFamily_example :
    (g : Family) × (remove_links 4 family ≡ some g)
    × IsFamily g (update kids 3 (remove 4 (kids 3)))
    × (g.proc_list ≡ remove 4 listed)
    × (g.nr_process ≡ (5 + 2 ^ 32 - 1) % 2 ^ 32)
    × (g.parent ≡ family.parent)
    × (g.pid ≡ family.pid)
    × (g.hash_list ≡ family.hash_list)
remove_links-IsFamily_example = remove_links-IsFamily 4 3 family kids family-IsFamily (omega arith)

find_proc-FindsPid_example : FindsPid pids 3 listed (find_proc 3 family)
find_proc-FindsPid_example = find_proc-FindsPid 3 family family-IsHashed (omega arith) (omega arith)

release-Counts_example :
    Counts (release 3 resources) (remove 3 holding)
    × ((release 3 resources).dead_mms
        ≡ (if holders resources.mm 10 holding == 1 then 10 ∷ [] else []))
    × ((release 3 resources).dead_files
        ≡ (if holders resources.filesp 20 holding == 1 then 20 ∷ [] else []))
release-Counts_example =
    release-Counts resources holding 3 10 20 resources-Counts refl (omega arith) refl refl

release-leaks_example :
    (release 2 resources).files_count 20
    ≡ holders (release 2 resources).filesp 20 (remove 2 holding) + 1
release-leaks_example = release-leaks resources holding 2 20 resources-Counts refl refl refl

-- A fork with memory for all that it asks for, and a process at 6.
abbrev grants : Grants
grants = record {
  proc_memory = some 6;
  setup_kstack = true;
  files_create = some 21;
  files_dup = true;
  mm_create = some 11;
  setup_pgdir = true;
  mmap_dup = true;
}
