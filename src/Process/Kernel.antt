-- ===== src/Process/Kernel.antt =====
-- kern/process/proc.c: making, ending, awaiting and killing processes, over the scheduler.
pub mod Publish
pub mod Fork
pub mod Adopt
pub mod Reparent
pub mod Exit
pub mod Wait
mod Tests
use nku_os.Prelude.{
  ℕ, zero, suc, ◌+◌, ◌-◌, ◌/◌, ◌%◌, ◌^◌, Bool, true, false, not, ◌&&◌, ◌||◌, Option, none, some,
  map, leb, ◌==◌, if◌then◌else◌, update,
}
use nku_os.Prelude.Partial.{◌>>=◌, ◌>>◌, assert}
use nku_os.Errors.{e_no_mem, e_no_free_proc, e_inval, e_killed, e_bad_proc}
use nku_os.Sched.Proc.{ProcState, sleeping, Proc, is_zombie}
use nku_os.Sched.Class.{SchedClass}
use nku_os.Sched.Core.{Sched, set_proc, wakeup_proc, schedule}
use nku_os.Sched.Timer.{interruptible}
use nku_os.Process.{max_process, max_pid, PidState, get_pid}
use nku_os.Process.Tree.{
  Family, points_to, set_yptr, set_links, remove_links, hash_proc, unhash_proc, find_proc,
}
use nku_os.Process.Resources.{Resources, Grants, copy_all, release}

pub record Kernel (Queue : Type 0) : Type 0 where
  pub sched : Sched Queue
  pub family : Family
  pub pids : PidState
  pub resources : Resources
  pub exit_code : ℕ → ℕ
  pub flags : ℕ → ℕ

-- `WT_CHILD`
abbrev pub wt_child : ℕ
wt_child = 0x80000001

-- `CLONE_VM` and `CLONE_FS`
abbrev pub clone_vm : ℕ → Bool
clone_vm flags = flags / 2 ^ 8 % 2 == 1

abbrev pub clone_fs : ℕ → Bool
clone_fs flags = flags / 2 ^ 11 % 2 == 1

-- `PF_EXITING`
abbrev pub is_exiting : ℕ → Bool
is_exiting flags = flags % 2 == 1

abbrev pub uninit_proc : Proc
uninit_proc = record {
  state = ProcState.uninit;
  runs = 0;
  need_resched = false;
  wait_state = 0;
  time_slice = 0;
  lab6_stride = 0;
  lab6_priority = 0;
}

-- The part of `alloc_proc` behind `kmalloc`; the `pid` is -1.
unfoldable pub alloc_proc : {Q : Type 0} → ℕ → Kernel Q → Kernel Q
alloc_proc proc k =
    let f = k.family in
    let r = k.resources in
    record k {
      sched = set_proc proc uninit_proc k.sched;
      family = record f {
        pid = update f.pid proc (2 ^ 32 - 1);
        parent = update f.parent proc none;
        cptr = update f.cptr proc none;
        yptr = update f.yptr proc none;
        optr = update f.optr proc none;
      };
      resources = record r { mm = update r.mm proc none; filesp = update r.filesp proc none };
      flags = update k.flags proc 0;
    }

pub data Forked : Type 0 where
  child : (pid : ℕ) → Forked
  failed : (error : ℕ) → Forked

pub data Waited : Type 0 where
  reaped : (code : ℕ) → Waited
  refused : (error : ℕ) → Waited
  blocks : Waited

-- A child of `current` becomes the youngest child of `initproc`.
unfoldable pub adopt : (initproc current proc : ℕ) → Family → Family
adopt initproc current proc f =
    let f1 = record f {
      cptr = update f.cptr current (f.optr proc);
      yptr = update f.yptr proc none;
    } in
    let older = f1.cptr initproc in
    let f2 = set_yptr older (some proc) (record f1 { optr = update f1.optr proc older }) in
    record f2 {
      parent = update f2.parent proc (some initproc);
      cptr = update f2.cptr initproc (some proc);
    }

module _ (c : SchedClass) (idleproc initproc : ℕ) where
  abbrev pub K : Type 0
  K = Kernel c.Queue

  -- The end of `do_fork`, from `get_pid` on.
  unfoldable pub publish : (proc : ℕ) → K → Option (Forked × K)
  unfolding get_pid hash_proc set_links wakeup_proc
  publish proc k = do
    let f = k.family
    (pid, pids) ← get_pid max_pid (map f.pid f.proc_list) k.pids
    f' ← set_links proc (hash_proc proc (record f { pid = update f.pid proc pid }))
    s ← wakeup_proc c idleproc proc k.sched
    some (child pid, record k { sched = s; family = f'; pids = pids })

  abbrev pub publish_if : Bool → (proc : ℕ) → K → Option (Forked × K)
  unfolding publish
  publish_if true proc k = publish proc k
  publish_if false proc k = some (failed e_no_mem, k)

  -- `do_fork` behind `alloc_proc`. `copy_thread` sets registers, which are not modelled.
  abbrev pub fork_into : Option ℕ → (clone_flags : ℕ) → Grants → K → Option (Forked × K)
  unfolding alloc_proc copy_all publish_if
  fork_into none clone_flags g k = some (failed e_no_mem, k)
  fork_into (some proc) clone_flags g k = do
    let current = k.sched.current
    let k1 = alloc_proc proc k
    let f = k1.family
    let k2 = record k1 { family = record f { parent = update f.parent proc (some current) } }
    let copied = do
      (ok, r) ← copy_all (clone_fs clone_flags) (clone_vm clone_flags) g current proc k2.resources
      assert (not r.files_panic)
      publish_if ok proc (record k2 { resources = r })
    assert ((k2.sched.procs current).wait_state == 0)
    if g.setup_kstack then copied else some (failed e_no_mem, k2)

  unfoldable pub do_fork : (clone_flags : ℕ) → Grants → K → Option (Forked × K)
  unfolding fork_into
  do_fork clone_flags g k =
      if leb max_process k.family.nr_process
      then some (failed e_no_free_proc, k)
      else fork_into g.proc_memory clone_flags g k

  -- `if (p->wait_state == WT_CHILD) wakeup_proc(p)`
  unfoldable pub wake_waiting : ℕ → Sched c.Queue → Option (Sched c.Queue)
  unfolding wakeup_proc
  wake_waiting p s =
      if (s.procs p).wait_state == wt_child then wakeup_proc c idleproc p s else some s

  -- The body of the loop of `do_exit` over the children, with what follows it.
  abbrev pub adopt_first :
      Option ℕ
      → (Family → Sched c.Queue → Option (Family × Sched c.Queue))
      → (current : ℕ) → Family
      → Sched c.Queue
      → Option (Family × Sched c.Queue)
  unfolding wake_waiting adopt
  adopt_first none rest current f s = some (f, s)
  adopt_first (some proc) rest current f s = do
    s' ← if is_zombie (s.procs proc).state then wake_waiting initproc s else some s
    rest (adopt initproc current proc f) s'

  -- The loop, in a number of rounds.
  unfoldable pub adopt_all :
      ℕ → (current : ℕ) → Family → Sched c.Queue → Option (Family × Sched c.Queue)
  unfolding adopt_first
  adopt_all zero current f s = none
  adopt_all (suc fuel) current f s =
      adopt_first (f.cptr current) (adopt_all fuel current) current f s

  -- The state in which the next process runs. The panic behind `schedule` is reached where the exiting process still runs.
  unfoldable pub do_exit : ℕ → (error_code : ℕ) → K → Option K
  unfolding release wake_waiting adopt_all schedule
  do_exit fuel error_code k = do
    let current = k.sched.current
    let v = k.sched.procs current
    assert (not (current == idleproc) && not (current == initproc))
    parent ← k.family.parent current
    s1 ← wake_waiting parent (set_proc current (record v { state = ProcState.zombie }) k.sched)
    (f, s2) ← adopt_all fuel current k.family s1
    let r = release current k.resources
    let s3 = schedule c idleproc s2
    assert (not r.files_panic)
    assert (not (s3.current == current))
    some (record k {
      sched = s3;
      family = f;
      resources = r;
      exit_code = update k.exit_code current error_code;
    })

  -- The walk of `do_wait` over the children, in a number of rounds: the first that is a zombie.
  unfoldable pub find_zombie : ℕ → Family → Sched c.Queue → Option ℕ → Option (Option ℕ)
  find_zombie zero f s proc = none
  find_zombie (suc fuel) f s none = some none
  find_zombie (suc fuel) f s (some proc) =
      let rest = find_zombie fuel f s (f.optr proc) in
      if is_zombie (s.procs proc).state then some (some proc) else rest

  -- Behind the label `found`. The kernel stack and the process are given back.
  unfoldable pub reap : (proc : ℕ) → K → Option (Waited × K)
  unfolding unhash_proc remove_links
  reap proc k = do
    assert (not (proc == idleproc || proc == initproc))
    f ← remove_links proc (unhash_proc proc k.family)
    some (reaped (k.exit_code proc), record k { family = f })

  -- Up to the call of `schedule`, and from it on in the process that runs next.
  unfoldable pub block : K → Option (Waited × K)
  unfolding schedule
  block k =
      let current = k.sched.current in
      let v = k.sched.procs current in
      let s = set_proc current (record v { state = sleeping; wait_state = wt_child }) k.sched in
      some (blocks, record k { sched = schedule c idleproc s })

  -- The end of a search: a child that is a zombie, or whether there is any child to wait for.
  abbrev pub settle : Option ℕ → (haskid : Bool) → K → Option (Waited × K)
  unfolding reap block
  settle (some proc) haskid k = reap proc k
  settle none haskid k = if haskid then block k else some (refused e_bad_proc, k)

  -- The child with the identifier, if it is one of `current`, and whether it is.
  abbrev pub own_child : (current : ℕ) → Option ℕ → Family → Option ℕ
  own_child current none f = none
  own_child current (some proc) f = if points_to (f.parent proc) current then some proc else none

  abbrev pub if_zombie : Option ℕ → Sched c.Queue → Option ℕ
  if_zombie none s = none
  if_zombie (some proc) s = if is_zombie (s.procs proc).state then some proc else none

  abbrev pub is_some : Option ℕ → Bool
  is_some none = false
  is_some (some a) = true

  -- From the label `repeat` on.
  unfoldable pub wait_once : ℕ → (pid : ℕ) → K → Option (Waited × K)
  unfolding find_proc find_zombie settle
  wait_once fuel pid k =
      let current = k.sched.current in
      let kid = own_child current (find_proc pid k.family) k.family in
      let eldest = k.family.cptr current in
      let any = do found ← find_zombie fuel k.family k.sched eldest; settle found (is_some eldest) k
      in if not (pid == 0) then settle (if_zombie kid k.sched) (is_some kid) k else any

  -- `writable`: `code_store` is NULL, or `user_mem_check` lets it be written.
  unfoldable pub do_wait : ℕ → (pid : ℕ) → (writable : Bool) → K → Option (Waited × K)
  unfolding wait_once
  do_wait fuel pid writable k = if writable then wait_once fuel pid k else some (refused e_inval, k)

  -- Behind the call of `schedule` in `do_wait`: the call of `do_exit`, or what the next round does.
  unfoldable pub wait_return : ℕ → (pid : ℕ) → K → Option (Option Waited × K)
  unfolding wait_once do_exit
  wait_return fuel pid k =
      let ends = (do k' ← do_exit fuel (2 ^ 32 - e_killed) k; some (none, k')) in
      let again = (do (w, k') ← wait_once fuel pid k; some (some w, k')) in
      if is_exiting (k.flags k.sched.current) then ends else again

  -- `WT_INTERRUPTED` is the highest bit of the wait state. The error is 0 where it returns 0.
  abbrev pub kill_proc : Option ℕ → K → Option (ℕ × K)
  unfolding wakeup_proc
  kill_proc none k = some (e_inval, k)
  kill_proc (some proc) k =
      let k1 = record k { flags = update k.flags proc (k.flags proc + 1) } in
      let wake = do s ← wakeup_proc c idleproc proc k.sched; some (0, record k1 { sched = s })
      in if is_exiting (k.flags proc)
        then some (e_killed, k)
        else if interruptible (k.sched.procs proc).wait_state
        then wake
        else some (0, k1)

  unfoldable pub do_kill : (pid : ℕ) → K → Option (ℕ × K)
  unfolding find_proc kill_proc
  do_kill pid k = kill_proc (find_proc pid k.family) k
