-- ===== src/Process/Tree.antt =====
-- kern/process/proc.c: the lists of all processes, and the links between parents and children.
pub mod Siblings
pub mod Links
pub mod Cut
pub mod Hash
use nku_os.Prelude.{
  ℕ, ◌+◌, ◌-◌, ◌%◌, ◌^◌, Bool, false, ◌&&◌, Option, none, some, List, [], ◌∷◌, ltb, ◌==◌,
  if◌then◌else◌, update, remove,
}
use nku_os.Prelude.Partial.{◌>>=◌}
use nku_os.Numbers.{hash32}
use nku_os.Process.{max_pid}

-- The fields of all processes: a process is its number, and NULL is `none`. `proc_list` and the lists
-- of `hash_list` are given by their processes, the first one first.
pub record Family : Type 0 where
  pub pid : ℕ → ℕ
  pub parent : ℕ → Option ℕ
  pub cptr : ℕ → Option ℕ
  pub yptr : ℕ → Option ℕ
  pub optr : ℕ → Option ℕ
  pub proc_list : List ℕ
  pub hash_list : ℕ → List ℕ
  pub nr_process : ℕ

abbrev pub points_to : Option ℕ → ℕ → Bool
points_to none a = false
points_to (some b) a = a == b

-- `if (p != NULL) p->yptr = v`
abbrev pub set_yptr : Option ℕ → Option ℕ → Family → Family
set_yptr p v f = record f { yptr = λ a. if points_to p a then v else f.yptr a }

unfoldable pub set_links : ℕ → Family → Option Family
set_links proc f = do
  parent ← f.parent proc
  let older = f.cptr parent
  let f1 = record f {
    proc_list = proc ∷ f.proc_list;
    yptr = update f.yptr proc none;
    optr = update f.optr proc older;
  }
  let f2 = set_yptr older (some proc) f1
  some (record f2 {
    cptr = update f.cptr parent (some proc);
    nr_process = (f.nr_process + 1) % 2 ^ 32;
  })

-- The assignment to the younger sibling, or to the parent where there is none.
abbrev pub skip_younger : Option ℕ → ℕ → Family → Option Family
skip_younger (some younger) proc f = some (record f { optr = update f.optr younger (f.optr proc) })
skip_younger none proc f = do
  parent ← f.parent proc
  some (record f { cptr = update f.cptr parent (f.optr proc) })

unfoldable pub remove_links : ℕ → Family → Option Family
remove_links proc f = do
  let f1 = record f { proc_list = remove proc f.proc_list }
  let f2 = set_yptr (f.optr proc) (f.yptr proc) f1
  f3 ← skip_younger (f2.yptr proc) proc f2
  some (record f3 { nr_process = (f.nr_process + 2 ^ 32 - 1) % 2 ^ 32 })

abbrev pub hash_shift : ℕ
hash_shift = 10

abbrev pub pid_hashfn : ℕ → ℕ
pid_hashfn pid = hash32 pid hash_shift

unfoldable pub hash_proc : ℕ → Family → Family
hash_proc proc f =
    let h = pid_hashfn (f.pid proc) in
    record f { hash_list = update f.hash_list h (proc ∷ f.hash_list h) }

-- `list_del` takes the process out of the list that it is in, which is the one of its identifier.
unfoldable pub unhash_proc : ℕ → Family → Family
unhash_proc proc f =
    let h = pid_hashfn (f.pid proc) in
    record f { hash_list = update f.hash_list h (remove proc (f.hash_list h)) }

unfoldable pub find_pid : (ℕ → ℕ) → ℕ → List ℕ → Option ℕ
find_pid pids pid [] = none
find_pid pids pid (proc ∷ procs) = if pids proc == pid then some proc else find_pid pids pid procs

unfoldable pub find_proc : ℕ → Family → Option ℕ
unfolding find_pid
find_proc pid f =
    if ltb 0 pid && ltb pid max_pid then find_pid f.pid pid (f.hash_list (pid_hashfn pid)) else none
