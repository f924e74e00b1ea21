-- ===== src/Process/Tree/Hash.antt =====
-- The lists of `hash_list` hold the processes of `proc_list`, and `find_proc` finds them.
use nku_os.Prelude.{
  ℕ, ◌≤◌, ◌<◌, ◌≡◌, ◌≢◌, ap, true, ◌&&◌, Option, none, some, List, [], ◌∷◌, ltb, ◌==◌,
  if◌then◌else◌, arith, count, Bool-cases, inl, inr, update, remove, count-remove,
}
use nku_os.Process.{max_pid}
use nku_os.Process.Tree.{Family, pid_hashfn, find_pid, find_proc}

-- Each process of `proc_list`, and no other, is in the list of its identifier and in no other list.
abbrev pub IsHashed : Family → Type 0
IsHashed f =
    (h p : ℕ)
    → count p (f.hash_list h) ≡ (if pid_hashfn (f.pid p) == h then count p f.proc_list else 0)

-- A search by identifier: the process that it finds, or that there is none.
abbrev pub FindsPid : (ℕ → ℕ) → ℕ → List ℕ → Option ℕ → Type 0
FindsPid pids pid procs none = (p : ℕ) → 1 ≤ count p procs → pids p ≢ pid
FindsPid pids pid procs (some p) = (pids p ≡ pid) × (1 ≤ count p procs)

find_pid-FindsPid :
    (pids : ℕ → ℕ) (pid : ℕ) (procs : List ℕ) → FindsPid pids pid procs (find_pid pids pid procs)
unfolding find_pid
find_pid-FindsPid pids pid [] = λ p h. absurd (omega (arith, h))
find_pid-FindsPid pids pid (q ∷ qs) = elim (Bool-cases (pids q == pid)) [
  | inl e ↦ rw e (ground (arith, e), ground arith)
  | inr ne ↦
      rw ne (later (find_pid pids pid qs) (ground (arith, ne)) (find_pid-FindsPid pids pid qs))
]
  where
    later : (r : Option ℕ) → pids q ≢ pid → FindsPid pids pid qs r → FindsPid pids pid (q ∷ qs) r
    later none ne h = λ p m. elim (Bool-cases (p == q)) [
      | inl same ↦ let e : p ≡ q = ground (arith, same) in rw e ne
      | inr other ↦ h p (ground (arith, m, other))
    ]
    later (some p) ne (e, m) = (e, ground (arith, m))

-- Where each list of the hash table has the processes on `proc_list` whose identifiers belong to it, `find_proc` of an identifier above 0
-- and below `MAX_PID` finds a process on `proc_list` with that identifier, and NULL only if there is none. (`idleproc`, with the
-- identifier 0, is on no list and is not found.)
pub find_proc-FindsPid :
    (pid : ℕ) (f : Family)
    → IsHashed f
    → 0 < pid
    → pid < max_pid
    → FindsPid f.pid pid f.proc_list (find_proc pid f)
unfolding find_proc
find_proc-FindsPid pid f v low high =
    let in_range : (ltb 0 pid && ltb pid max_pid) ≡ true = ground (arith, low, high) in
    rw in_range (
      all (find_pid f.pid pid (f.hash_list (pid_hashfn pid)))
        (find_pid-FindsPid f.pid pid (f.hash_list (pid_hashfn pid))))
  where
    all :
        (r : Option ℕ)
        → FindsPid f.pid pid (f.hash_list (pid_hashfn pid)) r
        → FindsPid f.pid pid f.proc_list r
    all none h = λ p m e.
        let mine : count p (f.hash_list (pid_hashfn pid)) ≡ count p f.proc_list =
          ground (arith, v (pid_hashfn pid) p, ap pid_hashfn e) in
        h p (ground (arith, m, mine)) e
    all (some p) (e, m) = (e, ground (arith, m, v (pid_hashfn pid) p))

-- A process that gets an identifier, and enters both lists.
pub IsHashed-added :
    (f g : Family) (proc pid : ℕ)
    → IsHashed f
    → count proc f.proc_list ≡ 0
    → g.pid ≡ update f.pid proc pid
    → g.hash_list ≡ update f.hash_list (pid_hashfn pid) (proc ∷ f.hash_list (pid_hashfn pid))
    → g.proc_list ≡ proc ∷ f.proc_list
    → IsHashed g
IsHashed-added f g proc pid v new pid' hash' list' h p =
    rw (pid', hash', list')
      (elim (Bool-cases (p == proc)) [
        | inl same ↦ rw same (ground (arith, same, new, v h p, v (pid_hashfn pid) p))
        | inr other ↦ rw other (ground (arith, other, v h p, v (pid_hashfn pid) p))
      ])

-- A process that leaves both lists.
pub IsHashed-removed :
    (f g : Family) (proc : ℕ)
    → IsHashed f
    → g.pid ≡ f.pid
    → g.hash_list
      ≡ update f.hash_list
          (pid_hashfn (f.pid proc))
          (remove proc (f.hash_list (pid_hashfn (f.pid proc))))
    → g.proc_list ≡ remove proc f.proc_list
    → IsHashed g
IsHashed-removed f g proc v pid' hash' list' h p =
    rw (pid', hash', list')
      (ground (arith, v h p, count-remove p proc f.proc_list, count-remove p proc (f.hash_list h)))
