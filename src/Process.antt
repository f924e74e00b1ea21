-- ===== src/Process.antt =====
-- kern/process/proc.c: the process identifiers that `get_pid` gives out.
pub mod Walks
pub mod Pids
pub mod Tree
pub mod Resources
pub mod Kernel
mod Tests
use nku_os.Prelude.{
  ℕ, zero, suc, ◌+◌, ◌*◌, Bool, true, false, ◌&&◌, Option, none, some, List, [], ◌∷◌, ltb, leb,
  ◌==◌, if◌then◌else◌,
}
use nku_os.Prelude.Partial.{◌>>=◌}

abbrev pub max_process : ℕ
max_process = 4096

abbrev pub max_pid : ℕ
max_pid = max_process * 2

-- The two static variables of `get_pid`.
pub record PidState : Type 0 where
  pub next_safe : ℕ
  pub last_pid : ℕ

abbrev pub pids_init : PidState
pids_init = record { next_safe = max_pid; last_pid = max_pid }

-- Whether the visit of a process ends in `goto repeat`.
abbrev pub repeats : ℕ → PidState → Bool
repeats pid s = pid == s.last_pid && leb s.next_safe (s.last_pid + 1)

-- The body of the loop, for one process.
abbrev pub visit : ℕ → PidState → PidState
visit pid s =
    if pid == s.last_pid
    then if leb s.next_safe (s.last_pid + 1)
      then record {
        next_safe = max_pid;
        last_pid = if leb max_pid (s.last_pid + 1) then 1 else s.last_pid + 1;
      }
      else record s { last_pid = s.last_pid + 1 }
    else if ltb s.last_pid pid && ltb pid s.next_safe
    then record s { next_safe = pid }
    else s

-- One walk over the identifiers on `proc_list`, and whether it ends in `goto repeat`.
unfoldable pub walk : List ℕ → PidState → Bool × PidState
walk [] s = (false, s)
walk (pid ∷ pids) s =
    let rest = walk pids (visit pid s) in if repeats pid s then (true, visit pid s) else rest

-- The walks from the label `repeat` on, in a number of rounds.
unfoldable pub walks : ℕ → List ℕ → PidState → Option PidState
unfolding walk
walks zero pids s = none
walks (suc fuel) pids s =
    let rest = walks fuel pids (walk pids s).1 in
    if (walk pids s).0 then rest else some (walk pids s).1

-- The code from the label `inside` on.
abbrev pub from_inside : ℕ → List ℕ → ℕ → Option (ℕ × PidState)
unfolding walks
from_inside fuel pids last_pid = do
  s ← walks fuel pids (record { next_safe = max_pid; last_pid = last_pid })
  some (s.last_pid, s)

unfoldable pub get_pid : ℕ → List ℕ → PidState → Option (ℕ × PidState)
get_pid fuel pids s =
    let last_pid = s.last_pid + 1 in
    if leb max_pid last_pid
    then from_inside fuel pids 1
    else if leb s.next_safe last_pid
    then from_inside fuel pids last_pid
    else some (last_pid, record s { last_pid = last_pid })
