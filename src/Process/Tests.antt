-- ===== src/Process/Tests.antt =====
-- Runs of `get_pid`.
use nku_os.Prelude.{◌≡◌, refl, some, List, [], ◌∷◌, arith, ℕ}
use nku_os.Process.{PidState, pids_init, max_pid, get_pid}
use nku_os.Process.Pids.{GivesFresh, get_pid-GivesFresh}

-- Behind the last identifier that is below `MAX_PID`, with 1 and 2 in use, the next one is 3.
abbrev pids : List ℕ
pids = 2 ∷ 8191 ∷ 1 ∷ []

abbrev at_end : PidState
at_end = record pids_init { last_pid = 8191 }

starts_again : get_pid 4 pids at_end ≡ some (3, record { next_safe = 8191; last_pid = 3 })
unfolding get_pid nku_os.Process.walks nku_os.Process.walk
starts_again = refl

get_pid-GivesFresh_example : GivesFresh max_pid pids at_end
get_pid-GivesFresh_example =
    get_pid-GivesFresh pids at_end (omega arith) (omega arith, λ x h. ground arith)
