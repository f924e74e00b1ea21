-- ===== src/Strings/Tests.antt =====
-- Runs of the string functions on a small memory.
use nku_os.Prelude.{◌≡◌, refl, some, update}
use nku_os.Strings.{Memory, strcmp, memmove, byte_diff}

-- "ab" at 10 and "ac" at 20.
abbrev memory : Memory
memory = update (update (update (update (λ _. 0) 10 97) 11 98) 20 97) 21 99

differs : strcmp 3 10 20 memory ≡ some (byte_diff 98 99)
unfolding strcmp
differs = refl

overlapping : memmove 11 10 2 memory 12 ≡ 98
unfolding memmove nku_os.Strings.copy_down nku_os.Strings.copy_up
overlapping = refl
