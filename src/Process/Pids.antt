-- ===== src/Process/Pids.antt =====
-- A process identifier that `get_pid` gives out is not in use.
use nku_os.Prelude.{
  ℕ, zero, suc, ◌+◌, ◌≤◌, ◌<◌, ◌≡◌, refl, ◌&&◌, some, List, [], ◌∷◌, leb, ◌==◌, if◌then◌else◌,
  arith, count, length, Bool-cases, ◌⊎◌, inl, inr,
}
use nku_os.Process.{max_process, max_pid, PidState, from_inside, get_pid}
use nku_os.Process.Walks.{Apart, Walking, counted, walks-Apart}

-- Between the last identifier given out and `next_safe` none is in use.
abbrev pub PidsSafe : List ℕ → PidState → Type 0
PidsSafe pids s =
    (s.next_safe ≤ max_pid) × ((x : ℕ) → 1 ≤ count x pids → (x ≤ s.last_pid) ⊎ (s.next_safe ≤ x))

abbrev pub GivesFresh : ℕ → List ℕ → PidState → Type 0
GivesFresh fuel pids s =
    (pid : ℕ) × (s' : PidState) × (get_pid fuel pids s ≡ some (pid, s'))
    × (1 ≤ pid)
    × (pid < max_pid)
    × (count pid pids ≡ 0)
    × PidsSafe (pid ∷ pids) s'

fresh :
    (pids : List ℕ) (s : PidState)
    → Walking s
    → ((x : ℕ) → 1 ≤ count x pids → Apart s x)
    → (count s.last_pid pids ≡ 0) × PidsSafe (s.last_pid ∷ pids) s
fresh pids s w apart = (
  elim (Bool-cases (leb 1 (count s.last_pid pids))) [
    | inl used ↦ elim (apart s.last_pid (ground (arith, used))) [
      | inl lt ↦ absurd (omega (arith, lt))
      | inr ge ↦ absurd (omega (arith, w, ge))
    ]
    | inr unused ↦ ground (arith, unused)
  ],
  (
    omega (arith, w),
    λ x h. elim (counted x s.last_pid pids h) [
      | inl same ↦ inl (omega (arith, same))
      | inr more ↦ elim (apart x more) [ inl lt ↦ inl (omega (arith, lt)) | inr ge ↦ inr ge ]
    ],
  ),
)

from_inside-fresh :
    (f : ℕ) (pids : List ℕ) (last : ℕ)
    → 1 ≤ f
    → f < max_pid
    → count f pids ≡ 0
    → 1 ≤ last
    → last < max_pid
    → (pid : ℕ) × (s' : PidState) × (from_inside max_pid pids last ≡ some (pid, s'))
      × (1 ≤ pid)
      × (pid < max_pid)
      × (count pid pids ≡ 0)
      × PidsSafe (pid ∷ pids) s'
unfolding from_inside
from_inside-fresh f pids last low high free one lt =
    let s : PidState = record { next_safe = max_pid; last_pid = last } in
    let (s', run, w, apart) =
      walks-Apart f max_pid pids s low high free (one, lt, omega arith)
        (ground (arith, low, high, one, lt)) in
    let (unused, safe) = fresh pids s' w apart in
    (s'.last_pid, s', rw run refl, w.0, omega (arith, w), unused, safe)

-- How many times the identifiers 1 to `n` are in use.
abbrev uses : ℕ → List ℕ → ℕ
uses zero pids = 0
uses (suc n) pids = count (suc n) pids + uses n pids

uses-cons :
    (n pid : ℕ) (pids : List ℕ)
    → uses n (pid ∷ pids) ≡ (if leb 1 pid && leb pid n then suc (uses n pids) else uses n pids)
uses-cons zero pid pids = ground arith
uses-cons (suc n) pid pids = ground (arith, uses-cons n pid pids)

uses-nil : (n : ℕ) → uses n [] ≡ 0
uses-nil zero = refl
uses-nil (suc n) = omega (arith, uses-nil n)

uses-length : (n : ℕ) (pids : List ℕ) → uses n pids ≤ length pids
uses-length n [] = omega (arith, uses-nil n)
uses-length n (pid ∷ pids) = ground (arith, uses-cons n pid pids, uses-length n pids)

-- A free identifier from 1 to `n`, or as many uses as identifiers.
free_or_full :
    (n : ℕ) (pids : List ℕ) → ((f : ℕ) × (1 ≤ f) × (f ≤ n) × (count f pids ≡ 0)) ⊎ (n ≤ uses n pids)
free_or_full zero pids = inr (omega arith)
free_or_full (suc n) pids = elim (free_or_full n pids) [
  | inl (f, low, le, free) ↦ inl (f, low, omega (arith, le), free)
  | inr full ↦ elim (Bool-cases (count (suc n) pids == 0)) [
    | inl none_used ↦ inl (suc n, omega arith, omega arith, ground (arith, none_used))
    | inr used ↦ inr (ground (arith, used, full))
  ]
]

some_free :
    (n : ℕ) (pids : List ℕ) → length pids < n → (f : ℕ) × (1 ≤ f) × (f ≤ n) × (count f pids ≡ 0)
some_free n pids few = elim (free_or_full n pids) [
  | inl free ↦ free
  | inr full ↦ absurd (omega (arith, few, full, uses-length n pids))
]

free-GivesFresh :
    (f : ℕ) (pids : List ℕ) (s : PidState)
    → 1 ≤ f
    → f < max_pid
    → count f pids ≡ 0
    → PidsSafe pids s
    → GivesFresh max_pid pids s
unfolding get_pid
free-GivesFresh f pids s low high free safe = elim (Bool-cases (leb max_pid (s.last_pid + 1))) [
  | inl wrap ↦ rw wrap (from_inside-fresh f pids 1 low high free (omega arith) (omega arith))
  | inr below ↦ elim (Bool-cases (leb s.next_safe (s.last_pid + 1))) [
    | inl again ↦
        rw (below, again)
          (from_inside-fresh f pids (s.last_pid + 1) low high free (omega arith)
            (ground (arith, below)))
    | inr quick ↦
        let s' : PidState = record s { last_pid = s.last_pid + 1 } in
        let w : Walking s' = (omega arith, ground (arith, quick), safe.0) in
        let apart : (x : ℕ) → 1 ≤ count x pids → Apart s' x =
          λ x h. elim (safe.1 x h) [ inl le ↦ inl (omega (arith, le)) | inr ge ↦ inr ge ] in
        let (unused, safe') = fresh pids s' w apart in
        rw (below, quick) (s.last_pid + 1, s', refl, w.0, ground (arith, below), unused, safe')
  ]
]

-- With at most `MAX_PROCESS` processes, and no identifier in use between `last_pid` and `next_safe`, `get_pid` ends
-- within `MAX_PID` walks over the list of processes and returns an identifier that no process has, above 0 and below
-- `MAX_PID`. With that one in use as well, no identifier in use lies between the new `last_pid` and `next_safe`.
pub get_pid-GivesFresh :
    (pids : List ℕ) (s : PidState)
    → length pids ≤ max_process
    → PidsSafe pids s
    → GivesFresh max_pid pids s
get_pid-GivesFresh pids s few safe =
    let (f, low, le, free) = some_free (max_process + 1) pids (omega (arith, few)) in
    free-GivesFresh f pids s low (omega (arith, le)) free safe
