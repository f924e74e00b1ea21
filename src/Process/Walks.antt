-- ===== src/Process/Walks.antt =====
-- The walks of `get_pid` over the list of processes come to an end.
use nku_os.Prelude.{
  ℕ, zero, suc, ◌+◌, ◌-◌, ◌≤◌, ◌<◌, ◌≡◌, ◌≢◌, refl, Bool, true, false, some, List, [], ◌∷◌, leb,
  if◌then◌else◌, arith, count, Bool-cases, ◌⊎◌, inl, inr,
}
use nku_os.Process.{max_pid, PidState, repeats, visit, walk, walks}

-- An identifier is neither the last one given out nor one that would be given out without a walk.
abbrev pub Apart : PidState → ℕ → Type 0
Apart s x = (x < s.last_pid) ⊎ (s.next_safe ≤ x)

abbrev pub Walking : PidState → Type 0
Walking s = (1 ≤ s.last_pid) × (s.last_pid < s.next_safe) × (s.next_safe ≤ max_pid)

-- How many identifiers away `f` is from `last`, going up and around.
abbrev pub distance : (f last : ℕ) → ℕ
distance f last = if leb last f then f - last else f + max_pid - last

visit-again :
    (f pid : ℕ) (s : PidState)
    → 1 ≤ f
    → f < max_pid
    → f ≢ pid
    → Walking s
    → repeats pid s ≡ true
    → Walking (visit pid s) × (distance f (visit pid s).last_pid < distance f s.last_pid)
visit-again f pid s low high ne w r = (ground (arith, w, r), ground (arith, low, high, ne, w, r))

visit-on :
    (f pid : ℕ) (s : PidState)
    → 1 ≤ f
    → f < max_pid
    → f ≢ pid
    → Walking s
    → repeats pid s ≡ false
    → Walking (visit pid s)
      × (distance f (visit pid s).last_pid ≤ distance f s.last_pid)
      × Apart (visit pid s) pid
      × ((x : ℕ) → Apart s x → Apart (visit pid s) x)
visit-on f pid s low high ne w r = (
  ground (arith, w, r),
  ground (arith, low, high, ne, w, r),
  ground (arith, w, r),
  λ x a. ground (arith, w, r, a),
)

-- What a walk over `pids` came to: it starts again, nearer to the free `f`, or it has seen that all are apart.
abbrev Walked : (f : ℕ) → List ℕ → (s : PidState) → Bool × PidState → Type 0
Walked f pids s r =
    Walking r.1
    × (((r.0 ≡ true) × (distance f r.1.last_pid < distance f s.last_pid))
        ⊎ ((r.0 ≡ false)
            × ((x : ℕ) → 1 ≤ count x pids → Apart r.1 x)
            × ((x : ℕ) → Apart s x → Apart r.1 x)))

uncounted : (f pid : ℕ) (pids : List ℕ) → count f (pid ∷ pids) ≡ 0 → f ≢ pid
uncounted f pid pids h e = ground (arith, h, e)

counted_rest : (f pid : ℕ) (pids : List ℕ) → count f (pid ∷ pids) ≡ 0 → count f pids ≡ 0
counted_rest f pid pids h = ground (arith, h)

pub counted :
    (x pid : ℕ) (pids : List ℕ) → 1 ≤ count x (pid ∷ pids) → (x ≡ pid) ⊎ (1 ≤ count x pids)
counted x pid pids h = ground (arith, h)

walk-Walked :
    (f : ℕ) (pids : List ℕ) (s : PidState)
    → 1 ≤ f
    → f < max_pid
    → count f pids ≡ 0
    → Walking s
    → Walked f pids s (walk pids s)
unfolding walk
walk-Walked f [] s low high free w = (w, inr (refl, λ x h. absurd (omega (arith, h)), λ x a. a))
walk-Walked f (pid ∷ pids) s low high free w =
    let ne = uncounted f pid pids free in
    elim (Bool-cases (repeats pid s)) [
      | inl again ↦
          let (w', nearer) = visit-again f pid s low high ne w again in
          rw again (w', inl (refl, nearer))
      | inr on ↦
          let (w', near, this, keep) = visit-on f pid s low high ne w on in
          let (w'', rest) =
            walk-Walked f pids (visit pid s) low high (counted_rest f pid pids free) w' in
          rw on (
            w'',
            elim rest [
              | inl (again, nearer) ↦ inl (again, omega (arith, near, nearer))
              | inr (done, apart, kept) ↦ inr (
                done,
                λ x h. elim (counted x pid pids h) [
                  | inl same ↦ kept x (rw same this)
                  | inr more ↦ apart x more
                ],
                λ x a. kept x (keep x a),
              )
            ],
          )
    ]

pub walks-Apart :
    (f fuel : ℕ) (pids : List ℕ) (s : PidState)
    → 1 ≤ f
    → f < max_pid
    → count f pids ≡ 0
    → Walking s
    → distance f s.last_pid < fuel
    → (s' : PidState) × (walks fuel pids s ≡ some s')
      × Walking s'
      × ((x : ℕ) → 1 ≤ count x pids → Apart s' x)
unfolding walks
walks-Apart f zero pids s low high free w lt = absurd (omega (arith, lt))
walks-Apart f (suc fuel) pids s low high free w lt =
    let (w', end) = walk-Walked f pids s low high free w in
    elim end [
      | inl (again, nearer) ↦
          let (s', run, w'', apart) =
            walks-Apart f fuel pids (walk pids s).1 low high free w' (omega (arith, lt, nearer)) in
          (s', rw again run, w'', apart)
      | inr (done, apart, kept) ↦ ((walk pids s).1, rw done refl, w', apart)
    ]
