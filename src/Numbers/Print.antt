-- ===== src/Numbers/Print.antt =====
-- What `printnum` prints.
use native.Mathlib.Nat.{mod-eq-sub-div-mul, div-mul-le_self, mod-lt, mod-eq_of_lt, div-lt_self}
use nku_os.Prelude.{
  ℕ, zero, suc, ◌+◌, ◌-◌, ◌*◌, ◌/◌, ◌%◌, ◌^◌, ◌≤◌, ◌<◌, ◌≡◌, ◌∙◌, refl, sym, ap, true, Option, none,
  some, List, [], ◌∷◌, ◌++◌, leb, Bool-cases, inl, inr, arith, map, append_assoc,
}
use nku_os.Numbers.{digit_char, pads, printnum}

-- The value of digits, as a 64-bit pattern.
abbrev pub value : (base val : ℕ) → List ℕ → ℕ
value base val [] = val
value base val (d ∷ ds) = value base ((val * base + d) % 2 ^ 64) ds

abbrev pub AllBelow : ℕ → List ℕ → Type 0
AllBelow base [] = Unit {0}
AllBelow base (d ∷ ds) = (d < base) × AllBelow base ds

value-snoc :
    (base val : ℕ) (ds : List ℕ) (d : ℕ)
    → value base val (ds ++ d ∷ []) ≡ (value base val ds * base + d) % 2 ^ 64
value-snoc base val [] d = refl
value-snoc base val (e ∷ ds) d = value-snoc base ((val * base + e) % 2 ^ 64) ds d

AllBelow-snoc :
    (base : ℕ) (ds : List ℕ) (d : ℕ) → AllBelow base ds → d < base → AllBelow base (ds ++ d ∷ [])
AllBelow-snoc base [] d h lt = (lt, tt)
AllBelow-snoc base (e ∷ ds) d h lt = (h.0, AllBelow-snoc base ds d h.1 lt)

map-snoc :
    (ds : List ℕ) (d : ℕ) → map digit_char (ds ++ d ∷ []) ≡ map digit_char ds ++ digit_char d ∷ []
map-snoc [] d = refl
map-snoc (e ∷ ds) d = ap (λ xs. digit_char e ∷ xs) (map-snoc ds d)

-- Blanks and then the digits of the number, at least one.
abbrev pub Prints : (num base padc : ℕ) → Option (List ℕ) → Type 0
Prints num base padc r =
    (n : ℕ) × (d : ℕ) × (ds : List ℕ) × (r ≡ some (pads n padc ++ map digit_char (d ∷ ds)))
    × AllBelow base (d ∷ ds)
    × (value base 0 (d ∷ ds) ≡ num)

last_digit : (num base : ℕ) → num < 2 ^ 64 → (num / base * base + num % base) % 2 ^ 64 ≡ num
last_digit num base small = omega (arith, mod-eq-sub-div-mul num base, div-mul-le_self num base)

append_last :
    (n padc d : ℕ) (ds : List ℕ) (e : ℕ)
    → (pads n padc ++ map digit_char (d ∷ ds)) ++ digit_char e ∷ []
      ≡ pads n padc ++ map digit_char (d ∷ ds ++ e ∷ [])
append_last n padc d ds e =
    append_assoc (pads n padc) (map digit_char (d ∷ ds)) (digit_char e ∷ [])
    ∙ ap (λ xs. pads n padc ++ digit_char d ∷ xs) (sym (map-snoc ds e))

pub printnum-Prints :
    (fuel num base width padc : ℕ)
    → num < 2 ^ 64
    → 2 ≤ base
    → num < fuel
    → Prints num base padc (printnum fuel num base width padc)
unfolding printnum
printnum-Prints zero num base width padc small two enough = absurd (omega (arith, enough))
printnum-Prints (suc fuel) num base width padc small two enough = elim (Bool-cases (leb base num)) [
  | inl more ↦
      let less =
        div-lt_self {n = num} {k = base} (ground (arith, more, two)) (omega (arith, two)) in
      let (n, d, ds, run, below, v) =
        printnum-Prints fuel (num / base) base (width - 1) padc (omega (arith, less, small)) two
          (omega (arith, less, enough)) in
      (
        n,
        d,
        ds ++ num % base ∷ [],
        rw (more, run) (ap some (append_last n padc d ds (num % base))),
        AllBelow-snoc base (d ∷ ds) (num % base) below (mod-lt num (omega (arith, two))),
        value-snoc base 0 (d ∷ ds) (num % base) ∙ (rw v (last_digit num base small)),
      )
  | inr one ↦
      let small_num : num % base ≡ num = mod-eq_of_lt (ground (arith, one)) in
      let single : (0 * base + num % base) % 2 ^ 64 ≡ num = omega (arith, small_num, small) in
      (width - 1, num % base, [], rw one refl, (mod-lt num (omega (arith, two)), tt), single)
]

-- In base 1, which the comment on `printnum` allows, the recursion never ends for a number that is not 0: the
-- quotient by 1 is the number.
pub printnum-base_one : (fuel num width padc : ℕ) → 1 ≤ num → printnum fuel num 1 width padc ≡ none
unfolding printnum
printnum-base_one zero num width padc pos = refl
printnum-base_one (suc fuel) num width padc pos =
    let same : num / 1 ≡ num = omega arith in
    let more : leb 1 num ≡ true = ground (arith, pos) in
    rw (more, same, printnum-base_one fuel num (width - 1) padc pos) refl
