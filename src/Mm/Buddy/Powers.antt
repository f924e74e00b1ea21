-- ===== src/Mm/Buddy/Powers.antt =====
-- The powers of two that the buddy manager computes.
use native.Mathlib.Nat.{mul-le-mul_left, mul_assoc, pow-suc}
use nku_os.Prelude.{
  ℕ, zero, suc, ◌+◌, ◌*◌, ◌/◌, ◌%◌, ◌^◌, ◌≤◌, ◌<◌, ◌≡◌, ◌∙◌, ◌⊎◌, refl, ap, true, some, ltb, ◌==◌,
  Bool-cases, inl, inr, arith,
}
use nku_os.Prelude.Partial.{if_true}
use nku_os.Mm.Buddy.{log2_from, log2, floor_pow2_from, floor_pow2, ceil_pow2}

-- `2 ^ k` is the greatest power of two up to `n`.
abbrev pub IsLog : (n k : ℕ) → Type 0
IsLog n k = (2 ^ k ≤ n) × (n < 2 * 2 ^ k)

floor_step :
    (fuel n ret k : ℕ)
    → ltb 1 n ≡ true
    → ret * 2 % 2 ^ 64 ≡ ret * 2
    → floor_pow2_from fuel (n / 2) (ret * 2) ≡ some (ret * 2 * 2 ^ k)
    → floor_pow2_from (suc fuel) n ret ≡ some (ret * 2 ^ suc k)
unfolding floor_pow2_from
floor_step fuel n ret k more whole run =
    let next : 2 * 2 ^ k ≡ 2 ^ suc k = omega (arith, pow-suc 2 k) in
    let value : ret * 2 * 2 ^ k ≡ ret * 2 ^ suc k =
      mul_assoc ret 2 (2 ^ k) ∙ ap (λ (t : ℕ). ret * t) next in
    if_true (ltb 1 n) _ (some ret) more
    ∙ (ap (floor_pow2_from fuel (n / 2)) whole ∙ (run ∙ ap some value))

log_step :
    (fuel n order k : ℕ)
    → ltb 1 n ≡ true
    → log2_from fuel (n / 2) (order + 1) ≡ some (order + 1 + k)
    → log2_from (suc fuel) n order ≡ some (order + suc k)
unfolding log2_from
log_step fuel n order k more run =
    let place : order + 1 + k ≡ order + suc k = omega arith in
    if_true (ltb 1 n) _ (some order) more ∙ (run ∙ ap some place)

loops :
    (fuel n ret order : ℕ)
    → 0 < n
    → n < fuel
    → ret * n < 2 ^ 64
    → (k : ℕ) × IsLog n k
      × (floor_pow2_from fuel n ret ≡ some (ret * 2 ^ k))
      × (log2_from fuel n order ≡ some (order + k))
unfolding floor_pow2_from log2_from
loops zero n ret order pos enough small = absurd (omega (arith, enough))
loops (suc fuel) n ret order pos enough small = elim (Bool-cases (ltb 1 n)) [
  | inl more ↦
      let two : 2 ≤ n = ground (arith, more) in
      let half : ret * (2 * (n / 2)) ≤ ret * n =
        mul-le-mul_left {m = 2 * (n / 2)} {n = n} ret (omega arith) in
      let twice : ret * 2 ≤ ret * n = mul-le-mul_left {m = 2} {n = n} ret two in
      let whole : ret * 2 % 2 ^ 64 ≡ ret * 2 = omega (arith, twice, small) in
      let same : ret * 2 * (n / 2) ≡ ret * (2 * (n / 2)) = mul_assoc ret 2 (n / 2) in
      let (k, (lo, hi), run, run') =
        loops fuel (n / 2) (ret * 2) (order + 1) (omega (arith, two)) (omega (arith, two, enough))
          (omega (arith, same, half, small)) in
      (
        suc k,
        (omega (arith, lo, pow-suc 2 k), omega (arith, hi, pow-suc 2 k)),
        floor_step fuel n ret k more whole run,
        log_step fuel n order k more run',
      )
  | inr one ↦
      let e : ret * 1 ≡ ret = omega arith in
      let p : order + 0 ≡ order = omega arith in
      (0, (ground (arith, pos), ground (arith, one)), rw (one, e) refl, rw (one, p) refl)
]

-- `floor_pow2` of a positive size is the greatest power of two up to it, `log2` its exponent, and `ceil_pow2` the least power
-- of two that is not less; all three end after as many rounds as the size has, and below 2^63 none overflows.
pub pow2_lem :
    (n : ℕ)
    → 0 < n
    → n < 2 ^ 63
    → (k : ℕ) × (floor_pow2 (suc n) n ≡ some (2 ^ k))
      × (log2 (suc n) n ≡ some k)
      × IsLog n k
      × (c : ℕ) × (ceil_pow2 (suc n) n ≡ some c)
      × (n ≤ c)
      × (c < 2 * n)
      × ((c ≡ 2 ^ k) ⊎ (c ≡ 2 ^ suc k))
unfolding floor_pow2 log2 ceil_pow2
pow2_lem n pos small =
    let (k, (lo, hi), run, run') = loops (suc n) n 1 0 pos (omega arith) (omega (arith, small)) in
    let one : 1 * 2 ^ k ≡ 2 ^ k = omega arith in
    let place : 0 + k ≡ k = omega arith in
    let floor : floor_pow2 (suc n) n ≡ some (2 ^ k) = run ∙ ap some one in
    let power : 2 ^ suc k ≡ 2 ^ k * 2 = pow-suc 2 k in
    elim (Bool-cases (n == 2 ^ k)) [
      | inl exact ↦ (
        k,
        floor,
        run' ∙ ap some place,
        (lo, hi),
        2 ^ k,
        rw (floor, exact) refl,
        ground (arith, exact),
        omega (arith, lo, pos),
        inl refl,
      )
      | inr above ↦
          let whole : 2 ^ k * 2 % 2 ^ 64 ≡ 2 ^ suc k = omega (arith, power, lo, small) in
          (
            k,
            floor,
            run' ∙ ap some place,
            (lo, hi),
            2 ^ suc k,
            rw (floor, above, whole) refl,
            omega (arith, power, hi),
            ground (arith, power, lo, above),
            inr refl,
          )
    ]
