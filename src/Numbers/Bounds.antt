-- ===== src/Numbers/Bounds.antt =====
-- The ranges that the comments in libs/hash.c and libs/rand.c promise.
use native.Mathlib.Nat.{div-lt_iff_lt-mul, pow-suc}
use nku_os.Prelude.{ℕ, zero, suc, ◌+◌, ◌-◌, ◌*◌, ◌%◌, ◌^◌, ◌≤◌, ◌<◌, ◌≡◌, sym, ap, ◌∙◌, arith}
use nku_os.Numbers.{hash32, rand}

pow_add : (a b : ℕ) → 2 ^ (a + b) ≡ 2 ^ a * 2 ^ b
pow_add a zero = let e : a + 0 ≡ a = omega arith in rw e (omega arith)
pow_add a (suc b) =
    let e : a + suc b ≡ suc (a + b) = omega arith in
    rw e (omega (arith, pow-suc 2 (a + b), ap (λ (t : ℕ). 2 ^ a * t) (pow-suc 2 b), pow_add a b))

pow_positive : (n : ℕ) → 0 < 2 ^ n
pow_positive zero = omega arith
pow_positive (suc n) = omega (arith, pow_positive n, pow-suc 2 n)

-- A hash of 1 to 32 bits is below `2 ^ bits`, and a random number is at most `RAND_MAX`, with a new state of 48 bits.
pub hash32-rand :
    (val bits next : ℕ)
    → 1 ≤ bits
    → bits ≤ 32
    → (hash32 val bits < 2 ^ bits) × ((rand next).0 ≤ 2147483647) × ((rand next).1 < 2 ^ 48)
unfolding hash32 rand
hash32-rand val bits next lo hi =
    let all : bits + (32 - bits) ≡ 32 = omega (arith, hi) in
    let whole : 2 ^ bits * 2 ^ (32 - bits) ≡ 2 ^ 32 =
      sym (pow_add bits (32 - bits)) ∙ ap (λ n. 2 ^ n) all in
    let small : val * 0x9e370001 % 2 ^ 32 < 2 ^ bits * 2 ^ (32 - bits) = rw whole (omega arith) in
    ((div-lt_iff_lt-mul (pow_positive (32 - bits))).1 small, omega arith, omega arith)
