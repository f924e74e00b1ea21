-- ===== src/Numbers.antt =====
-- Numbers as text, hashes and random numbers: `printnum` (libs/printfmt.c), `strtol` (libs/string.c),
-- libs/hash.c and libs/rand.c.
pub mod Print
pub mod RoundTrip
pub mod Bounds
mod Tests
use nku_os.Prelude.{
  ℕ, zero, suc, ◌+◌, ◌-◌, ◌*◌, ◌/◌, ◌%◌, ◌^◌, Bool, true, false, not, ◌&&◌, ◌||◌, Option, none,
  some, List, [], ◌∷◌, ◌++◌, ltb, leb, ◌==◌, if◌then◌else◌,
}
use nku_os.Prelude.Partial.{◌>>=◌}
use nku_os.Strings.{Memory}

-- `"0123456789abcdef"[mod]`
abbrev pub digit_char : ℕ → ℕ
digit_char d = if ltb d 10 then b'0' + d else b'a' + (d - 10)

abbrev pub pads : ℕ → (padc : ℕ) → List ℕ
pads zero padc = []
pads (suc n) padc = padc ∷ pads n padc

-- What the calls of `putch` write, in order. A width that is not positive is 0 here: like 1, it asks for no padding.
unfoldable pub printnum : ℕ → (num base width padc : ℕ) → Option (List ℕ)
printnum zero num base width padc = none
printnum (suc fuel) num base width padc =
    let before = printnum fuel (num / base) base (width - 1) padc in
    do
      out ← if leb base num then before else some (pads (width - 1) padc)
      some (out ++ digit_char (num % base) ∷ [])

-- The loop over initial blanks; where it ends.
unfoldable pub gobble : ℕ → (s : ℕ) → Memory → Option ℕ
gobble zero s m = none
gobble (suc fuel) s m =
    let later = gobble fuel (s + 1) m in if m s == b' ' || m s == 9 then later else some s

abbrev pub between : (lo c hi : ℕ) → Bool
between lo c hi = leb lo c && leb c hi

-- `dig`, where the character is a digit in some base.
abbrev pub digit : ℕ → Option ℕ
digit c =
    if between b'0' c b'9'
    then some (c - b'0')
    else if between b'a' c b'z'
    then some (c - b'a' + 10)
    else if between b'A' c b'Z'
    then some (c - b'A' + 10)
    else none

-- The digit of the base, if the character is one.
abbrev pub digit_below : Option ℕ → (base : ℕ) → Option ℕ
digit_below none base = none
digit_below (some dig) base = if leb base dig then none else some dig

abbrev pub next_digit : Option ℕ → (base s val : ℕ) → (ℕ → Option (ℕ × ℕ)) → Option (ℕ × ℕ)
next_digit none base s val later = some (val, s)
next_digit (some dig) base s val later = later ((val * base + dig) % 2 ^ 64)

-- The loop over the digits: the value, a 64-bit pattern, and where it ends.
unfoldable pub strtol_digits : ℕ → (base s val : ℕ) → Memory → Option (ℕ × ℕ)
strtol_digits zero base s val m = none
strtol_digits (suc fuel) base s val m =
    next_digit (digit_below (digit (m s)) base) base s val
      (λ v. strtol_digits fuel base (s + 1) v m)

-- The sign, if there is one, and where the rest begins.
abbrev pub sign : (s : ℕ) → Memory → Bool × ℕ
sign s m = if m s == b'+' then (false, s + 1) else if m s == b'-' then (true, s + 1) else (false, s)

-- The base, which a prefix may tell, and where the digits begin.
abbrev pub prefix : (base s : ℕ) → Memory → ℕ × ℕ
prefix base s m =
    if (base == 0 || base == 16) && (m s == b'0' && m (s + 1) == b'x')
    then (16, s + 2)
    else if base == 0 && m s == b'0'
    then (8, s + 1)
    else if base == 0
    then (10, s)
    else (base, s)

abbrev pub negated : Bool → ℕ → ℕ
negated neg val = if neg then (2 ^ 64 - val) % 2 ^ 64 else val

-- The result, a 64-bit pattern, and what goes to `endptr`.
unfoldable pub strtol : ℕ → (s base : ℕ) → Memory → Option (ℕ × ℕ)
unfolding gobble strtol_digits
strtol fuel s base m = do
  s1 ← gobble fuel s m
  let (neg, s2) = sign s1 m
  let (b, s3) = prefix base s2 m
  (val, endptr) ← strtol_digits fuel b s3 0 m
  some (negated neg val, endptr)

unfoldable pub hash32 : (val bits : ℕ) → ℕ
hash32 val bits = (val * 0x9e370001) % 2 ^ 32 / 2 ^ (32 - bits)

-- The result and the new `next`; the product wraps around before its low 48 bits are taken.
unfoldable pub rand : (next : ℕ) → ℕ × ℕ
rand next =
    let next' = (next * 0x5DEECE66D + 0xB) % 2 ^ 64 % 2 ^ 48 in
    (next' / 2 ^ 12 % (2147483647 + 1), next')

unfoldable pub srand : (seed : ℕ) → ℕ
srand seed = seed
