-- ===== src/Numbers/RoundTrip.antt =====
-- A number that `printnum` prints is what `strtol` reads.
use mathlib.Core.Path.{subst}
use nku_os.Prelude.{
  ℕ, zero, suc, ◌+◌, ◌*◌, ◌%◌, ◌^◌, ◌≤◌, ◌<◌, ◌≡◌, refl, sym, Bool, true, false, ◌&&◌, ◌||◌, Option,
  some, List, [], ◌∷◌, ◌++◌, ◌==◌, arith, map, length, length-append, update, append_assoc,
}
use nku_os.Prelude.Partial.{◌>>=◌}
use nku_os.Strings.{Memory}
use nku_os.Numbers.{
  digit_char, pads, printnum, gobble, digit, digit_below, strtol_digits, sign, prefix, strtol,
}
use nku_os.Numbers.Print.{value, AllBelow, printnum-Prints}

-- The memory holds these bytes from `s` on.
abbrev pub Text : Memory → (s : ℕ) → List ℕ → Type 0
Text m s [] = Unit {0}
Text m s (c ∷ cs) = (m s ≡ c) × Text m (s + 1) cs

abbrev pub store : (s : ℕ) → List ℕ → Memory → Memory
store s [] m = m
store s (c ∷ cs) m = store (s + 1) cs (update m s c)

store_below : (s a : ℕ) (cs : List ℕ) (m : Memory) → a < s → store s cs m a ≡ m a
store_below s a [] m lt = refl
store_below s a (c ∷ cs) m lt = ground (arith, lt, store_below (s + 1) a cs (update m s c))

store-Text : (s : ℕ) (cs : List ℕ) (m : Memory) → Text (store s cs m) s cs
store-Text s [] m = tt
store-Text s (c ∷ cs) m =
    (ground (arith, store_below (s + 1) s cs (update m s c)), store-Text (s + 1) cs (update m s c))

digit-digit_char :
    (d base : ℕ) → d < base → base ≤ 16 → digit_below (digit (digit_char d)) base ≡ some d
digit-digit_char d base lt le = ground (arith, lt, le)

strtol_digits-value :
    (fuel base s val : ℕ) (m : Memory) (ds : List ℕ)
    → base ≤ 16
    → AllBelow base ds
    → Text m s (map digit_char ds ++ 0 ∷ [])
    → length ds < fuel
    → strtol_digits fuel base s val m ≡ some (value base val ds, s + length ds)
unfolding strtol_digits
strtol_digits-value zero base s val m ds le h t enough = absurd (omega (arith, enough))
strtol_digits-value (suc fuel) base s val m [] le h t enough =
    let e : s + 0 ≡ s = omega arith in rw (t.0, e) refl
strtol_digits-value (suc fuel) base s val m (d ∷ ds) le h t enough =
    let e : s + 1 + length ds ≡ s + suc (length ds) = omega arith in
    rw (t.0, digit-digit_char d base h.0 le, sym e)
      (strtol_digits-value fuel base (s + 1) ((val * base + d) % 2 ^ 64) m ds le h.1 t.1
        (omega (arith, enough)))

-- No digit is a blank or a sign.
digit_char-plain :
    (d : ℕ)
    → d < 16
    → ((digit_char d == b' ' || digit_char d == 9) ≡ false)
      × ((digit_char d == b'+') ≡ false)
      × ((digit_char d == b'-') ≡ false)
      × ((digit_char d == b'x') ≡ false)
digit_char-plain d lt =
    (ground (arith, lt), ground (arith, lt), ground (arith, lt), ground (arith, lt))

gobble-pads :
    (fuel n d s : ℕ) (cs : List ℕ) (m : Memory)
    → d < 16
    → Text m s (pads n b' ' ++ digit_char d ∷ cs)
    → n < fuel
    → (gobble fuel s m ≡ some (s + n)) × Text m (s + n) (digit_char d ∷ cs)
unfolding gobble
gobble-pads zero n d s cs m lt t enough = absurd (omega (arith, enough))
gobble-pads (suc fuel) zero d s cs m lt t enough =
    let e : s + 0 ≡ s = omega arith in rw (t.0, (digit_char-plain d lt).0, e) (refl, t)
gobble-pads (suc fuel) (suc n) d s cs m lt t enough =
    let e : s + 1 + n ≡ s + suc n = omega arith in
    rw (t.0, sym e) (gobble-pads fuel n d (s + 1) cs m lt t.1 (omega (arith, enough)))

no_sign :
    (s d : ℕ) (cs : List ℕ) (m : Memory)
    → d < 16
    → Text m s (digit_char d ∷ cs)
    → sign s m ≡ (false, s)
no_sign s d cs m lt t = let p = digit_char-plain d lt in rw (t.0, p.1, p.2) refl

and_false : (a b : Bool) → (a && (b && false)) ≡ false
and_false true true = refl
and_false true false = refl
and_false false b = refl

no_prefix_unless :
    (base s : ℕ) (m : Memory)
    → (base == 0) ≡ false
    → (m (s + 1) == b'x') ≡ false
    → prefix base s m ≡ (base, s)
no_prefix_unless base s m z x = rw (z, x, and_false (base == 16) (m s == b'0')) refl

no_prefix :
    (base s d : ℕ) (ds : List ℕ) (m : Memory)
    → 2 ≤ base
    → base ≤ 16
    → AllBelow base ds
    → Text m s (digit_char d ∷ (map digit_char ds ++ 0 ∷ []))
    → prefix base s m ≡ (base, s)
no_prefix base s d [] m two le h t =
    let z : (base == 0) ≡ false = ground (arith, two) in
    let x : (m (s + 1) == b'x') ≡ false = ground (arith, t.1.0) in no_prefix_unless base s m z x
no_prefix base s d (e ∷ ds) m two le h t =
    let z : (base == 0) ≡ false = ground (arith, two) in
    let x : (m (s + 1) == b'x') ≡ false =
      rw t.1.0 (digit_char-plain e (omega (arith, h.0, le))).3 in
    no_prefix_unless base s m z x

strtol-pads :
    (fuel base n d s : ℕ) (ds : List ℕ) (m : Memory)
    → 2 ≤ base
    → base ≤ 16
    → AllBelow base (d ∷ ds)
    → Text m s (pads n b' ' ++ digit_char d ∷ (map digit_char ds ++ 0 ∷ []))
    → n < fuel
    → length (d ∷ ds) < fuel
    → strtol fuel s base m ≡ some (value base 0 (d ∷ ds), s + n + length (d ∷ ds))
unfolding strtol
strtol-pads fuel base n d s ds m two le h t few_pads few =
    let (run, t1) =
      gobble-pads fuel n d s (map digit_char ds ++ 0 ∷ []) m (omega (arith, h.0, le)) t few_pads in
    let plus = no_sign (s + n) d (map digit_char ds ++ 0 ∷ []) m (omega (arith, h.0, le)) t1 in
    let pre = no_prefix base (s + n) d ds m two le h.1 t1 in
    let digs = strtol_digits-value fuel base (s + n) 0 m (d ∷ ds) le h t1 few in
    rw (run, plus, pre, digs) refl

-- What `printnum` writes, put into memory as a string, and read by `strtol`: the value.
unfoldable pub read_back : (s base width num : ℕ) → Memory → Option ℕ
unfolding printnum strtol
read_back s base width num m = do
  out ← printnum (suc num) num base width b' '
  (val, endptr) ← strtol (suc (length out)) s base (store s (out ++ 0 ∷ []) m)
  some val

length-pads : (n c : ℕ) → length (pads n c) ≡ n
length-pads zero c = refl
length-pads (suc n) c = omega (arith, length-pads n c)

length-digits : (ds : List ℕ) → length (map digit_char ds) ≡ length ds
length-digits [] = refl
length-digits (d ∷ ds) = omega (arith, length-digits ds)

read_printed :
    (s base width num n d : ℕ) (ds : List ℕ) (m : Memory)
    → 2 ≤ base
    → base ≤ 16
    → AllBelow base (d ∷ ds)
    → printnum (suc num) num base width b' ' ≡ some (pads n b' ' ++ map digit_char (d ∷ ds))
    → value base 0 (d ∷ ds) ≡ num
    → read_back s base width num m ≡ some num
unfolding read_back
read_printed s base width num n d ds m two le below run v =
    let out = pads n b' ' ++ map digit_char (d ∷ ds) in
    let size : length out ≡ n + length (d ∷ ds) = omega (
      arith,
      length-append (pads n b' ') (map digit_char (d ∷ ds)),
      length-pads n b' ',
      length-digits (d ∷ ds),
    ) in
    let t : Text (store s (out ++ 0 ∷ []) m) s
        (pads n b' ' ++ digit_char d ∷ (map digit_char ds ++ 0 ∷ [])) =
      subst (λ cs. Text (store s (out ++ 0 ∷ []) m) s cs)
        (append_assoc (pads n b' ') (map digit_char (d ∷ ds)) (0 ∷ []))
        (store-Text s (out ++ 0 ∷ []) m) in
    let read =
      strtol-pads (suc (length out)) base n d s ds (store s (out ++ 0 ∷ []) m) two le below t
        (omega (arith, size)) (omega (arith, size)) in
    rw (run, read, v) refl

-- `strtol` reads back every 64-bit number that `printnum` prints in a base from 2 to 16, padded with
-- blanks to any width, in that base; both end within the rounds given.
pub strtol-printnum :
    (s base width num : ℕ) (m : Memory)
    → num < 2 ^ 64
    → 2 ≤ base
    → base ≤ 16
    → read_back s base width num m ≡ some num
strtol-printnum s base width num m small two le =
    let (n, d, ds, run, below, v) =
      printnum-Prints (suc num) num base width b' ' small two (omega arith) in
    read_printed s base width num n d ds m two le below run v
