-- ===== src/Strings.antt =====
-- libs/string.c: strings and blocks of bytes in memory.
pub mod Blocks
pub mod Terminated
mod Tests
use nku_os.Prelude.{
  ℕ, zero, suc, ◌+◌, ◌-◌, ◌%◌, ◌^◌, Bool, true, false, not, ◌&&◌, ◌||◌, Option, none, some, ltb,
  ◌==◌, if◌then◌else◌, update,
}
use nku_os.Prelude.Partial.{◌>>=◌}

-- The byte at each address. No block or string runs past the last address, so that addresses do not
-- wrap around.
abbrev pub Memory : Type 0
Memory = ℕ → ℕ

-- The `int` difference of two bytes, as a 32-bit pattern.
abbrev pub byte_diff : ℕ → ℕ → ℕ
byte_diff a b = (a + 2 ^ 32 - b) % 2 ^ 32

-- The loops that end at a zero byte take a number of rounds.
unfoldable pub strlen_from : ℕ → (s cnt : ℕ) → Memory → Option ℕ
strlen_from zero s cnt m = none
strlen_from (suc fuel) s cnt m =
    let rest = strlen_from fuel (s + 1) (cnt + 1) m in if m s == 0 then some cnt else rest

unfoldable pub strlen : ℕ → ℕ → Memory → Option ℕ
unfolding strlen_from
strlen fuel s m = strlen_from fuel s 0 m

-- `left` is `len - cnt`.
unfoldable pub strnlen_from : (left s cnt : ℕ) → Memory → ℕ
strnlen_from zero s cnt m = cnt
strnlen_from (suc left) s cnt m =
    let rest = strnlen_from left (s + 1) (cnt + 1) m in if m s == 0 then cnt else rest

unfoldable pub strnlen : (s len : ℕ) → Memory → ℕ
unfolding strnlen_from
strnlen s len m = strnlen_from len s 0 m

unfoldable pub strcpy : ℕ → (dst src : ℕ) → Memory → Option Memory
strcpy zero dst src m = none
strcpy (suc fuel) dst src m =
    let m' = update m dst (m src) in
    let rest = strcpy fuel (dst + 1) (src + 1) m' in if m src == 0 then some m' else rest

unfoldable pub strncpy : (dst src len : ℕ) → Memory → Memory
strncpy dst src zero m = m
strncpy dst src (suc len) m =
    let m' = update m dst (m src) in
    let src' = if m src == 0 then src else src + 1 in strncpy (dst + 1) src' len m'

unfoldable pub strcat : ℕ → (dst src : ℕ) → Memory → Option Memory
unfolding strlen strcpy
strcat fuel dst src m = do n ← strlen fuel dst m; strcpy fuel (dst + n) src m

unfoldable pub strcmp : ℕ → (s1 s2 : ℕ) → Memory → Option ℕ
strcmp zero s1 s2 m = none
strcmp (suc fuel) s1 s2 m =
    let rest = strcmp fuel (s1 + 1) (s2 + 1) m in
    if not (m s1 == 0) && m s1 == m s2 then rest else some (byte_diff (m s1) (m s2))

unfoldable pub strncmp : (s1 s2 n : ℕ) → Memory → ℕ
strncmp s1 s2 zero m = 0
strncmp s1 s2 (suc n) m =
    let rest = strncmp (s1 + 1) (s2 + 1) n m in
    if not (m s1 == 0) && m s1 == m s2 then rest else byte_diff (m s1) (m s2)

-- NULL is `none`, under the `some` of a loop that ended.
unfoldable pub strchr : ℕ → (s c : ℕ) → Memory → Option (Option ℕ)
strchr zero s c m = none
strchr (suc fuel) s c m =
    let rest = strchr fuel (s + 1) c m in
    if m s == 0 then some none else if m s == c then some (some s) else rest

unfoldable pub strfind : ℕ → (s c : ℕ) → Memory → Option ℕ
strfind zero s c m = none
strfind (suc fuel) s c m =
    let rest = strfind fuel (s + 1) c m in
    if m s == 0 then some s else if m s == c then some s else rest

unfoldable pub memset : (s c n : ℕ) → Memory → Memory
memset s c zero m = m
memset s c (suc n) m = memset (s + 1) c n (update m s c)

-- The two loops of `memmove`: upwards from the first byte, and downwards from behind the last.
unfoldable pub copy_up : (dst src n : ℕ) → Memory → Memory
copy_up dst src zero m = m
copy_up dst src (suc n) m = copy_up (dst + 1) (src + 1) n (update m dst (m src))

unfoldable pub copy_down : (dst src n : ℕ) → Memory → Memory
copy_down dst src zero m = m
copy_down dst src (suc n) m = copy_down dst src n (update m (dst + n) (m (src + n)))

unfoldable pub memmove : (dst src n : ℕ) → Memory → Memory
unfolding copy_up copy_down
memmove dst src n m =
    if ltb src dst && ltb dst (src + n) then copy_down dst src n m else copy_up dst src n m

unfoldable pub memcpy : (dst src n : ℕ) → Memory → Memory
unfolding copy_up
memcpy dst src n m = copy_up dst src n m

unfoldable pub memcmp : (v1 v2 n : ℕ) → Memory → ℕ
memcmp v1 v2 zero m = 0
memcmp v1 v2 (suc n) m =
    let rest = memcmp (v1 + 1) (v2 + 1) n m in
    if m v1 == m v2 then rest else byte_diff (m v1) (m v2)
