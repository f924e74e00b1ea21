-- ===== src/Strings/Terminated.antt =====
-- Strings that end with a zero byte: strlen, strnlen, strcpy, strcat and strcmp.
use Prim.Native.Nat.{min}
use nku_os.Prelude.{
  ℕ, zero, suc, ◌+◌, ◌-◌, ◌≤◌, ◌<◌, ◌≡◌, ◌≢◌, ◌⊎◌, inl, inr, refl, ◌∙◌, sym, true, false, some,
  arith, ltb, ◌==◌, update, Bool-cases,
}
use nku_os.Strings.{
  Memory, byte_diff, strlen_from, strlen, strnlen_from, strnlen, strcpy, strcat, strcmp,
}
use nku_os.Strings.Blocks.{Writes, Writes-first}

-- A string of `n` bytes, none of them zero, at `s`.
abbrev pub IsString : Memory → (s n : ℕ) → Type 0
IsString m s n = ((k : ℕ) → k < n → m (s + k) ≢ 0) × (m (s + n) ≡ 0)

IsString-tail : (m : Memory) (s n : ℕ) → IsString m s (suc n) → IsString m (s + 1) n
IsString-tail m s n h = (
  λ k lt. let e : s + 1 + k ≡ s + suc k = omega arith in rw e (h.0 (suc k) (omega arith)),
  let e : s + 1 + n ≡ s + suc n = omega arith in rw e h.1,
)

IsString-head : (m : Memory) (s n : ℕ) → IsString m s (suc n) → m s ≢ 0
IsString-head m s n h = let e : s + 0 ≡ s = omega arith in rw e at (h.0 0 (omega arith))

IsString-empty : (m : Memory) (s : ℕ) → IsString m s 0 → m s ≡ 0
IsString-empty m s h = let e : s + 0 ≡ s = omega arith in rw e at h.1

strlen_from_lem :
    (fuel s cnt n : ℕ) (m : Memory)
    → IsString m s n
    → n < fuel
    → strlen_from fuel s cnt m ≡ some (cnt + n)
unfolding strlen_from
strlen_from_lem zero s cnt n m h f = absurd (omega arith)
strlen_from_lem (suc fuel) s cnt zero m h f =
    let e : m s ≡ 0 = IsString-empty m s h in let c : cnt + 0 ≡ cnt = omega arith in rw (e, c) refl
strlen_from_lem (suc fuel) s cnt (suc n) m h f =
    let e : (m s == 0) ≡ false = ground (arith, IsString-head m s n h) in
    let c : cnt + 1 + n ≡ cnt + suc n = omega arith in
    rw (e, sym c) (strlen_from_lem fuel (s + 1) (cnt + 1) n m (IsString-tail m s n h) (omega arith))

-- With more rounds than bytes, `strlen` ends and gives the length of a string.
pub strlen_lem : (fuel s n : ℕ) (m : Memory) → IsString m s n → n < fuel → strlen fuel s m ≡ some n
unfolding strlen
strlen_lem fuel s n m h f =
    let e : 0 + n ≡ n = omega arith in rw e at (strlen_from_lem fuel s 0 n m h f)

strnlen_from_lem :
    (left s cnt n : ℕ) (m : Memory) → IsString m s n → strnlen_from left s cnt m ≡ cnt + min left n
unfolding strnlen_from
strnlen_from_lem zero s cnt n m h = omega arith
strnlen_from_lem (suc left) s cnt zero m h =
    let e : m s ≡ 0 = IsString-empty m s h in rw e (omega arith)
strnlen_from_lem (suc left) s cnt (suc n) m h =
    let e : (m s == 0) ≡ false = ground (arith, IsString-head m s n h) in
    let r = strnlen_from_lem left (s + 1) (cnt + 1) n m (IsString-tail m s n h) in
    rw e (omega (arith, r))

-- `strnlen` of a string is its length, or the bound if that is smaller.
pub strnlen_lem : (s len n : ℕ) (m : Memory) → IsString m s n → strnlen s len m ≡ min len n
unfolding strnlen
strnlen_lem s len n m h = omega (arith, strnlen_from_lem len s 0 n m h)

-- The strings at `a` and `b`, of `n` and `k` bytes, agree up to `d`, and there they differ or end.
abbrev pub AgreeUpTo : Memory → (a b n k d : ℕ) → Type 0
AgreeUpTo m a b n k d =
    (d ≤ n)
    × (d ≤ k)
    × ((i : ℕ) → i < d → m (a + i) ≡ m (b + i))
    × ((m (a + d) ≢ m (b + d)) ⊎ ((d ≡ n) × (d ≡ k)))

AgreeUpTo-next :
    (m : Memory) (a b n k d : ℕ)
    → m a ≡ m b
    → AgreeUpTo m (a + 1) (b + 1) n k d
    → AgreeUpTo m a b (suc n) (suc k) (suc d)
AgreeUpTo-next m a b n k d same h = (omega (arith, h.0), omega (arith, h.1), go, end h.3)
  where
    go : (i : ℕ) → i < suc d → m (a + i) ≡ m (b + i)
    go zero lt =
        let e : a + 0 ≡ a = omega arith in let e' : b + 0 ≡ b = omega arith in rw (e, e') same
    go (suc i) lt =
        let e : a + 1 + i ≡ a + suc i = omega arith in
        let e' : b + 1 + i ≡ b + suc i = omega arith in rw (e, e') at (h.2 i (omega arith))

    end :
        (m (a + 1 + d) ≢ m (b + 1 + d)) ⊎ ((d ≡ n) × (d ≡ k))
        → (m (a + suc d) ≢ m (b + suc d)) ⊎ ((suc d ≡ suc n) × (suc d ≡ suc k))
    end (inl ne) =
        let e : a + 1 + d ≡ a + suc d = omega arith in
        let e' : b + 1 + d ≡ b + suc d = omega arith in inl (rw (e, e') at ne)
    end (inr (x, y)) = inr (omega arith, omega arith)

AgreeUpTo-zero :
    (m : Memory) (a b n k : ℕ) → (m a ≢ m b) ⊎ ((0 ≡ n) × (0 ≡ k)) → AgreeUpTo m a b n k 0
AgreeUpTo-zero m a b n k h =
    let e : a + 0 ≡ a = omega arith in
    let e' : b + 0 ≡ b = omega arith in
    (omega arith, omega arith, λ i lt. absurd (omega arith), rw (e, e') h)

strcmp_stop :
    (fuel a b : ℕ) (m : Memory)
    → (m a ≡ 0) ⊎ (m a ≢ m b)
    → strcmp (suc fuel) a b m ≡ some (byte_diff (m (a + 0)) (m (b + 0)))
unfolding strcmp
strcmp_stop fuel a b m h =
    let e : a + 0 ≡ a = omega arith in
    let e' : b + 0 ≡ b = omega arith in rw (e, e') (ground (arith, h))

strcmp_step :
    (fuel a b : ℕ) (m : Memory)
    → m a ≢ 0
    → m a ≡ m b
    → strcmp (suc fuel) a b m ≡ strcmp fuel (a + 1) (b + 1) m
unfolding strcmp
strcmp_step fuel a b m nz same = ground (arith, nz, same)

-- With more rounds than bytes, `strcmp` of two strings ends, and gives the difference of the bytes
-- at the first place where they differ, or of their ends if they are equal.
pub strcmp_lem :
    (fuel a b n k : ℕ) (m : Memory)
    → IsString m a n
    → IsString m b k
    → n < fuel
    → (d : ℕ) × (strcmp fuel a b m ≡ some (byte_diff (m (a + d)) (m (b + d))))
      × AgreeUpTo m a b n k d
strcmp_lem zero a b n k m h g f = absurd (omega arith)
strcmp_lem (suc fuel) a b zero zero m h g f = (
  0,
  strcmp_stop fuel a b m (inl (IsString-empty m a h)),
  AgreeUpTo-zero m a b 0 0 (inr (refl, refl)),
)
strcmp_lem (suc fuel) a b zero (suc k) m h g f =
    let x : m a ≢ m b = ground (arith, IsString-empty m a h, IsString-head m b k g) in
    (0, strcmp_stop fuel a b m (inr x), AgreeUpTo-zero m a b 0 (suc k) (inl x))
strcmp_lem (suc fuel) a b (suc n) zero m h g f =
    let x : m a ≢ m b = ground (arith, IsString-head m a n h, IsString-empty m b g) in
    (0, strcmp_stop fuel a b m (inr x), AgreeUpTo-zero m a b (suc n) 0 (inl x))
strcmp_lem (suc fuel) a b (suc n) (suc k) m h g f = elim (Bool-cases (m a == m b)) [
  | inr differ ↦
      let x : m a ≢ m b = ground (arith, differ) in
      (0, strcmp_stop fuel a b m (inr x), AgreeUpTo-zero m a b (suc n) (suc k) (inl x))
  | inl equal ↦
      let same : m a ≡ m b = ground (arith, equal) in
      let (d, e, r) =
        strcmp_lem fuel (a + 1) (b + 1) n k m (IsString-tail m a n h) (IsString-tail m b k g)
          (omega arith) in
      let p : a + 1 + d ≡ a + suc d = omega arith in
      let q : b + 1 + d ≡ b + suc d = omega arith in
      (
        suc d,
        strcmp_step fuel a b m (IsString-head m a n h) same ∙ (rw (p, q) at e),
        AgreeUpTo-next m a b n k d same r,
      )
]

-- Either string may lie first, but they do not overlap.
abbrev pub Apart : (dst src n : ℕ) → Type 0
Apart dst src n = (dst + n < src) ⊎ (src + n < dst)

Apart-next : (dst src n : ℕ) → Apart dst src (suc n) → Apart (dst + 1) (src + 1) n
Apart-next dst src n (inl h) = inl (omega arith)
Apart-next dst src n (inr h) = inr (omega arith)

Apart-ways : (dst src n : ℕ) → Apart dst src n → (dst ≤ src) ⊎ (src + suc n ≤ dst)
Apart-ways dst src n (inl x) = inl (omega arith)
Apart-ways dst src n (inr x) = inr (omega arith)

IsString-frame :
    (m m' : Memory) (s n : ℕ)
    → ((k : ℕ) → k ≤ n → m' (s + k) ≡ m (s + k))
    → IsString m s n
    → IsString m' s n
IsString-frame m m' s n e h =
    (λ k lt. ground (arith, h.0 k lt, e k (omega arith)), e n (omega arith) ∙ h.1)

-- With more rounds than bytes, `strcpy` of a string to a place that it does not overlap ends, and
-- copies it with its zero byte, and changes no other byte.
pub strcpy-Writes :
    (fuel dst src n : ℕ) (m : Memory)
    → IsString m src n
    → n < fuel
    → Apart dst src n
    → (m' : Memory) × (strcpy fuel dst src m ≡ some m') × Writes m m' dst (suc n) (λ k. m (src + k))
unfolding strcpy
strcpy-Writes zero dst src n m h f apart = absurd (omega arith)
strcpy-Writes (suc fuel) dst src zero m h f apart =
    let m1 = update m dst (m src) in
    let end : (m src == 0) ≡ true = ground (arith, IsString-empty m src h) in
    (
      m1,
      rw end refl,
      Writes-first dst src 0 m m1 (Apart-ways dst src 0 apart)
          (λ k lt. absurd (omega arith), λ a o. refl),
    )
strcpy-Writes (suc fuel) dst src (suc n) m h f apart =
    let m1 = update m dst (m src) in
    let more : (m src == 0) ≡ false = ground (arith, IsString-head m src n h) in
    let tail =
      IsString-frame m m1 (src + 1) n (λ k le. ground (arith, apart, le))
        (IsString-tail m src n h) in
    let r =
      strcpy-Writes fuel (dst + 1) (src + 1) n m1 tail (omega arith) (Apart-next dst src n apart) in
    (r.0, rw more r.1, Writes-first dst src (suc n) m r.0 (Apart-ways dst src (suc n) apart) r.2)

-- With more rounds than either string has bytes, `strcat` of a string that does not overlap the
-- other one and the room behind it ends, and leaves the two strings in a row, the second one and its
-- zero byte copied behind the first; no other byte changes.
pub strcat-IsString :
    (fuel dst src n k : ℕ) (m : Memory)
    → IsString m dst n
    → IsString m src k
    → n < fuel
    → k < fuel
    → (dst + n + k < src) ⊎ (src + k < dst)
    → (m' : Memory) × (strcat fuel dst src m ≡ some m')
      × IsString m' dst (n + k)
      × Writes m m' (dst + n) (suc k) (λ i. m (src + i))
unfolding strcat
strcat-IsString fuel dst src n k m h g f l apart =
    let r = strcpy-Writes fuel (dst + n) src k m g l (room apart) in
    let len = strlen_lem fuel dst n m h f in
    (
      r.0,
      rw (len, strcat) r.1,
      (
        λ i lt. elim (Bool-cases (ltb i n)) [
          | inl first ↦
              let e = r.2.1 (dst + i) (inl (ground (arith, first))) in
              rw e (h.0 i (ground (arith, first)))
          | inr second ↦
              let p : dst + n + (i - n) ≡ dst + i = ground (arith, second) in
              let e = rw p at (r.2.0 (i - n) (ground (arith, second, lt))) in
              rw e (g.0 (i - n) (ground (arith, second, lt)))
        ],
        let p : dst + n + k ≡ dst + (n + k) = omega arith in
            (rw p at (r.2.0 k (omega arith))) ∙ g.1,
      ),
      r.2,
    )
  where
    room : (dst + n + k < src) ⊎ (src + k < dst) → Apart (dst + n) src k
    room (inl x) = inl x
    room (inr x) = inr (omega arith)
