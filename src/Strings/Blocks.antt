-- ===== src/Strings/Blocks.antt =====
-- Blocks of bytes: memset, memmove, memcpy and memcmp.
use nku_os.Prelude.{
  ℕ, zero, suc, ◌+◌, ◌≤◌, ◌<◌, ◌≡◌, ◌⊎◌, ◌↔◌, inl, inr, refl, ◌∙◌, false, ◌&&◌, arith, ltb, ◌==◌,
  update, Bool-cases,
}
use nku_os.Strings.{Memory, memset, copy_up, copy_down, memmove, memcpy, memcmp}

-- A transfer of `n` bytes to `dst`, of values `value`, and to no other address.
abbrev pub Writes : Memory → Memory → (dst n : ℕ) → (ℕ → ℕ) → Type 0
Writes m m' dst n value =
    ((k : ℕ) → k < n → m' (dst + k) ≡ value k) × ((a : ℕ) → (a < dst) ⊎ (dst + n ≤ a) → m' a ≡ m a)

-- `memset` fills the `n` bytes from `s`, and no other.
pub memset-Writes : (s c n : ℕ) (m : Memory) → Writes m (memset s c n m) s n (λ _. c)
unfolding memset
memset-Writes s c zero m = (λ k h. absurd (omega arith), λ a h. refl)
memset-Writes s c (suc n) m =
    let w = memset-Writes (s + 1) c n (update m s c) in
    (λ k h. first k h w, λ a h. ground (arith, w.1 a (outside a h), h))
  where
    outside : (a : ℕ) → (a < s) ⊎ (s + suc n ≤ a) → (a < s + 1) ⊎ (s + 1 + n ≤ a)
    outside a (inl h) = inl (omega arith)
    outside a (inr h) = inr (omega arith)

    first :
        (k : ℕ)
        → k < suc n
        → Writes (update m s c) (memset (s + 1) c n (update m s c)) (s + 1) n (λ _. c)
        → memset (s + 1) c n (update m s c) (s + k) ≡ c
    first zero h w = ground (arith, w.1 s (inl (omega arith)))
    first (suc k) h w = let e : s + 1 + k ≡ s + suc k = omega arith in rw e at (w.0 k (omega arith))

-- The first byte is written, and then the others.
pub Writes-first :
    (dst src n : ℕ) (m m' : Memory)
    → (dst ≤ src) ⊎ (src + suc n ≤ dst)
    → Writes (update m dst (m src)) m' (dst + 1) n (λ k. update m dst (m src) (src + 1 + k))
    → Writes m m' dst (suc n) (λ k. m (src + k))
Writes-first dst src n m m' apart w = (byte, λ a h. ground (arith, w.1 a (outside a h), h))
  where
    outside : (a : ℕ) → (a < dst) ⊎ (dst + suc n ≤ a) → (a < dst + 1) ⊎ (dst + 1 + n ≤ a)
    outside a (inl h) = inl (omega arith)
    outside a (inr h) = inr (omega arith)

    byte : (k : ℕ) → k < suc n → m' (dst + k) ≡ m (src + k)
    byte zero h = ground (arith, w.1 dst (inl (omega arith)))
    byte (suc k) h =
        let e : dst + 1 + k ≡ dst + suc k = omega arith in
        let e' : src + 1 + k ≡ src + suc k = omega arith in
        let here = rw (e, e') at (w.0 k (omega arith)) in
        let spared : update m dst (m src) (src + suc k) ≡ m (src + suc k) = ground (arith, apart) in
        here ∙ spared

-- Upwards, no byte of the source is overwritten before it is read.
copy_up-Writes :
    (dst src n : ℕ) (m : Memory)
    → (dst ≤ src) ⊎ (src + n ≤ dst)
    → Writes m (copy_up dst src n m) dst n (λ k. m (src + k))
unfolding copy_up
copy_up-Writes dst src zero m apart = (λ k h. absurd (omega arith), λ a h. refl)
copy_up-Writes dst src (suc n) m apart =
    Writes-first dst src n m _ apart
      (copy_up-Writes (dst + 1) (src + 1) n (update m dst (m src)) (next apart))
  where
    next : (dst ≤ src) ⊎ (src + suc n ≤ dst) → (dst + 1 ≤ src + 1) ⊎ (src + 1 + n ≤ dst + 1)
    next (inl h) = inl (omega arith)
    next (inr h) = inr (omega arith)

-- Downwards, likewise, from a source below.
copy_down-Writes :
    (dst src n : ℕ) (m : Memory)
    → src < dst
    → Writes m (copy_down dst src n m) dst n (λ k. m (src + k))
unfolding copy_down
copy_down-Writes dst src zero m below = (λ k h. absurd (omega arith), λ a h. refl)
copy_down-Writes dst src (suc n) m below =
    let m' = update m (dst + n) (m (src + n)) in
    let w = copy_down-Writes dst src n m' below in
    (
      λ k h. elim (Bool-cases (k == n)) [
        | inl last ↦
            let e : k ≡ n = ground (arith, last) in
            rw e (ground (arith, w.1 (dst + n) (inr (omega arith))))
        | inr more ↦ ground (arith, w.0 k (ground (arith, more, h)), more, h, below)
      ],
      λ a h. ground (arith, w.1 a (outside a h), h),
    )
  where
    outside : (a : ℕ) → (a < dst) ⊎ (dst + suc n ≤ a) → (a < dst) ⊎ (dst + n ≤ a)
    outside a (inl h) = inl h
    outside a (inr h) = inr (omega arith)

-- `memmove` copies the `n` bytes from `src` to `dst` as they were before the call, however the two
-- blocks overlap, and changes no other byte.
pub memmove-Writes :
    (dst src n : ℕ) (m : Memory) → Writes m (memmove dst src n m) dst n (λ k. m (src + k))
unfolding memmove
memmove-Writes dst src n m = elim (Bool-cases (ltb src dst && ltb dst (src + n))) [
  | inl overlap ↦ rw overlap (copy_down-Writes dst src n m (ground (arith, overlap)))
  | inr clear ↦ rw clear (copy_up-Writes dst src n m (ways clear))
]
  where
    ways : (ltb src dst && ltb dst (src + n)) ≡ false → (dst ≤ src) ⊎ (src + n ≤ dst)
    ways h = elim (Bool-cases (ltb src dst)) [
      | inl t ↦ inr (ground (arith, h, t))
      | inr f ↦ inl (ground (arith, f))
    ]

-- `memcpy` does the same for blocks of which the target does not start inside the source.
pub memcpy-Writes :
    (dst src n : ℕ) (m : Memory)
    → (dst ≤ src) ⊎ (src + n ≤ dst)
    → Writes m (memcpy dst src n m) dst n (λ k. m (src + k))
unfolding memcpy
memcpy-Writes dst src n m apart = copy_up-Writes dst src n m apart

-- `memcmp` gives 0 exactly if the two blocks are equal byte for byte.
pub memcmp_iff :
    (a b n : ℕ) (m : Memory)
    → ((i : ℕ) → m i < 256)
    → (memcmp a b n m ≡ 0) ↔ ((i : ℕ) → i < n → m (a + i) ≡ m (b + i))
unfolding memcmp
memcmp_iff a b zero m bytes = (λ e i lt. absurd (omega arith), λ h. refl)
memcmp_iff a b (suc n) m bytes =
    let r = memcmp_iff (a + 1) (b + 1) n m bytes in
    let x = bytes a in
    let y = bytes b in
    (
      λ e i lt. equal i lt (ground (arith, e, x, y)) (r.0 (ground (arith, e, x, y))),
      λ h. ground (arith, first h, r.1 (others h)),
    )
  where
    first : ((i : ℕ) → i < suc n → m (a + i) ≡ m (b + i)) → m a ≡ m b
    first h =
        let p : a + 0 ≡ a = omega arith in
        let q : b + 0 ≡ b = omega arith in rw (p, q) at (h 0 (omega arith))

    others :
        ((i : ℕ) → i < suc n → m (a + i) ≡ m (b + i))
        → (i : ℕ) → i < n
        → m (a + 1 + i) ≡ m (b + 1 + i)
    others h i lt =
        let p : a + 1 + i ≡ a + suc i = omega arith in
        let q : b + 1 + i ≡ b + suc i = omega arith in rw (p, q) (h (suc i) (omega arith))

    equal :
        (i : ℕ)
        → i < suc n
        → m a ≡ m b
        → ((j : ℕ) → j < n → m (a + 1 + j) ≡ m (b + 1 + j))
        → m (a + i) ≡ m (b + i)
    equal zero lt e h =
        let p : a + 0 ≡ a = omega arith in let q : b + 0 ≡ b = omega arith in rw (p, q) e
    equal (suc i) lt e h =
        let p : a + 1 + i ≡ a + suc i = omega arith in
        let q : b + 1 + i ≡ b + suc i = omega arith in rw (p, q) at (h i (omega arith))
