-- ===== src/Fs/Bitmap/Alloc.antt =====
-- The map of free blocks as a set of numbers: what `bitmap_alloc`, `bitmap_test` and `bitmap_free` do to it.
use nku_os.Prelude.{
  ℕ, zero, suc, ◌+◌, ◌*◌, ◌/◌, ◌%◌, ◌≤◌, ◌<◌, ◌≡◌, ◌∙◌, refl, Bool, true, false, not, some, ltb,
  ◌==◌, if◌then◌else◌, arith, Bool-cases, inl, inr,
}
use nku_os.Fs.Bitmap.{
  word_bits, Word, Bitmap, set_bit, nonzero_from, nonzero, find_bit, Allocation, allocated, no_mem,
  alloc_from, bitmap_alloc,
}

-- Block `i` is free.
abbrev pub is_free : Bitmap → ℕ → Bool
is_free bitmap i = bitmap.map (i / word_bits) (i % word_bits)

-- There are words for all blocks, and no bit behind the last block says that it is free.
pub record IsBitmap (bitmap : Bitmap) : Type 0 where
  pub enough : bitmap.nbits ≤ bitmap.nwords * word_bits
  pub leftover :
      (i : ℕ) → bitmap.nbits ≤ i → i < bitmap.nwords * word_bits → is_free bitmap i ≡ false

-- The first set bit, where there is one, is the one that the loop finds.
find_bit_lem :
    (n offset : ℕ) (w : Word)
    → nonzero_from n offset w ≡ true
    → (k : ℕ) × (find_bit n offset w ≡ some k)
      × (offset ≤ k)
      × (k < offset + n)
      × (w k ≡ true)
      × ((j : ℕ) → offset ≤ j → j < k → w j ≡ false)
unfolding find_bit nonzero_from
find_bit_lem zero offset w h = absurd (ground (arith, h))
find_bit_lem (suc n) offset w h = elim (Bool-cases (w offset)) [
  | inl hit ↦ (
    offset,
    rw hit refl,
    omega arith,
    omega arith,
    hit,
    λ j le lt. absurd (omega (arith, le, lt)),
  )
  | inr miss ↦
      let (k, run, le, lt, set, below) = find_bit_lem n (offset + 1) w (rw miss at h) in
      (
        k,
        rw miss run,
        omega (arith, le),
        omega (arith, lt),
        set,
        λ j jle jlt. elim (Bool-cases (j == offset)) [
          | inl e ↦ let same : j ≡ offset = ground (arith, e) in rw same miss
          | inr ne ↦ below j (ground (arith, ne, jle)) jlt
        ],
      )
]

nonzero_from-none :
    (n offset : ℕ) (w : Word)
    → nonzero_from n offset w ≡ false
    → (j : ℕ) → offset ≤ j
    → j < offset + n
    → w j ≡ false
unfolding nonzero_from
nonzero_from-none zero offset w h = λ j le lt. absurd (omega (arith, le, lt))
nonzero_from-none (suc n) offset w h = elim (Bool-cases (w offset)) [
  | inl hit ↦ absurd (ground (arith, hit, h))
  | inr miss ↦ λ j le lt. elim (Bool-cases (j == offset)) [
    | inl e ↦ let same : j ≡ offset = ground (arith, e) in rw same miss
    | inr ne ↦
        nonzero_from-none n (offset + 1) w (rw miss at h) j (ground (arith, ne, le))
          (omega (arith, lt))
  ]
]

-- What an allocation did: it took the lowest free block, or there was none.
abbrev pub Allocates : Bitmap → Allocation → Bitmap → Type 0
Allocates b (allocated i) b' =
    (i < b.nbits)
    × (is_free b i ≡ true)
    × ((j : ℕ) → j < i → is_free b j ≡ false)
    × ((j : ℕ) → is_free b' j ≡ (if j == i then false else is_free b j))
    × (b'.nbits ≡ b.nbits)
    × IsBitmap b'
Allocates b no_mem b' = (b' ≡ b) × ((j : ℕ) → j < b.nbits → is_free b j ≡ false)

pub set_bit-is_free :
    (b : Bitmap) (ix k : ℕ) (v : Bool)
    → k < word_bits
    → (j : ℕ) → is_free (set_bit ix k v b) j ≡ (if j == ix * word_bits + k then v else is_free b j)
set_bit-is_free b ix k v lt j = ground (arith, lt)

pub is_free_at :
    (b : Bitmap) (ix k j : ℕ) → j / word_bits ≡ ix → j % word_bits ≡ k → is_free b j ≡ b.map ix k
is_free_at b ix k j word bit = λ i. b.map (word i) (bit i)

-- No block is free before bit `k` of word `ix`, if none is before the word and none before the bit.
clear_before :
    (b : Bitmap) (ix k : ℕ)
    → k ≤ word_bits
    → ((j : ℕ) → j < ix * word_bits → is_free b j ≡ false)
    → ((j : ℕ) → 0 ≤ j → j < k → b.map ix j ≡ false)
    → (j : ℕ) → j < ix * word_bits + k
    → is_free b j ≡ false
clear_before b ix k le below here j lt = elim (Bool-cases (ltb j (ix * word_bits))) [
  | inl before ↦ below j (ground (arith, before))
  | inr behind ↦
      let word : j / word_bits ≡ ix = ground (arith, behind, lt, le) in
      is_free_at b ix (j % word_bits) j word refl
      ∙ here (j % word_bits) (omega arith) (ground (arith, behind, lt, le, word))
]

unless_false : (t b : Bool) → b ≡ false → (if t then false else b) ≡ false
unless_false true b h = refl
unless_false false b h = h

allocates :
    (n ix : ℕ) (b : Bitmap) (k : ℕ)
    → IsBitmap b
    → ix + suc n ≡ b.nwords
    → ((j : ℕ) → j < ix * word_bits → is_free b j ≡ false)
    → k < word_bits
    → b.map ix k ≡ true
    → ((j : ℕ) → 0 ≤ j → j < k → b.map ix j ≡ false)
    → Allocates b (allocated (ix * word_bits + k)) (set_bit ix k (not (b.map ix k)) b)
allocates n ix b k h e below lt set first =
    let i = ix * word_bits + k in
    let word : i / word_bits ≡ ix = omega (arith, lt) in
    let bit : i % word_bits ≡ k = omega (arith, lt) in
    let free : is_free b i ≡ true = is_free_at b ix k i word bit ∙ set in
    let inside : i < b.nbits = elim (Bool-cases (ltb i b.nbits)) [
      | inl lt' ↦ ground (arith, lt')
      | inr ge ↦
          absurd (ground (arith, free, h.leftover i (ground (arith, ge)) (omega (arith, lt, e))))
    ] in
    let taken : (j : ℕ)
        → is_free (set_bit ix k (not (b.map ix k)) b) j ≡ (if j == i then false else is_free b j) =
      rw set (set_bit-is_free b ix k false lt) in
    let wf : IsBitmap (set_bit ix k (not (b.map ix k)) b) = record {
      enough = h.enough;
      leftover =
          λ j ge small. taken j ∙ unless_false (j == i) (is_free b j) (h.leftover j ge small);
    } in
    (inside, free, clear_before b ix k (omega (arith, lt)) below first, taken, refl, wf)

alloc_from-Allocates :
    (n ix : ℕ) (b : Bitmap)
    → IsBitmap b
    → ix + n ≡ b.nwords
    → ((j : ℕ) → j < ix * word_bits → is_free b j ≡ false)
    → (r : Allocation) × (b' : Bitmap) × (alloc_from n ix b ≡ some (r, b')) × Allocates b r b'
unfolding alloc_from
alloc_from-Allocates zero ix b h e below =
    (no_mem, b, refl, (refl, λ j lt. below j (omega (arith, lt, e, h.enough))))
alloc_from-Allocates (suc n) ix b h e below = elim (Bool-cases (nonzero (b.map ix))) [
  | inl some_bit ↦
      let (k, run, ge, lt, set, first) = find_bit_lem word_bits 0 (b.map ix) some_bit in
      (
        allocated (ix * word_bits + k),
        set_bit ix k (not (b.map ix k)) b,
        rw (some_bit, run) refl,
        allocates n ix b k h e below lt set (λ j le small. first j le small),
      )
  | inr clear ↦
      let empty = nonzero_from-none word_bits 0 (b.map ix) clear in
      let below' : (j : ℕ) → j < (ix + 1) * word_bits → is_free b j ≡ false =
        λ j lt. clear_before b ix word_bits (omega arith) below empty j (omega (arith, lt)) in
      rw clear (alloc_from-Allocates n (ix + 1) b h (omega (arith, e)) below')
]

-- `bitmap_alloc` fails no assertion. It takes the lowest free block out of the map and returns its index, or returns
-- `-E_NO_MEM` where no block is free, and leaves the map as it was.
pub bitmap_alloc-Allocates :
    (b : Bitmap)
    → IsBitmap b
    → (r : Allocation) × (b' : Bitmap) × (bitmap_alloc b ≡ some (r, b')) × Allocates b r b'
unfolding bitmap_alloc
bitmap_alloc-Allocates b h =
    alloc_from-Allocates b.nwords 0 b h (omega arith) (λ j lt. absurd (omega (arith, lt)))
