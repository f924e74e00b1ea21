-- ===== src/Fs/Bitmap/Create.antt =====
-- What `bitmap_create` makes.
use nku_os.Prelude.{
  ℕ, zero, suc, ◌+◌, ◌-◌, ◌*◌, ◌/◌, ◌%◌, ◌≤◌, ◌<◌, ◌≡◌, ◌≢◌, refl, true, false, not, ◌&&◌, some,
  ltb, leb, ◌==◌, if◌then◌else◌, arith, Bool-cases, inl, inr, lt→ltb,
}
use nku_os.Fs.Bitmap.{word_bits, Bitmap, flip_bit, flip_from, bitmap_create}
use nku_os.Fs.Bitmap.Alloc.{is_free, IsBitmap, is_free_at, set_bit-is_free}

flip_from-is_free :
    (n k ix : ℕ) (b : Bitmap) (j : ℕ)
    → k + n ≤ word_bits
    → is_free (flip_from n k ix b) j ≡ (
        if leb (ix * word_bits + k) j && ltb j (ix * word_bits + k + n)
        then not (is_free b j)
        else is_free b j)
unfolding flip_from
flip_from-is_free zero k ix b j le = ground arith
flip_from-is_free (suc n) k ix b j le =
    let rest = flip_from-is_free n (k + 1) ix (flip_bit ix k b) j (omega (arith, le)) in
    let one = set_bit-is_free b ix k (not (b.map ix k)) (omega (arith, le)) j in
    elim (Bool-cases (j == ix * word_bits + k)) [
      | inl e ↦
          let word : j / word_bits ≡ ix = ground (arith, e, le) in
          let bit : j % word_bits ≡ k = ground (arith, e, le, word) in
          ground (arith, e, rest, one, is_free_at b ix k j word bit)
      | inr e ↦ ground (arith, e, rest, one)
    ]

flip_from-size :
    (n k ix : ℕ) (b : Bitmap)
    → ((flip_from n k ix b).nbits ≡ b.nbits) × ((flip_from n k ix b).nwords ≡ b.nwords)
unfolding flip_from
flip_from-size zero k ix b = (refl, refl)
flip_from-size (suc n) k ix b = flip_from-size n (k + 1) ix (flip_bit ix k b)

abbrev pub words_for : ℕ → ℕ
words_for nbits = (nbits + word_bits - 1) / word_bits

abbrev full : ℕ → Bitmap
full nbits = record { nbits = nbits; nwords = words_for nbits; map = λ ix offset. true }

-- The map before and after the loop over the bits that are left over.
abbrev trimmed : ℕ → Bitmap
trimmed nbits =
    let ix = words_for nbits - 1 in
    let overbits = nbits - ix * word_bits in
    flip_from (word_bits - overbits) overbits ix (full nbits)

-- A new map, in which all blocks are free.
abbrev pub Fresh : ℕ → Bitmap → Type 0
Fresh nbits b = (b.nbits ≡ nbits) × IsBitmap b × ((j : ℕ) → j < nbits → is_free b j ≡ true)

-- The numbers that the two assertions are about.
leftover_bits :
    (nbits : ℕ)
    → (nbits == words_for nbits * word_bits) ≡ false
    → let ix = words_for nbits - 1 in
      let overbits = nbits - ix * word_bits in
      (ix * word_bits + overbits ≡ nbits)
      × (0 < overbits)
      × (overbits < word_bits)
      × (nbits / word_bits ≡ ix)
leftover_bits nbits partial =
    let ne : nbits ≢ words_for nbits * word_bits = ground (arith, partial) in
    (omega (arith, ne), omega (arith, ne), omega (arith, ne), omega (arith, ne))

trimmed-is_free :
    (nbits j : ℕ)
    → (nbits == words_for nbits * word_bits) ≡ false
    → j < words_for nbits * word_bits
    → is_free (trimmed nbits) j ≡ ltb j nbits
trimmed-is_free nbits j partial lt =
    let f = leftover_bits nbits partial in
    let all =
      flip_from-is_free (word_bits - (nbits - (words_for nbits - 1) * word_bits))
        (nbits - (words_for nbits - 1) * word_bits) (words_for nbits - 1) (full nbits) j
        (omega (arith, f.2)) in
    ground (arith, all, f.0, f.1, f.2, lt)

create_run :
    (nbits : ℕ)
    → 0 < nbits
    → bitmap_create true true nbits
      ≡ some (some (if nbits == words_for nbits * word_bits then full nbits else trimmed nbits))
unfolding bitmap_create
create_run nbits pos =
    let some_bits : not (nbits == 0) ≡ true = ground (arith, pos) in
    let more : ltb nbits (nbits + word_bits) ≡ true = ground arith in
    elim (Bool-cases (nbits == words_for nbits * word_bits)) [
      | inl whole ↦ rw (some_bits, more, whole) refl
      | inr partial ↦
          let f = leftover_bits nbits partial in
          let a : (nbits / word_bits == words_for nbits - 1) ≡ true = ground (arith, f.3) in
          let b = lt→ltb 0 (nbits - (words_for nbits - 1) * word_bits) f.1 in
          let c = lt→ltb (nbits - (words_for nbits - 1) * word_bits) word_bits f.2 in
          rw (some_bits, more, partial, a, b, c) refl
    ]

Fresh-of :
    (nbits : ℕ) (b : Bitmap)
    → b.nbits ≡ nbits
    → b.nwords ≡ words_for nbits
    → ((j : ℕ) → j < words_for nbits * word_bits → is_free b j ≡ ltb j nbits)
    → Fresh nbits b
Fresh-of nbits b size words free = (
  size,
  record {
    enough = omega (arith, size, words);
    leftover = λ i ge lt. ground (arith, free i (omega (arith, lt, words)), size, ge);
  },
  λ j lt. ground (arith, free j (omega (arith, lt)), lt),
)

made-Fresh :
    (nbits : ℕ)
    → Fresh nbits (if nbits == words_for nbits * word_bits then full nbits else trimmed nbits)
made-Fresh nbits = elim (Bool-cases (nbits == words_for nbits * word_bits)) [
  | inl whole ↦ rw whole (Fresh-of nbits (full nbits) refl refl (λ j lt. ground (arith, whole, lt)))
  | inr partial ↦
      let size =
        flip_from-size (word_bits - (nbits - (words_for nbits - 1) * word_bits))
          (nbits - (words_for nbits - 1) * word_bits) (words_for nbits - 1) (full nbits) in
      rw partial
        (Fresh-of nbits (trimmed nbits) size.0 size.1 (λ j lt. trimmed-is_free nbits j partial lt))
]

-- With memory, `bitmap_create` of at least one block fails no assertion: all blocks of the new map are free, and no bit
-- behind the last block is set.
pub bitmap_create-Fresh :
    (nbits : ℕ)
    → 0 < nbits
    → (b : Bitmap) × (bitmap_create true true nbits ≡ some (some b)) × Fresh nbits b
bitmap_create-Fresh nbits pos = (_, create_run nbits pos, made-Fresh nbits)
