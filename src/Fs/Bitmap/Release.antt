-- ===== src/Fs/Bitmap/Release.antt =====
-- `bitmap_free` and `bitmap_test`, and the return of an allocated block.
use nku_os.Prelude.{
  ℕ, ◌+◌, ◌*◌, ◌/◌, ◌%◌, ◌<◌, ◌≡◌, ◌∙◌, refl, sym, ap, true, false, some, ◌==◌, if◌then◌else◌,
  arith, Bool-cases, inl, inr, lt→ltb,
}
use nku_os.Fs.Bitmap.{
  word_bits, Bitmap, set_bit, Allocation, allocated, no_mem, bitmap_alloc, bitmap_translate,
  bitmap_free,
}
use nku_os.Fs.Bitmap.Alloc.{is_free, IsBitmap, set_bit-is_free, Allocates, bitmap_alloc-Allocates}

-- Block `i` of a map with `n` blocks is in use, and `bitmap_free` makes it free.
bitmap_free-run :
    (b : Bitmap) (i : ℕ)
    → i < b.nbits
    → is_free b i ≡ false
    → bitmap_free b i ≡ some (set_bit (i / word_bits) (i % word_bits) true b)
unfolding bitmap_free bitmap_translate
bitmap_free-run b i lt used = rw (lt→ltb i b.nbits lt, used) refl

-- The index that was taken is returned, and the map is what it was; without memory it never changed.
abbrev pub Returned : Bitmap → Allocation → Bitmap → Type 0
Returned b (allocated i) b' =
    (b'' : Bitmap) × (bitmap_free b' i ≡ some b'') × ((j : ℕ) → is_free b'' j ≡ is_free b j)
Returned b no_mem b' = b' ≡ b

freed :
    (b : Bitmap) (i : ℕ) (j : ℕ)
    → is_free (set_bit (i / word_bits) (i % word_bits) true b) j
      ≡ (if j == i then true else is_free b j)
freed b i j =
    let whole : i / word_bits * word_bits + i % word_bits ≡ i = omega arith in
    rw whole at (set_bit-is_free b (i / word_bits) (i % word_bits) true (omega arith) j)

Allocates-Returned :
    (b : Bitmap) (r : Allocation) (b' : Bitmap) → Allocates b r b' → Returned b r b'
Allocates-Returned b (allocated i) b' (inside, free, first, taken, size, wf) =
    let used : is_free b' i ≡ false =
      let self : (i == i) ≡ true = ground arith in rw self at (taken i) in
    (
      set_bit (i / word_bits) (i % word_bits) true b',
      bitmap_free-run b' i (omega (arith, inside, size)) used,
      λ j. elim (Bool-cases (j == i)) [
        | inl e ↦
            let same : j ≡ i = ground (arith, e) in
            freed b' i j ∙ (rw e (sym (ap (is_free b) same ∙ free)))
        | inr e ↦ freed b' i j ∙ (rw e (rw e at (taken j)))
      ],
    )
Allocates-Returned b no_mem b' h = h.0

-- A block that `bitmap_alloc` took can be given back: `bitmap_free` of its index fails no assertion, and
-- the map has the same free blocks as before both.
pub bitmap_free-alloc :
    (b : Bitmap)
    → IsBitmap b
    → (r : Allocation) × (b' : Bitmap) × (bitmap_alloc b ≡ some (r, b')) × Returned b r b'
bitmap_free-alloc b h =
    let (r, b', run, a) = bitmap_alloc-Allocates b h in (r, b', run, Allocates-Returned b r b' a)
