-- ===== src/Fs/Bitmap.antt =====
-- kern/fs/sfs/bitmap.c: the map of free blocks, where a set bit means a free block.
pub mod Alloc
pub mod Release
pub mod Create
mod Tests
use nku_os.Prelude.{
  ℕ, zero, suc, ◌+◌, ◌-◌, ◌*◌, ◌/◌, ◌%◌, Bool, true, false, not, ◌&&◌, ◌||◌, Option, none, some,
  ltb, ◌==◌, if◌then◌else◌, update,
}
use nku_os.Prelude.Partial.{◌>>=◌, ◌>>◌, assert}

abbrev pub word_bits : ℕ
word_bits = 32

-- A word is given by its bits, the lowest first: bit `k` is what `& (1 << k)` tests.
abbrev pub Word : Type 0
Word = ℕ → Bool

pub record Bitmap : Type 0 where
  pub nbits : ℕ
  pub nwords : ℕ
  pub map : ℕ → Word

abbrev pub set_bit : (ix offset : ℕ) → Bool → Bitmap → Bitmap
set_bit ix offset b bitmap = record bitmap {
  map = update bitmap.map ix (update (bitmap.map ix) offset b);
}

-- `map[ix] ^= (1 << offset)`
abbrev pub flip_bit : (ix offset : ℕ) → Bitmap → Bitmap
flip_bit ix offset bitmap = set_bit ix offset (not (bitmap.map ix offset)) bitmap

-- The loop of `bitmap_create` over the bits that are left over.
unfoldable pub flip_from : (n overbits ix : ℕ) → Bitmap → Bitmap
flip_from zero overbits ix bitmap = bitmap
flip_from (suc n) overbits ix bitmap = flip_from n (overbits + 1) ix (flip_bit ix overbits bitmap)

-- `mem1` and `mem2` say whether each `kmalloc` has memory; NULL is an inner `none`.
unfoldable pub bitmap_create : (mem1 mem2 : Bool) → (nbits : ℕ) → Option (Option Bitmap)
unfolding flip_from
bitmap_create mem1 mem2 nbits =
    let nwords = (nbits + word_bits - 1) / word_bits in
    let bitmap : Bitmap = record { nbits = nbits; nwords = nwords; map = λ ix offset. true } in
    let ix = nwords - 1 in
    let overbits = nbits - ix * word_bits in
    let leftover = do
      assert (nbits / word_bits == ix)
      assert (ltb 0 overbits && ltb overbits word_bits)
      some (some (flip_from (word_bits - overbits) overbits ix bitmap))
    in let made = if not (nbits == nwords * word_bits) then leftover else some (some bitmap) in
      let result = if not mem1 then some none else if not mem2 then some none else made in
      do assert (not (nbits == 0) && ltb nbits (nbits + word_bits)); result

-- Whether a word is not 0, from bit `offset` over `n` bits.
unfoldable pub nonzero_from : (n offset : ℕ) → Word → Bool
nonzero_from zero offset w = false
nonzero_from (suc n) offset w = w offset || nonzero_from n (offset + 1) w

abbrev pub nonzero : Word → Bool
unfolding nonzero_from
nonzero w = nonzero_from word_bits 0 w

-- The inner loop of `bitmap_alloc`, which ends in `assert(0)`.
unfoldable pub find_bit : (n offset : ℕ) → Word → Option ℕ
find_bit zero offset w = none
find_bit (suc n) offset w =
    let later = find_bit n (offset + 1) w in if w offset then some offset else later

-- What `bitmap_alloc` returns: 0 with the index that it stores, or `-E_NO_MEM`.
pub data Allocation : Type 0 where
  allocated : (index : ℕ) → Allocation
  no_mem : Allocation

-- The outer loop, from word `ix` over `n` words.
unfoldable pub alloc_from : (n ix : ℕ) → Bitmap → Option (Allocation × Bitmap)
unfolding find_bit nonzero_from
alloc_from zero ix bitmap = some (no_mem, bitmap)
alloc_from (suc n) ix bitmap =
    let later = alloc_from n (ix + 1) bitmap in
    let here = do
      offset ← find_bit word_bits 0 (bitmap.map ix)
      some (allocated (ix * word_bits + offset), flip_bit ix offset bitmap)
    in if nonzero (bitmap.map ix) then here else later

unfoldable pub bitmap_alloc : Bitmap → Option (Allocation × Bitmap)
unfolding alloc_from
bitmap_alloc bitmap = alloc_from bitmap.nwords 0 bitmap

-- The word and the bit in it.
unfoldable pub bitmap_translate : Bitmap → (index : ℕ) → Option (ℕ × ℕ)
bitmap_translate bitmap index = do
  assert (ltb index bitmap.nbits)
  some (index / word_bits, index % word_bits)

unfoldable pub bitmap_test : Bitmap → (index : ℕ) → Option Bool
unfolding bitmap_translate
bitmap_test bitmap index = do
  (ix, offset) ← bitmap_translate bitmap index
  some (bitmap.map ix offset)

unfoldable pub bitmap_free : Bitmap → (index : ℕ) → Option Bitmap
unfolding bitmap_translate
bitmap_free bitmap index = do
  (ix, offset) ← bitmap_translate bitmap index
  assert (not (bitmap.map ix offset))
  some (set_bit ix offset true bitmap)

-- The map, and what goes to `len_store`.
unfoldable pub bitmap_getdata : Bitmap → (ℕ → Word) × ℕ
bitmap_getdata bitmap = (bitmap.map, 4 * bitmap.nwords)
