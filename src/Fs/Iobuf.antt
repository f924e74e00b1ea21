-- ===== src/Fs/Iobuf.antt =====
-- kern/fs/iobuf.c: the record of a transfer between a buffer and a file.
pub mod Moves
use nku_os.Prelude.{
  ℕ, ◌+◌, ◌-◌, ◌%◌, ◌^◌, ◌≤◌, ◌<◌, ◌≡◌, Bool, true, false, not, Option, none, some, List, [], ◌∷◌,
  ltb, leb, ◌==◌, if◌then◌else◌, arith, update, Bool-cases, inl, inr, refl,
}
use nku_os.Strings.{Memory, memset, memmove}
use nku_os.Prelude.Partial.{◌>>=◌, ◌>>◌, assert}

-- `struct iobuf`; offsets and sizes are 64-bit words.
pub record Iobuf : Type 0 where
  pub io_base : ℕ
  pub io_offset : ℕ
  pub io_len : ℕ
  pub io_resid : ℕ

abbrev pub add64 : ℕ → ℕ → ℕ
add64 a b = (a + b) % 2 ^ 64

unfoldable pub iobuf_init : (base len offset : ℕ) → Iobuf
iobuf_init base len offset = record {
  io_base = base;
  io_offset = offset;
  io_len = len;
  io_resid = len;
}

abbrev pub iobuf_used : Iobuf → ℕ
iobuf_used iob = iob.io_len - iob.io_resid

unfoldable pub iobuf_skip : Iobuf → ℕ → Option Iobuf
iobuf_skip iob n = do
  assert (leb n iob.io_resid)
  some (record iob {
    io_base = add64 iob.io_base n;
    io_offset = add64 iob.io_offset n;
    io_resid = iob.io_resid - n;
  })

-- Whether all that was asked for was moved (`-E_NO_MEM` if not), and how much was.
pub record Moved : Type 0 where
  pub complete : Bool
  pub copied : ℕ
  pub iob : Iobuf
  pub memory : Memory

unfoldable pub iobuf_move : Iobuf → (buffer len : ℕ) → (m2b : Bool) → Memory → Option Moved
unfolding iobuf_skip memmove
iobuf_move iob buffer len m2b m =
    let alen = if ltb len iob.io_resid then len else iob.io_resid in
    let m' = if m2b then memmove iob.io_base buffer alen m else memmove buffer iob.io_base alen m in
    if ltb 0 alen
    then (do
      iob' ← iobuf_skip iob alen
      some (record { complete = len - alen == 0; copied = alen; iob = iob'; memory = m' }))
    else some (record { complete = len == 0; copied = alen; iob = iob; memory = m })

unfoldable pub iobuf_move_zeros : Iobuf → (len : ℕ) → Memory → Option Moved
unfolding iobuf_skip memset
iobuf_move_zeros iob len m =
    let alen = if ltb len iob.io_resid then len else iob.io_resid in
    if ltb 0 alen
    then (do
      iob' ← iobuf_skip iob alen
      some (record {
        complete = len - alen == 0;
        copied = alen;
        iob = iob';
        memory = memset iob.io_base 0 alen m;
      }))
    else some (record { complete = len == 0; copied = alen; iob = iob; memory = m })
