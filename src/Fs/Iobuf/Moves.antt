-- ===== src/Fs/Iobuf/Moves.antt =====
-- What one call of iobuf_move or iobuf_move_zeros transfers.
use nku_os.Prelude.{
  ℕ, zero, suc, ◌+◌, ◌-◌, ◌≤◌, ◌≡◌, Bool, true, false, some, ltb, leb, ◌==◌, if◌then◌else◌, arith,
  refl,
}
use Prim.Native.Nat.{min}
use nku_os.Strings.{Memory, memset, memmove}
use nku_os.Strings.Blocks.{Writes, memset-Writes, memmove-Writes}
use nku_os.Fs.Iobuf.{Iobuf, Moved, add64, iobuf_used, iobuf_skip, iobuf_move, iobuf_move_zeros}

-- The record and the result after `alen` bytes, and what is left to check of them.
abbrev moved : Iobuf → (len alen : ℕ) → Memory → Moved
moved iob len alen m = record {
  complete = len - alen == 0;
  copied = alen;
  iob =
      if ltb 0 alen
      then record iob {
        io_base = add64 iob.io_base alen;
        io_offset = add64 iob.io_offset alen;
        io_resid = iob.io_resid - alen;
      }
      else iob;
  memory = m;
}

-- As much is transferred as was asked for and as the record has left; the call reports success
-- exactly when that is all that was asked for, and the record counts what was transferred.
abbrev pub Counts : Iobuf → ℕ → Moved → Type 0
Counts iob len r =
    (r.copied ≡ min iob.io_resid len)
    × (r.complete ≡ leb len iob.io_resid)
    × (r.iob.io_resid + r.copied ≡ iob.io_resid)
    × (iobuf_used r.iob ≡ iobuf_used iob + r.copied)

nothing_Writes : (dst : ℕ) (m : Memory) (value : ℕ → ℕ) → Writes m m dst 0 value
nothing_Writes dst m value = (λ k h. elim h [ ], λ a h. refl)

if_Writes :
    (dst n : ℕ) (m m' : Memory) (value : ℕ → ℕ)
    → Writes m m' dst n value
    → Writes m (if ltb 0 n then m' else m) dst n value
if_Writes dst zero m m' value w = nothing_Writes dst m value
if_Writes dst (suc n) m m' value w = let e : ltb 0 (suc n) ≡ true = ground arith in rw e w

-- With no more left than the whole length, `iobuf_move` never fails its assertion and copies the first bytes of the one buffer, as they
-- were before the call, to the other, in the direction asked for; it touches no other byte. It copies the smaller of what was asked for and
-- what the record has left, reports success exactly if that is all that was asked for, and the record
-- counts it.
pub iobuf_move-Counts :
    (iob : Iobuf) (buffer len : ℕ) (m2b : Bool) (m : Memory)
    → iob.io_resid ≤ iob.io_len
    → (r : Moved) × (iobuf_move iob buffer len m2b m ≡ some r)
      × Counts iob len r
      × Writes m r.memory
          (if m2b then iob.io_base else buffer)
          r.copied
          (λ k. m ((if m2b then buffer else iob.io_base) + k))
unfolding iobuf_move iobuf_skip
iobuf_move-Counts iob buffer len m2b m h =
    let alen = if ltb len iob.io_resid then len else iob.io_resid in
    let m' = if m2b then memmove iob.io_base buffer alen m else memmove buffer iob.io_base alen m in
    (
      moved iob len alen (if ltb 0 alen then m' else m),
      ground arith,
      (ground arith, ground arith, ground arith, ground arith),
      if_Writes (if m2b then iob.io_base else buffer) alen m m'
          (λ k. m ((if m2b then buffer else iob.io_base) + k)) (direction m2b alen),
    )
  where
    direction :
        (b : Bool) (n : ℕ)
        → Writes m
            (if b then memmove iob.io_base buffer n m else memmove buffer iob.io_base n m)
            (if b then iob.io_base else buffer)
            n
            (λ k. m ((if b then buffer else iob.io_base) + k))
    direction true n = memmove-Writes iob.io_base buffer n m
    direction false n = memmove-Writes buffer iob.io_base n m

-- With no more left than the whole length, `iobuf_move_zeros` never fails its assertion and clears the first bytes of the buffer of the record; it touches no other byte. How many it clears, its result and the count in
-- the record are as for `iobuf_move`.
pub iobuf_move_zeros-Counts :
    (iob : Iobuf) (len : ℕ) (m : Memory)
    → iob.io_resid ≤ iob.io_len
    → (r : Moved) × (iobuf_move_zeros iob len m ≡ some r)
      × Counts iob len r
      × Writes m r.memory iob.io_base r.copied (λ _. 0)
unfolding iobuf_move_zeros iobuf_skip
iobuf_move_zeros-Counts iob len m h =
    let alen = if ltb len iob.io_resid then len else iob.io_resid in
    (
      moved iob len alen (if ltb 0 alen then memset iob.io_base 0 alen m else m),
      ground arith,
      (ground arith, ground arith, ground arith, ground arith),
      if_Writes iob.io_base alen m (memset iob.io_base 0 alen m) (λ _. 0)
          (memset-Writes iob.io_base 0 alen m),
    )
