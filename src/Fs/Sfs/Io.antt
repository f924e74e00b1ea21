-- ===== src/Fs/Sfs/Io.antt =====
-- kern/fs/sfs/sfs_inode.c: reading and writing a file.
pub mod Chunks
pub mod Whole
pub mod Read
pub mod Disk
pub mod Back
pub mod Write
use nku_os.Prelude.{
  ℕ, zero, suc, ◌+◌, ◌-◌, ◌*◌, ◌/◌, ◌%◌, ◌^◌, Bool, true, false, not, ◌&&◌, ◌||◌, Option, none,
  some, ltb, leb, ◌==◌, if◌then◌else◌,
}
use nku_os.Errors.{e_inval}
use nku_os.Fs.Iobuf.{Iobuf, iobuf_skip}
use nku_os.Fs.Vfs.{Result, ok, err}
use nku_os.Fs.Sfs.{
  State, Sin, Call, ◌>>=◌, ◌>>◌, pure, assert, set_mem, sfs_blksize, sfs_rbuf, sfs_wbuf, sfs_rblock,
  sfs_wblock,
}
use nku_os.Fs.Sfs.Bmap.{sfs_bmap_load_nolock}

-- 128 MB
abbrev pub sfs_max_file_size : ℕ
sfs_max_file_size = 1024 * 1024 * 128

-- The variables of `sfs_io_nolock` that its three parts change.
pub record Progress : Type 0 where
  pub buf : ℕ
  pub blkno : ℕ
  pub nblks : ℕ
  pub alen : ℕ

-- Where the label `out` is reached: behind a part that goes on, or from within it with `ret`.
pub data Part : Type 0 where
  next : Progress → Part
  out : (ret alen : ℕ) → Part

module _ (fault : (blkno : ℕ) → (write : Bool) → Option ℕ) where
  -- `sfs_buf_op`, between memory at `buf` and a part of a block.
  unfoldable pub sfs_buf_op : (write : Bool) → (buf size blkno offset : ℕ) → Call (Unit {0})
  unfolding sfs_rbuf sfs_wbuf
  sfs_buf_op true buf size blkno offset s =
      sfs_wbuf fault (λ i. s.mem (buf + i)) size blkno offset s
  sfs_buf_op false buf size blkno offset s =
      (do bytes ← sfs_rbuf fault size blkno offset; λ s'. some (ok tt, set_mem buf size bytes s')) s

  -- `sfs_block_op`, for one block.
  unfoldable pub sfs_block_op : (write : Bool) → (buf blkno : ℕ) → Call (Unit {0})
  unfolding sfs_rblock sfs_wblock
  sfs_block_op true buf blkno s = sfs_wblock fault (λ i. s.mem (buf + i)) blkno s
  sfs_block_op false buf blkno s =
      (do bytes ← sfs_rblock fault blkno; λ s'. some (ok tt, set_mem buf sfs_blksize bytes s')) s

  -- A part of a block of the file, and a whole one.
  unfoldable pub io_part : (write : Bool) → (buf size blkno offset : ℕ) → Call (Unit {0})
  unfolding sfs_bmap_load_nolock sfs_buf_op
  io_part write buf size blkno offset = do
    ino ← sfs_bmap_load_nolock fault blkno
    sfs_buf_op write buf size ino offset

  unfoldable pub io_block : (write : Bool) → (buf blkno : ℕ) → Call (Unit {0})
  unfolding sfs_bmap_load_nolock sfs_block_op
  io_block write buf blkno = do ino ← sfs_bmap_load_nolock fault blkno; sfs_block_op write buf ino

  -- The outcome of a part: an error code goes to `out` with what was moved before.
  abbrev pub or_out : Option (Result (Unit {0}) × State) → (alen : ℕ) → Part → Option (Part × State)
  or_out none alen p = none
  or_out (some (ok u, s)) alen p = some (p, s)
  or_out (some (err e, s)) alen p = some (out e alen, s)

  abbrev pub then_part :
      Option (Part × State) → (Progress → State → Option (Part × State)) → Option (Part × State)
  then_part none k = none
  then_part (some (next p, s)) k = k p s
  then_part (some (out ret alen, s)) k = some (out ret alen, s)

  -- From `offset` to the end of its block, or to `endpos`.
  unfoldable pub first_part :
      (write : Bool) → (offset endpos : ℕ) → Progress → State → Option (Part × State)
  unfolding io_part
  first_part write offset endpos p s =
      let blkoff = offset % sfs_blksize in
      let size = if not (p.nblks == 0) then sfs_blksize - blkoff else endpos - offset in
      let moved : Part =
        if p.nblks == 0
        then out 0 (p.alen + size)
        else next (record {
          buf = p.buf + size;
          blkno = p.blkno + 1;
          nblks = p.nblks - 1;
          alen = p.alen + size;
        }) in
      let go = or_out (io_part write p.buf size p.blkno blkoff s) p.alen moved in
      if not (blkoff == 0) then go else some (next p, s)

  -- The loop over whole blocks; `n` is `nblks`.
  unfoldable pub whole_blocks :
      (n : ℕ) → (write : Bool) → (buf blkno alen : ℕ) → State → Option (Part × State)
  unfolding io_block
  whole_blocks zero write buf blkno alen s =
      some (next (record { buf = buf; blkno = blkno; nblks = 0; alen = alen }), s)
  whole_blocks (suc n) write buf blkno alen s =
      then_part
        (or_out (io_block write buf blkno s) alen (
          next (record {
            buf = buf + sfs_blksize;
            blkno = blkno + 1;
            nblks = n;
            alen = alen + sfs_blksize;
          })))
        (λ p s'. whole_blocks n write (buf + sfs_blksize) (blkno + 1) (alen + sfs_blksize) s')

  unfoldable pub last_part :
      (write : Bool) → (endpos : ℕ) → Progress → State → Option (Part × State)
  unfolding io_part
  last_part write endpos p s =
      let size = endpos % sfs_blksize in
      let go = or_out (io_part write p.buf size p.blkno 0 s) p.alen (out 0 (p.alen + size)) in
      if not (size == 0) then go else some (out 0 p.alen, s)

  -- Behind `out`: `ret`, what goes to `alenp`, and the size of the file, which is a `uint32_t`.
  abbrev pub finish_io : (offset : ℕ) → Part → State → (ℕ × ℕ) × State
  finish_io offset (next p) s = ((0, p.alen), s)
  finish_io offset (out ret alen) s =
      let v = s.sin in
      let grown = record s { sin = record v { size = (offset + alen) % 2 ^ 32; dirty = true } } in
      ((ret, alen), if ltb v.size (offset + alen) then grown else s)

  abbrev pub ended : (offset : ℕ) → Option (Part × State) → Option ((ℕ × ℕ) × State)
  ended offset none = none
  ended offset (some (part, s)) = some (finish_io offset part s)

  abbrev pub run_parts : (write : Bool) → (buf offset endpos : ℕ) → State → Option ((ℕ × ℕ) × State)
  unfolding first_part whole_blocks last_part
  run_parts write buf offset endpos s =
      let blkno = offset / sfs_blksize in
      let start : Progress = record {
        buf = buf;
        blkno = blkno;
        nblks = endpos / sfs_blksize - blkno;
        alen = 0;
      } in
      ended offset (
        then_part
          (then_part (first_part write offset endpos start s)
            (λ p s'. whole_blocks p.nblks write p.buf p.blkno p.alen s'))
          (λ p s'. last_part write endpos p s'))

  -- `ret` and what goes to `alenp`. `off_t` is signed: the patterns from 2 ^ 63 on are the negative numbers.
  unfoldable pub sfs_io_nolock :
      (write : Bool) → (buf offset alen : ℕ) → State → Option ((ℕ × ℕ) × State)
  unfolding run_parts
  sfs_io_nolock write buf offset alen s =
      let endpos = (offset + alen) % 2 ^ 64 in
      let end = if ltb sfs_max_file_size endpos then sfs_max_file_size else endpos in
      let bad =
        leb (2 ^ 63) offset
        || leb sfs_max_file_size offset
        || leb (2 ^ 63) endpos
        || ltb endpos offset in
      if s.sin.is_dir
      then none
      else if bad
      then some ((e_inval, 0), s)
      else if offset == endpos
      then some ((0, 0), s)
      else run_parts write buf offset end s

  -- What follows in `sfs_io`: the record of the transfer, in which what was moved is skipped.
  abbrev pub skipped : Iobuf → Option ((ℕ × ℕ) × State) → Option ((ℕ × Iobuf) × State)
  unfolding iobuf_skip
  skipped iob none = none
  skipped iob (some ((ret, alen), s)) =
      if alen == 0
      then some ((ret, iob), s)
      else elim (iobuf_skip iob alen) [ none ↦ none | some iob' ↦ some ((ret, iob'), s) ]

  unfoldable pub sfs_io : (write : Bool) → Iobuf → State → Option ((ℕ × Iobuf) × State)
  unfolding sfs_io_nolock skipped
  sfs_io write iob s = skipped iob (sfs_io_nolock write iob.io_base iob.io_offset iob.io_resid s)

  unfoldable pub sfs_read : Iobuf → State → Option ((ℕ × Iobuf) × State)
  unfolding sfs_io
  sfs_read iob s = sfs_io false iob s

  unfoldable pub sfs_write : Iobuf → State → Option ((ℕ × Iobuf) × State)
  unfolding sfs_io
  sfs_write iob s = sfs_io true iob s
