-- ===== src/Fs/Sfs/Io/Write.antt =====
-- Writing into the blocks that a file has.
use mathlib.Core.Path.{fun_ext}
use nku_os.Prelude.{
  ℕ, ◌+◌, ◌-◌, ◌*◌, ◌/◌, ◌%◌, ◌^◌, ◌<◌, ◌≤◌, ◌≡◌, Bool, false, true, Option, none, some, ltb, ◌==◌,
  if◌then◌else◌, arith, refl, sym, subst, ap, ◌∙◌, Bool-cases, inl, inr,
}
use nku_os.Fs.Vfs.{ok}
use nku_os.Fs.Sfs.{State, sfs_blksize, stored, set_disk}
use nku_os.Fs.Sfs.Bmap.{sfs_ndirect, sfs_blk_nentry, word_of}
use nku_os.Fs.Sfs.Steps.{slot, InUse, IsMapped, then-ok, load-slot}
use nku_os.Fs.Sfs.Io.{finish_io, out, io_part, io_block, sfs_buf_op, sfs_block_op, sfs_io_nolock}
use nku_os.Fs.Sfs.Io.Disk.{IsFile, Outside, Written, Written-none, Written-set}
use nku_os.Fs.Sfs.Io.Chunks.{PartLaw, BlockLaw}
use nku_os.Fs.Sfs.Io.Whole.{io-moved}
use nku_os.Fs.Sfs.Io.Read.{byte}

abbrev pub with_disk : (ℕ → ℕ → ℕ) → State → State
with_disk d s = let fs = s.fs in record s { fs = record fs { disk = d } }

module _ (fault : ℕ → Bool → Option ℕ) (sound : (b : ℕ) (w : Bool) → fault b w ≡ none) where
  buf_op-writes :
      (s : State) (buf size b off : ℕ)
      → InUse s b
      → off < sfs_blksize
      → off + size ≤ sfs_blksize
      → sfs_buf_op fault true buf size b off s
        ≡ some (ok tt, set_disk b off size (λ x. s.mem (buf + x)) s)
  unfolding sfs_buf_op
  buf_op-writes s buf size b off (nz, lt, test) h1 h2 = ground (arith, sound b false, sound b true)

  block_op-writes :
      (s : State) (buf b : ℕ)
      → InUse s b
      → sfs_block_op fault true buf b s
        ≡ some (ok tt, set_disk b 0 sfs_blksize (λ x. s.mem (buf + x)) s)
  unfolding sfs_block_op
  block_op-writes s buf b (nz, lt, test) = ground (arith, sound b true)

  part-writes :
      (s : State) (buf size i off : ℕ)
      → IsMapped s i
      → off < sfs_blksize
      → off + size ≤ sfs_blksize
      → io_part fault true buf size i off s
        ≡ some (ok tt, set_disk (slot s i) off size (λ x. s.mem (buf + x)) s)
  unfolding io_part
  part-writes s buf size i off m h1 h2 =
      then-ok (λ b. sfs_buf_op fault true buf size b off) (load-slot fault sound s i m)
      ∙ buf_op-writes s buf size (slot s i) off (m.2) h1 h2

  block-writes :
      (s : State) (buf i : ℕ)
      → IsMapped s i
      → io_block fault true buf i s
        ≡ some (ok tt, set_disk (slot s i) 0 sfs_blksize (λ x. s.mem (buf + x)) s)
  unfolding io_block
  block-writes s buf i m =
      then-ok (λ b. sfs_block_op fault true buf b) (load-slot fault sound s i m)
      ∙ block_op-writes s buf (slot s i) (m.2)

-- The map of the file is not changed by writing the blocks of the file.
slot-Written :
    (s : State) (buf offset k i : ℕ) (d : ℕ → ℕ → ℕ)
    → IsFile s
    → Written s buf offset k d
    → slot (with_disk d s) i ≡ slot s i
slot-Written s buf offset k i d (mapped, distinct, apart) (old, rest) =
    ap
      (λ e.
        if ltb i sfs_ndirect then s.sin.direct i else word_of (λ j. e ((i - sfs_ndirect) * 4 + j)))
      (fun_ext (λ o. rest s.sin.indirect o apart))

IsMapped-written :
    (s : State) (i : ℕ) (d : ℕ → ℕ → ℕ)
    → slot (with_disk d s) i ≡ slot s i
    → IsMapped s i
    → IsMapped (with_disk d s) i
IsMapped-written s i d e (lt, small, u, v) = (lt, small, subst (λ b. InUse s b) (sym e) u, v)

module _ (fault : ℕ → Bool → Option ℕ) (sound : (b : ℕ) (w : Bool) → fault b w ≡ none)
    (buf offset len : ℕ) (s : State) (file : IsFile s)
    (room : offset + len ≤ s.sin.blocks * sfs_blksize) where
  abbrev WrittenSoFar : ℕ → State → Type 0
  WrittenSoFar k s' = (d : ℕ → ℕ → ℕ) × (s' ≡ with_disk d s) × Written s buf offset k d

  -- The disk after a further move.
  abbrev moved : (d : ℕ → ℕ → ℕ) → (k size i off : ℕ) → ℕ → ℕ → ℕ
  moved d k size i off b =
      if b == slot s i then stored off size (λ x. s.mem (buf + k + x)) (d b) else d b

  part_written : PartLaw fault true buf offset len WrittenSoFar
  part_written k size i off at lt inside fits pos s' (d, e, w) =
      let has : i < s.sin.blocks = omega arith in
      let same = slot-Written s buf offset k i d file w in
      let d2 = moved d k size i off in
      (
        with_disk d2 s,
        subst (λ s'. io_part fault true (buf + k) size i off s' ≡ some (ok tt, with_disk d2 s))
            (sym e)
            (part-writes fault sound (with_disk d s) (buf + k) size i off
                (IsMapped-written s i d same ((file.0) i has)) lt inside
              ∙ ap
                  (λ b.
                    some (ok tt, set_disk b off size (λ x. s.mem (buf + k + x)) (with_disk d s)))
                  same),
        (d2, refl, Written-set s buf offset k size i off d file has at inside w),
      )

  block_written : BlockLaw fault true buf offset len WrittenSoFar
  block_written k i at fits s' (d, e, w) =
      let has : i < s.sin.blocks = omega arith in
      let same = slot-Written s buf offset k i d file w in
      let d2 = moved d k sfs_blksize i 0 in
      (
        with_disk d2 s,
        subst (λ s'. io_block fault true (buf + k) i s' ≡ some (ok tt, with_disk d2 s)) (sym e)
            (block-writes fault sound (with_disk d s) (buf + k) i
                (IsMapped-written s i d same ((file.0) i has))
              ∙ ap
                  (λ b.
                    some
                      (ok tt, set_disk b 0 sfs_blksize (λ x. s.mem (buf + k + x)) (with_disk d s)))
                  same),
        (
          d2,
          refl,
          Written-set s buf offset k sfs_blksize i 0 d file has (omega arith) (omega arith) w,
        ),
      )

-- The file after a write of `len` bytes at `offset` from memory at `buf`.
abbrev pub Wrote : (buf offset len : ℕ) → (s s' : State) → Type 0
Wrote buf offset len s s' =
    (s'.mem ≡ s.mem)
    × (s'.sin.size ≡ (if ltb s.sin.size (offset + len) then offset + len else s.sin.size))
    × (s'.sin.is_dir ≡ s.sin.is_dir)
    × ((i : ℕ) → slot s' i ≡ slot s i)
    × ((i : ℕ) → IsMapped s i → IsMapped s' i)
    × ((p : ℕ)
        → p < s.sin.blocks * sfs_blksize
        → byte s' p ≡ stored offset len (λ x. s.mem (buf + x)) (byte s) p)
    × ((b off : ℕ) → Outside s b → s'.fs.disk b off ≡ s.fs.disk b off)

-- The bytes of the file, from those of its blocks.
Written-byte :
    (buf offset len p : ℕ) (s : State) (d : ℕ → ℕ → ℕ)
    → IsFile s
    → Written s buf offset len d
    → p < s.sin.blocks * sfs_blksize
    → byte (with_disk d s) p ≡ stored offset len (λ x. s.mem (buf + x)) (byte s) p
Written-byte buf offset len p s d file w lt =
    let i = p / sfs_blksize in
    let o = p % sfs_blksize in
    ap (λ b. d b o) (slot-Written s buf offset len i d file w)
    ∙ (w.0) i o (omega arith) (omega arith)
    ∙ ap (λ q. stored offset len (λ x. s.mem (buf + x)) (λ p. s.fs.disk (slot s i) o) q)
        (omega arith)

finish-Wrote :
    (fault : ℕ → Bool → Option ℕ) (buf offset len : ℕ) (s : State) (d : ℕ → ℕ → ℕ)
    → IsFile s
    → offset + len < 2 ^ 32
    → Written s buf offset len d
    → (s' : State) × (finish_io fault offset (out 0 len) (with_disk d s) ≡ ((0, len), s'))
      × Wrote buf offset len s s'
finish-Wrote fault buf offset len s d file small w =
    let same : (i : ℕ) → slot (with_disk d s) i ≡ slot s i =
      λ i. slot-Written s buf offset len i d file w in
    let bytes = λ (p : ℕ) (lt : p < s.sin.blocks * sfs_blksize).
      Written-byte buf offset len p s d file w lt in
    let maps : (i : ℕ) → IsMapped s i → IsMapped (with_disk d s) i =
      λ i m. IsMapped-written s i d (same i) m in
    elim (Bool-cases (ltb s.sin.size (offset + len))) [
      | inl h ↦
          let s1 = with_disk d s in
          let v = s.sin in
          let size : (offset + len) % 2 ^ 32 ≡ offset + len = omega arith in
          (
            record s1 { sin = record v { size = (offset + len) % 2 ^ 32; dirty = true } },
            rw h refl,
            (refl, rw h size, refl, same, maps, bytes, w.1),
          )
      | inr h ↦ (with_disk d s, rw h refl, (refl, rw h refl, refl, same, maps, bytes, w.1))
    ]

-- Without faults of the device, and for a file whose blocks are all mapped to blocks in use, all different and none of them the block of
-- entries, a write of at least one byte that ends within the blocks of the file fails no assertion and returns no error and the whole length. The bytes of
-- the file from `offset` on are then those in memory from `buf` on, its other bytes are as before, its size is the larger of the old
-- size and the end of the write, its blocks are the same, and no other block of the disk and no byte of memory has changed.
pub sfs_io_nolock-Wrote :
    (fault : ℕ → Bool → Option ℕ)
    → ((b : ℕ) (w : Bool) → fault b w ≡ none)
    → (buf offset len : ℕ) (s : State) → s.sin.is_dir ≡ false
    → IsFile s
    → 0 < len
    → offset + len ≤ s.sin.blocks * sfs_blksize
    → (s' : State) × (sfs_io_nolock fault true buf offset len s ≡ some ((0, len), s'))
      × Wrote buf offset len s s'
sfs_io_nolock-Wrote fault sound buf offset len s plain file pos room =
    let last = (offset + len - 1) / sfs_blksize in
    let small : last < sfs_ndirect + sfs_blk_nentry = ((file.0) last (omega arith)).1 in
    let (s1, e1, (d, e2, w)) =
      io-moved fault true buf offset len (WrittenSoFar fault sound buf offset len s file room)
        (part_written fault sound buf offset len s file room)
        (block_written fault sound buf offset len s file room) s plain pos (omega arith)
        (s.fs.disk, refl, Written-none s buf offset) in
    let (s2, e3, wrote) = finish-Wrote fault buf offset len s d file (omega arith) w in
    (s2, e1 ∙ ap (λ t. some (finish_io fault offset (out 0 len) t)) e2 ∙ ap some e3, wrote)
