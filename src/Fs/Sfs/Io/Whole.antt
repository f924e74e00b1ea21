-- ===== src/Fs/Sfs/Io/Whole.antt =====
-- A whole transfer of sfs_io_nolock, from its parts.
use nku_os.Prelude.{
  ℕ, ◌+◌, ◌-◌, ◌*◌, ◌/◌, ◌%◌, ◌<◌, ◌≤◌, ◌≡◌, Bool, false, Option, none, some, ltb, leb, ◌==◌, ◌^◌,
  ◌||◌, if◌then◌else◌, arith, refl, subst, ap, ◌∙◌, ◌⊎◌, Bool-cases, inl, inr,
}
use nku_os.Prelude.Partial.{if_false}
use nku_os.Errors.{e_inval}
use nku_os.Fs.Sfs.{State, sfs_blksize}
use nku_os.Fs.Sfs.Io.{
  Progress, Part, next, out, or_out, then_part, first_part, whole_blocks, last_part, finish_io,
  ended, run_parts, sfs_io_nolock, sfs_max_file_size,
}
use nku_os.Fs.Sfs.Io.Chunks.{PartLaw, BlockLaw, Landed, part-at, blocks-moved, last-moved}

-- The tests of `sfs_io_nolock` for a transfer below the greatest size of a file.
not_bad :
    (offset len e : ℕ)
    → e ≡ offset + len
    → 0 < len
    → offset + len ≤ sfs_max_file_size
    → (leb (2 ^ 63) offset || leb sfs_max_file_size offset || leb (2 ^ 63) e || ltb e offset)
      ≡ false
not_bad offset len e here pos fits = ground arith

not_none : (offset len e : ℕ) → e ≡ offset + len → 0 < len → (offset == e) ≡ false
not_none offset len e here pos = ground arith

uncut :
    (offset len e : ℕ)
    → e ≡ offset + len
    → offset + len ≤ sfs_max_file_size
    → (if ltb sfs_max_file_size e then sfs_max_file_size else e) ≡ offset + len
uncut offset len e here fits = ground arith

module _ (fault : ℕ → Bool → Option ℕ) (write : Bool) (buf offset len : ℕ) (P : ℕ → State → Type 0)
    (part : PartLaw fault write buf offset len P)
    (block : BlockLaw fault write buf offset len P) where
  -- What is done before the whole blocks.
  abbrev FirstDone : State → Option (Part × State) → Type 0
  FirstDone s o =
      ((s' : State) × (o ≡ some (out 0 len, s')) × P len s')
      ⊎ ((s' : State) × (q : Progress) × (e : ℕ) × (o ≡ some (next q, s'))
          × Landed fault write buf offset len P e q
          × (e ≤ len)
          × (q.nblks ≡ (offset + len) / sfs_blksize - q.blkno)
          × P e s')

  first-moved :
      (n : ℕ) (s : State)
      → n ≡ (offset + len) / sfs_blksize - offset / sfs_blksize
      → 0 < len
      → P 0 s
      → FirstDone s (
          first_part fault write offset
            (offset + len)
            (record { buf = buf; blkno = offset / sfs_blksize; nblks = n; alen = 0 })
            s)
  unfolding first_part
  first-moved n s n_at pos p =
      let i = offset / sfs_blksize in
      let off = offset % sfs_blksize in
      elim (Bool-cases (off == 0)) [
        | inl h ↦ inr (
          s,
          record { buf = buf; blkno = i; nblks = n; alen = 0 },
          0,
          rw h refl,
          (omega arith, ground (arith, h), refl),
          omega arith,
          n_at,
          p,
        )
        | inr h ↦ elim (Bool-cases (n == 0)) [
          | inl g ↦
              let size = offset + len - offset in
              let whole : 0 + size ≡ len = omega arith in
              let inside : off + size ≤ sfs_blksize = ground (arith, n_at, g) in
              let (s1, e1, p1) =
                part-at fault write buf offset len P part block buf 0 size i off s (omega arith)
                  (omega arith) (omega arith) inside (omega arith) (omega arith) p in
              inl (
                s1,
                rw h (
                    rw g (
                      ap (λ o. or_out fault o 0 (out 0 (0 + size))) e1
                      ∙ ap (λ k. some (out 0 k, s1)) whole)),
                subst (λ k. P k s1) whole p1,
              )
          | inr g ↦
              let size = sfs_blksize - off in
              let within : size ≤ len = ground (arith, n_at, g) in
              let later : 0 < size = omega arith in
              let (s1, e1, p1) =
                part-at fault write buf offset len P part block buf 0 size i off s (omega arith)
                  (omega arith) (omega arith) (omega arith) (omega arith) later p in
              let q : Progress = record {
                buf = buf + size;
                blkno = i + 1;
                nblks = n - 1;
                alen = 0 + size;
              } in
              inr (
                s1,
                q,
                0 + size,
                rw h (rw g (ap (λ o. or_out fault o 0 (next q)) e1)),
                (omega arith, omega arith, refl),
                omega arith,
                omega arith,
                p1,
              )
        ]
      ]

  -- The three parts, behind one another.
  pub parts-moved :
      (s : State)
      → 0 < len
      → P 0 s
      → (s' : State) × (run_parts fault write buf offset (offset + len) s
          ≡ some (finish_io fault offset (out 0 len) s'))
        × P len s'
  unfolding run_parts
  parts-moved s pos p =
      let n = (offset + len) / sfs_blksize - offset / sfs_blksize in
      let loop : Progress → State → Option (Part × State) =
        λ q s'. whole_blocks fault q.nblks write q.buf q.blkno q.alen s' in
      let last : Progress → State → Option (Part × State) =
        λ q s'. last_part fault write (offset + len) q s' in
      let from_first : Option (Part × State) → Option ((ℕ × ℕ) × State) =
        λ o. ended fault offset (then_part fault (then_part fault o loop) last) in
      elim (first-moved n s refl pos p) [
        | inl (s1, e1, p1) ↦ (s1, ap from_first e1, p1)
        | inr (s1, q, e, e1, (at_buf, at_blk, at_len), le, n_at, p1) ↦
            let stop = e + q.nblks * sfs_blksize in
            let (s2, r, e2, l, p2) =
              blocks-moved fault write buf offset len P part block q.nblks q.buf q.blkno e stop s1
                at_buf at_blk refl (omega arith) p1 in
            let (s3, e3, p3) =
              last-moved fault write buf offset len P part block r stop s2 l (omega arith)
                (omega arith) p2 in
            (
              s3,
              ap from_first e1
                  ∙ ap
                      (λ k. ended fault offset (
                        then_part fault (whole_blocks fault q.nblks write q.buf q.blkno k s1) last))
                      at_len
                  ∙ ap (λ o. ended fault offset (then_part fault o last)) e2
                  ∙ ap (ended fault offset) e3,
              p3,
            )
      ]

  -- A transfer that ends below the greatest size of a file.
  pub io-moved :
      (s : State)
      → s.sin.is_dir ≡ false
      → 0 < len
      → offset + len ≤ sfs_max_file_size
      → P 0 s
      → (s' : State) × (sfs_io_nolock fault write buf offset len s
          ≡ some (finish_io fault offset (out 0 len) s'))
        × P len s'
  unfolding sfs_io_nolock
  io-moved s file pos fits p =
      let (s1, e1, p1) = parts-moved s pos p in
      let endpos = (offset + len) % 2 ^ 64 in
      let end = if ltb sfs_max_file_size endpos then sfs_max_file_size else endpos in
      let bad =
        leb (2 ^ 63) offset
        || leb sfs_max_file_size offset
        || leb (2 ^ 63) endpos
        || ltb endpos offset in
      let run = run_parts fault write buf offset end s in
      let some_bytes = if offset == endpos then some ((0, 0), s) else run in
      let good = if bad then some ((e_inval, 0), s) else some_bytes in
      let here : endpos ≡ offset + len = omega arith in
      (
        s1,
        if_false s.sin.is_dir none good file
            ∙ if_false bad (some ((e_inval, 0), s)) some_bytes
                (not_bad offset len endpos here pos fits)
            ∙ if_false (offset == endpos) (some ((0, 0), s)) run
                (not_none offset len endpos here pos)
            ∙ ap (λ e. run_parts fault write buf offset e s) (uncut offset len endpos here fits)
            ∙ e1,
        p1,
      )
