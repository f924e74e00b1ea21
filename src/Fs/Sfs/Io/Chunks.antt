-- ===== src/Fs/Sfs/Io/Chunks.antt =====
-- How sfs_io_nolock cuts a transfer into parts of blocks and whole blocks.
use nku_os.Prelude.{
  ℕ, zero, suc, ◌+◌, ◌*◌, ◌%◌, ◌<◌, ◌≤◌, ◌≡◌, Bool, Option, some, ◌==◌, arith, refl, sym, subst, ap,
  ◌∙◌, Bool-cases, inl, inr,
}
use nku_os.Fs.Vfs.{ok}
use nku_os.Fs.Sfs.{State, sfs_blksize}
use nku_os.Fs.Sfs.Io.{
  Progress, next, out, io_part, io_block, or_out, then_part, whole_blocks, last_part,
}

-- A transfer of `len` bytes from `offset` on; `P k s` holds of the state after `k` bytes.
module _ (fault : ℕ → Bool → Option ℕ) (write : Bool) (buf offset len : ℕ)
    (P : ℕ → State → Type 0) where
  -- What a move of `size` bytes makes of `P`.
  abbrev pub Moves : (k size i off : ℕ) → Type 0
  Moves k size i off =
      (s : State)
      → P k s
      → (s' : State) × (io_part fault write (buf + k) size i off s ≡ some (ok tt, s'))
        × P (k + size) s'

  abbrev pub MovesBlock : (k i : ℕ) → Type 0
  MovesBlock k i =
      (s : State)
      → P k s
      → (s' : State) × (io_block fault write (buf + k) i s ≡ some (ok tt, s'))
        × P (k + sfs_blksize) s'

  -- The laws of a transfer: each move within it keeps `P`.
  abbrev pub PartLaw : Type 0
  PartLaw =
      (k size i off : ℕ)
      → offset + k ≡ i * sfs_blksize + off
      → off < sfs_blksize
      → off + size ≤ sfs_blksize
      → k + size ≤ len
      → 0 < size
      → Moves k size i off

  abbrev pub BlockLaw : Type 0
  BlockLaw = (k i : ℕ) → offset + k ≡ i * sfs_blksize → k + sfs_blksize ≤ len → MovesBlock k i

  -- At a border of blocks, `e` bytes on.
  abbrev pub Landed : ℕ → Progress → Type 0
  Landed e q = (q.buf ≡ buf + e) × (offset + e ≡ q.blkno * sfs_blksize) × (q.alen ≡ e)

  module _ (part : PartLaw) (block : BlockLaw) where
    pub part-at :
        (b k size i off : ℕ) (s : State)
        → b ≡ buf + k
        → offset + k ≡ i * sfs_blksize + off
        → off < sfs_blksize
        → off + size ≤ sfs_blksize
        → k + size ≤ len
        → 0 < size
        → P k s
        → (s' : State) × (io_part fault write b size i off s ≡ some (ok tt, s')) × P (k + size) s'
    part-at b k size i off s b_at at lt in_block fits pos p =
        subst
          (λ b.
            (s' : State) × (io_part fault write b size i off s ≡ some (ok tt, s'))
            × P (k + size) s')
          (sym b_at) (part k size i off at lt in_block fits pos s p)

    block-at :
        (b k i : ℕ) (s : State)
        → b ≡ buf + k
        → offset + k ≡ i * sfs_blksize
        → k + sfs_blksize ≤ len
        → P k s
        → (s' : State) × (io_block fault write b i s ≡ some (ok tt, s')) × P (k + sfs_blksize) s'
    block-at b k i s b_at at fits p =
        subst
          (λ b.
            (s' : State) × (io_block fault write b i s ≡ some (ok tt, s')) × P (k + sfs_blksize) s')
          (sym b_at) (block k i at fits s p)

    -- The loop over whole blocks.
    pub blocks-moved :
        (n b i k e : ℕ) (s : State)
        → b ≡ buf + k
        → offset + k ≡ i * sfs_blksize
        → e ≡ k + n * sfs_blksize
        → e ≤ len
        → P k s
        → (s' : State) × (q : Progress) × (whole_blocks fault n write b i k s ≡ some (next q, s'))
          × Landed e q
          × P e s'
    unfolding whole_blocks
    blocks-moved zero b i k e s b_at at stop fits p =
        let here : k ≡ e = omega arith in
        (
          s,
          record { buf = b; blkno = i; nblks = 0; alen = k },
          refl,
          (omega arith, omega arith, here),
          subst (λ k. P k s) here p,
        )
    blocks-moved (suc n) b i k e s b_at at stop fits p =
        let (s1, e1, p1) = block-at b k i s b_at at (omega arith) p in
        let (s2, q, e2, l, p2) =
          blocks-moved n (b + sfs_blksize) (i + 1) (k + sfs_blksize) e s1 (omega arith)
            (omega arith) (omega arith) fits p1 in
        (
          s2,
          q,
          ap
                (λ o.
                  then_part fault
                    (or_out fault o k (
                      next (record {
                        buf = b + sfs_blksize;
                        blkno = i + 1;
                        nblks = n;
                        alen = k + sfs_blksize;
                      })))
                    (λ p s'.
                      whole_blocks fault n write (b + sfs_blksize) (i + 1) (k + sfs_blksize) s'))
                e1
              ∙ e2,
          l,
          p2,
        )

    pub last-moved :
        (q : Progress) (e : ℕ) (s : State)
        → Landed e q
        → e ≤ len
        → len < e + sfs_blksize
        → P e s
        → (s' : State) × (last_part fault write (offset + len) q s ≡ some (out 0 len, s'))
          × P len s'
    unfolding last_part
    last-moved q e s (at_buf, at_blk, at_len) le lt p =
        elim (Bool-cases ((offset + len) % sfs_blksize == 0)) [
          | inl h ↦
              let here : e ≡ len = ground (arith, h) in
              (s, rw h (ap (λ k. some (out 0 k, s)) (at_len ∙ here)), subst (λ k. P k s) here p)
          | inr h ↦
              let r = (offset + len) % sfs_blksize in
              let pos : 0 < r = ground (arith, h) in
              let fits : e + r ≡ len = ground (arith, at_blk) in
              let (s1, e1, p1) =
                part-at q.buf e r q.blkno 0 s at_buf (omega arith) (omega arith) (omega arith)
                  (omega arith) pos p in
              (
                s1,
                rw h (
                    ap (λ o. or_out fault o q.alen (out 0 (q.alen + r))) e1
                    ∙ ap (λ k. some (out 0 k, s1)) (omega arith)),
                subst (λ k. P k s1) fits p1,
              )
        ]
