-- ===== src/Fs/Sfs/Io/Back.antt =====
-- Reading back what was written.
use nku_os.Prelude.{
  ℕ, ◌+◌, ◌-◌, ◌*◌, ◌<◌, ◌≤◌, ◌≡◌, Bool, false, true, Option, none, some, ltb, leb, ◌&&◌, arith, ap,
  ◌∙◌,
}
use nku_os.Fs.Sfs.{State, sfs_blksize, stored, set_mem}
use nku_os.Fs.Sfs.Io.{sfs_io_nolock}
use nku_os.Fs.Sfs.Io.Disk.{IsFile}
use nku_os.Fs.Sfs.Io.Read.{byte, sfs_io_nolock-reads}
use nku_os.Fs.Sfs.Io.Write.{sfs_io_nolock-Wrote}

stored-at : (base len x : ℕ) (f m : ℕ → ℕ) → x < len → stored base len f m (base + x) ≡ f x
stored-at base len x f m lt =
    let yes : (leb base (base + x) && ltb (base + x) (base + len)) ≡ true = ground arith in
    let at : base + x - base ≡ x = omega arith in rw yes (ap f at)

-- Without faults of the device, and for a file whose blocks are all mapped to blocks in use, all different and none of them the block of
-- entries, what is written within the blocks of the file is read back: both calls succeed with the whole length, and each byte
-- at `back`, where it is read to, is the one that was at `buf`, where it was written from.
pub sfs_io_nolock-back :
    (fault : ℕ → Bool → Option ℕ)
    → ((b : ℕ) (w : Bool) → fault b w ≡ none)
    → (buf back offset len : ℕ) (s : State) → s.sin.is_dir ≡ false
    → IsFile s
    → 0 < len
    → offset + len ≤ s.sin.blocks * sfs_blksize
    → (s1 s2 : State) × (sfs_io_nolock fault true buf offset len s ≡ some ((0, len), s1))
      × (sfs_io_nolock fault false back offset len s1 ≡ some ((0, len), s2))
      × ((x : ℕ) → x < len → s2.mem (back + x) ≡ s.mem (buf + x))
sfs_io_nolock-back fault sound buf back offset len s plain file pos room =
    let (s1, e1, (mem, size, dir, slots, maps, bytes, rest)) =
      sfs_io_nolock-Wrote fault sound buf offset len s plain file pos room in
    let mapped =
      λ (i : ℕ) (h : i * sfs_blksize < offset + len). maps i ((file.0) i (omega arith)) in
    let e2 =
      sfs_io_nolock-reads fault sound back offset len s1 (dir ∙ plain) pos (ground (arith, size))
        mapped in
    (
      s1,
      set_mem back len (λ j. byte s1 (offset + j)) s1,
      e1,
      e2,
      λ x lt.
          stored-at back len x (λ j. byte s1 (offset + j)) s1.mem lt
          ∙ bytes (offset + x) (omega arith)
          ∙ stored-at offset len x (λ x. s.mem (buf + x)) (byte s) lt,
    )
