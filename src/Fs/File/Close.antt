-- ===== src/Fs/File/Close.antt =====
-- Giving up an open file: file_close, and the end of a transfer during which the file was closed.
use nku_os.Prelude.{
  ℕ, ◌-◌, ◌<◌, ◌≡◌, ◌≢◌, refl, ap, ◌∙◌, ◌⊎◌, true, false, ◌||◌, some, arith, ltb, lt→ltb, ◌==◌,
  if◌then◌else◌, Bool-cases, inl, inr,
}
use nku_os.Prelude.Partial.{assert-true, if_true, if_false}
use nku_os.Fs.Vfs.{ok, err, Vfs}
use nku_os.Errors.{e_inval}
use nku_os.Fs.File.{
  Status, Files, set_file, is_opened, is_closed, testfd, fd_array_free, fd_array_release,
  fd_array_close, fd2file,
}
use nku_os.Fs.File.Ops.{file_close, after_transfer}
use nku_os.Fs.File.Entries.{Quiet, IsTable, Others}

module _ {W : Type 0} (nentry : ℕ) (v : Vfs (Files W)) (quiet : Quiet v) where
  free_lem :
      (i : ℕ) (s : Files W)
      → (s.file i).status ≡ Status.fd_closed
      → (s.file i).open_count ≡ 0
      → (t : Files W) × (fd_array_free nentry v i s ≡ some t)
        × Others nentry v i s t
        × ((t.file i).status ≡ Status.fd_none)
        × ((t.file i).open_count ≡ 0)
        × ((t.file i).fd ≡ (s.file i).fd)
        × (t.world ≡ (v.vfs_close (s.file i).node s).world)
  unfolding fd_array_free
  free_lem i s closed idle =
      let s1 = v.vfs_close (s.file i).node s in
      let g = s1.file i in
      (
        set_file i (record g { status = Status.fd_none }) s1,
        rw (closed, idle) refl,
        λ j ne. ground (arith, ne, ap (λ f. f j) (quiet.vfs_close_file (s.file i).node s)),
        ground arith,
        ground (arith, idle, ap (λ f. f i) (quiet.vfs_close_file (s.file i).node s)),
        ground (arith, ap (λ f. f i) (quiet.vfs_close_file (s.file i).node s)),
        refl,
      )

  -- A state in which `i` has lost a reference; if it was the last one, the entry is freed.
  abbrev pub Dropped : (i : ℕ) → (s mid t : Files W) → Type 0
  Dropped i s mid t =
      Others nentry v i s t
      × ((((s.file i).open_count ≡ 1)
            × ((t.file i).status ≡ Status.fd_none)
            × ((t.file i).open_count ≡ 0)
            × ((t.file i).fd ≡ (s.file i).fd)
            × (t.world ≡ (v.vfs_close (s.file i).node mid).world))
          ⊎ (((s.file i).open_count ≢ 1) × (t ≡ mid)))

  -- A closed entry with one reference less.
  abbrev pub closing : ℕ → Files W → Files W
  closing i s =
      let f = s.file i in
      set_file i (record f { status = Status.fd_closed; open_count = f.open_count - 1 }) s

  close_step :
      (i : ℕ) (s : Files W)
      → (s.file i).status ≡ Status.fd_opened
      → 0 < (s.file i).open_count
      → fd_array_close nentry v i s ≡ (
          if (s.file i).open_count - 1 == 0
          then fd_array_free nentry v i (closing i s)
          else some (closing i s))
  unfolding fd_array_close
  close_step i s opened pos =
      assert-true (is_opened (s.file i).status) _ (rw opened refl)
      ∙ assert-true (ltb 0 (s.file i).open_count) _ (lt→ltb 0 (s.file i).open_count pos)

  close_lem :
      (i : ℕ) (s : Files W)
      → (s.file i).status ≡ Status.fd_opened
      → 0 < (s.file i).open_count
      → (t : Files W) × (fd_array_close nentry v i s ≡ some t) × Dropped i s (closing i s) t
  close_lem i s opened pos = elim (Bool-cases ((s.file i).open_count - 1 == 0)) [
    | inl last ↦
        let r = free_lem i (closing i s) (ground arith) (ground (arith, last)) in
        (
          r.0,
          close_step i s opened pos ∙ if_true _ _ _ last ∙ r.1,
          (
            λ j ne. ground (arith, r.2 j ne, ne),
            inl (ground (arith, last, pos), r.3, r.4, ground (arith, r.5), ground (arith, r.6)),
          ),
        )
    | inr more ↦ (
      closing i s,
      close_step i s opened pos ∙ if_false _ _ _ more,
      (λ j ne. ground (arith, ne), inr (ground (arith, more), refl)),
    )
  ]

  fd2file_shut :
      (fd : ℕ) (s : Files W)
      → is_opened (s.file fd).status ≡ false
      → fd2file nentry v fd s ≡ err e_inval
  unfolding fd2file
  fd2file_shut fd s h = ground (arith, h)

  fd2file_open :
      (fd : ℕ) (s : Files W)
      → testfd nentry v fd ≡ true
      → (s.file fd).status ≡ Status.fd_opened
      → (s.file fd).fd ≡ fd
      → fd2file nentry v fd s ≡ ok fd
  unfolding fd2file
  fd2file_open fd s inside opened same = ground (arith, inside, opened, same)

  -- A descriptor that stands for no open file is refused, and nothing changes.
  close_invalid :
      (fd : ℕ) (s : Files W)
      → is_opened (s.file fd).status ≡ false
      → file_close nentry v fd s ≡ some (err e_inval, s)
  unfolding file_close
  close_invalid fd s h = rw (fd2file_shut fd s h, file_close) refl

  Dropped-unopened :
      (i : ℕ) (s t : Files W) → Dropped i s (closing i s) t → is_opened (t.file i).status ≡ false
  Dropped-unopened i s t h = elim h.1 [
    | inl last ↦ rw last.1 refl
    | inr more ↦ rw more.1 (ground arith)
  ]

  Dropped-IsTable :
      (i : ℕ) (s t : Files W)
      → 0 < (s.file i).open_count
      → Dropped i s (closing i s) t
      → IsTable nentry v s
      → IsTable nentry v t
  Dropped-IsTable i s t pos h valid = λ j lt. elim (Bool-cases (j == i)) [
    | inr there ↦ rw (h.0 j (ground (arith, there))) (valid j lt)
    | inl here ↦ elim h.1 [
      | inl last ↦ (
        ground (arith, here, last.3, valid j lt),
        λ x. ground (arith, here, last.2),
        λ x. ground (arith, here, last.1, x),
        λ x. ground (arith, here, last.1, x),
      )
      | inr more ↦ rw more.1 (
        ground (arith, here, valid j lt),
        λ x. ground (arith, here, x),
        λ x. ground (arith, here, more.0, pos),
        λ x. ground (arith, here, x),
      )
    ]
  ]

  -- With a consistent table and no other thread running, `file_close` of an open file succeeds. The last reference gone, the inode
  -- is closed, once, and the entry is unused; while a transfer holds another reference, the
  -- entry is only marked closed and no inode is closed. The other entries are as before, the table is
  -- consistent again, and closing the same descriptor a second time gives `-E_INVAL` and changes nothing.
  pub file_close_lem :
      (fd : ℕ) (s : Files W)
      → IsTable nentry v s
      → testfd nentry v fd ≡ true
      → (s.file fd).status ≡ Status.fd_opened
      → (t : Files W) × (file_close nentry v fd s ≡ some (ok tt, t))
        × Dropped fd s (closing fd s) t
        × IsTable nentry v t
        × (file_close nentry v fd t ≡ some (err e_inval, t))
  unfolding file_close
  file_close_lem fd s valid inside opened =
      let entry = valid fd (ground (arith, inside)) in
      let pos : 0 < (s.file fd).open_count = entry.2 (rw opened refl) in
      let r = close_lem fd s opened pos in
      let found = fd2file_open fd s inside opened entry.0 in
      let step : file_close nentry v fd s ≡ some (ok tt, r.0) = rw (found, file_close, r.1) refl in
      (
        r.0,
        step,
        r.2,
        Dropped-IsTable fd s r.0 pos r.2 valid,
        close_invalid fd r.0 (Dropped-unopened fd s r.0 r.2),
      )

  -- The entry with one reference less.
  abbrev pub released : ℕ → Files W → Files W
  released i s = let f = s.file i in set_file i (record f { open_count = f.open_count - 1 }) s

  release_step :
      (i : ℕ) (s : Files W)
      → is_opened (s.file i).status || is_closed (s.file i).status ≡ true
      → 0 < (s.file i).open_count
      → fd_array_release nentry v i s ≡ (
          if (s.file i).open_count - 1 == 0
          then fd_array_free nentry v i (released i s)
          else some (released i s))
  unfolding fd_array_release
  release_step i s used pos =
      assert-true (is_opened (s.file i).status || is_closed (s.file i).status) _ used
      ∙ assert-true (ltb 0 (s.file i).open_count) _ (lt→ltb 0 (s.file i).open_count pos)

  -- A transfer ends after the file was closed meanwhile, and `vfs_close` leaves the table alone: the end of `file_read` and `file_write`
  -- succeeds and leaves the position alone. With the last reference the inode is closed, once, and the
  -- entry is unused; otherwise only the reference goes. No other entry changes.
  pub after_transfer-closed :
      (i copied : ℕ) (s : Files W)
      → (s.file i).status ≡ Status.fd_closed
      → 0 < (s.file i).open_count
      → (t : Files W) × (after_transfer nentry v i copied s ≡ some t) × Dropped i s (released i s) t
  unfolding after_transfer
  after_transfer-closed i copied s closed pos =
      let start : after_transfer nentry v i copied s ≡ fd_array_release nentry v i s =
        ap (fd_array_release nentry v i)
          (if_false (is_opened (s.file i).status) _ s (rw closed refl)) in
      let step = release_step i s (rw closed refl) pos in
      elim (Bool-cases ((s.file i).open_count - 1 == 0)) [
        | inl last ↦
            let r = free_lem i (released i s) (ground (arith, closed)) (ground (arith, last)) in
            (
              r.0,
              start ∙ step ∙ if_true _ _ _ last ∙ r.1,
              (
                λ j ne. ground (arith, r.2 j ne, ne),
                inl (ground (arith, last, pos), r.3, r.4, ground (arith, r.5), ground (arith, r.6)),
              ),
            )
        | inr more ↦ (
          released i s,
          start ∙ step ∙ if_false _ _ _ more,
          (λ j ne. ground (arith, ne), inr (ground (arith, more), refl)),
        )
      ]
