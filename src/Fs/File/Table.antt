-- ===== src/Fs/File/Table.antt =====
-- What file_open does to the open-file table.
use mathlib.Core.Path.{subst}
use nku_os.Prelude.{
  ℕ, ◌<◌, ◌≡◌, ◌≢◌, refl, ap, ◌∙◌, ◌⊎◌, Bool, true, ◌||◌, some, List, arith, lt→ltb, ◌==◌,
  Bool-cases, Option-cases, inl, inr,
}
use nku_os.Fs.Vfs.{Result, ok, err, Vfs}
use nku_os.Errors.{e_inval, e_max_open}
use nku_os.Fs.File.{Status, Files, set_file, is_none, find_unused, claim_entry, fd_array_alloc}
use nku_os.Fs.File.Ops.{access_mode, appends, set_pos, open_at_end, open_entry, file_open}
use nku_os.Fs.File.Entries.{
  Quiet, IsTable, FirstUnused, Others, Fresh, JustOpened, Settled, Settles, Settles-from,
  give_up_lem, install_lem, Fresh-frame, find_unused-first, Result-cases,
}

-- What the file systems do on an open of `path` in the world `w`: no assertion of `vfs_open` fails, nor one of
-- `vop_fstat` on the node that it returns, nor one of `vfs_close` behind a `vop_fstat` that fails.
pub record OpenReturns {W : Type 0} (v : Vfs (Files W)) (path : List ℕ) (open_flags : ℕ) (w : W)
    : Type 0 where
  pub opening : (s : Files W) → s.world ≡ w → v.vfs_open_returns path open_flags s ≡ true
  pub stating :
      (s t : Files W) (node : ℕ)
      → s.world ≡ w
      → (v.vfs_open path open_flags s).0 ≡ ok node
      → t.world ≡ (v.vfs_open path open_flags s).1.world
      → v.vop_fstat_returns node t ≡ true
  pub closing :
      (s t : Files W) (node e : ℕ)
      → s.world ≡ w
      → (v.vfs_open path open_flags s).0 ≡ ok node
      → t.world ≡ (v.vfs_open path open_flags s).1.world
      → (v.vop_fstat node t).0 ≡ err e
      → v.vfs_close_returns node (v.vop_fstat node t).1 ≡ true

module _ {W : Type 0} (nentry : ℕ) (v : Vfs (Files W)) (quiet : Quiet v) where
  open_at_end_lem :
      (i node : ℕ) (r w : Bool) (s : Files W)
      → Fresh nentry v i s
      → node ≢ 0
      → v.vop_fstat_returns node s ≡ true
      → ((e : ℕ)
          → (v.vop_fstat node s).0 ≡ err e
          → v.vfs_close_returns node (v.vop_fstat node s).1 ≡ true)
      → Settles nentry v i r w s (open_at_end nentry v i node r w s)
  unfolding open_at_end
  open_at_end_lem i node r w s h nz stats closes =
      let s1 = (v.vop_fstat node s).1 in
      let same = quiet.vop_fstat_file node s in
      elim (Result-cases nentry v (v.vop_fstat node s).0) [
        | inl (e, stat) ↦
            let s2 = v.vfs_close node s1 in
            let same2 : s2.file ≡ s.file = quiet.vfs_close_file node s1 ∙ same in
            rw (stats, stat, closes e stat, open_at_end)
              (Settles-from nentry v i r w s s2 _ (λ j _. ap (λ f. f j) same2)
                (give_up_lem nentry v i e r w s2 (Fresh-frame nentry v i s s2 same2 h)))
        | inr (size, stat) ↦
            let s2 = set_pos i size s1 in
            let fresh = Fresh-frame nentry v i s s1 same h in
            rw (stats, stat, open_at_end)
              (Settles-from nentry v i r w s s2 _ (λ j ne. ground (arith, ne, ap (λ f. f j) same))
                (install_lem nentry v i node r w s2
                  (ground (arith, fresh), ground (arith, fresh), ground (arith, fresh)) nz))
      ]

  open_entry_lem :
      (path : List ℕ) (open_flags i : ℕ) (r w : Bool) (s : Files W)
      → OpenReturns v path open_flags s.world
      → Fresh nentry v i s
      → Settles nentry v i r w s (open_entry nentry v path open_flags i r w s)
  unfolding open_entry
  open_entry_lem path open_flags i r w s returns h =
      let opens = returns.opening s refl in
      let s1 = (v.vfs_open path open_flags s).1 in
      let same = quiet.vfs_open_file path open_flags s in
      let fresh = Fresh-frame nentry v i s s1 same h in
      elim (Result-cases nentry v (v.vfs_open path open_flags s).0) [
        | inl (e, opened) ↦
            rw (opens, opened, open_entry)
              (Settles-from nentry v i r w s s1 _ (λ j _. ap (λ f. f j) same)
                (give_up_lem nentry v i e r w s1 fresh))
        | inr (node, opened) ↦
            let s2 = set_pos i 0 s1 in
            let nz = quiet.vfs_open_node path open_flags s node opened in
            let fresh2 : Fresh nentry v i s2 =
              (ground (arith, fresh), ground (arith, fresh), ground (arith, fresh)) in
            let others : Others nentry v i s s2 = λ j ne. ground (arith, ne, ap (λ f. f j) same) in
            elim (Bool-cases (appends open_flags)) [
              | inl end ↦
                  rw (opens, opened, open_entry, end)
                    (Settles-from nentry v i r w s s2 _ others (
                      open_at_end_lem i node r w s2 fresh2 nz
                        (returns.stating s s2 node refl opened refl)
                        (λ e. returns.closing s s2 node e refl opened refl)))
              | inr start ↦
                  rw (opens, opened, open_entry, start)
                    (Settles-from nentry v i r w s s2 _ others
                      (install_lem nentry v i node r w s2 fresh2 nz))
            ]
      ]

  -- What `file_open` does to a table: it opens the first unused entry, or changes no entry in use.
  abbrev pub OpenResult : (open_flags : ℕ) → Files W → Result ℕ × Files W → Type 0
  OpenResult open_flags s (ok fd, t) =
      FirstUnused nentry v nentry 0 s (some fd)
      × Others nentry v fd s t
      × JustOpened nentry v fd (access_mode open_flags == 0 || access_mode open_flags == 2)
          (access_mode open_flags == 1 || access_mode open_flags == 2) t
  OpenResult open_flags s (err e, t) =
      (j : ℕ)
      → (t.file j ≡ s.file j)
        ⊎ ((is_none (s.file j).status ≡ true)
            × ((t.file j).status ≡ Status.fd_none)
            × ((t.file j).open_count ≡ 0))

  Settled-result :
      (open_flags i : ℕ) (s s1 : Files W) (o : Result ℕ × Files W)
      → FirstUnused nentry v nentry 0 s (some i)
      → Others nentry v i s s1
      → Settled nentry v i
          (access_mode open_flags == 0 || access_mode open_flags == 2)
          (access_mode open_flags == 1 || access_mode open_flags == 2)
          s1
          o
      → OpenResult open_flags s o
  Settled-result open_flags i s s1 (ok fd, t) first e h =
      rw h.0 (first, λ j ne. h.1 j ne ∙ e j ne, h.2)
  Settled-result open_flags i s s1 (err x, t) first e h = λ j. elim (Bool-cases (j == i)) [
    | inl here ↦
        inr (ground (arith, here, first.2), ground (arith, here, h.1), ground (arith, here, h.2))
    | inr there ↦ inl (ground (arith, h.0 j, e j, there))
  ]

  Settled-IsTable :
      (i : ℕ) (r w : Bool) (s : Files W) (o : Result ℕ × Files W)
      → IsTable nentry v s
      → Settled nentry v i r w s o
      → IsTable nentry v o.1
  Settled-IsTable i r w s (ok fd, t) valid h = λ j lt. elim (Bool-cases (j == i)) [
    | inl here ↦ (
      ground (arith, here, h.2),
      λ x. ground (arith, here, h.2, x),
      λ x. ground (arith, here, h.2, x),
      λ x. ground (arith, here, h.2, x),
    )
    | inr there ↦ rw (h.1 j (ground (arith, there))) (valid j lt)
  ]
  Settled-IsTable i r w s (err e, t) valid h = λ j lt. elim (Bool-cases (j == i)) [
    | inl here ↦ (
      ground (arith, here, h.3),
      λ x. ground (arith, here, h.2, x),
      λ x. ground (arith, here, h.1, x),
      λ x. ground (arith, here, h.1, x),
    )
    | inr there ↦ rw (h.0 j (ground (arith, there))) (valid j lt)
  ]

  claim_entry_lem :
      (i : ℕ) (s : Files W)
      → (s.file i).open_count ≡ 0
      → let f = s.file i in
        claim_entry nentry v i s
        ≡ some (ok i, set_file i (record f { status = Status.fd_init; node = 0 }) s)
  unfolding claim_entry
  claim_entry_lem i s idle = ground (arith, idle)

  claimed_IsTable :
      (i : ℕ) (s : Files W)
      → IsTable nentry v s
      → (s.file i).open_count ≡ 0
      → let f = s.file i in
        IsTable nentry v (set_file i (record f { status = Status.fd_init; node = 0 }) s)
  claimed_IsTable i s valid idle = λ j lt. elim (Bool-cases (j == i)) [
    | inl here ↦ (
      ground (arith, here, valid j lt),
      λ x. ground (arith, here, idle),
      λ x. ground (arith, here, x),
      λ x. ground (arith, here, x),
    )
    | inr there ↦ rw there (valid j lt)
  ]

  -- With a consistent table of a process that holds its files, no other thread running, and where no assertion fails in the calls of the file systems that an
  -- open of this path with these flags makes, `file_open` ends: no assertion of file.c fails. If
  -- it succeeds, its result is the lowest descriptor that was unused, which is open with one
  -- reference, an inode and the access asked for, and all other entries are as before. If it fails, the
  -- entries in use are as before and the unused ones are unused: no descriptor is lost. In both cases
  -- the table is consistent again.
  pub file_open_lem :
      (path : List ℕ) (open_flags : ℕ) (s : Files W)
      → IsTable nentry v s
      → 0 < s.files_count
      → OpenReturns v path open_flags s.world
      → (o : Result ℕ × Files W) × (file_open nentry v path open_flags s ≡ some o)
        × OpenResult open_flags s o
        × IsTable nentry v o.1
  unfolding file_open fd_array_alloc
  file_open_lem path open_flags s valid held returns =
      let counted = lt→ltb 0 s.files_count held in
      elim (Bool-cases (access_mode open_flags == 3)) [
        | inl bad ↦ ((err e_inval, s), rw (bad, file_open) refl, (λ j. inl refl), valid)
        | inr good ↦ elim (Option-cases (find_unused nentry v nentry 0 s)) [
          | inl full ↦ (
            (err e_max_open, s),
            rw (good, counted, file_open, full) refl,
            (λ j. inl refl),
            valid,
          )
          | inr (i, found) ↦
              let first : FirstUnused nentry v nentry 0 s (some i) =
                subst (λ o. FirstUnused nentry v nentry 0 s o) found
                  (find_unused-first nentry v nentry 0 s) in
              let f = s.file i in
              let s1 = set_file i (record f { status = Status.fd_init; node = 0 }) s in
              let entry = valid i (omega (arith, first.1)) in
              let idle : f.open_count ≡ 0 = ground (arith, entry.1, first.2) in
              let fresh : Fresh nentry v i s1 =
                (ground (arith, entry), ground (arith, entry), ground (arith, idle)) in
              let r = access_mode open_flags == 0 || access_mode open_flags == 2 in
              let w = access_mode open_flags == 1 || access_mode open_flags == 2 in
              let rest = open_entry_lem path open_flags i r w s1 returns fresh in
              let other : Others nentry v i s s1 = λ j ne. ground (arith, ne) in
              let claim : claim_entry nentry v i s ≡ some (ok i, s1) = claim_entry_lem i s idle in
              let step : file_open nentry v path open_flags s
                  ≡ open_entry nentry v path open_flags i r w s1 =
                rw (good, counted, file_open, found, claim) refl in
              (
                rest.0,
                step ∙ rest.1,
                Settled-result open_flags i s s1 rest.0 first other rest.2,
                Settled-IsTable i r w s1 rest.0 (claimed_IsTable i s valid idle) rest.2,
              )
        ]
      ]
