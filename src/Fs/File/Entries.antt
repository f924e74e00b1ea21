-- ===== src/Fs/File/Entries.antt =====
-- The invariant of the open-file table, and how a claimed entry of it ends.
use nku_os.Prelude.{
  ℕ, zero, suc, ◌+◌, ◌≤◌, ◌<◌, ◌≡◌, ◌≢◌, refl, ◌∙◌, ◌⊎◌, Bool, true, false, ◌||◌, Option, none,
  some, List, arith, ◌==◌, Bool-cases, inl, inr,
}
use nku_os.Fs.Vfs.{Result, ok, err, Vfs}
use nku_os.Fs.File.{
  Status, File, Files, set_file, is_none, is_init, is_opened, is_closed, find_unused, fd_array_free,
  fd_array_open,
}
use nku_os.Fs.File.Ops.{install, give_up}

-- Entry `i` is consistent: it knows its index, is referred to exactly while it is open or closing,
-- and has an inode while it is open.
abbrev pub Valid : ℕ → File → Type 0
Valid i f =
    (f.fd ≡ i)
    × (is_none f.status || is_init f.status ≡ true → f.open_count ≡ 0)
    × (is_opened f.status || is_closed f.status ≡ true → 0 < f.open_count)
    × (is_opened f.status ≡ true → f.node ≢ 0)

-- While no other thread runs, the file systems leave the table alone, and a successful `vfs_open`
-- stores an inode.
pub record Quiet {W : Type 0} (v : Vfs (Files W)) : Type 0 where
  pub vfs_open_file :
      (path : List ℕ) (open_flags : ℕ) (s : Files W)
      → (v.vfs_open path open_flags s).1.file ≡ s.file
  pub vfs_open_node :
      (path : List ℕ) (open_flags : ℕ) (s : Files W) (node : ℕ)
      → (v.vfs_open path open_flags s).0 ≡ ok node
      → node ≢ 0
  pub vfs_close_file : (node : ℕ) (s : Files W) → (v.vfs_close node s).file ≡ s.file
  pub vop_fstat_file : (node : ℕ) (s : Files W) → (v.vop_fstat node s).1.file ≡ s.file

module _ {W : Type 0} (nentry : ℕ) (v : Vfs (Files W)) where
  abbrev pub IsTable : Files W → Type 0
  IsTable s = (i : ℕ) → i < nentry → Valid i (s.file i)

  -- What `find_unused` says of the entries that it looks at.
  abbrev pub FirstUnused : (n fd : ℕ) → Files W → Option ℕ → Type 0
  FirstUnused n fd s none = (j : ℕ) → fd ≤ j → j < fd + n → is_none (s.file j).status ≡ false
  FirstUnused n fd s (some i) =
      (fd ≤ i)
      × (i < fd + n)
      × (is_none (s.file i).status ≡ true)
      × ((j : ℕ) → fd ≤ j → j < i → is_none (s.file j).status ≡ false)

  first_shift :
      (n fd : ℕ) (s : Files W) (r : Option ℕ)
      → is_none (s.file fd).status ≡ false
      → FirstUnused n (suc fd) s r
      → FirstUnused (suc n) fd s r
  first_shift n fd s none used h = λ j le lt. elim (Bool-cases (j == fd)) [
    | inl e ↦ ground (arith, e, used)
    | inr ne ↦ h j (ground (arith, ne, le)) (omega arith)
  ]
  first_shift n fd s (some i) used h = (
    omega (arith, h.0),
    omega (arith, h.1),
    h.2,
    λ j le lt. elim (Bool-cases (j == fd)) [
      | inl e ↦ ground (arith, e, used)
      | inr ne ↦ h.3 j (ground (arith, ne, le)) lt
    ],
  )

  pub find_unused-first :
      (n fd : ℕ) (s : Files W) → FirstUnused n fd s (find_unused nentry v n fd s)
  unfolding find_unused
  find_unused-first zero fd s = λ j h k. absurd (omega arith)
  find_unused-first (suc n) fd s = elim (Bool-cases (is_none (s.file fd).status)) [
    | inl free ↦
        rw (free, FirstUnused) (omega arith, omega arith, free, λ j h k. absurd (omega arith))
    | inr used ↦ rw used (first_shift n fd s _ used (find_unused-first n (suc fd) s))
  ]

  -- The entries other than `i` are as they were.
  abbrev pub Others : ℕ → Files W → Files W → Type 0
  Others i s t = (j : ℕ) → j ≢ i → t.file j ≡ s.file j

  abbrev pub Fresh : ℕ → Files W → Type 0
  Fresh i s =
      ((s.file i).fd ≡ i) × ((s.file i).status ≡ Status.fd_init) × ((s.file i).open_count ≡ 0)

  -- An entry that was opened just now.
  abbrev pub JustOpened : (i : ℕ) → (readable writable : Bool) → Files W → Type 0
  JustOpened i readable writable t =
      ((t.file i).fd ≡ i)
      × ((t.file i).status ≡ Status.fd_opened)
      × ((t.file i).open_count ≡ 1)
      × ((t.file i).node ≢ 0)
      × ((t.file i).readable ≡ readable)
      × ((t.file i).writable ≡ writable)

  -- How a claimed entry ends: opened, or free again.
  abbrev pub Settled : (i : ℕ) → (readable writable : Bool) → Files W → Result ℕ × Files W → Type 0
  Settled i readable writable s (ok fd, t) =
      (fd ≡ i) × Others i s t × JustOpened i readable writable t
  Settled i readable writable s (err e, t) =
      Others i s t
      × ((t.file i).status ≡ Status.fd_none)
      × ((t.file i).open_count ≡ 0)
      × ((t.file i).fd ≡ i)

  pub give_up_lem :
      (i e : ℕ) (r w : Bool) (s : Files W)
      → Fresh i s
      → (o : Result ℕ × Files W) × (give_up nentry v i e s ≡ some o) × Settled i r w s o
  unfolding give_up fd_array_free
  give_up_lem i e r w s h =
      let f = s.file i in
      let s1 = set_file i (record f { status = Status.fd_none }) s in
      (
        (err e, s1),
        ground (arith, h),
        (λ j ne. ground (arith, ne), ground arith, ground (arith, h), ground (arith, h)),
      )

  pub install_lem :
      (i node : ℕ) (r w : Bool) (s : Files W)
      → Fresh i s
      → node ≢ 0
      → (o : Result ℕ × Files W) × (install nentry v i node r w s ≡ some o) × Settled i r w s o
  unfolding install fd_array_open
  install_lem i node r w s h nz =
      let f = s.file i in
      let g = record f { node = node; readable = r; writable = w } in
      let t =
        set_file i (record g { status = Status.fd_opened; open_count = f.open_count + 1 })
          (set_file i g s) in
      let self : (i == i) ≡ true = ground arith in
      let set : (node == 0) ≡ false = ground (arith, nz) in
      (
        (ok f.fd, t),
        rw (self, h.1, set, self) refl,
        (
          h.0,
          λ j ne. ground (arith, ne),
          (
            ground (arith, h),
            ground arith,
            ground (arith, h),
            ground (arith, nz),
            ground arith,
            ground arith,
          ),
        ),
      )

  -- The call `m`, made with the claimed entry `i` in the state `s`, settles it.
  abbrev pub Settles : (i : ℕ) → (r w : Bool) → Files W → Option (Result ℕ × Files W) → Type 0
  Settles i r w s m = (o : Result ℕ × Files W) × (m ≡ some o) × Settled i r w s o

  -- What happened to other entries before does not matter.
  Settled-from :
      (i : ℕ) (r w : Bool) (s s' : Files W) (o : Result ℕ × Files W)
      → Others i s s'
      → Settled i r w s' o
      → Settled i r w s o
  Settled-from i r w s s' (ok fd, t) e h = (h.0, λ j ne. h.1 j ne ∙ e j ne, h.2)
  Settled-from i r w s s' (err x, t) e h = (λ j ne. h.0 j ne ∙ e j ne, h.1, h.2, h.3)

  pub Settles-from :
      (i : ℕ) (r w : Bool) (s s' : Files W) (m : Option (Result ℕ × Files W))
      → Others i s s'
      → Settles i r w s' m
      → Settles i r w s m
  Settles-from i r w s s' m e h = (h.0, h.1, Settled-from i r w s s' h.0 e h.2)

  pub Result-cases : (x : Result ℕ) → ((e : ℕ) × (x ≡ err e)) ⊎ ((a : ℕ) × (x ≡ ok a))
  Result-cases (err e) = inl (e, refl)
  Result-cases (ok a) = inr (a, refl)

  pub Fresh-frame : (i : ℕ) (s s' : Files W) → s'.file ≡ s.file → Fresh i s → Fresh i s'
  Fresh-frame i s s' e h = rw e h
