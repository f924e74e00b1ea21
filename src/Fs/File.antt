-- ===== src/Fs/File.antt =====
-- kern/fs/file.c: the open-file table of a process, and the calls that work on it.
pub mod Ops
pub mod Entries
pub mod Table
pub mod Close
use nku_os.Prelude.{
  ℕ, zero, suc, ◌+◌, ◌-◌, ◌^◌, Bool, true, false, not, ◌&&◌, ◌||◌, Option, none, some, ltb, ◌==◌,
  if◌then◌else◌, update,
}
use nku_os.Prelude.Partial.{◌>>=◌, ◌>>◌, assert}
use nku_os.Errors.{e_inval, e_busy, e_max_open}
use nku_os.Fs.Vfs.{Result, ok, err, Vfs}

pub data Status : Type 0 where
  fd_none fd_init fd_opened fd_closed : Status

abbrev pub is_none : Status → Bool
is_none Status.fd_none = true
is_none _ = false

abbrev pub is_init : Status → Bool
is_init Status.fd_init = true
is_init _ = false

abbrev pub is_opened : Status → Bool
is_opened Status.fd_opened = true
is_opened _ = false

abbrev pub is_closed : Status → Bool
is_closed Status.fd_closed = true
is_closed _ = false

-- `struct file`
pub record File : Type 0 where
  pub status : Status
  pub readable : Bool
  pub writable : Bool
  pub fd : ℕ
  pub pos : ℕ
  pub node : ℕ
  pub open_count : ℕ

-- The table `current->filesp->fd_array`, the count of `current->filesp` (0 where that is NULL), and all else that the file systems change. A
-- `struct file *` is an index of the table.
pub record Files (World : Type 0) : Type 0 where
  pub file : ℕ → File
  pub files_count : ℕ
  pub world : World

abbrev pub set_file : {W : Type 0} → ℕ → File → Files W → Files W
set_file i f s = record s { file = update s.file i f }

-- `int` descriptors are 32-bit patterns; `NO_FD` is -0x9527.
abbrev pub no_fd : ℕ
no_fd = 2 ^ 32 - 0x9527

-- The length of the table depends on the sizes of two structs, and the file systems on `v`.
module _ {W : Type 0} (nentry : ℕ) (v : Vfs (Files W)) where
  abbrev pub testfd : ℕ → Bool
  testfd fd = ltb fd (2 ^ 31) && ltb fd nentry

  -- The loop of `fd_array_init` from entry `fd` over `n` entries.
  unfoldable pub fd_array_init_from : (n fd : ℕ) → Files W → Files W
  fd_array_init_from zero fd s = s
  fd_array_init_from (suc n) fd s =
      let f = s.file fd in
      fd_array_init_from n (suc fd)
        (set_file fd (record f { open_count = 0; status = Status.fd_none; fd = fd }) s)

  unfoldable pub fd_array_init : Files W → Files W
  unfolding fd_array_init_from
  fd_array_init s = fd_array_init_from nentry 0 s

  -- The first unused entry of `n` entries from `fd`.
  unfoldable pub find_unused : (n fd : ℕ) → Files W → Option ℕ
  find_unused zero fd s = none
  find_unused (suc n) fd s =
      let rest = find_unused n (suc fd) s in if is_none (s.file fd).status then some fd else rest

  -- The label `found`.
  unfoldable pub claim_entry : ℕ → Files W → Option (Result ℕ × Files W)
  claim_entry i s = do
    let f = s.file i
    assert (f.open_count == 0)
    some (ok i, set_file i (record f { status = Status.fd_init; node = 0 }) s)

  unfoldable pub fd_array_alloc : ℕ → Files W → Option (Result ℕ × Files W)
  unfolding find_unused claim_entry
  fd_array_alloc fd s =
      let wanted = if is_none (s.file fd).status then claim_entry fd s else some (err e_busy, s) in
      do
        assert (ltb 0 s.files_count)
        if fd == no_fd
            then elim (find_unused nentry 0 s) [
              | none ↦ some (err e_max_open, s)
              | some i ↦ claim_entry i s
            ]
            else if testfd fd
            then wanted
            else some (err e_inval, s)

  unfoldable pub fd_array_free : ℕ → Files W → Option (Files W)
  fd_array_free i s = do
    let f = s.file i
    assert (is_init f.status || is_closed f.status)
    assert (f.open_count == 0)
    let s1 = if is_closed f.status then v.vfs_close f.node s else s
    let g = s1.file i
    some (set_file i (record g { status = Status.fd_none }) s1)

  unfoldable pub fd_array_acquire : ℕ → Files W → Option (Files W)
  fd_array_acquire i s = do
    let f = s.file i
    assert (is_opened f.status)
    some (set_file i (record f { open_count = f.open_count + 1 }) s)

  unfoldable pub fd_array_release : ℕ → Files W → Option (Files W)
  unfolding fd_array_free
  fd_array_release i s = do
    let f = s.file i
    assert (is_opened f.status || is_closed f.status)
    assert (ltb 0 f.open_count)
    let s1 = set_file i (record f { open_count = f.open_count - 1 }) s
    if f.open_count - 1 == 0 then fd_array_free i s1 else some s1

  unfoldable pub fd_array_open : ℕ → Files W → Option (Files W)
  fd_array_open i s = do
    let f = s.file i
    assert (is_init f.status && not (f.node == 0))
    some (set_file i (record f { status = Status.fd_opened; open_count = f.open_count + 1 }) s)

  unfoldable pub fd_array_close : ℕ → Files W → Option (Files W)
  unfolding fd_array_free
  fd_array_close i s = do
    let f = s.file i
    assert (is_opened f.status)
    assert (ltb 0 f.open_count)
    let s1 = set_file i (record f { status = Status.fd_closed; open_count = f.open_count - 1 }) s
    if f.open_count - 1 == 0 then fd_array_free i s1 else some s1

  unfoldable pub fd_array_dup : (to from : ℕ) → Files W → Option (Files W)
  unfolding fd_array_open
  fd_array_dup to from s = do
    let f = s.file from
    let g = s.file to
    assert (is_init g.status && is_opened f.status)
    let s1 = set_file to (record g { pos = f.pos; readable = f.readable; writable = f.writable }) s
    let s2 = v.vop_open_inc f.node (v.vop_ref_inc f.node s1)
    let h = s2.file to
    fd_array_open to (set_file to (record h { node = f.node }) s2)

  unfoldable pub fd2file : ℕ → Files W → Result ℕ
  fd2file fd s =
      if testfd fd && (is_opened (s.file fd).status && (s.file fd).fd == fd)
      then ok fd
      else err e_inval
