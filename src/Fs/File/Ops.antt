-- ===== src/Fs/File/Ops.antt =====
-- The calls of kern/fs/file.c: file_open, file_close, file_read and the others.
use nku_os.Prelude.{
  ℕ, ◌/◌, ◌%◌, Bool, true, false, not, ◌&&◌, ◌||◌, Option, some, List, ◌==◌, if◌then◌else◌,
}
use nku_os.Prelude.Partial.{◌>>=◌, ◌>>◌, assert}
use nku_os.Fs.Iobuf.{add64, iobuf_init, iobuf_used}
use nku_os.Fs.Vfs.{Result, ok, err, Vfs}
use nku_os.Errors.{e_inval}
use nku_os.Fs.File.{
  Files, set_file, is_opened, no_fd, fd_array_alloc, fd_array_free, fd_array_acquire,
  fd_array_release, fd_array_open, fd_array_close, fd_array_dup, fd2file,
}

-- `O_ACCMODE` is the two low bits, `O_APPEND` is 0x20.
abbrev pub access_mode : ℕ → ℕ
access_mode open_flags = open_flags % 4

abbrev pub appends : ℕ → Bool
appends open_flags = (open_flags / 0x20) % 2 == 1

abbrev pub set_pos : {W : Type 0} → ℕ → ℕ → Files W → Files W
set_pos i pos s = let f = s.file i in set_file i (record f { pos = pos }) s

module _ {W : Type 0} (nentry : ℕ) (v : Vfs (Files W)) where
  unfoldable pub file_testfd : (fd : ℕ) → (readable writable : Bool) → Files W → Bool
  unfolding fd2file
  file_testfd fd readable writable s = elim (fd2file nentry v fd s) [
    | err e ↦ false
    | ok i ↦
        if readable && not (s.file i).readable
        then false
        else if writable && not (s.file i).writable
        then false
        else true
  ]

  -- The end of `file_open`: the entry gets its inode and is opened.
  unfoldable pub install :
      (i node : ℕ) → (readable writable : Bool) → Files W → Option (Result ℕ × Files W)
  unfolding fd_array_open
  install i node readable writable s = do
    let f = s.file i
    s1 ←
        fd_array_open nentry v i
          (set_file i (record f { node = node; readable = readable; writable = writable }) s)
    some (ok (s1.file i).fd, s1)

  -- A failure after the entry was claimed.
  unfoldable pub give_up : (i e : ℕ) → Files W → Option (Result ℕ × Files W)
  unfolding fd_array_free
  give_up i e s = do s1 ← fd_array_free nentry v i s; some (err e, s1)

  -- `O_APPEND`: the position is the size of the file.
  unfoldable pub open_at_end :
      (i node : ℕ) → (readable writable : Bool) → Files W → Option (Result ℕ × Files W)
  unfolding install give_up
  open_at_end i node readable writable s = do
    assert (v.vop_fstat_returns node s)
    let (stat, s1) = v.vop_fstat node s
    elim stat [
      | err e ↦ do assert (v.vfs_close_returns node s1); give_up i e (v.vfs_close node s1)
      | ok st_size ↦ install i node readable writable (set_pos i st_size s1)
    ]

  unfoldable pub open_entry :
      (path : List ℕ)
      → (open_flags i : ℕ) → (readable writable : Bool) → Files W
      → Option (Result ℕ × Files W)
  unfolding install give_up open_at_end
  open_entry path open_flags i readable writable s = do
    assert (v.vfs_open_returns path open_flags s)
    let (opened, s1) = v.vfs_open path open_flags s
    elim opened [
      | err e ↦ give_up i e s1
      | ok node ↦
          let s2 = set_pos i 0 s1 in
          if appends open_flags
          then open_at_end i node readable writable s2
          else install i node readable writable s2
    ]

  unfoldable pub file_open :
      (path : List ℕ) → (open_flags : ℕ) → Files W → Option (Result ℕ × Files W)
  unfolding fd_array_alloc open_entry
  file_open path open_flags s =
      let mode = access_mode open_flags in
      let readable = mode == 0 || mode == 2 in
      let writable = mode == 1 || mode == 2 in
      if mode == 3 then some (err e_inval, s) else (do
        (claimed, s1) ← fd_array_alloc nentry v no_fd s
        elim claimed [
          | err e ↦ some (err e, s1)
          | ok i ↦ open_entry path open_flags i readable writable s1
        ])

  unfoldable pub file_close : ℕ → Files W → Option (Result (Unit {0}) × Files W)
  unfolding fd2file fd_array_close
  file_close fd s = elim (fd2file nentry v fd s) [
    | err e ↦ some (err e, s)
    | ok i ↦ do s1 ← fd_array_close nentry v i s; some (ok tt, s1)
  ]

  -- After the transfer: the position moves by what was copied, unless the file was closed.
  unfoldable pub after_transfer : (i copied : ℕ) → Files W → Option (Files W)
  unfolding fd_array_release
  after_transfer i copied s =
      let f = s.file i in
      let s1 = if is_opened f.status then set_pos i (add64 f.pos copied) s else s in
      fd_array_release nentry v i s1

  -- The result is that of the transfer, with the value stored through `copied_store`.
  unfoldable pub file_read : (fd base len : ℕ) → Files W → Option (Result (Unit {0}) × ℕ × Files W)
  unfolding fd2file fd_array_acquire iobuf_init after_transfer
  file_read fd base len s = elim (fd2file nentry v fd s) [
    | err e ↦ some (err e, 0, s)
    | ok i ↦ if not (s.file i).readable then some (err e_inval, 0, s) else (do
      s1 ← fd_array_acquire nentry v i s
      let (ret, iob, s2) = v.vop_read (s1.file i).node (iobuf_init base len (s1.file i).pos) s1
      s3 ← after_transfer i (iobuf_used iob) s2
      some (ret, iobuf_used iob, s3))
  ]

  unfoldable pub file_write : (fd base len : ℕ) → Files W → Option (Result (Unit {0}) × ℕ × Files W)
  unfolding fd2file fd_array_acquire iobuf_init after_transfer
  file_write fd base len s = elim (fd2file nentry v fd s) [
    | err e ↦ some (err e, 0, s)
    | ok i ↦ if not (s.file i).writable then some (err e_inval, 0, s) else (do
      s1 ← fd_array_acquire nentry v i s
      let (ret, iob, s2) = v.vop_write (s1.file i).node (iobuf_init base len (s1.file i).pos) s1
      s3 ← after_transfer i (iobuf_used iob) s2
      some (ret, iobuf_used iob, s3))
  ]

  -- The position that `whence` (0, 1 and 2 for `LSEEK_SET`, `LSEEK_CUR` and `LSEEK_END`) asks for.
  unfoldable pub seek_target : (i pos whence : ℕ) → Files W → Result ℕ × Files W
  seek_target i pos whence s =
      let (stat, s1) = v.vop_fstat (s.file i).node s in
      let end : Result ℕ = elim stat [ err e ↦ err e | ok st_size ↦ ok (add64 pos st_size) ] in
      if whence == 0
      then (ok pos, s)
      else if whence == 1
      then (ok (add64 pos (s.file i).pos), s)
      else if whence == 2
      then (end, s1)
      else (err e_inval, s)

  unfoldable pub seek_to : (i : ℕ) → Result ℕ → Files W → Result (Unit {0}) × Files W
  seek_to i (err e) s = (err e, s)
  seek_to i (ok pos) s =
      let (ret, s1) = v.vop_tryseek (s.file i).node pos s in
      elim ret [ err e ↦ (err e, s1) | ok _ ↦ (ok tt, set_pos i pos s1) ]

  unfoldable pub file_seek : (fd pos whence : ℕ) → Files W → Option (Result (Unit {0}) × Files W)
  unfolding fd2file fd_array_acquire fd_array_release seek_target seek_to
  file_seek fd pos whence s = elim (fd2file nentry v fd s) [
    | err e ↦ some (err e, s)
    | ok i ↦ do
      s1 ← fd_array_acquire nentry v i s
      let (target, s2) = seek_target i pos whence s1
      let (ret, s3) = seek_to i target s2
      s4 ← fd_array_release nentry v i s3
      some (ret, s4)
  ]

  unfoldable pub file_fstat : ℕ → Files W → Option (Result ℕ × Files W)
  unfolding fd2file fd_array_acquire fd_array_release
  file_fstat fd s = elim (fd2file nentry v fd s) [
    | err e ↦ some (err e, s)
    | ok i ↦ do
      s1 ← fd_array_acquire nentry v i s
      let (ret, s2) = v.vop_fstat (s1.file i).node s1
      s3 ← fd_array_release nentry v i s2
      some (ret, s3)
  ]

  unfoldable pub file_fsync : ℕ → Files W → Option (Result (Unit {0}) × Files W)
  unfolding fd2file fd_array_acquire fd_array_release
  file_fsync fd s = elim (fd2file nentry v fd s) [
    | err e ↦ some (err e, s)
    | ok i ↦ do
      s1 ← fd_array_acquire nentry v i s
      let (ret, s2) = v.vop_fsync (s1.file i).node s1
      s3 ← fd_array_release nentry v i s2
      some (ret, s3)
  ]

  -- `offset` is `direntp->offset`, and the number behind the result what it becomes. The name
  -- buffer has `FS_MAX_FNAME_LEN + 1` bytes.
  unfoldable pub file_getdirentry :
      (fd name offset : ℕ) → Files W → Option (Result (Unit {0}) × ℕ × Files W)
  unfolding fd2file fd_array_acquire fd_array_release iobuf_init
  file_getdirentry fd name offset s = elim (fd2file nentry v fd s) [
    | err e ↦ some (err e, offset, s)
    | ok i ↦ do
      s1 ← fd_array_acquire nentry v i s
      let (ret, iob, s2) = v.vop_getdirentry (s1.file i).node (iobuf_init name 256 offset) s1
      let offset' : ℕ = elim ret [ err e ↦ offset | ok _ ↦ add64 offset (iobuf_used iob) ]
      s3 ← fd_array_release nentry v i s2
      some (ret, offset', s3)
  ]

  unfoldable pub file_dup : (fd1 fd2 : ℕ) → Files W → Option (Result ℕ × Files W)
  unfolding fd2file fd_array_alloc fd_array_dup
  file_dup fd1 fd2 s = elim (fd2file nentry v fd1 s) [
    | err e ↦ some (err e, s)
    | ok i ↦ do
      (claimed, s1) ← fd_array_alloc nentry v fd2 s
      elim claimed [
        | err e ↦ some (err e, s1)
        | ok j ↦ do s2 ← fd_array_dup nentry v j i s1; some (ok (s2.file j).fd, s2)
      ]
  ]
