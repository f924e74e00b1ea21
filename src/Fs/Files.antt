-- ===== src/Fs/Files.antt =====
-- kern/fs/fs.c: the files of a process, when processes are made and end. A `struct file *` is a number, as in File, where each table
-- begins at its own number.
pub mod Dup
mod Tests
use nku_os.Prelude.{
  ℕ, zero, suc, ◌+◌, ◌-◌, Bool, true, false, not, ◌&&◌, Option, none, some, ltb, ◌==◌,
  if◌then◌else◌, update,
}
use nku_os.Prelude.Partial.{◌>>=◌, ◌>>◌, assert}
use nku_os.Fs.Vfs.{Vfs}
use nku_os.Fs.File.{Status, File, Files, set_file, is_none, is_opened, fd_array_close, fd_array_dup}

-- `struct files_struct`, but for its semaphore; `pwd` is 0 for NULL.
pub record FilesStruct : Type 0 where
  pub pwd : ℕ
  pub fd_array : ℕ
  pub files_count : ℕ

module _ {W : Type 0} (nentry : ℕ) (v : Vfs (Files W))
    (vop_ref_dec : (node : ℕ) → Files W → Files W) where
  -- The loop of `files_destroy` from entry `file` over `n` entries.
  unfoldable pub destroy_from : (n file : ℕ) → Files W → Option (Files W)
  unfolding fd_array_close
  destroy_from zero file s = some s
  destroy_from (suc n) file s = do
    s1 ← if is_opened (s.file file).status then fd_array_close nentry v file s else some s
    assert (is_none (s1.file file).status)
    destroy_from n (file + 1) s1

  unfoldable pub files_destroy : FilesStruct → Files W → Option (Files W)
  unfolding destroy_from
  files_destroy filesp s = do
    assert (filesp.files_count == 0)
    destroy_from nentry filesp.fd_array
        (if not (filesp.pwd == 0) then vop_ref_dec filesp.pwd s else s)

  -- The loop of `files_closeall`.
  unfoldable pub close_from : (n file : ℕ) → Files W → Option (Files W)
  unfolding fd_array_close
  close_from zero file s = some s
  close_from (suc n) file s = do
    s1 ← if is_opened (s.file file).status then fd_array_close nentry v file s else some s
    close_from n (file + 1) s1

  unfoldable pub files_closeall : FilesStruct → Files W → Option (Files W)
  unfolding close_from
  files_closeall filesp s = do
    assert (ltb 0 filesp.files_count)
    close_from (nentry - 2) (filesp.fd_array + 2) s

  -- The body of the loop of `dup_files`.
  unfoldable pub dup_entry : (to_file from_file : ℕ) → Files W → Option (Files W)
  unfolding fd_array_dup
  dup_entry to_file from_file s =
      let g = s.file to_file in
      let copied =
        fd_array_dup nentry v to_file from_file
          (set_file to_file (record g { status = Status.fd_init }) s) in
      if is_opened (s.file from_file).status then copied else some s

  unfoldable pub dup_from : (n to_file from_file : ℕ) → Files W → Option (Files W)
  unfolding dup_entry
  dup_from zero to_file from_file s = some s
  dup_from (suc n) to_file from_file s = do
    s1 ← dup_entry to_file from_file s
    dup_from n (to_file + 1) (from_file + 1) s1

  -- The result is 0; with it, `to` and all the rest.
  unfoldable pub dup_files : (to from : FilesStruct) → Files W → Option (FilesStruct × Files W)
  unfolding dup_from
  dup_files to from s =
      let s1 = if not (from.pwd == 0) then v.vop_ref_inc from.pwd s else s in
      do
        assert (to.files_count == 0 && ltb 0 from.files_count)
        s2 ← dup_from nentry to.fd_array from.fd_array s1
        some (record to { pwd = from.pwd }, s2)
