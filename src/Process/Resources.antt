-- ===== src/Process/Resources.antt =====
-- kern/process/proc.c: the memory and the files that processes share, and their reference counts.
pub mod Counts
pub mod Copies
pub mod Shares
use nku_os.Prelude.{
  ℕ, ◌+◌, ◌-◌, ◌%◌, ◌^◌, Bool, true, false, not, ◌&&◌, ◌||◌, Option, none, some, List, ◌∷◌, ◌==◌,
  if◌then◌else◌, update,
}
use nku_os.Prelude.Partial.{◌>>=◌}

-- The `mm` and `filesp` of each process, the counts of these structures, and those that were given back:
-- by `exit_mmap`, `put_pgdir` and `mm_destroy`, and by `files_destroy`. The assertions of `files_destroy` hold for a table that is
-- `closable`: each entry of it is free, or open with one reference. `files_panic` says that one has failed.
pub record Resources : Type 0 where
  pub mm : ℕ → Option ℕ
  pub mm_count : ℕ → ℕ
  pub filesp : ℕ → Option ℕ
  pub files_count : ℕ → ℕ
  pub dead_mms : List ℕ
  pub dead_files : List ℕ
  pub closable : ℕ → Bool
  pub files_panic : Bool

-- What the calls of a fork that may lack memory come to; a NULL is `none`, and an error code `false`.
pub record Grants : Type 0 where
  pub proc_memory : Option ℕ
  pub setup_kstack : Bool
  pub files_create : Option ℕ
  pub files_dup : Bool
  pub mm_create : Option ℕ
  pub setup_pgdir : Bool
  pub mmap_dup : Bool

abbrev pub good_files_struct : (proc files : ℕ) → Resources → Resources
good_files_struct proc files r = record r {
  files_count = update r.files_count files ((r.files_count files + 1) % 2 ^ 32);
  filesp = update r.filesp proc (some files);
}

abbrev pub files_destroyed : ℕ → Resources → Resources
files_destroyed files r = record r {
  dead_files = files ∷ r.dead_files;
  files_panic = r.files_panic || not (r.closable files);
}

-- `files_create` starts the count at 0.
abbrev pub dup_new_files : Option ℕ → (dup : Bool) → (proc : ℕ) → Resources → Bool × Resources
dup_new_files none dup proc r = (false, r)
dup_new_files (some files) dup proc r =
    let r1 = record r { files_count = update r.files_count files 0 } in
    if dup then (true, good_files_struct proc files r1) else (false, files_destroyed files r1)

-- Whether it returns 0, and what is left.
unfoldable pub copy_files :
    (clone_fs : Bool) → Grants → (current proc : ℕ) → Resources → Option (Bool × Resources)
copy_files clone_fs g current proc r = do
  old ← r.filesp current
  some (
      if clone_fs
      then (true, good_files_struct proc old r)
      else dup_new_files g.files_create g.files_dup proc r)

abbrev pub drop_files : Option ℕ → Resources → Resources
drop_files none r = r
drop_files (some files) r =
    let n = (r.files_count files + 2 ^ 32 - 1) % 2 ^ 32 in
    let r1 = record r { files_count = update r.files_count files n } in
    if n == 0 then files_destroyed files r1 else r1

unfoldable pub put_files : (proc : ℕ) → Resources → Resources
put_files proc r = drop_files (r.filesp proc) r

abbrev pub good_mm : (proc mm : ℕ) → Resources → Resources
good_mm proc mm r = record r {
  mm_count = update r.mm_count mm ((r.mm_count mm + 1) % 2 ^ 32);
  mm = update r.mm proc (some mm);
}

abbrev pub mm_destroyed : ℕ → Resources → Resources
mm_destroyed mm r = record r { dead_mms = mm ∷ r.dead_mms }

-- `mm_create` starts the count at 0.
abbrev pub dup_new_mm : Option ℕ → (ready : Bool) → (proc : ℕ) → Resources → Bool × Resources
dup_new_mm none ready proc r = (false, r)
dup_new_mm (some mm) ready proc r =
    let r1 = record r { mm_count = update r.mm_count mm 0 } in
    if ready then (true, good_mm proc mm r1) else (false, mm_destroyed mm r1)

abbrev pub copy_old :
    Option ℕ → (clone_vm : Bool) → Grants → (proc : ℕ) → Resources → Bool × Resources
copy_old none clone_vm g proc r = (true, r)
copy_old (some old) clone_vm g proc r =
    if clone_vm
    then (true, good_mm proc old r)
    else dup_new_mm g.mm_create (g.setup_pgdir && g.mmap_dup) proc r

unfoldable pub copy_mm :
    (clone_vm : Bool) → Grants → (current proc : ℕ) → Resources → Bool × Resources
copy_mm clone_vm g current proc r = copy_old (r.mm current) clone_vm g proc r

abbrev pub drop_mm : Option ℕ → (current : ℕ) → Resources → Resources
drop_mm none current r = r
drop_mm (some mm) current r =
    let n = (r.mm_count mm + 2 ^ 32 - 1) % 2 ^ 32 in
    let r1 = record r { mm_count = update r.mm_count mm n } in
    let r2 = if n == 0 then mm_destroyed mm r1 else r1 in
    drop_files (r.filesp current) (record r2 { mm = update r.mm current none })

-- What `do_exit` gives back: nothing, for a kernel thread.
unfoldable pub release : (current : ℕ) → Resources → Resources
release current r = drop_mm (r.mm current) current r

-- `bad_fork_cleanup_fs`
abbrev pub cleanup_fs : (proc : ℕ) → Bool × Resources → Bool × Resources
unfolding put_files
cleanup_fs proc (true, r) = (true, r)
cleanup_fs proc (false, r) = (false, put_files proc r)

abbrev pub then_mm :
    (clone_vm : Bool) → Grants → (current proc : ℕ) → Bool × Resources → Bool × Resources
unfolding copy_mm
then_mm clone_vm g current proc (false, r) = (false, r)
then_mm clone_vm g current proc (true, r) = cleanup_fs proc (copy_mm clone_vm g current proc r)

-- The calls of `copy_files` and `copy_mm` in `do_fork`.
unfoldable pub copy_all :
    (clone_fs clone_vm : Bool) → Grants → (current proc : ℕ) → Resources → Option (Bool × Resources)
unfolding copy_files then_mm
copy_all clone_fs clone_vm g current proc r = do
  copied ← copy_files clone_fs g current proc r
  some (then_mm clone_vm g current proc copied)
