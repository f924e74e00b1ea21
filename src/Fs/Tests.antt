-- ===== src/Fs/Tests.antt =====
-- Runs of the transfer record and of the open-file table, and their theorems at concrete states.
use nku_os.Prelude.{
  ℕ, ◌+◌, ◌-◌, ◌≡◌, ◌≢◌, refl, true, false, some, List, [], ◌∷◌, arith, ltb, update,
}
use nku_os.Fs.Vfs.{Result, ok, err, Vfs}
use nku_os.Errors.{e_inval}
use nku_os.Fs.File.{Status, File, Files}
use nku_os.Fs.File.Ops.{file_open, file_close}
use nku_os.Fs.File.Entries.{Quiet, IsTable}
use nku_os.Fs.File.Table.{OpenReturns, OpenResult, file_open_lem}
use nku_os.Fs.File.Close.{Dropped, closing, file_close_lem}

-- A file system whose world counts the inodes that are open; a path of no bytes is not found.
abbrev counting : Vfs (Files ℕ)
counting = record {
  vfs_open_returns = λ path flags s. true;
  vfs_close_returns = λ node s. ltb 0 s.world;
  vop_fstat_returns = λ node s. true;
  vfs_open = λ path flags s. elim path [
    | [] ↦ (err 16, s)
    | b ∷ bs ↦ (ok 77, record s { world = s.world + 1 })
  ];
  vfs_close = λ node s. record s { world = s.world - 1 };
  vop_read = λ node iob s. (ok tt, iob, s);
  vop_write = λ node iob s. (ok tt, iob, s);
  vop_fstat = λ node s. (ok 12, s);
  vop_fsync = λ node s. (ok tt, s);
  vop_tryseek = λ node pos s. (ok tt, s);
  vop_getdirentry = λ node iob s. (ok tt, iob, s);
  vop_ref_inc = λ node s. s;
  vop_open_inc = λ node s. s;
}

open_unchanged :
    (path : List ℕ) (flags : ℕ) (s : Files ℕ) → (counting.vfs_open path flags s).1.file ≡ s.file
open_unchanged [] flags s = refl
open_unchanged (b ∷ bs) flags s = refl

node_opens :
    (path : List ℕ) (flags : ℕ) (s : Files ℕ) (node : ℕ)
    → (counting.vfs_open path flags s).0 ≡ ok node
    → node ≢ 0
node_opens [] flags s node e = absurd (ground (arith, e))
node_opens (b ∷ bs) flags s node e = ground (arith, e)

counting-Quiet : Quiet counting
counting-Quiet = record {
  vfs_open_file = open_unchanged;
  vfs_open_node = node_opens;
  vfs_close_file = λ node s. refl;
  vop_fstat_file = λ node s. refl;
}

abbrev unused : ℕ → File
unused i = record {
  status = Status.fd_none;
  readable = false;
  writable = false;
  fd = i;
  pos = 0;
  node = 0;
  open_count = 0;
}

-- Entry 0 is open, and a transfer of entry 1 runs; the table has four entries.
abbrev files : Files ℕ
files = record {
  file =
      update
        (update unused 0
          (record (unused 0) { status = Status.fd_opened; node = 5; open_count = 1 }))
        1 (record (unused 1) { status = Status.fd_opened; node = 6; open_count = 2; pos = 9 });
  files_count = 1;
  world = 2;
}

files-IsTable : IsTable 4 counting files
files-IsTable i h =
    (ground arith, λ x. ground (arith, x), λ x. ground (arith, x), λ x. ground (arith, x))

files-OpenReturns : OpenReturns counting (65 ∷ []) 0x22 2
files-OpenReturns = record {
  opening = λ s e. refl;
  stating = λ s t node e opened same. refl;
  closing = λ s t node x e opened same failed. absurd (ground (arith, failed));
}

file_open_lem_example :
    (o : Result ℕ × Files ℕ) × (file_open 4 counting (65 ∷ []) 0x22 files ≡ some o)
    × OpenResult 4 counting counting-Quiet 0x22 files o
    × IsTable 4 counting o.1
file_open_lem_example =
    file_open_lem 4 counting counting-Quiet (65 ∷ []) 0x22 files files-IsTable (omega arith)
      files-OpenReturns

file_close_lem_example :
    (t : Files ℕ) × (file_close 4 counting 1 files ≡ some (ok tt, t))
    × Dropped 4 counting counting-Quiet 1 files (closing 4 counting counting-Quiet 1 files) t
    × IsTable 4 counting t
    × (file_close 4 counting 1 t ≡ some (err e_inval, t))
file_close_lem_example = file_close_lem 4 counting counting-Quiet 1 files files-IsTable refl refl
