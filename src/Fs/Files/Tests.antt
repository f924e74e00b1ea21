-- ===== src/Fs/Files/Tests.antt =====
-- Two tables of two entries, of which the first has one open file.
use nku_os.Prelude.{ℕ, ◌+◌, ◌≡◌, ◌<◌, refl, true, false, some, arith, ◌==◌, if◌then◌else◌, inr}
use nku_os.Fs.Vfs.{Vfs, ok}
use nku_os.Fs.File.{Status, File, Files}
use nku_os.Fs.Files.{FilesStruct, dup_files}
use nku_os.Fs.Files.Dup.{duplicate, Counting, HasNode, dup_files-duplicate}

abbrev idle : Vfs (Files ℕ)
idle = record {
  vfs_open_returns = λ path flags s. true;
  vfs_close_returns = λ node s. true;
  vop_fstat_returns = λ node s. true;
  vfs_open = λ path flags s. (ok 77, s);
  vfs_close = λ node s. s;
  vop_read = λ node iob s. (ok tt, iob, s);
  vop_write = λ node iob s. (ok tt, iob, s);
  vop_fstat = λ node s. (ok 12, s);
  vop_fsync = λ node s. (ok tt, s);
  vop_tryseek = λ node pos s. (ok tt, s);
  vop_getdirentry = λ node iob s. (ok tt, iob, s);
  vop_ref_inc = λ node s. record s { world = s.world + 1 };
  vop_open_inc = λ node s. s;
}

idle-Counting : Counting ℕ idle
idle-Counting = record { ref_inc = λ node s. refl; open_inc = λ node s. refl }

abbrev entry : ℕ → File
entry i = record {
  status = if i == 0 then Status.fd_opened else Status.fd_none;
  readable = true;
  writable = false;
  fd = if i == 3 then 1 else i;
  pos = 5;
  node = 77;
  open_count = if i == 0 then 1 else 0;
}

abbrev tables : Files ℕ
tables = record { file = entry; files_count = 1; world = 0 }

abbrev old : FilesStruct
old = record { pwd = 7; fd_array = 0; files_count = 1 }

abbrev new : FilesStruct
new = record { pwd = 0; fd_array = 2; files_count = 0 }

entry-HasNode : (i : ℕ) → HasNode (entry i)
entry-HasNode i = inr (ground arith)

dup_files-duplicate_example :
    (to' : FilesStruct) × (s' : Files ℕ) × (dup_files 2 idle (λ node s. s) new old tables
      ≡ some (to', s'))
    × (to'.pwd ≡ 7)
    × ((i : ℕ) → i < 2 → s'.file (2 + i) ≡ duplicate (entry (0 + i)) (entry (2 + i)))
    × ((k : ℕ) → k < 2 → s'.file k ≡ entry k)
dup_files-duplicate_example =
    dup_files-duplicate 2 idle (λ node s. s) idle-Counting new old tables refl (omega arith)
      (omega arith) (λ i h. entry-HasNode (0 + i))
