-- ===== src/Mm/Space/Tests.antt =====
-- Runs on an address space of two areas.
use nku_os.Prelude.{
  ℕ, ◌-◌, if◌then◌else◌, ◌≡◌, inl, inr, refl, Bool, true, false, not, update, Option, none, some,
  [], ◌∷◌, arith, ◌==◌,
}
use nku_os.Mm.Vma.{Vma, MmStruct}
use nku_os.Mm.Vma.Lookup.{IsMm}
use nku_os.Mm.Space.{user_mem_check, mm_map}
use nku_os.Mm.Space.Check.{Permitted, user_mem_check_lem}
use nku_os.Mm.Space.Map.{new_area, Mapped, mm_map_lem}
use nku_os.Mm.Space.Fault.{Paging}

abbrev area : ℕ → ℕ → Vma
area from to = record { vm_start = from; vm_end = to; vm_flags = 3 }

abbrev mm : MmStruct
mm = record {
  mmap_list = area 0x1000000 0x1003000 ∷ area 0x1005000 0x1006000 ∷ [];
  mmap_cache = some (area 0x1005000 0x1006000);
  map_count = 2;
}

mm-IsMm : IsMm mm
mm-IsMm = record {
  ordered = (omega arith, omega arith, (omega arith, omega arith, tt));
  cache = inr (inl refl);
}

abbrev empty_mm : MmStruct
empty_mm = record { mmap_list = []; mmap_cache = none; map_count = 0 }

user_mem_check_lem_example :
    (b : Bool) × (mm' : MmStruct) × (user_mem_check 17 (some mm) 0x1002ff8 16 true
      ≡ some (b, some mm'))
    × IsMm mm'
    × (mm'.mmap_list ≡ mm.mmap_list)
    × Permitted mm 0x1002ff8 16 true b
user_mem_check_lem_example =
    user_mem_check_lem mm 0x1002ff8 16 true mm-IsMm (omega arith) (omega arith)

mm_map_lem_example :
    (ret : ℕ) × (mm' : MmStruct) × (mm_map true 0x1003004 0x1000 3 mm ≡ some (ret, mm'))
    × IsMm mm'
    × Mapped true (new_area 0x1003004 0x1000 3) mm mm' ret
mm_map_lem_example =
    mm_map_lem true 0x1003004 0x1000 3 mm mm-IsMm refl (inr (omega arith), (inl (omega arith), tt))

-- A memory for so many areas and pages.
abbrev take_one : ℕ → Bool × ℕ
take_one n = if n == 0 then (false, 0) else (true, n - 1)

-- A machine with so many free pages, each of them the page 5, and the pages at its addresses.
record Machine : Type 0 where
  free : ℕ
  pages : ℕ → Option (ℕ × ℕ)

abbrev map_page : (addr page perm : ℕ) → Machine → Machine
map_page addr page perm n = record n { pages = update n.pages addr (some (page, perm)) }

abbrev take_page : (addr perm : ℕ) → Machine → Bool × Machine
take_page addr perm n = (
  not (n.free == 0),
  if n.free == 0 then n else map_page addr 5 perm (record n { free = n.free - 1 }),
)

abbrev empty_tables : Paging Machine
empty_tables = record {
  swap_init_ok = true;
  get_pte = λ addr n. (some 0, n);
  pgdir_alloc_page = take_page;
  swap_in = λ addr n. (6, n);
  page_insert = λ page addr perm n. map_page addr page perm n;
  swap_map_swappable = λ addr page n. n;
  set_pra_vaddr = λ page addr n. n;
}

abbrev machine : Machine
machine = record { free = 3; pages = λ a. none }
