-- ===== src/Mm/Vma.antt =====
-- kern/mm/vmm.c: the areas of an address space, and the cache of the last one found.
pub mod Lookup
mod Tests
pub mod Insertion
use nku_os.Prelude.{
  ℕ, ◌+◌, ◌%◌, ◌^◌, Bool, true, false, ◌&&◌, Option, none, some, List, [], ◌∷◌, ltb, leb,
  if◌then◌else◌,
}
use nku_os.Prelude.Partial.{◌>>=◌, ◌>>◌, assert}

pub record Vma : Type 0 where
  pub vm_start : ℕ
  pub vm_end : ℕ
  pub vm_flags : ℕ

-- `struct mm_struct`: the list of areas, and a copy of the area that `mmap_cache` points to.
pub record MmStruct : Type 0 where
  pub mmap_list : List Vma
  pub mmap_cache : Option Vma
  pub map_count : ℕ

abbrev pub contains : Vma → ℕ → Bool
contains vma addr = leb vma.vm_start addr && ltb addr vma.vm_end

-- The loop of `find_vma`.
unfoldable pub search_list : List Vma → ℕ → Option Vma
search_list [] addr = none
search_list (vma ∷ rest) addr =
    let later = search_list rest addr in if contains vma addr then some vma else later

abbrev pub cached : Option Vma → ℕ → Bool
cached none addr = false
cached (some vma) addr = contains vma addr

-- The area found becomes the cached one.
abbrev pub remember : Option Vma → MmStruct → MmStruct
remember none mm = mm
remember (some vma) mm = record mm { mmap_cache = some vma }

unfoldable pub find_vma : MmStruct → ℕ → Option Vma × MmStruct
unfolding search_list
find_vma mm addr =
    let vma = if cached mm.mmap_cache addr then mm.mmap_cache else search_list mm.mmap_list addr in
    (vma, remember vma mm)

unfoldable pub check_vma_overlap : (prev next : Vma) → Option (Unit {0})
check_vma_overlap prev next = do
  assert (ltb prev.vm_start prev.vm_end)
  assert (leb prev.vm_end next.vm_start)
  assert (ltb next.vm_start next.vm_end)

abbrev pub check_prev : Option Vma → Vma → Option (Unit {0})
check_prev none vma = some tt
check_prev (some prev) vma = check_vma_overlap prev vma

-- The walk of `insert_vma_struct`, with the area that it passed last.
unfoldable pub insert_vma_walk : Option Vma → Vma → List Vma → Option (List Vma)
unfolding check_vma_overlap
insert_vma_walk prev vma [] = do check_prev prev vma; some (vma ∷ [])
insert_vma_walk prev vma (next ∷ rest) =
    let later = insert_vma_walk (some next) vma rest in
    if ltb vma.vm_start next.vm_start
    then (do check_prev prev vma; check_vma_overlap vma next; some (vma ∷ next ∷ rest))
    else (do xs ← later; some (next ∷ xs))

unfoldable pub insert_vma_struct : MmStruct → Vma → Option MmStruct
unfolding insert_vma_walk
insert_vma_struct mm vma = do
  assert (ltb vma.vm_start vma.vm_end)
  xs ← insert_vma_walk none vma mm.mmap_list
  some (record mm { mmap_list = xs; map_count = (mm.map_count + 1) % 2 ^ 32 })
