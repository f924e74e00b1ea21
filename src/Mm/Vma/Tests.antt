-- ===== src/Mm/Vma/Tests.antt =====
-- Runs on an address space of two areas.
use nku_os.Prelude.{ℕ, ◌≡◌, ◌⊎◌, ◌↔◌, inl, inr, refl, some, [], ◌∷◌, arith}
use nku_os.Mm.Vma.{Vma, MmStruct, search_list, find_vma, insert_vma_struct}
use nku_os.Mm.Vma.Lookup.{In, Found, IsMm, find_vma_lem}
use nku_os.Mm.Vma.Insertion.{insert_vma_struct_lem}

abbrev area : ℕ → ℕ → Vma
area from to = record { vm_start = from; vm_end = to; vm_flags = 3 }

abbrev mm : MmStruct
mm = record {
  mmap_list = area 0x1000 0x3000 ∷ area 0x5000 0x6000 ∷ [];
  mmap_cache = some (area 0x5000 0x6000);
  map_count = 2;
}

mm-IsMm : IsMm mm
mm-IsMm = record {
  ordered = (omega arith, omega arith, (omega arith, omega arith, tt));
  cache = inr (inl refl);
}

find_vma_lem_example :
    let (vma, mm') = find_vma mm 0x2345 in
    (vma ≡ search_list mm.mmap_list 0x2345)
    × Found mm.mmap_list 0x2345 vma
    × IsMm mm'
    × (mm'.mmap_list ≡ mm.mmap_list)
find_vma_lem_example = find_vma_lem mm 0x2345 mm-IsMm

insert_vma_struct_lem_example :
    (mm' : MmStruct) × (insert_vma_struct mm (area 0x3000 0x4000) ≡ some mm')
    × IsMm mm'
    × ((u : Vma) → In u mm'.mmap_list ↔ ((u ≡ area 0x3000 0x4000) ⊎ In u mm.mmap_list))
    × (mm'.map_count ≡ 3)
insert_vma_struct_lem_example =
    insert_vma_struct_lem mm (area 0x3000 0x4000) mm-IsMm (omega arith)
      (inr (omega arith), (inl (omega arith), tt))
