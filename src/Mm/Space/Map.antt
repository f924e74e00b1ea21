-- ===== src/Mm/Space/Map.antt =====
-- `mm_map` on each of its branches, and on a range that overlaps a later area.
use nku_os.Prelude.{
  ℕ, ◌<◌, ◌≡◌, ◌⊎◌, ◌↔◌, ◌∙◌, inl, inr, refl, Bool, true, false, Option, none, some, List, [], ◌∷◌,
  arith,
}
use nku_os.Mm.Vma.{Vma, MmStruct, contains, find_vma}
use nku_os.Mm.Vma.Lookup.{In, IsMm, Found, find_vma_lem}
use nku_os.Mm.Vma.Insertion.{Disjoint, insert_vma_struct_lem}
use nku_os.Errors.{e_no_mem}
use nku_os.Mm.Space.{
  round_down, round_up, end_of, user_access, mm_map, map_created, vma_create, starts_below,
}

abbrev pub new_area : (addr len vm_flags : ℕ) → Vma
new_area addr len vm_flags = record {
  vm_start = round_down addr;
  vm_end = round_up (end_of addr len);
  vm_flags = vm_flags;
}

no_area :
    (xs : List Vma) (a end : ℕ) (r : Option Vma)
    → ((v : Vma) → In v xs → contains v a ≡ false)
    → Found xs a r
    → starts_below r end ≡ false
no_area xs a end none free f = refl
no_area xs a end (some v) free f = absurd (ground (arith, f.1, free v f.0))

module _ (mem : Bool) (addr len vm_flags : ℕ) (mm : MmStruct) (h : IsMm mm) where
  -- Where no area holds the first page, what is left is to make and insert the new area.
  mm_map-created :
      (user_access (round_down addr) (round_up (end_of addr len)) ≡ true)
      → ((v : Vma) → In v mm.mmap_list → contains v (round_down addr) ≡ false)
      → mm_map mem addr len vm_flags mm
        ≡ map_created
            (vma_create mem (round_down addr) (round_up (end_of addr len)) vm_flags)
            (find_vma mm (round_down addr)).1
  unfolding mm_map
  mm_map-created user free =
      let start = round_down addr in
      let f = find_vma_lem mm start h in
      rw
        (
          user,
          no_area mm.mmap_list start (round_up (end_of addr len)) (find_vma mm start).0 free f.1,
        )
        refl

-- The outcome: the new area is there besides the others, or there was no memory for it.
abbrev pub Mapped : (mem : Bool) → Vma → (mm mm' : MmStruct) → ℕ → Type 0
Mapped true v mm mm' ret =
    (ret ≡ 0) × ((u : Vma) → In u mm'.mmap_list ↔ ((u ≡ v) ⊎ In u mm.mmap_list))
Mapped false v mm mm' ret = (ret ≡ e_no_mem) × (mm'.mmap_list ≡ mm.mmap_list)

Disjoint-free :
    (v : Vma) (xs : List Vma)
    → v.vm_start < v.vm_end
    → Disjoint v xs
    → (x : Vma) → In x xs
    → contains x v.vm_start ≡ false
Disjoint-free v [] pos d = λ x i. elim i [ ]
Disjoint-free v (y ∷ ys) pos d = λ x i. elim i [
  | inl e ↦ rw e (ground (arith, d.0, pos))
  | inr j ↦ Disjoint-free v ys pos d.1 x j
]

map_created-Mapped :
    (mem : Bool) (mm mm' : MmStruct) (addr len vm_flags : ℕ)
    → IsMm mm'
    → mm'.mmap_list ≡ mm.mmap_list
    → round_down addr < round_up (end_of addr len)
    → Disjoint (new_area addr len vm_flags) mm.mmap_list
    → (ret : ℕ) × (mm2 : MmStruct) × (map_created
          (vma_create mem (round_down addr) (round_up (end_of addr len)) vm_flags)
          mm'
        ≡ some (ret, mm2))
      × IsMm mm2
      × Mapped mem (new_area addr len vm_flags) mm mm2 ret
map_created-Mapped false mm mm' addr len vm_flags h same pos d =
    (e_no_mem, mm', refl, h, (refl, same))
map_created-Mapped true mm mm' addr len vm_flags h same pos d =
    let v = new_area addr len vm_flags in
    let (mm2, run, h2, areas, n) = insert_vma_struct_lem mm' v h pos (rw same d) in
    (0, mm2, rw run refl, h2, (refl, λ u. rw same at (areas u)))

-- `mm_map` of a range of the user's part whose pages are in no area: with memory for the area it returns 0, and the areas
-- are those and the new one, which has the pages of the range; without, it returns `-E_NO_MEM` and the areas are as they
-- were. The areas stay in order.
pub mm_map_lem :
    (mem : Bool) (addr len vm_flags : ℕ) (mm : MmStruct)
    → IsMm mm
    → user_access (round_down addr) (round_up (end_of addr len)) ≡ true
    → Disjoint (new_area addr len vm_flags) mm.mmap_list
    → (ret : ℕ) × (mm' : MmStruct) × (mm_map mem addr len vm_flags mm ≡ some (ret, mm'))
      × IsMm mm'
      × Mapped mem (new_area addr len vm_flags) mm mm' ret
mm_map_lem mem addr len vm_flags mm h user d =
    let f = find_vma_lem mm (round_down addr) h in
    let pos : round_down addr < round_up (end_of addr len) = ground (arith, user) in
    let free = Disjoint-free (new_area addr len vm_flags) mm.mmap_list pos d in
    let (ret, mm', run, h', o) =
      map_created-Mapped mem mm (find_vma mm (round_down addr)).1 addr len vm_flags f.2 f.3 pos d in
    (ret, mm', mm_map-created mem addr len vm_flags mm h user free ∙ run, h', o)
