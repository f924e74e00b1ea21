-- ===== src/Mm/Space.antt =====
-- kern/mm/vmm.c: mapping an area, checking what a process passes, and copying an address space.
-- `kmalloc` and the page tables (`copy_range`) are parameters, with what they change as a state.
pub mod Check
pub mod Map
pub mod Dup
pub mod Fault
mod Tests
use Prim.Native.Nat.{bit_and}
use nku_os.Prelude.{
  ℕ, zero, suc, ◌+◌, ◌-◌, ◌%◌, ◌^◌, Bool, true, false, not, ◌&&◌, Option, none, some, List, [], ◌∷◌,
  ltb, leb, ◌==◌, if◌then◌else◌,
}
use nku_os.Prelude.Partial.{◌>>=◌, ◌>>◌}
use nku_os.Strings.{Memory, memcpy, strnlen}
use nku_os.Errors.{e_inval, e_no_mem}
use nku_os.Mm.Vma.{Vma, MmStruct, find_vma, insert_vma_struct}

abbrev pub pgsize : ℕ
pgsize = 4096

-- `ROUNDDOWN` and `ROUNDUP` to pages, on 64-bit addresses.
abbrev pub round_down : ℕ → ℕ
round_down a = a - a % pgsize

abbrev pub round_up : ℕ → ℕ
round_up a = round_down ((a + pgsize - 1) % 2 ^ 64)

abbrev pub end_of : (addr len : ℕ) → ℕ
end_of addr len = (addr + len) % 2 ^ 64

abbrev pub user_access : (start end : ℕ) → Bool
user_access start end = leb 0x200000 start && ltb start end && leb end 0x80000000

abbrev pub kern_access : (start end : ℕ) → Bool
kern_access start end =
    leb 0xFFFFFFFFC0200000 start && ltb start end && leb end (0xFFFFFFFFC0200000 + 0x7E00000)

abbrev pub vm_read : ℕ
vm_read = 1

abbrev pub vm_write : ℕ
vm_write = 2

abbrev pub vm_stack : ℕ
vm_stack = 8

abbrev pub has_flag : Vma → ℕ → Bool
has_flag vma flag = not (bit_and vma.vm_flags flag == 0)

-- What `user_mem_check` asks of the area found for `start`.
abbrev pub permits : Vma → (start : ℕ) → (write : Bool) → Bool
permits vma start write =
    leb vma.vm_start start
    && has_flag vma (if write then vm_write else vm_read)
    && not (write && has_flag vma vm_stack && ltb start (vma.vm_start + pgsize))

abbrev pub user_mem_found :
    Option Vma
    → (start : ℕ) → Bool
    → (Vma → Option (Bool × MmStruct))
    → MmStruct
    → Option (Bool × MmStruct)
user_mem_found none start write next mm = some (false, mm)
user_mem_found (some vma) start write next mm =
    let later = next vma in if permits vma start write then later else some (false, mm)

-- The loop of `user_mem_check`.
unfoldable pub user_mem_from :
    ℕ → (start end : ℕ) → (write : Bool) → MmStruct → Option (Bool × MmStruct)
unfolding find_vma
user_mem_from zero start end write mm = none
user_mem_from (suc fuel) start end write mm =
    let (vma, mm') = find_vma mm start in
    let later =
      user_mem_found vma start write (λ v. user_mem_from fuel v.vm_end end write mm') mm' in
    if ltb start end then later else some (true, mm)

-- A kernel thread has no `mm`.
unfoldable pub user_mem_check :
    ℕ → Option MmStruct → (addr len : ℕ) → (write : Bool) → Option (Bool × Option MmStruct)
unfolding user_mem_from
user_mem_check fuel none addr len write = some (kern_access addr (end_of addr len), none)
user_mem_check fuel (some mm) addr len write =
    let later = do (b, mm') ← user_mem_from fuel addr (end_of addr len) write mm; some (b, some mm')
    in if user_access addr (end_of addr len) then later else some (false, some mm)

-- `memcpy` between the user's memory and the kernel's, if the check allows it.
abbrev pub copy_checked :
    Option (Bool × Option MmStruct)
    → (dst src len : ℕ) → Memory
    → Option (Bool × Option MmStruct × Memory)
copy_checked none dst src len m = none
copy_checked (some (b, mm)) dst src len m = some (b, mm, if b then memcpy dst src len m else m)

unfoldable pub copy_from_user :
    ℕ
    → Option MmStruct
    → (dst src len : ℕ) → (writable : Bool) → Memory
    → Option (Bool × Option MmStruct × Memory)
unfolding user_mem_check
copy_from_user fuel mm dst src len writable m =
    copy_checked (user_mem_check fuel mm src len writable) dst src len m

unfoldable pub copy_to_user :
    ℕ → Option MmStruct → (dst src len : ℕ) → Memory → Option (Bool × Option MmStruct × Memory)
unfolding user_mem_check
copy_to_user fuel mm dst src len m =
    copy_checked (user_mem_check fuel mm dst len true) dst src len m

-- `mem` says whether `kmalloc` has memory left.
abbrev pub vma_create : (mem : Bool) → (vm_start vm_end vm_flags : ℕ) → Option Vma
vma_create mem vm_start vm_end vm_flags =
    if mem
    then some (record { vm_start = vm_start; vm_end = vm_end; vm_flags = vm_flags })
    else none

-- A return code is the number `e_inval` where the code returns `-E_INVAL`.
abbrev pub starts_below : Option Vma → ℕ → Bool
starts_below none end = false
starts_below (some vma) end = ltb vma.vm_start end

abbrev pub map_created : Option Vma → MmStruct → Option (ℕ × MmStruct)
map_created none mm = some (e_no_mem, mm)
map_created (some vma) mm = do mm' ← insert_vma_struct mm vma; some (0, mm')

-- What goes to `vma_store` is the new area. A failed assertion is `none`.
unfoldable pub mm_map : (mem : Bool) → (addr len vm_flags : ℕ) → MmStruct → Option (ℕ × MmStruct)
unfolding insert_vma_struct find_vma
mm_map mem addr len vm_flags mm =
    let start = round_down addr in
    let end = round_up (end_of addr len) in
    let (vma, mm') = find_vma mm start in
    let created = map_created (vma_create mem start end vm_flags) mm' in
    if not (user_access start end)
    then some (e_inval, mm)
    else if starts_below vma end
    then some (e_inval, mm')
    else created

-- The areas in the order of `list_prev` from the list head.
abbrev pub rev_onto : List Vma → List Vma → List Vma
rev_onto [] ys = ys
rev_onto (x ∷ xs) ys = rev_onto xs (x ∷ ys)

-- `copy_range` returns whether it had the memory for the copies; it fills the page tables of `M`.
module _ {M : Type 0} (kmalloc : M → Bool × M)
    (copy_range : (vm_start vm_end : ℕ) → M → Bool × M) where
  -- The loop of `dup_mmap`.
  unfoldable pub dup_areas : List Vma → MmStruct → M → Option (ℕ × MmStruct × M)
  unfolding insert_vma_struct
  dup_areas [] to m = some (0, to, m)
  dup_areas (vma ∷ rest) to m =
      let (mem, m1) = kmalloc m in
      let (copied, m2) = copy_range vma.vm_start vma.vm_end m1 in
      let later = do
        to' ←
            insert_vma_struct to
              (record { vm_start = vma.vm_start; vm_end = vma.vm_end; vm_flags = vma.vm_flags })
        let rest_areas = dup_areas rest to' m2
        if copied then rest_areas else some (e_no_mem, to', m2)
      in if mem then later else some (e_no_mem, to, m1)

  unfoldable pub dup_mmap : (to from : MmStruct) → M → Option (ℕ × MmStruct × M)
  unfolding dup_areas
  dup_mmap to from m = dup_areas (rev_onto from.mmap_list []) to m

-- `unmap_range` and `exit_range` of the page tables.
module _ {M : Type 0} (unmap_range exit_range : (start end : ℕ) → M → M) where
  abbrev pub each_area : ((start end : ℕ) → M → M) → List Vma → M → M
  each_area f [] m = m
  each_area f (vma ∷ rest) m = each_area f rest (f vma.vm_start vma.vm_end m)

  -- Both loops go once around the list.
  unfoldable pub exit_mmap : MmStruct → M → M
  exit_mmap mm m = each_area exit_range mm.mmap_list (each_area unmap_range mm.mmap_list m)
