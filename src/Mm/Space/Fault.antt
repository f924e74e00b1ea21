-- ===== src/Mm/Space/Fault.antt =====
-- `do_pgfault` and `copy_string` of kern/mm/vmm.c.
use Prim.Native.Nat.{bit_or}
use nku_os.Prelude.{
  ℕ, zero, suc, ◌+◌, ◌-◌, ◌%◌, ◌^◌, ◌≡◌, ◌≢◌, ◌⊎◌, Bool, true, false, not, Option, none, some, List,
  ltb, ◌==◌, if◌then◌else◌,
}
use nku_os.Prelude.Partial.{◌>>=◌}
use nku_os.Errors.{e_inval, e_no_mem}
use nku_os.Strings.{Memory, memcpy, strnlen}
use nku_os.Mm.Vma.{Vma, MmStruct, find_vma, contains}
use nku_os.Mm.Vma.Lookup.{In}
use nku_os.Mm.Space.{pgsize, round_down, vm_write, has_flag, user_mem_check}

-- The page tables and the swap: `get_pte` with `create` (the entry, or NULL), `pgdir_alloc_page` (whether there was a
-- page), `swap_in` (the page that it stores), `page_insert`, `swap_map_swappable`, and setting `pra_vaddr`.
pub record Paging (M : Type 0) : Type 0 where
  pub swap_init_ok : Bool
  pub get_pte : (addr : ℕ) → M → Option ℕ × M
  pub pgdir_alloc_page : (addr perm : ℕ) → M → Bool × M
  pub swap_in : (addr : ℕ) → M → ℕ × M
  pub page_insert : (page addr perm : ℕ) → M → M
  pub swap_map_swappable : (addr page : ℕ) → M → M
  pub set_pra_vaddr : (page addr : ℕ) → M → M

abbrev pub pte_u : ℕ
pte_u = 0x10

abbrev pub read_write : ℕ
read_write = 0x7

module _ {M : Type 0} (p : Paging M) where
  -- The two ways to fill the entry that `get_pte` found; the result code and the page tables.
  abbrev pub fill_entry : (pte addr perm : ℕ) → M → ℕ × M
  fill_entry pte addr perm m =
      let (allocated, m1) = p.pgdir_alloc_page addr perm m in
      let (page, m2) = p.swap_in addr m in
      let m3 =
        p.set_pra_vaddr page addr
          (p.swap_map_swappable addr page (p.page_insert page addr perm m2)) in
      if pte == 0
      then (if allocated then 0 else e_no_mem, m1)
      else if p.swap_init_ok
      then (0, m3)
      else (e_no_mem, m)

  abbrev pub map_entry : Option ℕ × M → (addr perm : ℕ) → ℕ × M
  map_entry (none, m) addr perm = (e_no_mem, m)
  map_entry (some pte, m) addr perm = fill_entry pte addr perm m

  abbrev pub fault_in : Option Vma → (addr : ℕ) → M → ℕ × M
  fault_in none addr m = (e_inval, m)
  fault_in (some vma) addr m =
      let perm = if has_flag vma vm_write then bit_or pte_u read_write else pte_u in
      let addr' = round_down addr in
      if ltb addr vma.vm_start then (e_inval, m) else map_entry (p.get_pte addr' m) addr' perm

  -- With `pgfault_num`, which counts in 32 bits.
  unfoldable pub do_pgfault : (addr : ℕ) → MmStruct × ℕ × M → ℕ × MmStruct × ℕ × M
  unfolding find_vma
  do_pgfault addr (mm, pgfault_num, m) =
      let (vma, mm') = find_vma mm addr in
      let (ret, m') = fault_in vma addr m in (ret, mm', (pgfault_num + 1) % 2 ^ 32, m')

-- The loop of `copy_string`, where the check of each part takes a round for each byte and one more.
unfoldable pub copy_string_from :
    ℕ
    → Option MmStruct
    → (dst src maxn part : ℕ) → Memory
    → Option (Bool × Option MmStruct × Memory)
unfolding user_mem_check memcpy strnlen
copy_string_from zero mm dst src maxn part m = none
copy_string_from (suc fuel) mm dst src maxn part m =
    let len = if ltb maxn part then maxn else part in
    let alen = strnlen src len m in
    do
      (allowed, mm') ← user_mem_check (suc len) mm src len false
      let later =
          copy_string_from fuel mm' (dst + len) (src + len) (maxn - len) pgsize
            (memcpy dst src len m)
      if not allowed
          then some (false, mm', m)
          else if ltb alen len
          then some (true, mm', memcpy dst src (alen + 1) m)
          else if len == maxn
          then some (false, mm', m)
          else later

unfoldable pub copy_string :
    ℕ → Option MmStruct → (dst src maxn : ℕ) → Memory → Option (Bool × Option MmStruct × Memory)
unfolding copy_string_from
copy_string fuel mm dst src maxn m =
    copy_string_from fuel mm dst src maxn (round_down (src + pgsize) - src) m

-- What the page tables do: they map pages of memory, under permissions, to addresses. `page_insert` maps the page where the
-- table that holds the entry exists, which it does behind `get_pte`. Mappings of other addresses may go meanwhile, since an allocation swaps
-- pages out.
pub record PagingLaws {M : Type 0} (p : Paging M) : Type 0 where
  pub page_at : (addr : ℕ) → M → Option (ℕ × ℕ)
  pub alloc_maps :
      (a perm : ℕ) (m : M)
      → (p.pgdir_alloc_page a perm m).0 ≡ true
      → (page : ℕ) × (page_at a (p.pgdir_alloc_page a perm m).1 ≡ some (page, perm))
  pub insert_maps :
      (page a perm : ℕ) (m : M) → page_at a (p.page_insert page a perm m) ≡ some (page, perm)
  pub swappable_maps :
      (a page b : ℕ) (m : M) → page_at b (p.swap_map_swappable a page m) ≡ page_at b m
  pub pra_maps : (page a b : ℕ) (m : M) → page_at b (p.set_pra_vaddr page a m) ≡ page_at b m

-- The permissions of the pages of an area.
abbrev pub perm_of : Vma → ℕ
perm_of v = if has_flag v vm_write then bit_or pte_u read_write else pte_u

module _ {M : Type 0} (p : Paging M) (laws : PagingLaws p) where
  -- What becomes of the page at `a`, whose entry was `r`: a new page, or the one that was swapped out, is
  -- mapped, or the code says that there is none.
  abbrev pub Filled : (r : Option ℕ × M) → (a perm : ℕ) → ℕ × M → Type 0
  Filled (none, m) a perm (ret, m') = (ret ≡ e_no_mem) × (m' ≡ m)
  Filled (some pte, m) a perm (ret, m') =
      ((pte ≡ 0)
        × ((p.pgdir_alloc_page a perm m).0 ≡ true)
        × (ret ≡ 0)
        × ((page : ℕ) × (laws.page_at a m' ≡ some (page, perm))))
      ⊎ (((pte ≡ 0) × ((p.pgdir_alloc_page a perm m).0 ≡ false) × (ret ≡ e_no_mem))
          ⊎ (((pte ≢ 0)
                × (p.swap_init_ok ≡ true)
                × (ret ≡ 0)
                × (laws.page_at a m' ≡ some ((p.swap_in a m).0, perm)))
              ⊎ ((pte ≢ 0) × (p.swap_init_ok ≡ false) × (ret ≡ e_no_mem) × (m' ≡ m))))

  -- By the area that holds the address.
  abbrev pub Faulted : List Vma → (addr : ℕ) → M → ℕ × MmStruct × ℕ × M → Type 0
  Faulted xs addr m (ret, mm', n, m') =
      (((v : Vma) → In v xs → contains v addr ≡ false) × (ret ≡ e_inval) × (m' ≡ m))
      ⊎ ((v : Vma) × In v xs
          × (contains v addr ≡ true)
          × Filled (p.get_pte (round_down addr) m) (round_down addr) (perm_of v) (ret, m'))
