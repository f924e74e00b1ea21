-- ===== src/Mm/FirstFit.antt =====
-- kern/mm/default_pmm.c: the first-fit manager of physical pages, over the array of page
-- descriptors and the list of free blocks that is linked through them.
pub mod Alloc
pub mod Blocks
pub mod Free
pub mod Init
pub mod Insert
pub mod Join
pub mod Last
mod Tests
use nku_os.Prelude.{
  ℕ, zero, suc, ◌+◌, ◌-◌, ◌%◌, ◌^◌, Bool, true, false, not, ◌&&◌, Option, none, some, ltb, leb,
  ◌==◌, if◌then◌else◌, update,
}
use nku_os.Prelude.Partial.{◌>>=◌, ◌>>◌, assert}
use nku_os.LinkedList.{
  Links, list_init, list_add, list_add_before, list_del, list_empty, list_next, list_prev,
}

-- `struct Page`: its two flags, the count of references, and the size of the free block that it
-- heads. `page_link` is kept in `FreeArea.links`.
pub record Page : Type 0 where
  pub ref : ℕ
  pub reserved : Bool
  pub head : Bool
  pub property : ℕ

-- The page array and `free_area`. A `struct Page *` is an index of the array, so that the order of
-- pointers is the order of indices.
pub record FreeArea : Type 0 where
  pub page : ℕ → Page
  pub links : Links
  pub nr_free : ℕ

-- `unsigned int`
abbrev pub to_uint : ℕ → ℕ
to_uint n = n % 2 ^ 32

-- The address of the list head, and of the link in each page.
abbrev pub free_list : ℕ
free_list = 0

abbrev pub page_link : ℕ → ℕ
page_link p = suc p

abbrev pub le2page : ℕ → ℕ
le2page le = le - 1

abbrev pub set_page : ℕ → Page → FreeArea → FreeArea
set_page p v s = record s { page = update s.page p v }

abbrev pub set_property : ℕ → ℕ → FreeArea → FreeArea
set_property p n s = let q = s.page p in set_page p (record q { property = to_uint n }) s

-- `SetPageProperty` and `ClearPageProperty`
abbrev pub set_head : ℕ → Bool → FreeArea → FreeArea
set_head p b s = let q = s.page p in set_page p (record q { head = b }) s

abbrev pub with_links : (Links → Links) → FreeArea → FreeArea
with_links f s = record s { links = f s.links }

unfoldable pub default_init : FreeArea → FreeArea
unfolding list_init
default_init s = record s { links = list_init free_list s.links; nr_free = 0 }

-- The walk that puts a block into the list by address, from the link `le`; one unit of fuel is a
-- round. After an insertion at the end the loop goes on.
unfoldable pub insert_walk : ℕ → (le base : ℕ) → Links → Option Links
unfolding list_add list_add_before
insert_walk zero le base l = none
insert_walk (suc fuel) le base l =
    let le' = list_next le l in
    let behind = insert_walk fuel le' base (list_add le' (page_link base) l) in
    let on = insert_walk fuel le' base l in
    if le' == free_list
    then some l
    else if ltb base (le2page le')
    then some (list_add_before le' (page_link base) l)
    else if list_next le' l == free_list
    then behind
    else on

unfoldable pub insert_block : ℕ → ℕ → Links → Option Links
unfolding insert_walk
insert_block fuel base l =
    if list_empty free_list l
    then some (list_add free_list (page_link base) l)
    else insert_walk fuel free_list base l

-- The loop of `default_init_memmap` over `n` pages from `p`.
unfoldable pub reset_reserved : (n p : ℕ) → FreeArea → Option FreeArea
reset_reserved zero p s = some s
reset_reserved (suc n) p s =
    let q : Page = record { ref = 0; reserved = false; head = false; property = 0 } in
    elim (s.page p).reserved [ true ↦ reset_reserved n (suc p) (set_page p q s) | false ↦ none ]

-- The loop of `default_free_pages` over `n` pages from `p`.
unfoldable pub reset_freed : (n p : ℕ) → FreeArea → Option FreeArea
reset_freed zero p s = some s
reset_freed (suc n) p s =
    let old = s.page p in
    let q : Page = record { ref = 0; reserved = false; head = false; property = old.property } in
    elim (not old.reserved && not old.head) [
      | true ↦ reset_freed n (suc p) (set_page p q s)
      | false ↦ none
    ]

-- What both functions do next: `base` becomes the head of a block of `n` pages, and is listed.
unfoldable pub add_block : ℕ → (base n : ℕ) → FreeArea → Option FreeArea
unfolding insert_block
add_block fuel base n s = do
  let s1 = set_head base true (set_property base n s)
  l ← insert_block fuel base s1.links
  some (record s1 { links = l; nr_free = to_uint (s.nr_free + n) })

unfoldable pub default_init_memmap : ℕ → (base n : ℕ) → FreeArea → Option FreeArea
unfolding reset_reserved add_block
default_init_memmap fuel base n s = do
  assert (ltb 0 n)
  s1 ← reset_reserved n base s
  add_block fuel base n s1

-- The search for the first block of at least `n` pages, from the link `le`.
unfoldable pub find_fit : ℕ → (le n : ℕ) → FreeArea → Option (Option ℕ)
find_fit zero le n s = none
find_fit (suc fuel) le n s =
    let le' = list_next le s.links in
    let on = find_fit fuel le' n s in
    if le' == free_list
    then some none
    else if leb n (s.page (le2page le')).property
    then some (some (le2page le'))
    else on

-- What is left of a block is listed in its place. `n` is at most `nr_free` where this is called.
unfoldable pub take_block : (page n : ℕ) → FreeArea → FreeArea
unfolding list_del list_add
take_block page n s =
    let size = (s.page page).property in
    let before = list_prev (page_link page) s.links in
    let s1 = with_links (list_del (page_link page)) s in
    let p = page + n in
    let s2 =
      with_links (list_add before (page_link p)) (set_head p true (set_property p (size - n) s1)) in
    let s3 = if ltb n size then s2 else s1 in
    set_head page false (record s3 { nr_free = s3.nr_free - n })

unfoldable pub default_alloc_pages : ℕ → ℕ → FreeArea → Option (Option ℕ × FreeArea)
unfolding find_fit take_block
default_alloc_pages fuel n s = do
  assert (ltb 0 n)
  if ltb s.nr_free n then some (none, s) else do
    found ← find_fit fuel free_list n s
    some (elim found [ none ↦ (none, s) | some page ↦ (some page, take_block page n s) ])

-- The block of `q` becomes part of that of `p`.
unfoldable pub join_blocks : (p q : ℕ) → FreeArea → FreeArea
unfolding list_del
join_blocks p q s =
    with_links (list_del (page_link q))
      (set_head q false (set_property p ((s.page p).property + (s.page q).property) s))

-- Joins the block of `base` to the one listed before it; the head of the block is returned.
unfoldable pub merge_before : ℕ → FreeArea → ℕ × FreeArea
merge_before base s =
    let le = list_prev (page_link base) s.links in
    let p = le2page le in
    if le == free_list
    then (base, s)
    else if p + (s.page p).property == base
    then (p, join_blocks p base s)
    else (base, s)

-- Joins the block listed behind that of `base` to it.
unfoldable pub merge_after : ℕ → FreeArea → FreeArea
merge_after base s =
    let le = list_next (page_link base) s.links in
    let p = le2page le in
    if le == free_list
    then s
    else if base + (s.page base).property == p
    then join_blocks base p s
    else s

unfoldable pub default_free_pages : ℕ → (base n : ℕ) → FreeArea → Option FreeArea
unfolding reset_freed add_block merge_before merge_after
default_free_pages fuel base n s = do
  assert (ltb 0 n)
  s1 ← reset_freed n base s
  s2 ← add_block fuel base n s1
  some (let (b, s3) = merge_before base s2 in merge_after b s3)

unfoldable pub default_nr_free_pages : FreeArea → ℕ
default_nr_free_pages s = s.nr_free
