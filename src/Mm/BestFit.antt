-- ===== src/Mm/BestFit.antt =====
-- lab2/kern/mm/best_fit_pmm.c: the best-fit manager, with the pages and the list of FirstFit. Its functions but the
-- search are those of the first-fit manager, word for word.
pub mod Alloc
mod Tests
use nku_os.Prelude.{
  ℕ, zero, suc, ◌+◌, Bool, true, false, ◌&&◌, Option, none, some, ltb, leb, ◌==◌, if◌then◌else◌,
}
use nku_os.Prelude.Partial.{◌>>=◌, ◌>>◌, assert}
use nku_os.LinkedList.{list_next}
use nku_os.Mm.FirstFit.{
  Page, FreeArea, to_uint, free_list, le2page, default_init, reset_reserved, reset_freed, add_block,
  take_block, merge_before, merge_after,
}

unfoldable pub best_fit_init : FreeArea → FreeArea
unfolding default_init
best_fit_init s = default_init s

unfoldable pub best_fit_init_memmap : ℕ → (base n : ℕ) → FreeArea → Option FreeArea
unfolding reset_reserved add_block
best_fit_init_memmap fuel base n s = do
  assert (ltb 0 n)
  s1 ← reset_reserved n base s
  add_block fuel base n s1

-- The search, from the link `le`, with the best page so far and its size.
unfoldable pub find_best :
    ℕ → (le n : ℕ) → (page : Option ℕ) → (min_size : ℕ) → FreeArea → Option (Option ℕ)
find_best zero le n page min_size s = none
find_best (suc fuel) le n page min_size s =
    let le' = list_next le s.links in
    let p = le2page le' in
    let size = (s.page p).property in
    let better = find_best fuel le' n (some p) size s in
    let on = find_best fuel le' n page min_size s in
    if le' == free_list then some page else if leb n size && ltb size min_size then better else on

unfoldable pub best_fit_alloc_pages : ℕ → (n : ℕ) → FreeArea → Option (Option ℕ × FreeArea)
unfolding find_best take_block
best_fit_alloc_pages fuel n s = do
  assert (ltb 0 n)
  if ltb s.nr_free n then some (none, s) else do
    found ← find_best fuel free_list n none (to_uint (s.nr_free + 1)) s
    some (elim found [ none ↦ (none, s) | some page ↦ (some page, take_block page n s) ])

unfoldable pub best_fit_free_pages : ℕ → (base n : ℕ) → FreeArea → Option FreeArea
unfolding reset_freed add_block merge_before merge_after
best_fit_free_pages fuel base n s = do
  assert (ltb 0 n)
  s1 ← reset_freed n base s
  s2 ← add_block fuel base n s1
  some (let (b, s3) = merge_before base s2 in merge_after b s3)
