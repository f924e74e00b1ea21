-- ===== src/Mm/Swap.antt =====
-- The page replacement policies: FIFO (lab8code/lab8/kern/mm/swap_fifo.c), and of lab3 clock
-- (lab3/kern/mm/swap_clock.c) and LRU (lab3/kern/mm/swap_lru.c).
pub mod Lists
pub mod Clock
pub mod Lru
mod Tests
use nku_os.Prelude.{
  ℕ, zero, suc, ◌-◌, Bool, true, false, not, Option, none, some, ◌==◌, if◌then◌else◌, update,
}
use nku_os.LinkedList.{Links, list_init, list_add, list_add_before, list_del, list_next, list_prev}

-- The addresses of the list head and of the `pra_page_link` of a page; a page is its index.
abbrev pub pra_list_head : ℕ
pra_list_head = 0

abbrev pub pra_page_link : ℕ → ℕ
pra_page_link page = suc page

abbrev pub pra_le2page : ℕ → ℕ
pra_le2page le = le - 1

unfoldable pub fifo_init_mm : Links → Links
unfolding list_init
fifo_init_mm l = list_init pra_list_head l

unfoldable pub fifo_map_swappable : (page : ℕ) → Links → Links
unfolding list_add_before
fifo_map_swappable page l = list_add_before pra_list_head (pra_page_link page) l

-- `in_tick` is 0. With an empty list this takes out the list head itself.
unfoldable pub fifo_swap_out_victim : Links → ℕ × Links
unfolding list_del
fifo_swap_out_victim l =
    let entry = list_next pra_list_head l in (pra_le2page entry, list_del entry l)

-- The list, `page->visited` of each page, and the hand.
pub record ClockState : Type 0 where
  pub links : Links
  pub visited : ℕ → ℕ
  pub curr_ptr : ℕ

unfoldable pub clock_init_mm : ClockState → ClockState
unfolding list_init
clock_init_mm s = record s { links = list_init pra_list_head s.links; curr_ptr = pra_list_head }

unfoldable pub clock_map_swappable : (page : ℕ) → ClockState → ClockState
unfolding list_add
clock_map_swappable page s = record s {
  links = list_add (list_prev pra_list_head s.links) (pra_page_link page) s.links;
  visited = update s.visited page 1;
}

-- The hand skips the list head.
abbrev pub skip_head : ClockState → ℕ
skip_head s = if s.curr_ptr == pra_list_head then list_next pra_list_head s.links else s.curr_ptr

unfoldable pub clock_swap_out_victim : ℕ → ClockState → Option (ℕ × ClockState)
unfolding list_del
clock_swap_out_victim zero s = none
clock_swap_out_victim (suc fuel) s =
    let curr = skip_head s in
    let page = pra_le2page curr in
    let later =
      clock_swap_out_victim fuel
        (record s { visited = update s.visited page 0; curr_ptr = list_next curr s.links }) in
    if not (s.visited page == 1)
    then some (page, record s { links = list_del curr s.links; curr_ptr = curr })
    else later

unfoldable pub lru_init_mm : Links → Links
unfolding list_init
lru_init_mm l = list_init pra_list_head l

unfoldable pub lru_map_swappable : (page : ℕ) → Links → Links
unfolding list_add
lru_map_swappable page l = list_add pra_list_head (pra_page_link page) l

unfoldable pub lru_swap_out_victim : Links → Option ℕ × Links
unfolding list_del
lru_swap_out_victim l =
    let entry = list_prev pra_list_head l in
    if not (entry == pra_list_head) then (some (pra_le2page entry), list_del entry l) else (none, l)

-- The list, and the bit `PTE_A` in the page table entry for `pra_vaddr` of each page, which exists.
pub record LruState : Type 0 where
  pub links : Links
  pub accessed : ℕ → Bool

-- The body of the loop of `_lru_tick_event`.
unfoldable pub lru_touch : (entry : ℕ) → LruState → LruState
unfolding list_del list_add
lru_touch entry s =
    if s.accessed (pra_le2page entry)
    then record {
      links = list_add pra_list_head entry (list_del entry s.links);
      accessed = update s.accessed (pra_le2page entry) false;
    }
    else s

unfoldable pub lru_tick_from : ℕ → (entry : ℕ) → LruState → Option LruState
unfolding lru_touch
lru_tick_from zero entry s = none
lru_tick_from (suc fuel) entry s =
    let s' = lru_touch entry s in
    let later = lru_tick_from fuel (list_prev pra_list_head s'.links) s' in
    if entry == pra_list_head then some s else later

unfoldable pub lru_tick_event : ℕ → LruState → Option LruState
unfolding lru_tick_from
lru_tick_event fuel s = lru_tick_from fuel (list_next pra_list_head s.links) s
