-- ===== src/Mm/Buddy.antt =====
-- lab2/kern/mm/buddy.c: the buddy manager of physical pages.
pub mod Powers
pub mod Free
mod Tests
use Prim.Native.Nat.{bit_xor}
use nku_os.Prelude.{
  ℕ, zero, suc, ◌+◌, ◌-◌, ◌*◌, ◌/◌, ◌%◌, ◌^◌, Bool, true, false, not, ◌&&◌, Option, none, some,
  List, [], ◌∷◌, ltb, leb, ◌==◌, if◌then◌else◌, update,
}
use nku_os.Prelude.Partial.{◌>>=◌, ◌>>◌, assert}
use nku_os.LinkedList.{Links, list_init, list_add, list_del, list_next, list_empty}

-- The two flags, the order of a block in its head page, and the references.
pub record BuddyPage : Type 0 where
  pub reserved : Bool
  pub property_flag : Bool
  pub property : ℕ
  pub ref : ℕ

pub record FreeBuddy : Type 0 where
  pub page : ℕ → BuddyPage
  pub links : Links
  pub max_order : ℕ
  pub nr_free : ℕ

abbrev pub buddy_orders : ℕ
buddy_orders = 20

-- The addresses of the list heads, and of the `page_link` of a page, which is its index in `pages`.
abbrev pub free_array : ℕ → ℕ
free_array order = order

abbrev pub buddy_link : ℕ → ℕ
buddy_link page = buddy_orders + 1 + page

abbrev pub link_page : ℕ → ℕ
link_page le = le - (buddy_orders + 1)

abbrev pub set_buddy_page : ℕ → BuddyPage → FreeBuddy → FreeBuddy
set_buddy_page p v b = record b { page = update b.page p v }

-- The loops of `log2` and `floor_pow2`; shifts are those of 64 bits.
unfoldable pub log2_from : ℕ → (n order : ℕ) → Option ℕ
log2_from zero n order = none
log2_from (suc fuel) n order =
    let later = log2_from fuel (n / 2) (order + 1) in if ltb 1 n then later else some order

unfoldable pub log2 : ℕ → (n : ℕ) → Option ℕ
unfolding log2_from
log2 fuel n = log2_from fuel n 0

unfoldable pub floor_pow2_from : ℕ → (n ret : ℕ) → Option ℕ
floor_pow2_from zero n ret = none
floor_pow2_from (suc fuel) n ret =
    let later = floor_pow2_from fuel (n / 2) (ret * 2 % 2 ^ 64) in
    if ltb 1 n then later else some ret

unfoldable pub floor_pow2 : ℕ → (n : ℕ) → Option ℕ
unfolding floor_pow2_from
floor_pow2 fuel n = floor_pow2_from fuel n 1

unfoldable pub ceil_pow2 : ℕ → (n : ℕ) → Option ℕ
unfolding floor_pow2
ceil_pow2 fuel n = do ret ← floor_pow2 fuel n; some (if n == ret then ret else ret * 2 % 2 ^ 64)

-- The loop of `buddy_init` from list `i` over `n` lists.
unfoldable pub init_lists : (n i : ℕ) → Links → Links
unfolding list_init
init_lists zero i l = l
init_lists (suc n) i l = init_lists n (i + 1) (list_init (free_array i) l)

unfoldable pub buddy_init : FreeBuddy → FreeBuddy
unfolding init_lists
buddy_init b = record b { max_order = 0; nr_free = 0; links = init_lists buddy_orders 0 b.links }

-- The loop of `buddy_init_memmap` from page `p` over `n` pages.
unfoldable pub reset_pages : (n p : ℕ) → FreeBuddy → Option FreeBuddy
reset_pages zero p b = some b
reset_pages (suc n) p b =
    let later = reset_pages n (p + 1) (
      set_buddy_page p (record { reserved = false; property_flag = false; property = 0; ref = 0 })
        b) in
    do assert ((b.page p).reserved); later

unfoldable pub buddy_init_memmap : ℕ → (base n : ℕ) → FreeBuddy → Option FreeBuddy
unfolding log2 floor_pow2 reset_pages list_add
buddy_init_memmap fuel base n b = do
  assert (ltb 0 n)
  pn ← floor_pow2 fuel n
  order ← log2 fuel pn
  b1 ← reset_pages pn base (record b { max_order = order })
  some
      (record (set_buddy_page base
        (record (b1.page base) { property = order; property_flag = true }) b1) {
          nr_free = pn;
          links = list_add (free_array order) (buddy_link base) b1.links;
        })

-- The two halves of the first block of the list of `order`.
abbrev pub halve : (order : ℕ) → FreeBuddy → FreeBuddy
halve order b =
    let page_left = link_page (list_next (free_array order) b.links) in
    let half = ((b.page page_left).property + 2 ^ 32 - 1) % 2 ^ 32 in
    let page_right = page_left + 2 ^ half in
    let b1 = set_buddy_page page_left (record (b.page page_left) { property = half }) b in
    let b2 =
      set_buddy_page page_right
        (record (b1.page page_right) { property_flag = true; property = half }) b1 in
    let l1 = list_del (list_next (free_array order) b.links) b.links in
    let l2 = list_add (free_array (order - 1)) (buddy_link page_left) l1 in
    record b2 { links = list_add (buddy_link page_left) (buddy_link page_right) l2 }

unfoldable pub buddy_split : ℕ → (order : ℕ) → FreeBuddy → Option FreeBuddy
unfolding list_del list_add
buddy_split zero order b = none
buddy_split (suc fuel) order b =
    let split_higher = buddy_split fuel (order + 1) b in
    do
      assert (ltb 0 order && leb order b.max_order)
      b1 ← if list_empty (free_array order) b.links then split_higher else some b
      some (halve order b1)

-- The page, where there is one; `pn` of `nr_free` is subtracted in 32 bits.
unfoldable pub buddy_alloc_pages : ℕ → (n : ℕ) → FreeBuddy → Option (Option ℕ × FreeBuddy)
unfolding ceil_pow2 log2 buddy_split list_del
buddy_alloc_pages fuel n b =
    let take = do
      pn ← ceil_pow2 fuel n
      order ← log2 fuel pn
      b1 ← if list_empty (free_array order) b.links then buddy_split fuel (order + 1) b else some b
      let le = list_next (free_array order) b1.links
      let ret = link_page le
      some (
        some ret,
        record (set_buddy_page ret (record (b1.page ret) { property_flag = false }) b1) {
          links = list_del le b1.links;
          nr_free = (b1.nr_free + 2 ^ 32 - pn) % 2 ^ 32;
        },
      )
    in do assert (ltb 0 n); if ltb b.nr_free n then some (none, b) else take

unfoldable pub get_buddy : (page : ℕ) → FreeBuddy → ℕ
get_buddy page b = bit_xor page (2 ^ (b.page page).property)

-- The body of the loop of `buddy_free_pages`, after the exchange.
abbrev pub merge_pair : (left_block buddy : ℕ) → FreeBuddy → FreeBuddy
merge_pair left_block buddy b =
    let l1 = list_del (buddy_link left_block) b.links in
    let b1 =
      set_buddy_page left_block
        (record (b.page left_block) {
          property = (b.page left_block).property + 1;
          property_flag = true;
        })
        b in
    let b2 =
      set_buddy_page buddy (record (b1.page buddy) { property = 0; property_flag = false }) b1 in
    record b2 { links = list_del (buddy_link buddy) l1 }

-- The loop of `buddy_free_pages`.
unfoldable pub merge_from : ℕ → (left_block buddy : ℕ) → FreeBuddy → Option FreeBuddy
unfolding list_del
merge_from zero left_block buddy b = none
merge_from (suc fuel) left_block buddy b =
    let left = if ltb buddy left_block then buddy else left_block in
    let right = if ltb buddy left_block then left_block else buddy in
    let later = merge_from fuel left right (merge_pair left right b) in
    if ltb (b.page left_block).property b.max_order && (b.page buddy).property_flag
    then later
    else some b

unfoldable pub buddy_free_pages : ℕ → (base n : ℕ) → FreeBuddy → Option FreeBuddy
unfolding ceil_pow2 merge_from get_buddy list_add
buddy_free_pages fuel base n b = do
  assert (ltb 0 n)
  let order = (b.page base).property
  let pn = 2 ^ order
  all ← ceil_pow2 fuel n
  assert (pn == all)
  let b1 = record b { links = list_add (free_array order) (buddy_link base) b.links }
  b2 ← merge_from fuel base (get_buddy base b1) b1
  some (record b2 { nr_free = (b2.nr_free + pn) % 2 ^ 32 })
