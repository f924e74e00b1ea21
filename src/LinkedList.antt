-- ===== src/LinkedList.antt =====
-- libs/list.h: the circular doubly linked list on which the kernel's queues are built. A node is
-- its address; the two pointers of every node make up the state.
pub mod Chain
pub mod Laws
pub mod Ops
mod Tests
use nku_os.Prelude.{ℕ, Bool, ◌==◌, update}

-- The `prev` and `next` fields of all nodes.
pub record Links : Type 0 where
  pub next : ℕ → ℕ
  pub prev : ℕ → ℕ

abbrev pub set_next : ℕ → ℕ → Links → Links
set_next a v l = record l { next = update l.next a v }

abbrev pub set_prev : ℕ → ℕ → Links → Links
set_prev a v l = record l { prev = update l.prev a v }

-- `elm->prev = elm->next = elm`
unfoldable pub list_init : ℕ → Links → Links
list_init elm l = set_prev elm elm (set_next elm elm l)

-- `__list_add`: the right-hand write of each assignment first.
unfoldable pub raw_list_add : (elm before after : ℕ) → Links → Links
raw_list_add elm before after l =
    let l1 = set_prev after elm l in
    let l2 = set_next before elm l1 in let l3 = set_next elm after l2 in set_prev elm before l3

-- `__list_del`
unfoldable pub raw_list_del : (before after : ℕ) → Links → Links
raw_list_del before after l = set_prev after before (set_next before after l)

unfoldable pub list_add_before : (listelm elm : ℕ) → Links → Links
unfolding raw_list_add
list_add_before listelm elm l = raw_list_add elm (l.prev listelm) listelm l

unfoldable pub list_add_after : (listelm elm : ℕ) → Links → Links
unfolding raw_list_add
list_add_after listelm elm l = raw_list_add elm listelm (l.next listelm) l

unfoldable pub list_add : (listelm elm : ℕ) → Links → Links
unfolding list_add_after
list_add listelm elm l = list_add_after listelm elm l

unfoldable pub list_del : ℕ → Links → Links
unfolding raw_list_del
list_del listelm l = raw_list_del (l.prev listelm) (l.next listelm) l

unfoldable pub list_del_init : ℕ → Links → Links
unfolding list_del list_init
list_del_init listelm l = list_init listelm (list_del listelm l)

abbrev pub list_empty : ℕ → Links → Bool
list_empty list l = l.next list == list

abbrev pub list_next : ℕ → Links → ℕ
list_next listelm l = l.next listelm

abbrev pub list_prev : ℕ → Links → ℕ
list_prev listelm l = l.prev listelm
