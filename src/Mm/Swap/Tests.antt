-- ===== src/Mm/Swap/Tests.antt =====
-- Runs of the page replacement policies, and the theorems at concrete lists.
use nku_os.Prelude.{ℕ, ◌≡◌, refl, some, List, [], ◌∷◌, arith, inl}
use nku_os.LinkedList.{Links, list_init}
use nku_os.LinkedList.Ops.{list_init-empty}
use nku_os.Mm.Swap.{
  pra_list_head, fifo_init_mm, ClockState, clock_init_mm, clock_map_swappable,
  clock_swap_out_victim, LruState, lru_map_swappable, lru_tick_event,
}
use nku_os.Mm.Swap.Lists.{
  Holds, Event, arrive, evict, fifo_run, queue_run, fifo_run-Holds, lru_lists,
}
use nku_os.Mm.Swap.Clock.{Evicted, clock_swap_out_victim-repeats}

abbrev links0 : Links
links0 = list_init pra_list_head (record { next = λ n. n; prev = λ n. n })

links0-Holds : Holds links0 []
links0-Holds = (list_init-empty (record { next = λ n. n; prev = λ n. n }) pra_list_head).0

abbrev history : List Event
history = arrive 3 ∷ arrive 5 ∷ evict ∷ arrive 7 ∷ evict ∷ []

fifo_victims : (fifo_run history links0).0 ≡ 3 ∷ 5 ∷ []
unfolding fifo_run nku_os.Mm.Swap.fifo_map_swappable nku_os.Mm.Swap.fifo_swap_out_victim
    nku_os.LinkedList.list_init nku_os.LinkedList.list_del nku_os.LinkedList.list_add_before
fifo_victims = refl

history_queue : queue_run history [] ≡ some (3 ∷ 5 ∷ [], 7 ∷ [])
unfolding queue_run
history_queue = refl

fifo_run-Holds_example :
    ((fifo_run history links0).0 ≡ 3 ∷ 5 ∷ []) × Holds (fifo_run history links0).1 (7 ∷ [])
fifo_run-Holds_example =
    fifo_run-Holds history links0 [] (3 ∷ 5 ∷ []) (7 ∷ []) links0-Holds history_queue

abbrev links2 : Links
links2 = lru_map_swappable 6 (lru_map_swappable 4 links0)

links2-Holds : Holds links2 (6 ∷ 4 ∷ [])
links2-Holds =
    lru_lists (lru_map_swappable 4 links0) (4 ∷ []) 6 refl (lru_lists links0 [] 4 refl links0-Holds)

abbrev clock2 : ClockState
clock2 = record { links = links2; visited = λ p. 1; curr_ptr = 0 }

clock_swap_out_victim-repeats_example :
    (p : ℕ) × (s' : ClockState) × (s'' : ClockState) × (clock_swap_out_victim 3 clock2
      ≡ some (p, s'))
    × Evicted (6 ∷ 4 ∷ []) p s'
    × (clock_swap_out_victim 1 s' ≡ some (p, s''))
clock_swap_out_victim-repeats_example =
    clock_swap_out_victim-repeats 3 0 clock2 6 (4 ∷ []) links2-Holds (inl refl) (ground arith)
