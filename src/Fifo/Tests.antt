-- ===== src/Fifo/Tests.antt =====
-- A queue of two tasks, in two cells of the heap.
use let_us_connect_http_serv.Base.{Option, [], arith, none, ok, refl, some, suc, zero, ℕ, ◌∷◌, ◌≡◌}
use let_us_connect_http_serv.Fifo.{FifoQueue, Heap, Node, done, fifo_queue_init, push_last}
use let_us_connect_http_serv.Fifo.Refines.{IsFifo, Pops, pop_first-IsFifo, push_last-IsFifo}

abbrev two_cells : ℕ → Option (Node ℕ)
two_cells zero = some (record { task = 7; next = none; prev = some 1 })
two_cells (suc zero) = some (record { task = 8; next = some 0; prev = none })
two_cells (suc (suc _)) = none

abbrev two_heap : Heap ℕ
two_heap = record { cells = two_cells; fresh = 2 }

abbrev two : FifoQueue
two = record { size = 2; first = some 0; last = some 1 }

two-IsFifo : IsFifo two two_heap (7 ∷ 8 ∷ [])
two-IsFifo = record {
  nodes = (0, 7) ∷ (1, 8) ∷ [];
  fields = refl;
  linked = (omega arith, omega arith, refl, (omega arith, omega arith, refl, tt));
  holds = refl;
}

-- The queue at the start, in any heap.
init-IsFifo : (h : Heap ℕ) → IsFifo fifo_queue_init h []
unfolding fifo_queue_init
init-IsFifo h = record { nodes = []; fields = refl; linked = tt; holds = refl }

push_last-IsFifo_example :
    (q' : FifoQueue) × (h' : Heap ℕ) × (push_last two 9 two_heap ≡ ok (done, q', h'))
    × IsFifo q' h' (7 ∷ 8 ∷ 9 ∷ [])
push_last-IsFifo_example = push_last-IsFifo two two_heap (7 ∷ 8 ∷ []) 9 two-IsFifo

pop_first-IsFifo_example : Pops two two_heap (7 ∷ 8 ∷ [])
pop_first-IsFifo_example = pop_first-IsFifo two two_heap (7 ∷ 8 ∷ []) two-IsFifo
