-- ===== src/Pool/OnHeap/Tests.antt =====
-- A pool on the heap with one task queued: another is added, and two threads take them.
use let_us_connect_http_serv.Base.{List, [], none, ok, refl, some, ℕ, ◌∷◌, ◌≡◌}
use let_us_connect_http_serv.Pool.{
  first_section, free, push_task, second_section, static_size, waiting, working,
}
use let_us_connect_http_serv.Fifo.{fifo_queue_init}
use let_us_connect_http_serv.Pool.OnHeap.{
  Call, HeapPool, adds, ends_work, heap_run, list_call, looks_in, run,
}
use let_us_connect_http_serv.Pool.OnHeap.Refines.{StandsFor, heap_run-refines, with_tasks}

abbrev two_tasks : HeapPool ℕ
two_tasks = record {
  max_size = 2;
  curr_size = 2;
  available_work = 0;
  busy_threads_num = 0;
  size_option = static_size;
  pool_sem = 0;
  threads_states = λ _. free;
  queue = fifo_queue_init;
  heap = record { cells = λ _. none; fresh = 0 };
}

two_tasks-StandsFor : StandsFor two_tasks (with_tasks two_tasks [])
unfolding fifo_queue_init
two_tasks-StandsFor = record {
  fifo = record { nodes = []; fields = refl; linked = tt; holds = refl };
  same = refl;
}

abbrev calls : List (Call ℕ)
calls = adds 7 ∷ adds 8 ∷ looks_in 1 ∷ looks_in 0 ∷ ends_work 1 ∷ []

heap_run-refines_example :
    (q : HeapPool ℕ) × (heap_run calls two_tasks ≡ ok (q, (run calls (with_tasks two_tasks [])).1))
    × StandsFor q (run calls (with_tasks two_tasks [])).0
heap_run-refines_example =
    heap_run-refines calls two_tasks (with_tasks two_tasks []) two_tasks-StandsFor

-- The first task goes to the thread that looks first.
taken_in_order :
    (run calls (with_tasks two_tasks [])).1
    ≡ waiting ∷ waiting ∷ working (some 7) ∷ working (some 8) ∷ waiting ∷ []
unfolding run list_call push_task first_section second_section
taken_in_order = refl
