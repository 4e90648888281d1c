-- ===== src/Pool/OnHeap.antt =====
-- The pool with the queue that network/thread_pool.c has: `fifo_queue_t` on the heap, by the calls of
-- network/fifo_queue.c. The pool with a list for its queue is its specification.
pub mod Refines
pub mod Tests
use let_us_connect_http_serv.Base.{
  List, Outcome, [], if◌then◌else◌, ok, suc, zero, ℕ, ◌+◌, ◌-◌, ◌==◌, ◌∷◌, ◌>>=◌,
}
use let_us_connect_http_serv.Pool.{
  Pc, Pool, SizeOption, ThreadState, busy, exited, first_section, free, push_task, second_section,
  terminated, waiting, working,
}
use let_us_connect_http_serv.Fifo.{FifoQueue, Heap, pop_first, push_last}

-- `thread_pool_t`, and the heap that its queue is in.
pub record HeapPool (T : Type 0) : Type 0 where
  pub max_size : ℕ
  pub curr_size : ℕ
  pub available_work : ℕ
  pub busy_threads_num : ℕ
  pub size_option : SizeOption
  pub pool_sem : ℕ
  pub threads_states : ℕ → ThreadState
  pub queue : FifoQueue
  pub heap : Heap T

-- The calls of the two locked sections and of `add_work`.
pub data Call (T : Type 0) : Type 0 where
  adds : T → Call T
  looks_in ends_work : ℕ → Call T

module _ {T : Type 0} where
  heap_push : T → HeapPool T → Outcome (HeapPool T)
  heap_push task p = do
    (status, queue, heap) ← push_last p.queue task p.heap
    ok (record p {
      queue = queue;
      heap = heap;
      available_work = p.available_work + 1;
      pool_sem = p.pool_sem + 1;
    })

  abbrev set_state_of : HeapPool T → ℕ → ThreadState → ℕ → ThreadState
  set_state_of p i state j = if j == i then state else p.threads_states j

  -- `pop_first(&thrd_pl->queue, &task)`, whose result is not looked at; `task` is NULL before.
  heap_takes : ℕ → HeapPool T → ℕ → Outcome (HeapPool T × Pc T)
  heap_takes i p left = do
    (status, task, queue, heap) ← pop_first p.queue p.heap
    ok (
      record p {
        available_work = left;
        busy_threads_num = p.busy_threads_num + 1;
        threads_states = set_state_of p i busy;
        queue = queue;
        heap = heap;
      },
      working task,
    )

  heap_looks : ℕ → HeapPool T → ℕ → Outcome (HeapPool T × Pc T)
  unfolding heap_takes
  heap_looks i p zero = ok (p, waiting)
  heap_looks i p (suc left) = heap_takes i p left

  heap_in_first : ℕ → HeapPool T → ThreadState → Outcome (HeapPool T × Pc T)
  unfolding heap_looks
  heap_in_first i p terminated = ok (p, exited)
  heap_in_first i p free = heap_looks i p p.available_work
  heap_in_first i p busy = heap_looks i p p.available_work

  heap_in_second : ℕ → HeapPool T → ThreadState → HeapPool T × Pc T
  heap_in_second i p terminated = (p, exited)
  heap_in_second i p _ = (
    record p { busy_threads_num = p.busy_threads_num - 1; threads_states = set_state_of p i free },
    waiting,
  )

  -- A call, with where it leaves the thread that makes it; `add_work` is the owner's.
  heap_call : Call T → HeapPool T → Outcome (HeapPool T × Pc T)
  unfolding heap_push heap_in_first heap_in_second
  heap_call (adds task) p = do q ← heap_push task p; ok (q, waiting)
  heap_call (looks_in i) p = heap_in_first i p (p.threads_states i)
  heap_call (ends_work i) p = ok (heap_in_second i p (p.threads_states i))

  pub heap_run : List (Call T) → HeapPool T → Outcome (HeapPool T × List (Pc T))
  unfolding heap_call
  heap_run [] p = ok (p, [])
  heap_run (call ∷ calls) p = do
    (q, at) ← heap_call call p
    (r, rest) ← heap_run calls q
    ok (r, at ∷ rest)

  -- The same calls of the pool with a list.
  list_call : Call T → Pool T → Pool T × Pc T
  list_call (adds task) p = (push_task task p, waiting)
  list_call (looks_in i) p = first_section i p
  list_call (ends_work i) p = second_section i p

  pub run : List (Call T) → Pool T → Pool T × List (Pc T)
  run [] p = (p, [])
  run (call ∷ calls) p =
      let (q, at) = list_call call p in let (r, rest) = run calls q in (r, at ∷ rest)
