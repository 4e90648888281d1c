-- ===== src/Pool/OnHeap/Refines.antt =====
-- The pool on the heap against the pool with a list.
use let_us_connect_http_serv.Base.{List, Outcome, [], ok, refl, subst, suc, zero, ℕ, ◌∷◌, ◌≡◌}
use let_us_connect_http_serv.Pool.{
  Pc, Pool, ThreadState, busy, first_section, free, in_first, in_second, looks, push_task,
  second_section, takes, terminated,
}
use let_us_connect_http_serv.Fifo.Refines.{IsFifo, Pops, pop_first-IsFifo, push_last-IsFifo}
use let_us_connect_http_serv.Pool.OnHeap.{
  Call, HeapPool, adds, ends_work, heap_call, heap_in_first, heap_in_second, heap_looks, heap_push,
  heap_run, heap_takes, list_call, looks_in, run,
}

module _ {T : Type 0} where
  -- The pool with these tasks for its queue.
  abbrev pub with_tasks : HeapPool T → List T → Pool T
  with_tasks p tasks = record {
    max_size = p.max_size;
    curr_size = p.curr_size;
    available_work = p.available_work;
    busy_threads_num = p.busy_threads_num;
    size_option = p.size_option;
    pool_sem = p.pool_sem;
    threads_states = p.threads_states;
    queue = tasks;
  }

  -- The pool on the heap stands for the one with a list.
  pub record StandsFor (p : HeapPool T) (l : Pool T) : Type 0 where
    pub fifo : IsFifo p.queue p.heap l.queue
    pub same : with_tasks p l.queue ≡ l

  -- A call that succeeds, with the same result.
  pub record Same (m : Outcome (HeapPool T × Pc T)) (r : Pool T × Pc T) : Type 0 where
    pub pool : HeapPool T
    pub done : m ≡ ok (pool, r.1)
    pub stands : StandsFor pool r.0

  heap_push-Same :
      (task : T) (p : HeapPool T) (tasks : List T)
      → IsFifo p.queue p.heap tasks
      → (q : HeapPool T) × (heap_push task p ≡ ok q)
        × StandsFor q (push_task task (with_tasks p tasks))
  unfolding heap_push push_task
  heap_push-Same task p tasks fifo =
      let (q, h, pushed, fifo') = push_last-IsFifo p.queue p.heap tasks task fifo in
      (_, rw pushed refl, record { fifo = fifo'; same = refl })

  heap_takes-Same :
      (i : ℕ) (p : HeapPool T) (left : ℕ) (tasks : List T)
      → IsFifo p.queue p.heap tasks
      → Same (heap_takes i p left) (takes i (with_tasks p tasks) left tasks)
  unfolding heap_takes takes Pops
  heap_takes-Same i p left [] fifo =
      let none_left = pop_first-IsFifo p.queue p.heap [] fifo in
      record { pool = _; done = rw none_left refl; stands = record { fifo = fifo; same = refl } }
  heap_takes-Same i p left (task ∷ tasks) fifo =
      let (q, h, popped, fifo') = pop_first-IsFifo p.queue p.heap (task ∷ tasks) fifo in
      record { pool = _; done = rw popped refl; stands = record { fifo = fifo'; same = refl } }

  StandsFor-IsFifo :
      (p : HeapPool T) (tasks : List T)
      → IsFifo p.queue p.heap tasks
      → StandsFor p (with_tasks p tasks)
  StandsFor-IsFifo p tasks fifo = record { fifo = fifo; same = refl }

  heap_looks-Same :
      (i : ℕ) (p : HeapPool T) (k : ℕ) (tasks : List T)
      → IsFifo p.queue p.heap tasks
      → Same (heap_looks i p k) (looks i (with_tasks p tasks) k)
  unfolding heap_looks looks
  heap_looks-Same i p zero tasks fifo = record {
    pool = p;
    done = refl;
    stands = StandsFor-IsFifo p tasks fifo;
  }
  heap_looks-Same i p (suc left) tasks fifo = heap_takes-Same i p left tasks fifo

  heap_in_first-Same :
      (i : ℕ) (p : HeapPool T) (state : ThreadState) (tasks : List T)
      → IsFifo p.queue p.heap tasks
      → Same (heap_in_first i p state) (in_first i (with_tasks p tasks) state)
  unfolding heap_in_first in_first
  heap_in_first-Same i p terminated tasks fifo = record {
    pool = p;
    done = refl;
    stands = StandsFor-IsFifo p tasks fifo;
  }
  heap_in_first-Same i p free tasks fifo = heap_looks-Same i p p.available_work tasks fifo
  heap_in_first-Same i p busy tasks fifo = heap_looks-Same i p p.available_work tasks fifo

  heap_in_second-Same :
      (i : ℕ) (p : HeapPool T) (state : ThreadState) (tasks : List T)
      → IsFifo p.queue p.heap tasks
      → Same (ok (heap_in_second i p state)) (in_second i (with_tasks p tasks) state)
  unfolding heap_in_second in_second
  heap_in_second-Same i p terminated tasks fifo = record {
    pool = p;
    done = refl;
    stands = StandsFor-IsFifo p tasks fifo;
  }
  heap_in_second-Same i p free tasks fifo = record {
    pool = _;
    done = refl;
    stands = record { fifo = fifo; same = refl };
  }
  heap_in_second-Same i p busy tasks fifo = record {
    pool = _;
    done = refl;
    stands = record { fifo = fifo; same = refl };
  }

  heap_call-Same :
      (call : Call T) (p : HeapPool T) (tasks : List T)
      → IsFifo p.queue p.heap tasks
      → Same (heap_call call p) (list_call call (with_tasks p tasks))
  unfolding heap_call list_call first_section second_section
  heap_call-Same (adds task) p tasks fifo =
      let (q, pushed, stands) = heap_push-Same task p tasks fifo in
      record { pool = q; done = rw pushed refl; stands = stands }
  heap_call-Same (looks_in i) p tasks fifo = heap_in_first-Same i p (p.threads_states i) tasks fifo
  heap_call-Same (ends_work i) p tasks fifo =
      heap_in_second-Same i p (p.threads_states i) tasks fifo

  -- From a pool on the heap whose queue holds the tasks of a pool with a list, any calls of
  -- `add_work` and of the two sections, of any threads, run without a fault: they leave the
  -- threads where the same calls leave them on the pool with a list, and a pool that stands for
  -- the one they leave there.
  pub heap_run-refines :
      (calls : List (Call T)) (p : HeapPool T) (l : Pool T)
      → StandsFor p l
      → (q : HeapPool T) × (heap_run calls p ≡ ok (q, (run calls l).1))
        × StandsFor q (run calls l).0
  unfolding heap_run run
  heap_run-refines [] p l stands = (p, refl, stands)
  heap_run-refines (call ∷ calls) p l stands =
      let first : Same (heap_call call p) (list_call call l) =
        subst (λ (x : Pool T). Same (heap_call call p) (list_call call x)) stands.same
          (heap_call-Same call p l.queue stands.fifo) in
      let (q, rest, after) = heap_run-refines calls first.pool (list_call call l).0 first.stands in
      (q, rw (first.done, rest) refl, after)
