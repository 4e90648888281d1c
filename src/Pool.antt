-- ===== src/Pool.antt =====
-- webserver_project/src/network/thread_pool.c: the pool, its start, `add_work`, the two locked
-- sections of `_thread_task`, and what `thread_pool_destroy` does before it joins. A section under
-- `pool_lock` is one function; the queue of tasks is the list that Fifo implements.
pub mod Family
pub mod System
pub mod Invariant
pub mod Keeps
pub mod Steps
pub mod Start
pub mod Handshake
pub mod Safety
pub mod Shutdown
pub mod Fewer
pub mod Destroy
pub mod Resources
pub mod OnHeap
pub mod Tests
use let_us_connect_http_serv.Base.{
  Bool, Bytes, List, Option, [], false, if◌then◌else◌, ltb, negsuc, none, pos, some, suc, true,
  zero, ℕ, ℤ, ◌++◌, ◌+◌, ◌-◌, ◌==◌, ◌∷◌,
}

pub data ThreadState : Type 0 where
  free busy terminated : ThreadState

pub data SizeOption : Type 0 where
  static_size dynamic_size : SizeOption

-- `thread_pool_t`, with the value of its semaphore; thread i is its i-th thread.
pub record Pool (T : Type 0) : Type 0 where
  pub max_size : ℕ
  pub curr_size : ℕ
  pub available_work : ℕ
  pub busy_threads_num : ℕ
  pub size_option : SizeOption
  pub pool_sem : ℕ
  pub threads_states : ℕ → ThreadState
  pub queue : List T

-- Where a thread stands: before `sem_wait`, behind it, at work on what it took from the queue, or
-- after the loop.
pub data Pc (T : Type 0) : Type 0 where
  waiting woken exited : Pc T
  working : Option T → Pc T

abbrev pub invalid_input : ℕ
invalid_input = 1

abbrev pub errno_error : ℕ
errno_error = 3

abbrev pub initial_pool_size : ℕ
initial_pool_size = 10

-- `size_option` is 0 or 1.
size_option_of : ℕ → Option SizeOption
size_option_of zero = some static_size
size_option_of (suc zero) = some dynamic_size
size_option_of (suc (suc _)) = none

size_of : SizeOption → ℕ → ℕ
size_of static_size max_thread_num = max_thread_num
size_of dynamic_size max_thread_num =
    if ltb max_thread_num initial_pool_size then max_thread_num else initial_pool_size

module _ {T : Type 0} where
  pool_with : ℕ → SizeOption → ℕ → Pool T
  unfolding size_of
  pool_with max_thread_num option value = record {
    max_size = max_thread_num;
    curr_size = size_of option max_thread_num;
    available_work = 0;
    busy_threads_num = 0;
    size_option = option;
    pool_sem = value;
    threads_states = λ _. free;
    queue = [];
  }

  -- The lock and the semaphore; `sem_open` gives the value the semaphore has.
  opened : ℕ → SizeOption → Bool → Option ℕ → ℕ × Option (Pool T)
  unfolding pool_with
  opened max_thread_num option false pool_sem = (errno_error, none)
  opened max_thread_num option true none = (errno_error, none)
  opened max_thread_num option true (some value) = (0, some (pool_with max_thread_num option value))

  with_size : ℕ → Option SizeOption → Bool → Option ℕ → ℕ × Option (Pool T)
  unfolding opened
  with_size max_thread_num none lock_made pool_sem = (invalid_input, none)
  with_size max_thread_num (some option) lock_made pool_sem =
      opened max_thread_num option lock_made pool_sem

  -- `thread_pool_init`, with the results of `pthread_mutex_init` and `sem_open`; every thread is
  -- created.
  pub thread_pool_init : ℤ → ℕ → Option Bytes → Bool → Option ℕ → ℕ × Option (Pool T)
  unfolding with_size size_option_of
  thread_pool_init (negsuc _) size_option pool_name lock_made pool_sem = (invalid_input, none)
  thread_pool_init (pos zero) size_option pool_name lock_made pool_sem = (invalid_input, none)
  thread_pool_init (pos (suc n)) size_option none lock_made pool_sem = (invalid_input, none)
  thread_pool_init (pos (suc n)) size_option (some pool_name) lock_made pool_sem =
      with_size (suc n) (size_option_of size_option) lock_made pool_sem

  -- The locked section of `add_work`.
  unfoldable pub push_task : T → Pool T → Pool T
  push_task task p = record p {
    queue = p.queue ++ task ∷ [];
    available_work = p.available_work + 1;
    pool_sem = p.pool_sem + 1;
  }

  by_size : SizeOption → T → Pool T → Pool T
  unfolding push_task
  by_size static_size task p = push_task task p
  by_size dynamic_size task p = p

  pub add_work : Option (Pool T) → T → ℕ × Option (Pool T)
  unfolding by_size
  add_work none task = (invalid_input, none)
  add_work (some p) task = (0, some (by_size p.size_option task p))

  abbrev set_state : Pool T → ℕ → ThreadState → ℕ → ThreadState
  set_state p i state j = if j == i then state else p.threads_states j

  -- `pop_first(&thrd_pl->queue, &task)` and the four lines around it.
  takes : ℕ → Pool T → ℕ → List T → Pool T × Pc T
  takes i p left [] = (
    record p {
      available_work = left;
      busy_threads_num = p.busy_threads_num + 1;
      threads_states = set_state p i busy;
    },
    working none,
  )
  takes i p left (task ∷ queue) = (
    record p {
      available_work = left;
      busy_threads_num = p.busy_threads_num + 1;
      threads_states = set_state p i busy;
      queue = queue;
    },
    working (some task),
  )

  looks : ℕ → Pool T → ℕ → Pool T × Pc T
  unfolding takes
  looks i p zero = (p, waiting)
  looks i p (suc left) = takes i p left p.queue

  in_first : ℕ → Pool T → ThreadState → Pool T × Pc T
  unfolding looks
  in_first i p terminated = (p, exited)
  in_first i p free = looks i p p.available_work
  in_first i p busy = looks i p p.available_work

  -- The first locked section of thread `i`, from the wake-up to the work or back.
  unfoldable pub first_section : ℕ → Pool T → Pool T × Pc T
  unfolding in_first
  first_section i p = in_first i p (p.threads_states i)

  in_second : ℕ → Pool T → ThreadState → Pool T × Pc T
  in_second i p terminated = (p, exited)
  in_second i p _ = (
    record p { busy_threads_num = p.busy_threads_num - 1; threads_states = set_state p i free },
    waiting,
  )

  -- The second, after the work.
  unfoldable pub second_section : ℕ → Pool T → Pool T × Pc T
  unfolding in_second
  second_section i p = in_second i p (p.threads_states i)

  -- `for (i = 0; i < n; i++) *(threads_states[i]) = TERMINATED;`
  unfoldable pub terminate_all : ℕ → Pool T → Pool T
  terminate_all zero p = p
  terminate_all (suc n) p =
      let q = terminate_all n p in record q { threads_states = set_state q n terminated }
