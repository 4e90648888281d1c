-- ===== src/Pool/Tests.antt =====
-- A pool of one thread: a task added, and the end with no work.
use let_us_connect_http_serv.Base.{
  [], arith, length, none, refl, some, true, ℕ, ◌*◌, ◌++◌, ◌+◌, ◌<◌, ◌∷◌, ◌≡◌, ◌≤◌, ◌⊎◌,
}
use let_us_connect_http_serv.Pool.{
  Pool, exited, free, invalid_input, push_task, static_size, terminate_all, woken,
}
use let_us_connect_http_serv.Pool.Family.{set_at}
use let_us_connect_http_serv.Pool.System.{
  Reach, System, adds, at_start, cancelling, cancels, destroys_soft, drained, later, moved, posted,
  posting, posts, start, stops, thread_pool_destroy, wakes,
}
use let_us_connect_http_serv.Pool.Invariant.{IsNew}
use let_us_connect_http_serv.Pool.Safety.{tasks_in_order}
use let_us_connect_http_serv.Pool.Shutdown.{Run, and_then, none_yet}
use let_us_connect_http_serv.Pool.Destroy.{HasMore, IsJoining, thread_pool_destroy-ends}

abbrev one : Pool ℕ
one = record {
  max_size = 1;
  curr_size = 1;
  available_work = 0;
  busy_threads_num = 0;
  size_option = static_size;
  pool_sem = 0;
  threads_states = λ _. free;
  queue = [];
}

one-IsNew : IsNew one
one-IsNew = record { empty = refl; idle = refl; none_busy = refl; all_free = λ i. refl }

abbrev added_one : System ℕ
added_one = record (at_start one) { pool = push_task 7 one; added = 7 ∷ [] }

added_one-Reach : Reach 1 one added_one
added_one-Reach = later start (adds 7 refl)

tasks_in_order_example :
    (added_one.taken ++ added_one.pool.queue ≡ 7 ∷ [])
    × (length added_one.pool.queue ≡ added_one.pool.available_work)
tasks_in_order_example = tasks_in_order 1 one added_one one-IsNew added_one-Reach

-- The end, with no work left: the owner has drained, told, and signalled.
abbrev told : System ℕ
told = record (at_start one) { pool = terminate_all 1 one; owner = posting true 1 }

abbrev joining : System ℕ
joining = record told { pool = posted told.pool; owner = posting true 0 }

joining-Reach : Reach 1 one joining
joining-Reach =
    later (later (later start (destroys_soft refl)) (drained refl refl)) (posts true 0 refl)

-- The thread wakes up.
abbrev after_wake : System ℕ
after_wake = moved joining 0 (record joining.pool { pool_sem = 0 }, woken)

wakes_once : Run 1 joining 1 after_wake
unfolding terminate_all
wakes_once = and_then none_yet (wakes 0 0 (omega arith) refl refl)

-- The pool is destroyed with option 1: the owner cancels the thread, which stops at its `sem_wait`.
abbrev cancelled : System ℕ
cancelled = record (at_start one) { owner = cancelling 1 }

abbrev stopped : System ℕ
stopped = record (at_start one) { pc = set_at (at_start one).pc 0 exited; owner = cancelling 0 }

stops_at_once : Run 1 cancelled 2 stopped
stops_at_once = and_then (and_then none_yet (cancels 0 refl)) (stops 0 0 (omega arith) refl tt)

thread_pool_destroy-ends_example :
    (2 ≤ 3 * (at_start one).pool.pool_sem + 7 * 1 + 1)
    × ((IsJoining stopped.owner × ((i : ℕ) → i < 1 → stopped.pc i ≡ exited)) ⊎ HasMore 1 stopped)
unfolding thread_pool_destroy
thread_pool_destroy-ends_example =
    thread_pool_destroy-ends 1 one (at_start one) 1 cancelled 2 stopped one-IsNew (omega arith)
      start refl refl stops_at_once

-- Any other option is refused, and so is no pool.
option_refused :
    thread_pool_destroy 1 (some (at_start one)) 3 ≡ (invalid_input, some (at_start one))
unfolding thread_pool_destroy
option_refused = refl

pool_refused : thread_pool_destroy {T = ℕ} 1 none 0 ≡ (invalid_input, none)
unfolding thread_pool_destroy
pool_refused = refl
