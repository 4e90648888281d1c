-- ===== src/Server/Threads/Tests.antt =====
-- One thread, and one client: its task is queued, and the thread takes it.
use let_us_connect_http_serv.Pool.System.{
  System, destroys_soft, drained, draining, moved, posted, posting, posts, task_of, wakes,
}
use let_us_connect_http_serv.Base.{
  All, List, [], arith, false, none, refl, some, suc, true, zero, ℕ, ◌++◌, ◌<◌, ◌∷◌, ◌≡◌, ◌≢◌,
}
use let_us_connect_http_serv.Pool.{
  Pool, exited, first_section, free, push_task, second_section, static_size, terminate_all, woken,
}
use let_us_connect_http_serv.Pool.Family.{set_at}
use let_us_connect_http_serv.Pool.Invariant.{IsNew}
use let_us_connect_http_serv.Server.{ClientTask, accept_at, accept_client, finish_task, hand_over}
use let_us_connect_http_serv.Server.Invariant.{Owned}
use let_us_connect_http_serv.Server.Threads.{
  Reach, Running, Step, accepts, at_start, ends, finishes, hands, inner, later, start, takes,
  with_queued,
}
use let_us_connect_http_serv.Server.Threads.Alone.{works_alone}
use let_us_connect_http_serv.Server.Threads.Finished.{soft-finished}
use let_us_connect_http_serv.Server.Threads.Untouched.{slot_untouched}
use let_us_connect_http_serv.Server.Threads.Progress.{ThreadGoes, unfinished-ThreadGoes}
use let_us_connect_http_serv.Connections.{ClientConnection, claim, occupied, off}
use let_us_connect_http_serv.Connections.Claimed.{Holds}
use let_us_connect_http_serv.Worker.{Worked, ended}
use let_us_connect_http_serv.Worker.Ends.{work-ended}

abbrev unused : ClientConnection
unused = record { fd = 0; last_activity = 0; is_active = false; is_busy = false; read_buffer = [] }

abbrev table : List ClientConnection
table = unused ∷ unused ∷ []

abbrev one_thread : Pool ClientTask
one_thread = record {
  max_size = 1;
  curr_size = 1;
  available_work = 0;
  busy_threads_num = 0;
  size_option = static_size;
  pool_sem = 0;
  threads_states = λ _. free;
  queue = [];
}

one_thread-IsNew : IsNew one_thread
one_thread-IsNew = record { empty = refl; idle = refl; none_busy = refl; all_free = λ i. refl }

abbrev first_task : ClientTask
first_task = record { client_fd = 7; slot = 0 }

abbrev at_first : Running
at_first = at_start table one_thread

abbrev accepted : Running
accepted = record at_first {
  table = accept_client 5 true 7 at_first.table;
  system = with_queued first_task at_first.system;
}

accepted-Reach : Reach 1 none table one_thread accepted
unfolding accept_client accept_at claim hand_over
accepted-Reach = later start (accepts 5 7 (hands first_task refl refl))

abbrev awake : Running
awake = record accepted {
  system = moved accepted.system 0 (record accepted.system.pool { pool_sem = 0 }, woken);
}

awake-Reach : Reach 1 none table one_thread awake
unfolding push_task
awake-Reach = later accepted-Reach (inner awake.system (wakes 0 0 (omega arith) refl refl) tt)

abbrev taken : Running
taken = record awake {
  system = moved awake.system 0 (first_section 0 awake.system.pool);
  at_work = set_at awake.at_work 0 (task_of (first_section 0 awake.system.pool).1);
}

taken-Reach : Reach 1 none table one_thread taken
taken-Reach = later awake-Reach (takes 0 (omega arith) refl)

taken-at_work : taken.at_work 0 ≡ first_task ∷ []
unfolding push_task first_section
taken-at_work = refl

works_alone_example :
    ((before : List ClientTask) × (after : List ClientTask) × (taken.table.tasks
        ≡ before ++ first_task ∷ after))
    × Owned taken.table.conns first_task
    × All (λ (t : ClientTask). t.slot ≢ first_task.slot) taken.system.pool.queue
    × ((j : ℕ) (other : ClientTask)
        → j < 1
        → 0 ≢ j
        → taken.at_work j ≡ other ∷ []
        → other.slot ≢ first_task.slot)
works_alone_example =
    works_alone 1 none table one_thread taken 0 first_task one_thread-IsNew (refl, (refl, tt))
      taken-Reach (omega arith) taken-at_work

-- The peer has closed; the thread works on the task and comes back.
abbrev in_slot : ClientConnection
in_slot = occupied 7 5 unused

abbrev hung_up : Worked
hung_up = record { conn = off in_slot; actions = []; closed = 7 ∷ [] }

abbrev worked : Running
worked = record taken {
  table = finish_task [] first_task [] hung_up taken.table;
  at_work = set_at taken.at_work 0 [];
}

worked-Reach : Reach 1 none table one_thread worked
unfolding push_task first_section accept_client accept_at claim hand_over occupied
worked-Reach = later taken-Reach (
    finishes 0 [] first_task [] 6 ended in_slot hung_up (omega arith) refl refl refl refl
      (work-ended 6 none 7 in_slot))

abbrev back : Running
back = record worked {
  system = record worked.system {
    pool = (second_section 0 worked.system.pool).0;
    pc = set_at worked.system.pc 0 (second_section 0 worked.system.pool).1;
  };
}

back-Reach : Reach 1 none table one_thread back
unfolding push_task first_section
back-Reach = later worked-Reach (ends 0 (some first_task) (omega arith) refl refl)

-- The owner tells the thread to end, and it leaves.
abbrev with_system : System ClientTask → Running
with_system u = record back { system = u }

abbrev told : System ClientTask
told = record back.system { pool = terminate_all 1 back.system.pool; owner = posting true 1 }

abbrev signalled : System ClientTask
signalled = record told { pool = posted told.pool; owner = posting true 0 }

abbrev leaving : System ClientTask
leaving = moved signalled 0 (record signalled.pool { pool_sem = 0 }, woken)

abbrev gone : Running
gone = record back {
  system = moved leaving 0 (first_section 0 leaving.pool);
  at_work = set_at back.at_work 0 (task_of (first_section 0 leaving.pool).1);
}

gone-Reach : Reach 1 none table one_thread gone
unfolding push_task first_section second_section terminate_all
gone-Reach =
    later
      (later
        (later
          (later
            (later back-Reach
              (inner (record back.system { owner = draining }) (destroys_soft refl) tt))
            (inner told (drained refl refl) tt))
          (inner signalled (posts true 0 refl) tt))
        (inner leaving (wakes 0 0 (omega arith) refl refl) tt))
      (takes 0 (omega arith) refl)

gone-exited : (i : ℕ) → i < 1 → gone.system.pc i ≡ exited
unfolding push_task first_section second_section terminate_all
gone-exited zero lt = refl
gone-exited (suc i) lt = absurd (omega arith)

soft-finished_example : (gone.system.pool.queue ≡ []) × (gone.table.tasks ≡ [])
soft-finished_example =
    soft-finished 1 none table one_thread gone one_thread-IsNew gone-Reach refl gone-exited

-- A second client comes while the thread works.
abbrev second_task : ClientTask
second_task = record { client_fd = 8; slot = 1 }

abbrev second : Running
second = record taken {
  table = accept_client 6 true 8 taken.table;
  system = with_queued second_task taken.system;
}

second-Step : Step 1 none taken second
unfolding push_task first_section accept_client accept_at claim hand_over occupied
second-Step = accepts 6 8 (hands second_task refl refl)

taken-Holds : Holds taken.table.conns 0 in_slot
unfolding accept_client accept_at claim hand_over occupied
taken-Holds = refl

slot_untouched_example : Holds second.table.conns 0 in_slot
slot_untouched_example =
    slot_untouched 1 none table one_thread taken second 0 first_task in_slot one_thread-IsNew
      (refl, (refl, tt)) taken-Reach (omega arith) taken-at_work taken-Holds second-Step
      taken-at_work

taken-tasks : taken.table.tasks ≡ first_task ∷ []
unfolding accept_client accept_at claim hand_over
taken-tasks = refl

unfinished-ThreadGoes_example : ThreadGoes 1 none taken
unfinished-ThreadGoes_example =
    unfinished-ThreadGoes 1 none table one_thread one_thread-IsNew (refl, (refl, tt)) taken
      taken-Reach first_task [] (omega arith) tt taken-tasks
