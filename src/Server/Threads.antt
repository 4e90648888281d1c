-- ===== src/Server/Threads.antt =====
-- The server loop together with the threads of its pool, in any order of their steps: the loop of
-- network/network.c hands tasks to `add_work`, and the threads of network/thread_pool.c take them
-- from the queue, work on their slots and go through their locked sections. The owner of the pool
-- is the thread of the loop.
pub mod Settled
pub mod Coupled
pub mod Runs
pub mod Alone
pub mod Finished
pub mod Untouched
pub mod Progress
pub mod Tests
use let_us_connect_http_serv.Pool.System.{
  System, adds, ends_work, looks_in, moved, serving, task_of, Step as PoolStep,
  at_start as pool_at_start,
}
use let_us_connect_http_serv.Server.Exclusive.{at_start as table_at_start}
use let_us_connect_http_serv.Base.{Bool, List, Option, [], ok, some, true, ℕ, ◌++◌, ◌<◌, ◌∷◌, ◌≡◌}
use let_us_connect_http_serv.Pool.{Pool, first_section, push_task, second_section, woken, working}
use let_us_connect_http_serv.Pool.Family.{set_at}
use let_us_connect_http_serv.Server.{
  ClientTask, Server, accept_client, finish_task, ready_slot, time_out,
}
use let_us_connect_http_serv.Connections.{ClientConnection}
use let_us_connect_http_serv.Connections.Claimed.{Holds}
use let_us_connect_http_serv.Dictionary.{Dictionary}
use let_us_connect_http_serv.Worker.{Received, Route, Worked, work}

-- The table, the pool with its threads, and what each thread has taken and not yet finished.
pub record Running : Type 0 where
  pub table : Server
  pub system : System ClientTask
  pub at_work : ℕ → List ClientTask

-- A step of the pool that is none of the loop's adds, and that does not begin or end the work of a
-- thread.
abbrev pub IsInner : {n : ℕ} {s t : System ClientTask} → PoolStep n s t → Type 0
IsInner (adds _ _) = ⊥
IsInner (looks_in _ _ _) = ⊥
IsInner (ends_work _ _ _ _) = ⊥
IsInner _ = Unit

abbrev pub with_queued : ClientTask → System ClientTask → System ClientTask
with_queued task s = record s { pool = push_task task s.pool; added = s.added ++ task ∷ [] }

-- One round of the loop on a client or a slot, of which `next` is the table after: a task was made
-- and queued, or none was made. `add_work` takes every task, since the pool is of static size.
pub data Hands (s : Running) (next : Server) : Running → Type 0 where
  hands :
      (task : ClientTask)
      → s.system.owner ≡ serving
      → next.tasks ≡ task ∷ s.table.tasks
      → Hands s next (record s { table = next; system = with_queued task s.system })
  hands_none : next.tasks ≡ s.table.tasks → Hands s next (record s { table = next })

pub data Step (n : ℕ) (routes : Option (Dictionary Route)) (s : Running) : Running → Type 0 where
  accepts :
      {t : Running} (now fd : ℕ) → Hands s (accept_client now true fd s.table) t → Step n routes s t
  readies :
      {t : Running} (is_set : ℕ → Bool) (i : ℕ)
      → Hands s (ready_slot is_set true i s.table) t
      → Step n routes s t
  times_out : (now : ℕ) → Step n routes s (record s { table = time_out now s.table })
  inner :
      (u : System ClientTask) (step : PoolStep n s.system u)
      → IsInner step
      → Step n routes s (record s { system = u })
  takes :
      (i : ℕ)
      → i < n
      → s.system.pc i ≡ woken
      → Step n routes s (record s {
        system = moved s.system i (first_section i s.system.pool);
        at_work = set_at s.at_work i (task_of (first_section i s.system.pool).1);
      })
  finishes :
      (i : ℕ) (before : List ClientTask) (task : ClientTask) (after : List ClientTask) (now : ℕ)
      (r : Received) (c : ClientConnection) (w : Worked)
      → i < n
      → s.system.pc i ≡ working (some task)
      → s.at_work i ≡ task ∷ []
      → s.table.tasks ≡ before ++ task ∷ after
      → Holds s.table.conns task.slot c
      → work now routes task.client_fd r c ≡ ok w
      → Step n routes s (record s {
        table = finish_task before task after w s.table;
        at_work = set_at s.at_work i [];
      })
  ends :
      (i : ℕ) (task : Option ClientTask)
      → i < n
      → s.system.pc i ≡ working task
      → s.at_work i ≡ []
      → Step n routes s (record s {
        system = record s.system {
          pool = (second_section i s.system.pool).0;
          pc = set_at s.system.pc i (second_section i s.system.pool).1;
        };
      })

abbrev pub at_start : List ClientConnection → Pool ClientTask → Running
at_start cs p = record { table = table_at_start cs; system = pool_at_start p; at_work = λ _. [] }

pub data Reach (n : ℕ) (routes : Option (Dictionary Route)) (cs : List ClientConnection)
    (p : Pool ClientTask) : Running → Type 0 where
  start : Reach n routes cs p (at_start cs p)
  later : {s t : Running} → Reach n routes cs p s → Step n routes s t → Reach n routes cs p t
