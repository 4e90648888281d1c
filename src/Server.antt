-- ===== src/Server.antt =====
-- The server loop, `network_run_server` of webserver_project/src/network/network.c, with the tasks
-- that it hands to the threads and what a thread does to the table when it has worked on one. The
-- clock, the sockets that are accepted or ready, and whether a task is taken by `add_work` are
-- parameters. Each of these functions runs under `conns_mutex`, but for the thread's.
pub mod Slots
pub mod Invariant
pub mod Listen
pub mod Steps
pub mod Exclusive
pub mod Rounds
pub mod Threads
pub mod Tests
use let_us_connect_http_serv.Base.{
  Bool, List, Option, [], false, get_elem?, if◌then◌else◌, none, not, some, suc, true, zero, ℕ,
  ◌&&◌, ◌++◌, ◌∷◌,
}
use let_us_connect_http_serv.Connections.{
  ClientConnection, check_keepalive_timeouts, claim, modify, off,
}
use let_us_connect_http_serv.Worker.{Worked}

-- `struct ClientTask`; `conn` points to a slot of the table.
pub record ClientTask : Type 0 where
  pub client_fd : ℕ
  pub slot : ℕ

-- The table, the tasks that a thread has not finished, and the sockets accepted and closed so far,
-- the last one first.
pub record Server : Type 0 where
  pub conns : List ClientConnection
  pub tasks : List ClientTask
  pub accepted : List ℕ
  pub closed : List ℕ

abbrev pub marked_busy : ClientConnection → ClientConnection
marked_busy c = record c { is_busy = true }

-- `add_work` of a task for slot `i`: it is taken, or the socket is closed and the slot given up.
unfoldable pub hand_over : Bool → ℕ → ℕ → Server → Server
hand_over true fd i s = record s { tasks = record { client_fd = fd; slot = i } ∷ s.tasks }
hand_over false fd i s = record s { conns = modify off s.conns i; closed = fd ∷ s.closed }

accept_at : ℕ → Bool → Server → Option (ℕ × List ClientConnection) → Server
accept_at fd added s none = record s { accepted = fd ∷ s.accepted; closed = fd ∷ s.closed }
accept_at fd added s (some (i, cs)) =
    hand_over added fd i (record s { conns = cs; accepted = fd ∷ s.accepted })

-- The body of the loop on `accept`: a slot for the client, or none.
pub accept_client : ℕ → Bool → ℕ → Server → Server
unfolding accept_at
accept_client now added fd s = accept_at fd added s (claim fd now s.conns)

ready_at : (ℕ → Bool) → Bool → ℕ → Server → Option ClientConnection → Server
ready_at is_set added i s none = s
ready_at is_set added i s (some c) =
    if c.is_active && (not c.is_busy && is_set c.fd)
    then hand_over added c.fd i (record s { conns = modify marked_busy s.conns i })
    else s

-- The body of the loop on the slots that are ready.
pub ready_slot : (ℕ → Bool) → Bool → ℕ → Server → Server
unfolding ready_at
ready_slot is_set added i s = ready_at is_set added i s (get_elem? s.conns i)

pub time_out : ℕ → Server → Server
time_out now s =
    let (cs, fds) = check_keepalive_timeouts now s.conns in
    record s { conns = cs; closed = fds ++ s.closed }

accept_clients : ℕ → List (Bool × ℕ) → Server → Server
accept_clients now [] s = s
accept_clients now ((added, fd) ∷ rest) s = accept_clients now rest (accept_client now added fd s)

-- `count` slots from slot `i` on.
ready_slots : (ℕ → Bool) → (ℕ → Bool) → ℕ → ℕ → Server → Server
ready_slots is_set added i zero s = s
ready_slots is_set added i (suc count) s =
    ready_slots is_set added (suc i) count (ready_slot is_set (added i) i s)

abbrev pub max_conns : ℕ
max_conns = 256

-- One round of the loop: the clients that `accept` yields, the slots that are ready, the time-outs.
pub server_round : ℕ → List (Bool × ℕ) → (ℕ → Bool) → (ℕ → Bool) → Server → Server
unfolding accept_clients ready_slots
server_round now clients is_set added s =
    time_out now (ready_slots is_set added 0 max_conns (accept_clients now clients s))

-- A thread has worked on a task between the others: its slot is as the work leaves it.
pub finish_task : List ClientTask → ClientTask → List ClientTask → Worked → Server → Server
finish_task before task after w s = record s {
  conns = modify (λ _. w.conn) s.conns task.slot;
  tasks = before ++ after;
  closed = w.closed ++ s.closed;
}
