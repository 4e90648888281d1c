-- ===== src/Server/Exclusive.antt =====
-- The server and its threads as steps in any order: one worker for a slot, and no socket lost.
use mathlib.Core.List.{Perm}
use mathlib.Core.List.Perm
use let_us_connect_http_serv.Base.{
  All, Bool, List, Option, [], arith, ok, refl, subst, suc, sym, zero, ℕ, ◌++◌, ◌∷◌, ◌≡◌, ◌≢◌, ◌≤◌,
}
use let_us_connect_http_serv.Connections.{ClientConnection}
use let_us_connect_http_serv.Connections.Claimed.{Holds}
use let_us_connect_http_serv.Connections.Sockets.{active_fds}
use let_us_connect_http_serv.Dictionary.{Dictionary}
use let_us_connect_http_serv.Worker.{Received, Route, Worked, work}
use let_us_connect_http_serv.Server.{
  ClientTask, Server, accept_client, accept_clients, finish_task, max_conns, ready_slot,
  ready_slots, server_round, time_out,
}
use let_us_connect_http_serv.Server.Invariant.{
  AllFree, Inv, Owned, count_at, count_at-cons_self, count_at-none, count_at-others,
}
use let_us_connect_http_serv.Server.Steps.{
  All-split, accept_client-Inv, count_at-without, finish_task-Inv, ready_slot-Inv, time_out-Inv,
}

-- A step: of the server's loop, or of a thread on one of the tasks.
pub data Step (routes : Option (Dictionary Route)) (s : Server) : Server → Type 0 where
  accepts : (now : ℕ) (added : Bool) (fd : ℕ) → Step routes s (accept_client now added fd s)
  readies : (is_set : ℕ → Bool) (added : Bool) (i : ℕ) → Step routes s (ready_slot is_set added i s)
  times_out : (now : ℕ) → Step routes s (time_out now s)
  finishes :
      (before : List ClientTask) (task : ClientTask) (after : List ClientTask) (now : ℕ)
      (r : Received) (c : ClientConnection) (w : Worked)
      → s.tasks ≡ before ++ task ∷ after
      → Holds s.conns task.slot c
      → work now routes task.client_fd r c ≡ ok w
      → Step routes s (finish_task before task after w s)

abbrev pub at_start : List ClientConnection → Server
at_start cs = record { conns = cs; tasks = []; accepted = []; closed = [] }

pub data Reach (routes : Option (Dictionary Route)) (cs : List ClientConnection)
    : Server → Type 0 where
  start : Reach routes cs (at_start cs)
  later : {s t : Server} → Reach routes cs s → Step routes s t → Reach routes cs t

active_fds-AllFree : (cs : List ClientConnection) → AllFree cs → active_fds cs ≡ []
unfolding active_fds
active_fds-AllFree [] h = refl
active_fds-AllFree (c ∷ cs) (a, h) = simp a (active_fds-AllFree cs h)

at_start-Inv : (cs : List ClientConnection) → AllFree cs → Inv (at_start cs)
at_start-Inv cs h = record {
  owned = tt;
  single = count_at-none;
  sockets = subst (λ fds. Perm [] fds) (sym (active_fds-AllFree cs h)) (Perm.refl []);
}

Step-Inv : (routes : Option (Dictionary Route)) (s t : Server) → Step routes s t → Inv s → Inv t
Step-Inv routes s _ (accepts now added fd) h = accept_client-Inv now added fd s h
Step-Inv routes s _ (readies is_set added i) h = ready_slot-Inv is_set added i s h
Step-Inv routes s _ (times_out now) h = time_out-Inv now s h
Step-Inv routes s _ (finishes before task after now r c w e at worked) h =
    finish_task-Inv before task after s now routes r c w e at worked h

Reach-Inv :
    (routes : Option (Dictionary Route)) (cs : List ClientConnection) (s : Server)
    → AllFree cs
    → Reach routes cs s
    → Inv s
Reach-Inv routes cs _ h start = at_start-Inv cs h
Reach-Inv routes cs _ h (later {s} {t} before step) =
    Step-Inv routes s t step (Reach-Inv routes cs s h before)

-- In every reachable state, a task that is queued or at work is for a slot that is active and busy,
-- with the socket of the task in it, and every other task is for another slot.
pub one_worker :
    (routes : Option (Dictionary Route)) (cs : List ClientConnection) (s : Server)
    (before : List ClientTask) (task : ClientTask) (after : List ClientTask)
    → AllFree cs
    → Reach routes cs s
    → s.tasks ≡ before ++ task ∷ after
    → Owned s.conns task × All (λ (t : ClientTask). t.slot ≢ task.slot) (before ++ after)
one_worker routes cs s before task after free reach e =
    let h = Reach-Inv routes cs s free reach in
    let owned : All (Owned s.conns) (before ++ task ∷ after) =
      subst (λ ts. All (Owned s.conns) ts) e h.owned in
    let single = subst (λ ts. count_at task.slot ts ≤ 1) e (h.single task.slot) in
    (
      (All-split s.conns before task after owned).0,
      count_at-others task.slot (before ++ after) (
          omega (
            arith,
            single,
            count_at-without task.slot before task after,
            count_at-cons_self task [],
          )),
    )

-- In every reachable state, the sockets accepted are those closed and those of the active slots,
-- each as often as it was accepted: none is lost, and none is closed twice or closed while its
-- slot is active.
pub sockets_kept :
    (routes : Option (Dictionary Route)) (cs : List ClientConnection) (s : Server)
    → AllFree cs
    → Reach routes cs s
    → Perm s.accepted (s.closed ++ active_fds s.conns)
sockets_kept routes cs s free reach = (Reach-Inv routes cs s free reach).sockets

-- A round of the loop is a sequence of its steps.
accept_clients-Reach :
    (routes : Option (Dictionary Route)) (cs : List ClientConnection) (now : ℕ)
    (clients : List (Bool × ℕ)) (s : Server)
    → Reach routes cs s
    → Reach routes cs (accept_clients now clients s)
unfolding accept_clients
accept_clients-Reach routes cs now [] s h = h
accept_clients-Reach routes cs now ((added, fd) ∷ rest) s h =
    accept_clients-Reach routes cs now rest (accept_client now added fd s)
      (later h (accepts now added fd))

ready_slots-Reach :
    (routes : Option (Dictionary Route)) (cs : List ClientConnection) (is_set added : ℕ → Bool)
    (i count : ℕ) (s : Server)
    → Reach routes cs s
    → Reach routes cs (ready_slots is_set added i count s)
unfolding ready_slots
ready_slots-Reach routes cs is_set added i zero s h = h
ready_slots-Reach routes cs is_set added i (suc count) s h =
    ready_slots-Reach routes cs is_set added (suc i) count (ready_slot is_set (added i) i s)
      (later h (readies is_set (added i) i))

-- Whatever clients `accept` yields, whatever sockets are ready, and whatever tasks are taken, a
-- round of the server's loop from a reachable state is a sequence of the steps above and leads to
-- a reachable one.
pub server_round-Reach :
    (routes : Option (Dictionary Route)) (cs : List ClientConnection) (now : ℕ)
    (clients : List (Bool × ℕ)) (is_set added : ℕ → Bool) (s : Server)
    → Reach routes cs s
    → Reach routes cs (server_round now clients is_set added s)
unfolding server_round
server_round-Reach routes cs now clients is_set added s h =
    later
      (ready_slots-Reach routes cs is_set added 0 max_conns (accept_clients now clients s)
        (accept_clients-Reach routes cs now clients s h))
      (times_out now)
