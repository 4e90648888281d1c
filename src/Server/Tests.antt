-- ===== src/Server/Tests.antt =====
-- A table of two slots: a client is accepted, its peer has closed, and a second client comes.
use mathlib.Core.List.{Perm}
use let_us_connect_http_serv.Base.{List, [], false, none, refl, true, ◌++◌, ◌==◌, ◌∷◌, ◌≡◌}
use let_us_connect_http_serv.Connections.{ClientConnection, claim, occupied, off}
use let_us_connect_http_serv.Connections.Sockets.{active_fds}
use let_us_connect_http_serv.Worker.{Worked, ended}
use let_us_connect_http_serv.Worker.Ends.{work-ended}
use let_us_connect_http_serv.Server.{
  ClientTask, Server, accept_at, accept_client, finish_task, hand_over,
}
use let_us_connect_http_serv.Server.Invariant.{AllFree}
use let_us_connect_http_serv.Server.Exclusive.{
  Reach, accepts, at_start, finishes, later, sockets_kept, start,
}
use let_us_connect_http_serv.Server.Rounds.{
  Round, network_run_server, network_run_server-Reach, watch,
}

abbrev unused : ClientConnection
unused = record { fd = 0; last_activity = 0; is_active = false; is_busy = false; read_buffer = [] }

abbrev table : List ClientConnection
table = unused ∷ unused ∷ []

table-AllFree : AllFree table
table-AllFree = (refl, (refl, tt))

abbrev first_task : ClientTask
first_task = record { client_fd = 7; slot = 0 }

abbrev one_client : Server
one_client = accept_client 5 true 7 (at_start table)

one_client-Reach : Reach none table one_client
one_client-Reach = later start (accepts 5 true 7)

abbrev in_slot : ClientConnection
in_slot = occupied 7 5 unused

abbrev hung_up : Worked
hung_up = record { conn = off in_slot; actions = []; closed = 7 ∷ [] }

abbrev after_close : Server
after_close = finish_task [] first_task [] hung_up one_client

after_close-Reach : Reach none table after_close
unfolding accept_client accept_at claim hand_over occupied
after_close-Reach =
    later one_client-Reach
      (finishes [] first_task [] 6 ended in_slot hung_up refl refl (work-ended 6 none 7 in_slot))

sockets_kept_example :
    Perm after_close.accepted (after_close.closed ++ active_fds after_close.conns)
sockets_kept_example = sockets_kept none table after_close table-AllFree after_close-Reach

-- The sockets that are waited for: those of the active slots that are not busy, and the greatest.
watched_one :
    watch (record in_slot { is_busy = false } ∷ in_slot ∷ unused ∷ []) (3 ∷ []) 3 ≡ (7 ∷ 3 ∷ [], 7)
unfolding occupied watch
watched_one = refl

-- A round, and a failure of `select`.
abbrev quiet : Round
quiet = record {
  select_fails = false;
  interrupted = false;
  now = 7;
  clients = (true, 9) ∷ [];
  is_set = λ fd. fd == 9;
  added = λ i. true;
}

abbrev failing : Round
failing = record quiet { select_fails = true }

two_rounds-Reach : Reach none table (network_run_server (quiet ∷ failing ∷ []) one_client)
two_rounds-Reach =
    network_run_server-Reach none table (quiet ∷ failing ∷ []) one_client one_client-Reach
