-- ===== src/Program.antt =====
-- webserver_project/main.c: the start of the server and its end. What the program is started with,
-- what the calls of the system return and the requests that are logged while it serves are
-- parameters; the loop between start and end is Server's.
pub mod Balance
pub mod Release
pub mod Serves
pub mod Tests
use let_us_connect_http_serv.Base.{
  Bool, Bytes, List, Option, Outcome, [], codes, fault, if◌then◌else◌, ltb_ℤ, none, ok, pos, some,
  zero, ℕ, ℤ, ◌*◌, ◌>>=◌, ◌∷◌,
}
use let_us_connect_http_serv.CString.Number.{atoi}
use let_us_connect_http_serv.Dictionary.{
  Dictionary, dictionary_constructor, dictionary_destructor, insert_dict,
}
use let_us_connect_http_serv.Connections.{ClientConnection}
use let_us_connect_http_serv.Handler.{System, handle_filesystem_request}
use let_us_connect_http_serv.Logger.{
  Logger, Request, logger_destroy, logger_init, logger_log_request,
}
use let_us_connect_http_serv.Worker.{Route}
use let_us_connect_http_serv.Pool.{Pool, thread_pool_init}
use let_us_connect_http_serv.Server.{ClientTask}
use let_us_connect_http_serv.Server.Rounds.{Round, loop_ends}
use let_us_connect_http_serv.Server.Listen.{Calls, network_init}

-- What the program meets: `argv[1]`, whether the log file opens, the lock and the semaphore of the
-- pool, the socket calls, the rounds of the loop so far (they end the loop, or it still runs), and
-- the requests logged, each with the time of its call.
pub record World : Type 0 where
  pub argument : Option Bytes
  pub log_opens : Bool
  pub lock_made : Bool
  pub pool_sem : Option ℕ
  pub calls : Calls
  pub files : System
  pub rounds : List Round
  pub requests : List (Bytes × Request)

-- The calls of `main`, as they are made.
pub data Call : Type 0 where
  logger_begins logger_ends : Call
  pool_begins pool_ends : Call
  routes_begin routes_end : Call
  socket_begins socket_ends : Call
  serves : Call

-- What `network_run_server` is given.
pub record Serving : Type 0 where
  pub server_fd : ℕ
  pub conns : List ClientConnection
  pub pool : Pool ClientTask
  pub routes : Dictionary Route

-- The exit status (`none` while it serves), the calls that succeeded, the logger, and what is
-- served with.
pub record Ended : Type 0 where
  pub code : Option ℕ
  pub trace : List Call
  pub logger : Logger
  pub serving : Option Serving

-- `num_of_threads`
unfoldable pub num_of_threads : Option Bytes → Outcome ℤ
num_of_threads none = ok (pos 8)
num_of_threads (some s) = do n ← atoi s; ok (if ltb_ℤ (pos 0) n then n else pos 8)

-- `filesystem_route`
unfoldable pub filesystem_route : System → Route
filesystem_route files req = handle_filesystem_request files req

pub log_all : List (Bytes × Request) → Logger → Logger
log_all [] l = l
log_all ((timestamp, r) ∷ rest) l = log_all rest (logger_log_request timestamp r l)

-- The exit with status 1 after these calls, the log closed by the last.
abbrev pub gave_up : List Call → Logger → Ended
gave_up trace l = record { code = some 1; trace = trace; logger = logger_destroy l; serving = none }

-- The run whose loop is at an end.
abbrev pub returned : World → Logger → Serving → Ended
returned w l serving = record {
  code = some 0;
  trace = socket_begins ∷ serves ∷ socket_ends ∷ pool_ends ∷ routes_end ∷ logger_ends ∷ [];
  logger = logger_destroy (log_all w.requests l);
  serving = some serving;
}

-- The run whose loop goes on.
abbrev pub goes_on : World → Logger → Serving → Ended
goes_on w l serving = record {
  code = none;
  trace = socket_begins ∷ serves ∷ [];
  logger = log_all w.requests l;
  serving = some serving;
}

-- `network_run_server`, and what follows it once a `select` has failed but for a signal; until then
-- the loop runs.
pub served : World → Logger → Serving → Outcome Ended
served w l serving =
    if loop_ends w.rounds
    then (dictionary_destructor serving.routes >>= λ freed. ok (returned w l serving))
    else ok (goes_on w l serving)

-- From the result of `network_init` on.
with_network :
    World
    → Logger
    → Pool ClientTask
    → Dictionary Route
    → List ClientConnection
    → Option ℕ
    → Outcome Ended
with_network w l pool routes conns none = do
  freed ← dictionary_destructor routes
  ok (gave_up (pool_ends ∷ routes_end ∷ logger_ends ∷ []) l)
with_network w l pool routes conns (some server_fd) =
    served w l (record { server_fd = server_fd; conns = conns; pool = pool; routes = routes })

-- A call that succeeded before the others.
pub begins : Call → Outcome Ended → Outcome Ended
begins call fault = fault
begins call (ok e) = ok (record e { trace = call ∷ e.trace })

with_routes :
    World → List ClientConnection → Logger → Pool ClientTask → Dictionary Route → Outcome Ended
unfolding with_network
with_routes w conns l pool routes =
    let listening = network_init w.calls conns in
    with_network w l pool routes listening.conns listening.server_fd

-- From the result of `thread_pool_init` on.
with_pool : World → List ClientConnection → Logger → ℕ × Option (Pool ClientTask) → Outcome Ended
unfolding begins with_routes
with_pool w conns l (zero, some pool) = do
  routes ← insert_dict dictionary_constructor (codes "*") (filesystem_route w.files)
  begins pool_begins (begins routes_begin (with_routes w conns l pool routes))
with_pool w conns l _ = ok (gave_up (logger_ends ∷ []) l)

with_logger : World → List ClientConnection → ℤ → Logger × ℤ → Outcome Ended
unfolding begins with_pool
with_logger w conns n (l, pos zero) =
    begins logger_begins (
      with_pool w conns l
        (thread_pool_init n 0 (some (codes "worker_pool")) w.lock_made w.pool_sem))
with_logger w conns n (l, _) = ok (record { code = some 1; trace = []; logger = l; serving = none })

-- `main`, over the table and the logger as the program begins.
pub main : World → List ClientConnection → Logger → Outcome Ended
unfolding with_logger
main w conns l = do
  n ← num_of_threads w.argument
  with_logger w conns n (logger_init (some (codes "server.log")) w.log_opens l)
