-- ===== src/Program/Release.antt =====
-- How the program ends, whichever call fails, or that it serves.
use let_us_connect_http_serv.Base.{
  Bool, Bool-cases, Bytes, List, Option, [], codes, false, inl, inr, negsuc, none, ok, pos, refl,
  some, suc, true, zero, ℕ, ℤ, ◌∷◌, ◌≡◌, ◌≤◌, ◌⊎◌,
}
use let_us_connect_http_serv.Connections.{ClientConnection}
use let_us_connect_http_serv.LinkedList.{LinkedList}
use let_us_connect_http_serv.Dictionary.{
  Entry, dictionary_constructor, dictionary_destructor, insert_dict,
}
use let_us_connect_http_serv.Dictionary.Laws.{insert_dict_lem}
use let_us_connect_http_serv.Dictionary.History.{
  after, after-IsValid, dictionary_constructor-IsValid,
}
use let_us_connect_http_serv.Dictionary.Destroy.{dictionary_destructor-leaks}
use let_us_connect_http_serv.Handler.{System}
use let_us_connect_http_serv.Pool.{Pool, thread_pool_init}
use let_us_connect_http_serv.Pool.Invariant.{IsNew}
use let_us_connect_http_serv.Pool.Start.{Makes, thread_pool_init-Starts}
use let_us_connect_http_serv.Worker.{Route}
use let_us_connect_http_serv.Worker.Answer.{routes_of}
use let_us_connect_http_serv.Server.{ClientTask}
use let_us_connect_http_serv.Server.Rounds.{loop_ends}
use let_us_connect_http_serv.Server.Invariant.{AllFree}
use let_us_connect_http_serv.Server.Listen.{
  Calls, Listening, Listens, network_init, network_init-Listens,
}
use let_us_connect_http_serv.Program.{
  Serving, World, filesystem_route, gave_up, goes_on, log_all, logger_begins, logger_ends, main,
  num_of_threads, pool_begins, pool_ends, returned, routes_begin, routes_end, served, with_logger,
  with_network, with_pool, with_routes,
}
use let_us_connect_http_serv.Logger.{Logger, closed}
use let_us_connect_http_serv.Logger.Calls.{
  logger_destroy-initialized, logger_init-fails, logger_init-opens, opened_file,
}
use let_us_connect_http_serv.Program.Balance.{
  Ends, Fresh, Held, begins-Ends, nothing_held, program_routes, replay,
}

pub routes_made :
    (files : System)
    → insert_dict dictionary_constructor (codes "*") (filesystem_route files)
      ≡ ok (routes_of (program_routes files))
unfolding after
routes_made files =
    insert_dict_lem dictionary_constructor (codes "*") (filesystem_route files)
      dictionary_constructor-IsValid

pub routes_freed :
    (files : System)
    → (freed : Option (LinkedList Bytes) × List (Entry Route)) × (dictionary_destructor
          (routes_of (program_routes files))
        ≡ ok freed)
routes_freed files =
    let (_, done, _) = dictionary_destructor-leaks (routes_of (program_routes files)) (
      after-IsValid (program_routes files) dictionary_constructor dictionary_constructor-IsValid) in
    (_, done)

abbrev all_but_socket : Held
all_but_socket = record { logger = true; pool = true; routes = true; socket = false }

-- What the loop is given.
abbrev pub given_to : World → Pool ClientTask → List ClientConnection → ℕ → Serving
given_to w pool conns fd = record {
  server_fd = fd;
  conns = conns;
  pool = pool;
  routes = routes_of (program_routes w.files);
}

-- The socket that `network_init` returns comes with a table that has no active slot.
abbrev IsFreeIf : Option ℕ → List ClientConnection → Type 0
IsFreeIf none cs = Unit
IsFreeIf (some fd) cs = AllFree cs

listening_free :
    (calls : Calls) (socket : Option ℕ) (l : Listening)
    → Listens calls socket l
    → IsFreeIf l.server_fd l.conns
listening_free calls none l (e, _) = rw e tt
listening_free calls (some fd) l (inl (_, e, _, unused)) = rw e unused
listening_free calls (some fd) l (inr (_, e, _)) = rw e tt

served-Ends :
    (w : World) (l : Logger) (pool : Pool ClientTask) (conns : List ClientConnection) (fd : ℕ)
    → Fresh w.files (given_to w pool conns fd)
    → Ends w.files (loop_ends w.rounds) all_but_socket (served w l (given_to w pool conns fd))
unfolding served replay
served-Ends w l pool conns fd fresh = elim (Bool-cases (loop_ends w.rounds)) [
  | inl ends ↦
      let (freed, done) = routes_freed w.files in
      rw ends (record {
        ended = returned w l (given_to w pool conns fd);
        returns = rw done refl;
        balance = refl;
        log = λ _. logger_destroy-initialized (log_all w.requests l);
        status = inl (refl, given_to w pool conns fd, refl, fresh);
      })
  | inr on ↦ rw on (record {
    ended = goes_on w l (given_to w pool conns fd);
    returns = refl;
    balance = refl;
    log = λ e. cc;
    status = inl (refl, given_to w pool conns fd, refl, fresh);
  })
]

with_network-Ends :
    (w : World) (l : Logger) (pool : Pool ClientTask) (conns : List ClientConnection)
    (server_fd : Option ℕ)
    → IsNew pool
    → 1 ≤ pool.curr_size
    → IsFreeIf server_fd conns
    → Ends w.files
        (loop_ends w.rounds)
        all_but_socket
        (with_network w l pool (routes_of (program_routes w.files)) conns server_fd)
unfolding with_network replay
with_network-Ends w l pool conns none new threads unused =
    let (freed, done) = routes_freed w.files in
    record {
      ended = gave_up (pool_ends ∷ routes_end ∷ logger_ends ∷ []) l;
      returns = rw done refl;
      balance = refl;
      log = λ _. logger_destroy-initialized l;
      status = inr (refl, refl);
    }
with_network-Ends w l pool conns (some fd) new threads unused =
    served-Ends w l pool conns fd
      (record { free_table = unused; new_pool = new; threads = threads; one_route = refl })

-- Before the pool is made.
abbrev logger_only : Held
logger_only = record { logger = true; pool = false; routes = false; socket = false }

gave_up-Ends :
    (files : System) (ends : Bool) (l : Logger)
    → Ends files ends logger_only (ok (gave_up (logger_ends ∷ []) l))
unfolding replay
gave_up-Ends files ends l = record {
  ended = gave_up (logger_ends ∷ []) l;
  returns = refl;
  balance = refl;
  log = λ _. logger_destroy-initialized l;
  status = inr (refl, refl);
}

pool_made-Ends :
    (w : World) (conns : List ClientConnection) (l : Logger) (pool : Pool ClientTask)
    → IsNew pool
    → 1 ≤ pool.curr_size
    → Ends w.files (loop_ends w.rounds) logger_only (with_pool w conns l (0, some pool))
unfolding with_pool with_routes replay
pool_made-Ends w conns l pool new threads =
    let listening = network_init w.calls conns in
    rw (routes_made w.files) (
      begins-Ends w.files (loop_ends w.rounds) pool_begins logger_only _ refl (
        begins-Ends w.files (loop_ends w.rounds) routes_begin _ _ refl (
          with_network-Ends w l pool listening.conns listening.server_fd new threads (
            listening_free w.calls w.calls.socket listening (network_init-Listens w.calls conns)))))

-- A call of `thread_pool_init` that makes a pool, or fails with that error.
abbrev pub Tries : ℕ × Option (Pool ClientTask) → Type 0
Tries m = ((value n : ℕ) × Makes ClientTask n 0 value m) ⊎ ((error : ℕ) × (m ≡ (suc error, none)))

with_pool-Ends :
    (w : World) (conns : List ClientConnection) (l : Logger) (m : ℕ × Option (Pool ClientTask))
    → Tries m
    → Ends w.files (loop_ends w.rounds) logger_only (with_pool w conns l m)
unfolding with_pool
with_pool-Ends w conns l m (inl (value, n, makes)) =
    rw makes.made (pool_made-Ends w conns l makes.pool makes.new makes.sized.0)
with_pool-Ends w conns l m (inr (error, e)) = rw e (gave_up-Ends w.files (loop_ends w.rounds) l)

thread_pool_init-Tries :
    (n : ℤ) (name : Option Bytes) (lock : Bool) (sem : Option ℕ)
    → Tries (thread_pool_init n 0 name lock sem)
thread_pool_init-Tries (negsuc n) name lock sem =
    inr (0, thread_pool_init-Starts ClientTask (negsuc n) 0 name lock sem)
thread_pool_init-Tries (pos zero) name lock sem =
    inr (0, thread_pool_init-Starts ClientTask (pos zero) 0 name lock sem)
thread_pool_init-Tries (pos (suc n)) none lock sem =
    inr (0, thread_pool_init-Starts ClientTask (pos (suc n)) 0 none lock sem)
thread_pool_init-Tries (pos (suc n)) (some name) false sem =
    inr (2, thread_pool_init-Starts ClientTask (pos (suc n)) 0 (some name) false sem)
thread_pool_init-Tries (pos (suc n)) (some name) true none =
    inr (2, thread_pool_init-Starts ClientTask (pos (suc n)) 0 (some name) true none)
thread_pool_init-Tries (pos (suc n)) (some name) true (some value) =
    inl (
      value,
      suc n,
      thread_pool_init-Starts ClientTask (pos (suc n)) 0 (some name) true (some value),
    )

pub main-Ends :
    (w : World) (conns : List ClientConnection) (l : Logger) (n : ℤ)
    → num_of_threads w.argument ≡ ok n
    → l.initialized ≡ false
    → Ends w.files (loop_ends w.rounds) nothing_held (main w conns l)
unfolding main with_logger replay served
main-Ends w conns l n e new = elim (Bool-cases w.log_opens) [
  | inl opens ↦
      let name = some (codes "worker_pool") in
      rw (e, opens, logger_init-opens (codes "server.log") l new)
        (begins-Ends w.files (loop_ends w.rounds) logger_begins nothing_held _ refl (
          with_pool-Ends w conns (opened_file (codes "server.log") l)
            (thread_pool_init n 0 name w.lock_made w.pool_sem)
            (thread_pool_init-Tries n name w.lock_made w.pool_sem)))
  | inr fails ↦
      rw (e, fails, logger_init-fails (codes "server.log") l new)
        (record {
          ended = record {
            code = some 1;
            trace = [];
            logger = record l { stream = closed };
            serving = none;
          };
          returns = refl;
          balance = refl;
          log = λ _. new;
          status = inr (refl, refl);
        })
]
