-- ===== src/Program/Serves.antt =====
-- A run that serves, and a request that is served with its routes.
use let_us_connect_http_serv.Base.{
  Bool-cases, Bytes, List, [], ap, append-nil, append_assoc, arith, bytes_eq_refl, codes, false,
  if◌then◌else◌, inl, inr, none, ok, pos, refl, some, subst, suc, sym, true, ℕ, ℤ, ◌++◌, ◌∙◌, ◌∷◌,
  ◌≡◌,
}
use let_us_connect_http_serv.Connections.{ClientConnection}
use let_us_connect_http_serv.Dictionary.History.{lookup}
use let_us_connect_http_serv.Handler.Reply.{Answers}
use let_us_connect_http_serv.Handler.Found.{HasSizes}
use let_us_connect_http_serv.Handler.Answers.{handle_filesystem_request-Answered}
use let_us_connect_http_serv.Pool.{Pool, thread_pool_init}
use let_us_connect_http_serv.Pool.Start.{thread_pool_init-Starts}
use let_us_connect_http_serv.Worker.{Worked, got, request_complete, work}
use let_us_connect_http_serv.Worker.Answer.{Settles, work-Answers}
use let_us_connect_http_serv.Server.{ClientTask}
use let_us_connect_http_serv.Server.Rounds.{loop_ends}
use let_us_connect_http_serv.Server.Listen.{
  Calls, Listening, Listens, all_succeed, network_init, network_init-Listens,
}
use let_us_connect_http_serv.Program.{
  Ended, Serving, World, begins, filesystem_route, goes_on, log_all, logger_begins, main,
  num_of_threads, pool_begins, returned, routes_begin, served, with_logger, with_network, with_pool,
  with_routes,
}
use let_us_connect_http_serv.Program.Balance.{Fresh, program_routes}
use let_us_connect_http_serv.Program.Release.{given_to, main-Ends, routes_freed, routes_made}
use let_us_connect_http_serv.Logger.{Logger, Request, appended, line, logger_destroy, logger_init}
use let_us_connect_http_serv.Logger.Calls.{
  logger_destroy-files, logger_init-opens, logger_log_request-opened, opened_file,
}

-- The lines of the requests.
unfoldable pub lines : List (Bytes × Request) → Bytes
lines [] = []
lines ((timestamp, r) ∷ rest) = line timestamp r ++ lines rest

log_all-files :
    (requests : List (Bytes × Request)) (path : Bytes) (l : Logger)
    → (log_all requests (opened_file path l)).files path ≡ l.files path ++ lines requests
unfolding log_all lines
log_all-files [] path l = sym (append-nil (l.files path))
log_all-files ((timestamp, r) ∷ rest) path l =
    let next = record l { files = appended path (line timestamp r) l.files } in
    ap (λ (x : Logger). (log_all rest x).files path) (logger_log_request-opened path timestamp r l)
    ∙ log_all-files rest path next
    ∙ rw (bytes_eq_refl path) (append_assoc (l.files path) (line timestamp r) (lines rest))

-- What a run serves with, from what its Ends says of it.
serving_Fresh :
    (w : World) (conns : List ClientConnection) (l : Logger) (n : ℤ) (e : Ended) (s : Serving)
    → num_of_threads w.argument ≡ ok n
    → l.initialized ≡ false
    → main w conns l ≡ ok e
    → e.serving ≡ some s
    → Fresh w.files s
serving_Fresh w conns l n e s threads new run serving =
    let m = main-Ends w conns l n threads new in
    let same : m.ended ≡ e = ground arith in
    elim m.status [
      | inl (_, t, given, fresh) ↦
          let same_s : t ≡ s = ground arith in subst (Fresh w.files) same_s fresh
      | inr (_, given) ↦ absurd (not_both given)
    ]
  where
    not_both : (main-Ends w conns l n threads new).ended.serving ≡ none → ⊥
    not_both given = ground arith

-- When a run of the program serves, and every file has at least one byte and fewer than 2 ^ 31, a
-- request that a read of a worker makes whole is answered once, by the handler of files and
-- whatever its URI: what is sent is a head and at most one body that is no other head, and the
-- status of the head is the one code that is logged, in the one log entry. Its connection is
-- released for the next request with an empty buffer, or its socket is closed, once.
pub served_request-Answers :
    (w : World) (conns : List ClientConnection) (l : Logger) (n : ℤ) (e : Ended) (s : Serving)
    (now client_fd : ℕ) (bytes : Bytes) (conn : ClientConnection)
    → num_of_threads w.argument ≡ ok n
    → l.initialized ≡ false
    → main w conns l ≡ ok e
    → e.serving ≡ some s
    → HasSizes w.files
    → request_complete (conn.read_buffer ++ bytes) ≡ ok true
    → (done : Worked) × (code : ℕ) × (work now (some s.routes) client_fd (got bytes) conn ≡ ok done)
      × Answers code done.actions
      × Settles client_fd done
unfolding lookup filesystem_route
served_request-Answers w conns l n e s now client_fd bytes conn threads new run serving sizes full =
    let fresh = serving_Fresh w conns l n e s threads new run serving in
    rw fresh.one_route (
      work-Answers (program_routes w.files) (handle_filesystem_request-Answered w.files sizes, tt)
        (filesystem_route w.files) refl now client_fd bytes conn full)

-- What is done with the socket, whether or not the loop ends.
serves_with : World → Logger → Serving → Ended
serves_with w l serving = if loop_ends w.rounds then returned w l serving else goes_on w l serving

serves_with_lem :
    (w : World) (l : Logger) (pool : Pool ClientTask) (conns : List ClientConnection) (fd : ℕ)
    → served w l (given_to w pool conns fd) ≡ ok (serves_with w l (given_to w pool conns fd))
unfolding served serves_with
serves_with_lem w l pool conns fd =
    let (freed, done) = routes_freed w.files in
    elim (Bool-cases (loop_ends w.rounds)) [ inl e ↦ rw (e, done) refl | inr e ↦ rw e refl ]

-- What a run that serves has for its status, for what it served with and in its log file.
record IsServing (w : World) (l : Logger) (serving : Serving) (e : Ended) : Type 0 where
  status : e.code ≡ (if loop_ends w.rounds then some 0 else none)
  served_with : e.serving ≡ some serving
  logged : e.logger.files (codes "server.log") ≡ l.files (codes "server.log") ++ lines w.requests

serves_with-IsServing :
    (w : World) (l : Logger) (serving : Serving)
    → IsServing w l serving (serves_with w (opened_file (codes "server.log") l) serving)
unfolding serves_with
serves_with-IsServing w l serving =
    let path = codes "server.log" in
    let all = log_all w.requests (opened_file path l) in
    let closed_files : (logger_destroy all).files path ≡ all.files path =
      ap (λ (files : Bytes → Bytes). files path) (logger_destroy-files all) in
    elim (Bool-cases (loop_ends w.rounds)) [
      | inl e ↦ rw e (record {
        status = rw e refl;
        served_with = refl;
        logged = closed_files ∙ log_all-files w.requests path l;
      })
      | inr e ↦ rw e (record {
        status = rw e refl;
        served_with = refl;
        logged = log_all-files w.requests path l;
      })
    ]

-- The run in which the logger, the pool and the socket are had.
runs_with : World → List ClientConnection → Logger → Pool ClientTask → ℕ → Ended
runs_with w conns l pool fd =
    let rest =
      serves_with w (opened_file (codes "server.log") l)
        (given_to w pool (network_init w.calls conns).conns fd) in
    record rest { trace = logger_begins ∷ pool_begins ∷ routes_begin ∷ rest.trace }

main-runs_with :
    (w : World) (conns : List ClientConnection) (l : Logger) (n : ℤ) (pool : Pool ClientTask)
    (fd : ℕ)
    → num_of_threads w.argument ≡ ok n
    → logger_init (some (codes "server.log")) w.log_opens l
      ≡ (opened_file (codes "server.log") l, pos 0)
    → thread_pool_init n 0 (some (codes "worker_pool")) w.lock_made w.pool_sem ≡ (0, some pool)
    → (network_init w.calls conns).server_fd ≡ some fd
    → main w conns l ≡ ok (runs_with w conns l pool fd)
unfolding main with_logger with_pool with_routes with_network begins runs_with
main-runs_with w conns l n pool fd threads log pool_made socket =
    rw
      (
        threads,
        log,
        pool_made,
        routes_made w.files,
        socket,
        serves_with_lem w (opened_file (codes "server.log") l) pool
            (network_init w.calls conns).conns fd,
      )
      refl

listening_fd :
    (calls : Calls) (fd : ℕ) (l : Listening)
    → Listens calls (some fd) l
    → all_succeed calls ≡ true
    → l.server_fd ≡ some fd
listening_fd calls fd l (inl (_, e, _, _)) succeed = e
listening_fd calls fd l (inr (fails, _, _)) succeed = cc

-- When every call of the system succeeds that starts it, the program serves on its socket with the
-- number of threads it was started with: with no status as long as no `select` has failed but for
-- a signal, and with status 0 once one has; and in both cases its log file has gained one line for
-- each request that was logged, in order.
pub main-Serves :
    (w : World) (conns : List ClientConnection) (l : Logger) (n value fd : ℕ)
    → num_of_threads w.argument ≡ ok (pos (suc n))
    → l.initialized ≡ false
    → w.log_opens ≡ true
    → w.lock_made ≡ true
    → w.pool_sem ≡ some value
    → w.calls.socket ≡ some fd
    → all_succeed w.calls ≡ true
    → (e : Ended) × (s : Serving) × (main w conns l ≡ ok e)
      × (e.code ≡ (if loop_ends w.rounds then some 0 else none))
      × (e.serving ≡ some s)
      × (s.server_fd ≡ fd)
      × (s.pool.curr_size ≡ suc n)
      × (e.logger.files (codes "server.log") ≡ l.files (codes "server.log") ++ lines w.requests)
unfolding runs_with
main-Serves w conns l n value fd threads new opens lock sem socket succeed =
    let name = some (codes "worker_pool") in
    let made = thread_pool_init-Starts ClientTask (pos (suc n)) 0 name true (some value) in
    let listens =
      subst (λ s. Listens w.calls s (network_init w.calls conns)) socket
        (network_init-Listens w.calls conns) in
    let log : logger_init (some (codes "server.log")) w.log_opens l
        ≡ (opened_file (codes "server.log") l, pos 0) =
      rw opens (logger_init-opens (codes "server.log") l new) in
    let pool : thread_pool_init (pos (suc n)) 0 name w.lock_made w.pool_sem ≡ (0, some made.pool) =
      rw (lock, sem) made.made in
    let is =
      serves_with-IsServing w l (given_to w made.pool (network_init w.calls conns).conns fd) in
    (
      runs_with w conns l made.pool fd,
      _,
      main-runs_with w conns l (pos (suc n)) made.pool fd threads log pool
          (listening_fd w.calls fd (network_init w.calls conns) listens succeed),
      is.status,
      is.served_with,
      refl,
      made.static refl,
      is.logged,
    )
