-- ===== src/Program/Tests.antt =====
-- A run of two threads in which all goes well, one in which `bind` fails, and a request.
use let_us_connect_http_serv.Base.{
  Bytes, Option, [], arith, bytes_eq, codes, false, if◌then◌else◌, none, ok, pos, refl, some, true,
  ℕ, ◌++◌, ◌∷◌, ◌≡◌,
}
use let_us_connect_http_serv.CString.Number.{atoi}
use let_us_connect_http_serv.CString.Token.{skip_while, until}
use let_us_connect_http_serv.CString.Search.{is_prefix, isspace, strcasestr, strstr, tolower}
use let_us_connect_http_serv.Connections.{ClientConnection}
use let_us_connect_http_serv.Handler.{FileStat, System}
use let_us_connect_http_serv.Handler.Reply.{Answers}
use let_us_connect_http_serv.Handler.Found.{HasSizes}
use let_us_connect_http_serv.Worker.{Worked, got, request_complete, work}
use let_us_connect_http_serv.Worker.Answer.{Settles}
use let_us_connect_http_serv.Server.Rounds.{Round, loop_ends}
use let_us_connect_http_serv.Server.Listen.{Calls}
use let_us_connect_http_serv.Program.{Ended, Serving, World, main, num_of_threads}
use let_us_connect_http_serv.Program.Serves.{lines, main-Serves, served_request-Answers}
use let_us_connect_http_serv.Logger.{Logger, Request, logger_start}

abbrev page_stat : Bytes → Option FileStat
page_stat path =
    if bytes_eq path (codes "public/")
    then some (record { is_dir = true; st_size = 4096 })
    else if bytes_eq path (codes "public/index.html")
    then some (record { is_dir = false; st_size = 12 })
    else none

abbrev one_page : System
one_page = record { stat = page_stat; opens = λ _. true; opens_log = false; peer = none }

one_page-HasSizes : HasSizes one_page
one_page-HasSizes path st found file = grind arith

abbrev fine : Calls
fine = record {
  socket = some 3;
  setsockopt = true;
  get_flags = true;
  set_flags = true;
  bind = true;
  listen = true;
}

abbrev asked : Request
asked = record {
  client_ip = none;
  method = some (codes "GET");
  path = some (codes "/");
  status_code = pos 404;
  host = none;
}

-- A round in which `select` fails.
abbrev failing : Round
failing = record {
  select_fails = true;
  interrupted = false;
  now = 5;
  clients = [];
  is_set = λ _. false;
  added = λ _. true;
}

abbrev two_threads : World
two_threads = record {
  argument = some (codes "2");
  log_opens = true;
  lock_made = true;
  pool_sem = some 0;
  calls = fine;
  files = one_page;
  rounds = failing ∷ [];
  requests = (codes "now", asked) ∷ [];
}

abbrev port_taken : World
port_taken = record two_threads { calls = record fine { bind = false } }

abbrev fresh_logger : Logger
fresh_logger = logger_start (λ _. [])

two-num_of_threads : num_of_threads (some (codes "2")) ≡ ok (pos 2)
unfolding num_of_threads atoi skip_while isspace
two-num_of_threads = refl

-- A number below 1, and one that is none, are 8.
zero-num_of_threads : num_of_threads (some (codes "0")) ≡ ok (pos 8)
unfolding num_of_threads atoi skip_while isspace
zero-num_of_threads = refl

word-num_of_threads : num_of_threads (some (codes "many")) ≡ ok (pos 8)
unfolding num_of_threads atoi skip_while isspace
word-num_of_threads = refl

main-Serves_example :
    (e : Ended) × (s : Serving) × (main two_threads [] fresh_logger ≡ ok e)
    × (e.code ≡ (if loop_ends two_threads.rounds then some 0 else none))
    × (e.serving ≡ some s)
    × (s.server_fd ≡ 3)
    × (s.pool.curr_size ≡ 2)
    × (e.logger.files (codes "server.log") ≡ [] ++ lines two_threads.requests)
main-Serves_example =
    main-Serves two_threads [] fresh_logger 1 0 3 two-num_of_threads refl refl refl refl refl refl

-- A run whose loop goes on.
abbrev two_serving : World
two_serving = record two_threads { rounds = [] }

two_serving-main :
    (e : Ended) × (s : Serving) × (main two_serving [] fresh_logger ≡ ok e)
    × (e.code ≡ (if loop_ends [] then some 0 else none))
    × (e.serving ≡ some s)
    × (s.server_fd ≡ 3)
    × (s.pool.curr_size ≡ 2)
    × (e.logger.files (codes "server.log") ≡ [] ++ lines two_serving.requests)
two_serving-main =
    main-Serves two_serving [] fresh_logger 1 0 3 two-num_of_threads refl refl refl refl refl refl

-- What the run is given, and how it ends.
abbrev run : Ended
run =
    (main-Serves two_threads [] fresh_logger 1 0 3 two-num_of_threads refl refl refl refl refl
      refl).0

abbrev given : Serving
given =
    (main-Serves two_threads [] fresh_logger 1 0 3 two-num_of_threads refl refl refl refl refl
      refl).1

abbrev client : ClientConnection
client = record { fd = 7; last_activity = 4; is_active = true; is_busy = true; read_buffer = [] }

whole_request : request_complete ([] ++ codes "GET / HTTP/1.1\r\n\r\n") ≡ ok true
unfolding request_complete strstr strcasestr is_prefix until tolower
whole_request = refl

served_request-Answers_example :
    (done : Worked) × (code : ℕ) × (work 6
        (some given.routes)
        7
        (got (codes "GET / HTTP/1.1\r\n\r\n"))
        client
      ≡ ok done)
    × Answers code done.actions
    × Settles 7 done
served_request-Answers_example =
    let (_, _, returns, _, serving, _, _, _) =
      main-Serves two_threads [] fresh_logger 1 0 3 two-num_of_threads refl refl refl refl refl
        refl in
    served_request-Answers two_threads [] fresh_logger (pos 2) run given 6 7
      (codes "GET / HTTP/1.1\r\n\r\n") client two-num_of_threads refl returns serving
      one_page-HasSizes whole_request
