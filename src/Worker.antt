-- ===== src/Worker.antt =====
-- The work of a thread on one task, `_thread_task` of webserver_project/src/network/thread_pool.c
-- between its two locked sections: the read, the test for a whole request, the route and the
-- answer, and what becomes of the connection. What `recv` returns and the clock are parameters.
pub mod Complete
pub mod Pieces
pub mod Answer
pub mod Ends
pub mod Tests
use let_us_connect_http_serv.Base.{
  Bool, Bytes, List, Option, Outcome, [], codes, crlf, drop, false, fault, if◌then◌else◌, leb,
  length, ltb, map, negsuc, none, ok, pos, some, suc, true, ℕ, ℤ, ◌&&◌, ◌*◌, ◌++◌, ◌+◌, ◌==◌, ◌∷◌,
  ◌>>=◌,
}
use let_us_connect_http_serv.CString.Token.{until}
use let_us_connect_http_serv.CString.Search.{strcasestr, strstr}
use let_us_connect_http_serv.CString.Number.{atoi, int_limit}
use let_us_connect_http_serv.Dictionary.{Dictionary, search_dict}
use let_us_connect_http_serv.Parser.{HttpRequest, http_request_constructor, http_request_destructor}
use let_us_connect_http_serv.Response.{send_error}
use let_us_connect_http_serv.Handler.{Action, keep_alive_of, sends}
use let_us_connect_http_serv.Connections.{ClientConnection, received}

-- A handler that is registered for a route, as what it does with a request.
abbrev pub Route : Type 0
Route = HttpRequest → Outcome (List Action)

-- What `recv` returns: bytes, -1 with EAGAIN or EWOULDBLOCK, or 0 or another error.
pub data Received : Type 0 where
  got : Bytes → Received
  nothing_yet ended : Received

-- The connection after the work, what was done, and the sockets closed.
pub record Worked : Type 0 where
  pub conn : ClientConnection
  pub actions : List Action
  pub closed : List ℕ

-- The buffer as a C string: up to a NUL.
abbrev pub c_string : Bytes → Bytes
c_string buffer = (until (λ c. c == 0) buffer).0

-- `conn->read_length >= headers_length + content_length`; the sum of two `int`s that is too large
-- is undefined.
reached : ℕ → ℕ → ℤ → Outcome Bool
reached read_length headers_length (pos n) =
    if ltb (headers_length + n) int_limit then ok (leb (headers_length + n) read_length) else fault
reached read_length headers_length (negsuc n) = ok (leb headers_length (read_length + suc n))

-- With the end of the headers and the header Content-Length, if there is one.
with_length : ℕ → ℕ → Option (Bytes × Bytes) → Outcome Bool
unfolding reached
with_length read_length headers_length none = ok true
with_length read_length headers_length (some (_, cl_str)) = do
  content_length ← atoi (drop 15 cl_str)
  reached read_length headers_length content_length

with_headers : Bytes → Option (Bytes × Bytes) → Outcome Bool
unfolding with_length
with_headers buffer none = ok false
with_headers buffer (some (before, _)) =
    with_length (length buffer) (length before + 4)
      (strcasestr (c_string buffer) (codes "Content-Length:"))

-- `request_complete`
unfoldable pub request_complete : Bytes → Outcome Bool
unfolding with_headers
request_complete buffer = with_headers buffer (strstr (c_string buffer) (crlf ++ crlf))

-- `if (uri != NULL && task->routes != NULL)`
find_route : Option (Dictionary Route) → Option Bytes → Outcome (Option Route)
find_route none uri = ok none
find_route (some routes) none = ok none
find_route (some routes) (some uri) = search_dict (some routes) (some uri)

-- The route "*", else the 404; `task->routes` is read through.
fallback : Option Route → HttpRequest → Outcome (List Action)
fallback (some handler) req = handler req
fallback none req = do buffers ← send_error 404; ok (map sends buffers)

any_route : Option (Dictionary Route) → HttpRequest → Outcome (List Action)
unfolding fallback
any_route none req = fault
any_route (some routes) req = do
  handler ← search_dict (some routes) (some (codes "*"))
  fallback handler req

route : Option (Dictionary Route) → Option Route → HttpRequest → Outcome (List Action)
route routes (some handler) req = handler req
route routes none req = any_route routes req

abbrev cleared : ClientConnection → ClientConnection
cleared conn = record conn { read_buffer = [] }

abbrev kept : ℕ → ClientConnection → ClientConnection
kept now conn = record conn { last_activity = now; is_busy = false }

-- `close(client_fd); conn->is_active = 0;`
abbrev dropped : ℕ → ClientConnection → List Action → Worked
dropped client_fd conn actions = record {
  conn = record conn { is_active = false };
  actions = actions;
  closed = client_fd ∷ [];
}

-- After the answer.
finished : ℕ → ℕ → Bool → List Action → ClientConnection → Worked
finished now client_fd keep_alive actions conn =
    if keep_alive && conn.is_active
    then record { conn = kept now (cleared conn); actions = actions; closed = [] }
    else dropped client_fd (cleared conn) actions

answer : ℕ → Option (Dictionary Route) → ℕ → ClientConnection → Outcome Worked
unfolding finished
answer now routes client_fd conn = do
  req ← http_request_constructor (some (c_string conn.read_buffer))
  connection_val ← search_dict (some req.header_fields) (some (codes "connection"))
  uri ← search_dict (some req.request_line) (some (codes "uri"))
  handler ← find_route routes uri
  actions ← route routes handler req
  left ← http_request_destructor (some req)
  ok (finished now client_fd (keep_alive_of connection_val) actions conn)

-- The two branches on `request_complete`.
read_on : ℕ → Option (Dictionary Route) → ℕ → ClientConnection → Bool → Outcome Worked
read_on now routes client_fd conn true = answer now routes client_fd conn
read_on now routes client_fd conn false =
    ok (record { conn = kept now conn; actions = []; closed = [] })

pub work : ℕ → Option (Dictionary Route) → ℕ → Received → ClientConnection → Outcome Worked
unfolding read_on
work now routes client_fd (got s) conn = do
  full ← request_complete (received s conn).read_buffer
  read_on now routes client_fd (received s conn) full
work now routes client_fd nothing_yet conn =
    ok (record { conn = record conn { is_busy = false }; actions = []; closed = [] })
work now routes client_fd ended conn = ok (dropped client_fd conn [])
