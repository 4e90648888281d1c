-- ===== src/Worker/Complete.antt =====
-- The buffer of a connection never overruns, and what makes a request whole.
use let_us_connect_http_serv.Base.{
  >>=-eq-ok, Bool, List, Option, [], arith, false, length, length-append, ok, true, ℕ, ◌++◌, ◌-◌,
  ◌<◌, ◌≡◌, ◌≤◌,
}
use let_us_connect_http_serv.Dictionary.{Dictionary}
use let_us_connect_http_serv.Handler.{Action}
use let_us_connect_http_serv.Connections.{ClientConnection, received}
use let_us_connect_http_serv.Worker.{
  Received, Route, Worked, answer, ended, finished, got, nothing_yet, read_on, request_complete,
  work,
}

-- `char read_buffer[8192]`, and the size that is passed to `recv`
abbrev pub buffer_size : ℕ
buffer_size = 8192

abbrev pub free_space : ClientConnection → ℕ
free_space conn = buffer_size - 1 - length conn.read_buffer

-- `recv` returns at most the number of bytes that it is asked for.
abbrev pub Fits : Received → ClientConnection → Type 0
Fits (got s) conn = length s ≤ free_space conn
Fits _ conn = Unit

abbrev pub IsBounded : ClientConnection → Type 0
IsBounded conn = length conn.read_buffer < buffer_size

finished_empty :
    (now client_fd : ℕ) (keep_alive : Bool) (actions : List Action) (conn : ClientConnection)
    → (finished now client_fd keep_alive actions conn).conn.read_buffer ≡ []
unfolding finished
finished_empty now client_fd keep_alive actions conn = ground arith

answer_empty :
    (now : ℕ) (routes : Option (Dictionary Route)) (client_fd : ℕ) (conn : ClientConnection)
    (w : Worked)
    → answer now routes client_fd conn ≡ ok w
    → w.conn.read_buffer ≡ []
unfolding answer
answer_empty now routes client_fd conn w e = ground (arith, finished_empty now client_fd)

read_on-IsBounded :
    (now : ℕ) (routes : Option (Dictionary Route)) (client_fd : ℕ) (conn : ClientConnection)
    (full : Bool) (w : Worked)
    → read_on now routes client_fd conn full ≡ ok w
    → IsBounded conn
    → IsBounded w.conn
unfolding read_on
read_on-IsBounded now routes client_fd conn true w e h =
    rw (answer_empty now routes client_fd conn w e) (omega arith)
read_on-IsBounded now routes client_fd conn false w e h = ground arith

-- Whatever `recv` returns, if it is no more than was asked for, and the buffer held at most 8191
-- bytes before, the work leaves at most 8191 bytes in it, so the NUL behind them is in it too.
pub work-IsBounded :
    (now : ℕ) (routes : Option (Dictionary Route)) (client_fd : ℕ) (r : Received)
    (conn : ClientConnection) (w : Worked)
    → Fits r conn
    → IsBounded conn
    → work now routes client_fd r conn ≡ ok w
    → IsBounded w.conn
unfolding work received
work-IsBounded now routes client_fd (got s) conn w fits h e =
    let (full, _, f) = >>=-eq-ok (request_complete (conn.read_buffer ++ s)) _ e in
    read_on-IsBounded now routes client_fd (received s conn) full w f
      (omega (arith, length-append conn.read_buffer s))
work-IsBounded now routes client_fd nothing_yet conn w fits h e = ground arith
work-IsBounded now routes client_fd ended conn w fits h e = ground arith
