-- ===== src/Handler.antt =====
-- webserver_project/src/handler/http_handler.c. The file system and the peer's address are a
-- parameter; what the handler does to the outside is the list of its actions, in order. The
-- results of the calls that it does not look at (send_all, write, mkdir) are left out.
pub mod Path
pub mod Reply
pub mod Found
pub mod Answers
pub mod Head
pub mod Empty
pub mod Traversal
pub mod Tests
use mathlib.Core.Option
use let_us_connect_http_serv.Base.{
  Bool, Bytes, List, Option, Outcome, [], bytes_eq, codes, false, fault, if◌then◌else◌, length, ltb,
  map, negsuc, none, not, ok, or_empty, pos, some, suc, true, zero, ℕ, ℤ, ◌%◌, ◌++◌, ◌-◌, ◌/◌, ◌==◌,
  ◌>>=◌, ◌||◌, ◌∷◌,
}
use let_us_connect_http_serv.CString.Search.{strcasecmp_eq, strrchr, strstr}
use let_us_connect_http_serv.CString.Format.{snprintf, strncat}
use let_us_connect_http_serv.Dictionary.{Dictionary, search_dict}
use let_us_connect_http_serv.Parser.{HttpRequest}
use let_us_connect_http_serv.Response.{send_created, send_error, send_response_head}

-- `struct stat`, the two fields that are read.
pub record FileStat : Type 0 where
  pub is_dir : Bool
  pub st_size : ℕ

-- What the operating system answers: `stat` (`none` is -1), whether a file opens for reading,
-- whether the log of POST bodies opens, and `getpeername` with `inet_ntop` (`none` is -1).
pub record System : Type 0 where
  pub stat : Bytes → Option FileStat
  pub opens : Bytes → Bool
  pub opens_log : Bool
  pub peer : Option Bytes

pub data Action : Type 0 where
  sends : Bytes → Action
  sends_file : Bytes → ℕ → Action
  makes_public : Action
  writes_log : Bytes → Action
  logs_request : Bytes → Option Bytes → Option Bytes → ℕ → Option Bytes → Action

-- `get_mime_type`
mime_of : Option Bytes → Bytes
mime_of none = codes "application/octet-stream"
mime_of (some ext) =
    if strcasecmp_eq ext (codes ".html") || strcasecmp_eq ext (codes ".htm")
    then codes "text/html"
    else if strcasecmp_eq ext (codes ".css")
    then codes "text/css"
    else if strcasecmp_eq ext (codes ".js")
    then codes "application/javascript"
    else if strcasecmp_eq ext (codes ".png")
    then codes "image/png"
    else if strcasecmp_eq ext (codes ".jpg") || strcasecmp_eq ext (codes ".jpeg")
    then codes "image/jpeg"
    else codes "application/octet-stream"

unfoldable pub get_mime_type : Bytes → Bytes
unfolding mime_of
get_mime_type path = mime_of (strrchr path b'.')

-- `get_client_ip`; the address fits the buffer.
unfoldable pub get_client_ip : System → Bytes
get_client_ip sys = elim sys.peer [ none ↦ b'-' ∷ [] | some ip ↦ ip ]

-- The fields that the handler looks up first.
pub record Fields : Type 0 where
  pub client_ip : Bytes
  pub method : Option Bytes
  pub uri : Option Bytes
  pub version : Option Bytes
  pub host : Option Bytes

abbrev pub field : Dictionary Bytes → Bytes → Outcome (Option Bytes)
field d key = search_dict (some d) (some key)

pub logged : Fields → ℕ → Action
logged f code = logs_request f.client_ip f.method f.uri code f.host

-- `send_error(client_fd, code); logger_log_request(…, code, host); return;`
pub refuse : Fields → ℕ → Outcome (List Action)
refuse f code = do buffers ← send_error code; ok (map sends buffers ++ logged f code ∷ [])

-- `connection_val && strcasecmp(connection_val, "close") == 0`
unfoldable pub keep_alive_of : Option Bytes → Bool
keep_alive_of none = true
keep_alive_of (some connection_val) = not (strcasecmp_eq connection_val (codes "close"))

log_body : System → Bytes → List Action
log_body sys body_data = if sys.opens_log then writes_log (body_data ++ b'\n' ∷ []) ∷ [] else []

-- The POST branch, with the Content-Length header.
post_with : System → HttpRequest → Fields → Bytes → Bool → Option Bytes → Outcome (List Action)
post_with sys req f uri keep_alive none = refuse f 411
post_with sys req f uri keep_alive (some _) = do
  body_data ← field req.body (codes "data")
  buffers ← send_created uri keep_alive
  ok (
      makes_public
      ∷ (log_body sys (or_empty body_data) ++ (map sends buffers ++ logged f 201 ∷ [])))

post : System → HttpRequest → Fields → Bytes → Bool → Outcome (List Action)
post sys req f uri keep_alive = do
  cl_str ← field req.header_fields (codes "content-length")
  post_with sys req f uri keep_alive cl_str

-- `char local_path[512]`
abbrev pub path_size : ℕ
path_size = 512

abbrev pub room : Bytes → ℕ
room path = path_size - length path - 1

abbrev ends_in_slash : Bytes → Bool
ends_in_slash [] = false
ends_in_slash (c ∷ []) = c == b'/'
ends_in_slash (c ∷ d ∷ s) = ends_in_slash (d ∷ s)

add_slash : Bytes → Bytes
add_slash path = if ends_in_slash path then path else strncat path (b'/' ∷ []) (room path)

-- The second `stat`; `none` is the 404.
regular : Bytes → Option FileStat → Option (Bytes × ℕ)
regular path none = none
regular path (some st) = if st.is_dir then none else some (path, st.st_size)

index_path : Bytes → Bytes
unfolding add_slash
index_path path = strncat (add_slash path) (codes "index.html") (room (add_slash path))

html_path : Bytes → Bytes
html_path path = strncat path (codes ".html") (room path)

resolve_stat : System → Bytes → Option FileStat → Option (Bytes × ℕ)
unfolding regular index_path html_path
resolve_stat sys path none = regular (html_path path) (sys.stat (html_path path))
resolve_stat sys path (some st) =
    if st.is_dir
    then regular (index_path path) (sys.stat (index_path path))
    else some (path, st.st_size)

pub local_path : Bytes → Bytes
local_path uri = snprintf path_size (codes "public" ++ uri)

-- The file that a URI names, with its size.
pub resolve : System → Bytes → Option (Bytes × ℕ)
unfolding resolve_stat
resolve sys path = resolve_stat sys path (sys.stat path)

-- `int cl`, given a size of 64 bits
unfoldable pub int_of : ℕ → ℤ
int_of n =
    let low = n % 4294967296 in if ltb low 2147483648 then pos low else negsuc (4294967295 - low)

-- `if (strcmp(method, "GET") == 0) send_file(…)`, with the `int` that the size becomes: when it is 0
-- or less, `send_file` reads an `n` that was never set.
pub body_of : Bool → Bytes → ℤ → Outcome (List Action)
body_of false path len = ok []
body_of true path (pos zero) = fault
body_of true path (pos (suc n)) = ok (sends_file path (suc n) ∷ [])
body_of true path (negsuc _) = fault

pub send_found : Fields → Bool → Bool → Bytes → ℕ → Outcome (List Action)
send_found f get keep_alive path size = do
  head ←
      send_response_head (codes "200") (codes "OK") (get_mime_type path) (int_of size) none
        keep_alive
  body ← body_of get path (int_of size)
  ok (sends head ∷ (body ++ logged f 200 ∷ []))

serve_found : System → Fields → Bool → Bool → Option (Bytes × ℕ) → Outcome (List Action)
serve_found sys f get keep_alive none = refuse f 404
serve_found sys f get keep_alive (some (path, size)) =
    if sys.opens path then send_found f get keep_alive path size else refuse f 403

pub serve : System → Fields → Bytes → Bool → Bool → Outcome (List Action)
serve sys f uri get keep_alive = serve_found sys f get keep_alive (resolve sys (local_path uri))

by_method : System → HttpRequest → Fields → Bytes → Bytes → Bool → Outcome (List Action)
by_method sys req f method uri keep_alive =
    if bytes_eq method (codes "POST")
    then post sys req f uri keep_alive
    else if bytes_eq method (codes "GET")
    then serve sys f uri true keep_alive
    else if bytes_eq method (codes "HEAD")
    then serve sys f uri false keep_alive
    else refuse f 405

abbrev is_found : {A : Type 0} → Option A → Bool
is_found none = false
is_found (some _) = true

pub has_dot_dot_slash : Bytes → Bool
has_dot_dot_slash uri = is_found (strstr uri (codes "../"))

-- The checks of the version and of the path, then the method.
pub checked : System → HttpRequest → Fields → Bytes → Bytes → Bytes → Outcome (List Action)
checked sys req f method uri version =
    if not (bytes_eq version (codes "HTTP/1.1"))
    then refuse f 505
    else if has_dot_dot_slash uri
    then refuse f 403
    else field req.header_fields (codes "connection") >>= λ connection_val.
        by_method sys req f method uri (keep_alive_of connection_val)

with_fields_read :
    System
    → HttpRequest
    → Fields
    → Option Bytes
    → Option Bytes
    → Option Bytes
    → Outcome (List Action)
with_fields_read sys req f (some method) (some uri) (some version) =
    checked sys req f method uri version
with_fields_read sys req f _ _ _ = refuse f 400

pub handle_filesystem_request : System → HttpRequest → Outcome (List Action)
handle_filesystem_request sys req = do
  method ← field req.request_line (codes "method")
  uri ← field req.request_line (codes "uri")
  version ← field req.request_line (codes "http_version")
  host ← field req.header_fields (codes "host")
  with_fields_read sys req
      (record {
        client_ip = get_client_ip sys;
        method = method;
        uri = uri;
        version = version;
        host = host;
      })
      method uri version
