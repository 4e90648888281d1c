-- ===== src/Handler/Traversal.antt =====
-- Which URIs the path guard stops, and which it lets through.
use mathlib.Core.Option
use let_us_connect_http_serv.Base.{
  Bool, Bytes, Option, [], ap, append_assoc, arith, codes, false, if◌then◌else◌, length,
  length-append, none, ok, refl, some, take_all, true, ◌++◌, ◌+◌, ◌<◌, ◌∙◌, ◌∷◌, ◌≡◌,
}
use let_us_connect_http_serv.CString.Search.{is_prefix, split_at_first, strstr}
use let_us_connect_http_serv.CString.Format.{strncat}
use let_us_connect_http_serv.Dictionary.Laws.{contents, search_dict_lem}
use let_us_connect_http_serv.Parser.{HttpRequest}
use let_us_connect_http_serv.Response.{error_body}
use let_us_connect_http_serv.Response.Error.{error_head}
use let_us_connect_http_serv.Handler.{
  Fields, FileStat, System, add_slash, by_method, checked, ends_in_slash, get_client_ip,
  handle_filesystem_request, has_dot_dot_slash, index_path, is_found, keep_alive_of, local_path,
  logged, path_size, regular, resolve, resolve_stat, room, sends, sends_file, serve, serve_found,
  with_fields_read,
}
use let_us_connect_http_serv.Handler.Reply.{refuse_lem}
use let_us_connect_http_serv.Handler.Found.{ok_head, send_found_lem}

-- A request with a method, a URI and the version 1.1.
pub record IsRequest (req : HttpRequest) (method uri : Bytes) : Type 0 where
  pub has_method : contents req.request_line (codes "method") ≡ some method
  pub has_uri : contents req.request_line (codes "uri") ≡ some uri
  pub has_version : contents req.request_line (codes "http_version") ≡ some (codes "HTTP/1.1")

abbrev pub read_fields : System → HttpRequest → Fields
read_fields sys req = record {
  client_ip = get_client_ip sys;
  method = contents req.request_line (codes "method");
  uri = contents req.request_line (codes "uri");
  version = contents req.request_line (codes "http_version");
  host = contents req.header_fields (codes "host");
}

-- The handler on a request of version 1.1, up to the path guard.
pub handle_filesystem_request-checked :
    (sys : System) (req : HttpRequest) (method uri : Bytes)
    → IsRequest req method uri
    → handle_filesystem_request sys req
      ≡ checked sys req (read_fields sys req) method uri (codes "HTTP/1.1")
unfolding handle_filesystem_request with_fields_read
handle_filesystem_request-checked sys req method uri is =
    rw
      (
        search_dict_lem req.request_line (codes "method"),
        search_dict_lem req.request_line (codes "uri"),
        search_dict_lem req.request_line (codes "http_version"),
        search_dict_lem req.header_fields (codes "host"),
        is.has_method,
        is.has_uri,
        is.has_version,
      )
      refl

is_found-map :
    {A : Type 0} {B : Type 0} (f : A → B) (m : Option A) → is_found (Option.map f m) ≡ is_found m
is_found-map f none = refl
is_found-map f (some _) = refl

if_found :
    {A : Type 0} (b : Bool) (p : A) (later : Option A)
    → is_found later ≡ true
    → is_found (if b then some p else later) ≡ true
if_found true p later h = refl
if_found false p later h = h

split_at_first-found :
    (here : Bytes → Bool) (before s : Bytes)
    → here s ≡ true
    → is_found (split_at_first here (before ++ s)) ≡ true
unfolding split_at_first
split_at_first-found here [] [] h = rw h refl
split_at_first-found here [] (c ∷ s) h = rw h refl
split_at_first-found here (c ∷ before) s h =
    if_found (here (c ∷ before ++ s)) _ _ (
      rw (is_found-map _ (split_at_first here (before ++ s)))
        (split_at_first-found here before s h))

has_dot_dot_slash-append :
    (before after : Bytes) → has_dot_dot_slash (before ++ (codes "../" ++ after)) ≡ true
unfolding has_dot_dot_slash strstr is_prefix
has_dot_dot_slash-append before after =
    split_at_first-found (is_prefix (codes "../")) before (codes "../" ++ after) refl

-- A request of version 1.1 whose URI has `../` in it, wherever that is, is answered by the 403
-- whatever its method, and no file is touched.
pub handle_filesystem_request-guard :
    (sys : System) (req : HttpRequest) (method before after : Bytes)
    → IsRequest req method (before ++ (codes "../" ++ after))
    → handle_filesystem_request sys req
      ≡ ok (sends (error_head 403) ∷ sends (error_body 403) ∷ logged (read_fields sys req) 403 ∷ [])
unfolding checked
handle_filesystem_request-guard sys req method before after is =
    rw
      (
        handle_filesystem_request-checked sys req method (before ++ (codes "../" ++ after)) is,
        has_dot_dot_slash-append before after,
      )
      (refuse_lem (read_fields sys req) 403 (omega arith))

abbrev pub up : Bytes → Bytes
up before = codes "public" ++ before ++ codes "/.."

local_path-up :
    (before : Bytes) → length before < 480 → local_path (before ++ codes "/..") ≡ up before
unfolding local_path
local_path-up before h = take_all 511 (up before) (simp length-append (omega arith))

ends_in_slash-append : (s : Bytes) → ends_in_slash (s ++ codes "/..") ≡ false
ends_in_slash-append [] = refl
ends_in_slash-append (c ∷ []) = refl
ends_in_slash-append (c ∷ d ∷ s) = ends_in_slash-append (d ∷ s)

strncat_fits :
    (path s : Bytes) → length path + length s < path_size → strncat path s (room path) ≡ path ++ s
strncat_fits path s h = ap (◌++◌ path) (take_all (room path) s (omega arith))

length-up : (before : Bytes) → length before < 480 → length (up before) < 489
length-up before h = simp length-append (omega arith)

add_slash-up :
    (before : Bytes) → length before < 480 → add_slash (up before) ≡ up before ++ codes "/"
unfolding add_slash
add_slash-up before h =
    rw (ends_in_slash-append (codes "public" ++ before))
      (strncat_fits (up before) (codes "/") (omega (arith, length-up before h)))

index_path-up :
    (before : Bytes)
    → length before < 480
    → index_path (up before) ≡ up before ++ codes "/index.html"
unfolding index_path
index_path-up before h = rw (add_slash-up before h) (
    strncat_fits (up before ++ codes "/") (codes "index.html")
      (omega (arith, length-up before h, length-append (up before) (codes "/")))
    ∙ append_assoc (up before) (codes "/") (codes "index.html"))

resolve-up :
    (sys : System) (before : Bytes) (here page : FileStat)
    → length before < 480
    → sys.stat (up before) ≡ some here
    → here.is_dir ≡ true
    → sys.stat (up before ++ codes "/index.html") ≡ some page
    → page.is_dir ≡ false
    → resolve sys (local_path (before ++ codes "/.."))
      ≡ some (up before ++ codes "/index.html", page.st_size)
unfolding resolve resolve_stat regular
resolve-up sys before here page h found dir index file =
    rw (local_path-up before h, found, dir, index_path-up before h, index, file) refl

-- What a GET of a URI that ends in `/..` does, when the rest of it passes the guard, is short, and
-- names a directory whose parent has a readable index.html of 1 to 2 ^ 31 - 1 bytes: the guard lets it through, and the
-- file sent is that of the parent, out of the directory that is asked for (for `/..`, out of
-- `public`).
pub dot_dot_served :
    (sys : System) (req : HttpRequest) (before : Bytes) (here page : FileStat)
    → IsRequest req (codes "GET") (before ++ codes "/..")
    → has_dot_dot_slash (before ++ codes "/..") ≡ false
    → length before < 480
    → sys.stat (up before) ≡ some here
    → here.is_dir ≡ true
    → sys.stat (up before ++ codes "/index.html") ≡ some page
    → page.is_dir ≡ false
    → 0 < page.st_size
    → page.st_size < 2147483648
    → sys.opens (up before ++ codes "/index.html") ≡ true
    → handle_filesystem_request sys req
      ≡ ok (
          sends (
            ok_head
              (up before ++ codes "/index.html")
              page.st_size
              (keep_alive_of (contents req.header_fields (codes "connection"))))
          ∷ sends_file (up before ++ codes "/index.html") page.st_size
          ∷ logged (read_fields sys req) 200
          ∷ [])
unfolding checked by_method serve serve_found
dot_dot_served sys req before here page is guard h found dir index file some_byte small readable =
    rw
      (
        handle_filesystem_request-checked sys req (codes "GET") (before ++ codes "/..") is,
        guard,
        search_dict_lem req.header_fields (codes "connection"),
        resolve-up sys before here page h found dir index file,
        readable,
      )
      (send_found_lem (read_fields sys req) true
        (keep_alive_of (contents req.header_fields (codes "connection")))
        (up before ++ codes "/index.html") page.st_size some_byte small)
