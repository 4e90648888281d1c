-- ===== src/Handler/Tests.antt =====
-- The handler on a small site, with a page in `public` and one in its parent.
use let_us_connect_http_serv.Base.{
  Bytes, Option, [], arith, bytes_eq, codes, false, fault, if◌then◌else◌, length, none, ok, refl,
  some, true, ◌<◌, ◌>>=◌, ◌∷◌, ◌≡◌,
}
use let_us_connect_http_serv.CString.Search.{is_prefix, strstr}
use let_us_connect_http_serv.Dictionary.{dictionary_constructor}
use let_us_connect_http_serv.Dictionary.Laws.{contents}
use let_us_connect_http_serv.Dictionary.History.{after, contents-dictionary_of, lookup}
use let_us_connect_http_serv.Parser.{HttpRequest}
use let_us_connect_http_serv.Parser.Fields.{Pairs}
use let_us_connect_http_serv.Response.{error_body}
use let_us_connect_http_serv.Response.Error.{error_head}
use let_us_connect_http_serv.Handler.{
  FileStat, System, handle_filesystem_request, has_dot_dot_slash, html_path, int_of, keep_alive_of,
  local_path, logged, path_size, regular, resolve, resolve_stat, sends, sends_file,
}
use let_us_connect_http_serv.Handler.Reply.{Answered}
use let_us_connect_http_serv.Handler.Found.{HasSizes, ok_head}
use let_us_connect_http_serv.Handler.Answers.{handle_filesystem_request-Answered}
use let_us_connect_http_serv.Handler.Path.{resolve-Stays}
use let_us_connect_http_serv.Handler.Traversal.{
  IsRequest, dot_dot_served, handle_filesystem_request-guard, read_fields,
}
use let_us_connect_http_serv.Handler.Head.{as_head, handle_filesystem_request-as_head}
use let_us_connect_http_serv.Handler.Empty.{empty_file_faults}

abbrev site_stat : Bytes → Option FileStat
site_stat path =
    if bytes_eq path (codes "public/..")
    then some (record { is_dir = true; st_size = 0 })
    else if bytes_eq path (codes "public/../index.html")
    then some (record { is_dir = false; st_size = 70 })
    else if bytes_eq path (codes "public/a.html")
    then some (record { is_dir = false; st_size = 12 })
    else none

abbrev site : System
site = record {
  stat = site_stat;
  opens = λ _. true;
  opens_log = true;
  peer = some (codes "10.0.0.1");
}

site-HasSizes : HasSizes site
site-HasSizes path st found file = grind arith

abbrev line_of : Bytes → Bytes → Pairs
line_of method uri =
    (codes "method", method) ∷ (codes "uri", uri) ∷ (codes "http_version", codes "HTTP/1.1") ∷ []

abbrev request : Bytes → Bytes → HttpRequest
request method uri = record {
  request_line = after (line_of method uri) dictionary_constructor;
  header_fields = dictionary_constructor;
  body = dictionary_constructor;
}

request-IsRequest : (method uri : Bytes) → IsRequest (request method uri) method uri
unfolding lookup
request-IsRequest method uri = record {
  has_method = contents-dictionary_of (line_of method uri) (codes "method");
  has_uri = contents-dictionary_of (line_of method uri) (codes "uri");
  has_version = contents-dictionary_of (line_of method uri) (codes "http_version");
}

handle_filesystem_request-Answered_example :
    Answered (handle_filesystem_request site (request (codes "GET") (codes "/a")))
handle_filesystem_request-Answered_example =
    handle_filesystem_request-Answered site site-HasSizes (request (codes "GET") (codes "/a"))

resolve-Stays_example :
    (length (codes "public/a.html") < path_size)
    × (is_prefix (codes "public") (codes "public/a.html") ≡ true)
unfolding resolve resolve_stat html_path regular local_path
resolve-Stays_example = resolve-Stays site (codes "/a") (codes "public/a.html") 12 refl

handle_filesystem_request-guard_example :
    handle_filesystem_request site (request (codes "POST") (codes "/b/../a"))
    ≡ ok (
        sends (error_head 403)
        ∷ sends (error_body 403)
        ∷ logged (read_fields site (request (codes "POST") (codes "/b/../a"))) 403
        ∷ [])
handle_filesystem_request-guard_example =
    handle_filesystem_request-guard site (request (codes "POST") (codes "/b/../a")) (codes "POST")
      (codes "/b/") (codes "a") (request-IsRequest (codes "POST") (codes "/b/../a"))

handle_filesystem_request-as_head_example :
    handle_filesystem_request site (request (codes "HEAD") (codes "/a")) ≡ (
      handle_filesystem_request site (request (codes "GET") (codes "/a")) >>= λ actions.
      ok (as_head actions))
handle_filesystem_request-as_head_example =
    handle_filesystem_request-as_head site (request (codes "GET") (codes "/a"))
      (request (codes "HEAD") (codes "/a")) (codes "/a") site-HasSizes
      (request-IsRequest (codes "GET") (codes "/a")) (request-IsRequest (codes "HEAD") (codes "/a"))
      refl

abbrev up_request : HttpRequest
up_request = request (codes "GET") (codes "/..")

dot_dot_served_example :
    handle_filesystem_request site up_request
    ≡ ok (
        sends (
          ok_head
            (codes "public/../index.html")
            70
            (keep_alive_of (contents up_request.header_fields (codes "connection"))))
        ∷ sends_file (codes "public/../index.html") 70
        ∷ logged (read_fields site up_request) 200
        ∷ [])
unfolding has_dot_dot_slash strstr is_prefix
dot_dot_served_example =
    dot_dot_served site up_request [] (record { is_dir = true; st_size = 0 })
      (record { is_dir = false; st_size = 70 }) (request-IsRequest (codes "GET") (codes "/..")) refl
      (omega arith) refl refl refl refl (omega arith) (omega arith) refl

-- The site with an empty page.
abbrev empty_site : System
empty_site = record site { stat = λ _. some (record { is_dir = false; st_size = 0 }) }

empty_file_faults_example :
    (handle_filesystem_request empty_site (request (codes "GET") (codes "/a")) ≡ fault)
    × (handle_filesystem_request empty_site (request (codes "HEAD") (codes "/a"))
        ≡ ok (
            sends (
              ok_head (codes "public/a") 0 (
                keep_alive_of (
                  contents
                    (request (codes "HEAD") (codes "/a")).header_fields
                    (codes "connection"))))
            ∷ logged (read_fields empty_site (request (codes "HEAD") (codes "/a"))) 200
            ∷ []))
unfolding has_dot_dot_slash strstr is_prefix resolve resolve_stat local_path int_of
empty_file_faults_example =
    empty_file_faults empty_site (request (codes "GET") (codes "/a"))
      (request (codes "HEAD") (codes "/a")) (codes "/a") (codes "public/a") 0
      (request-IsRequest (codes "GET") (codes "/a")) (request-IsRequest (codes "HEAD") (codes "/a"))
      refl refl refl tt
