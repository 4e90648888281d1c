-- ===== src/Handler/Head.antt =====
-- HEAD against GET.
use let_us_connect_http_serv.Base.{
  Bool, Bool-cases, Bytes, List, Option, Outcome, [], arith, codes, false, inl, inr, none, ok, refl,
  some, true, ℕ, ◌<◌, ◌>>=◌, ◌∷◌, ◌≡◌,
}
use let_us_connect_http_serv.Dictionary.Laws.{search_dict_lem}
use let_us_connect_http_serv.Parser.{HttpRequest}
use let_us_connect_http_serv.Handler.{
  Action, Fields, System, by_method, checked, handle_filesystem_request, has_dot_dot_slash,
  local_path, logged, logs_request, makes_public, refuse, resolve, send_found, sends, sends_file,
  serve, serve_found, writes_log,
}
use let_us_connect_http_serv.Handler.Reply.{refuse_lem}
use let_us_connect_http_serv.Handler.Found.{Fits, HasSizes, resolve-Fits, send_found_lem}
use let_us_connect_http_serv.Handler.Traversal.{
  IsRequest, handle_filesystem_request-checked, read_fields,
}

-- The fields of the same request by HEAD.
abbrev pub by_head : Fields → Fields
by_head f = record f { method = some (codes "HEAD") }

-- The same, by HEAD: no file is sent, and the method that is logged is HEAD.
pub as_head : List Action → List Action
as_head [] = []
as_head (sends_file _ _ ∷ rest) = as_head rest
as_head (sends buffer ∷ rest) = sends buffer ∷ as_head rest
as_head (makes_public ∷ rest) = makes_public ∷ as_head rest
as_head (writes_log body ∷ rest) = writes_log body ∷ as_head rest
as_head (logs_request ip method uri code host ∷ rest) =
    logs_request ip (some (codes "HEAD")) uri code host ∷ as_head rest

-- What a HEAD does, given what the GET does.
abbrev pub IsHeadOf : Outcome (List Action) → Outcome (List Action) → Type 0
IsHeadOf head get = head ≡ (get >>= λ actions. ok (as_head actions))

refuse-as_head :
    (f : Fields) (code : ℕ) → code < 1000 → IsHeadOf (refuse (by_head f) code) (refuse f code)
unfolding as_head logged
refuse-as_head f code h = rw (refuse_lem f code h, refuse_lem (by_head f) code h) refl

send_found-as_head :
    (f : Fields) (ka : Bool) (path : Bytes) (size : ℕ)
    → 0 < size
    → size < 2147483648
    → IsHeadOf (send_found (by_head f) false ka path size) (send_found f true ka path size)
unfolding as_head logged
send_found-as_head f ka path size some_byte small =
    rw
      (
        send_found_lem f true ka path size some_byte small,
        send_found_lem (by_head f) false ka path size some_byte small,
      )
      refl

serve_found-as_head :
    (sys : System) (f : Fields) (ka : Bool) (found : Option (Bytes × ℕ))
    → Fits found
    → IsHeadOf (serve_found sys (by_head f) false ka found) (serve_found sys f true ka found)
unfolding serve_found
serve_found-as_head sys f ka none fits = refuse-as_head f 404 (omega arith)
serve_found-as_head sys f ka (some (path, size)) (some_byte, small) =
    elim (Bool-cases (sys.opens path)) [
      | inl e ↦ rw e (send_found-as_head f ka path size some_byte small)
      | inr e ↦ rw e (refuse-as_head f 403 (omega arith))
    ]

-- From the path guard on, for the fields of the GET.
checked-as_head :
    (sys : System) (get head : HttpRequest) (f : Fields) (uri : Bytes)
    → HasSizes sys
    → head.header_fields ≡ get.header_fields
    → IsHeadOf
        (checked sys head (by_head f) (codes "HEAD") uri (codes "HTTP/1.1"))
        (checked sys get f (codes "GET") uri (codes "HTTP/1.1"))
unfolding checked by_method serve
checked-as_head sys get head f uri sizes same = elim (Bool-cases (has_dot_dot_slash uri)) [
  | inl inside ↦ rw inside (refuse-as_head f 403 (omega arith))
  | inr below ↦
      rw (below, same, search_dict_lem get.header_fields (codes "connection"))
        (serve_found-as_head sys f _ (resolve sys (local_path uri))
          (resolve-Fits sys sizes (local_path uri)))
]

read_fields-by_head :
    (sys : System) (get head : HttpRequest) (uri : Bytes)
    → IsRequest get (codes "GET") uri
    → IsRequest head (codes "HEAD") uri
    → head.header_fields ≡ get.header_fields
    → read_fields sys head ≡ by_head (read_fields sys get)
read_fields-by_head sys get head uri is_get is_head same =
    rw
      (
        is_head.has_method, is_head.has_uri, is_get.has_uri, is_head.has_version,
        is_get.has_version, same,
      )
      refl

-- When every file has at least one byte and fewer than 2 ^ 31: a HEAD of version 1.1 does what the
-- GET of the same URI with the same header fields does, for every URI and with the refusals
-- included, but that it sends no file and is logged as a HEAD.
pub handle_filesystem_request-as_head :
    (sys : System) (get head : HttpRequest) (uri : Bytes)
    → HasSizes sys
    → IsRequest get (codes "GET") uri
    → IsRequest head (codes "HEAD") uri
    → head.header_fields ≡ get.header_fields
    → handle_filesystem_request sys head
      ≡ (handle_filesystem_request sys get >>= λ actions. ok (as_head actions))
handle_filesystem_request-as_head sys get head uri sizes is_get is_head same =
    rw
      (
        handle_filesystem_request-checked sys get (codes "GET") uri is_get,
        handle_filesystem_request-checked sys head (codes "HEAD") uri is_head,
        read_fields-by_head sys get head uri is_get is_head same,
      )
      (checked-as_head sys get head (read_fields sys get) uri sizes same)
