-- ===== src/Handler/Answers.antt =====
-- Every request is answered once, and the log has the status of the answer.
use let_us_connect_http_serv.Base.{
  Bool, Bytes, List, Option, [], arith, bytes_eq, codes, false, length, none, not, or_empty, pos,
  refl, some, true, ℕ, ◌++◌, ◌∷◌,
}
use let_us_connect_http_serv.CString.Search.{is_prefix}
use let_us_connect_http_serv.CString.Format.{decimal}
use let_us_connect_http_serv.Dictionary.Laws.{contents, search_dict_lem}
use let_us_connect_http_serv.Parser.{HttpRequest}
use let_us_connect_http_serv.Response.{created_body, extra_line}
use let_us_connect_http_serv.Response.Head.{head_text-status_start}
use let_us_connect_http_serv.Response.Created.{created_text, send_created_lem}
use let_us_connect_http_serv.Handler.{
  Action, Fields, System, by_method, checked, handle_filesystem_request, has_dot_dot_slash,
  local_path, log_body, logged, makes_public, post, post_with, refuse, resolve, send_found, sends,
  serve, serve_found, with_fields_read,
}
use let_us_connect_http_serv.Handler.Reply.{
  Answered, Answers, if_Answered, logged_codes, output, refuse-Answered,
}
use let_us_connect_http_serv.Handler.Found.{Fits, HasSizes, resolve-Fits, send_found-Answered}

abbrev created : Bytes → Bool → Bytes
created uri ka = created_text (extra_line (codes "Location: ") uri) ka

abbrev posted : Fields → Bytes → Bool → List Action
posted f uri ka = sends (created uri ka) ∷ sends created_body ∷ logged f 201 ∷ []

posted-Answers :
    (sys : System) (f : Fields) (uri : Bytes) (ka : Bool) (body : Bytes)
    → Answers 201 (makes_public ∷ (log_body sys body ++ posted f uri ka))
unfolding log_body output logged_codes logged is_prefix
posted-Answers sys f uri ka body = record {
  head = created uri ka;
  body = sends created_body ∷ [];
  sends_head = ground arith;
  one_body = omega arith;
  no_other_head = (refl, tt);
  has_status =
      unfold decimal in
      head_text-status_start (codes "201") (codes "Created") (codes "text/plain")
        (pos (length created_body)) (some (extra_line (codes "Location: ") uri)) ka;
  logs_once = ground arith;
}

post_with-Answered :
    (sys : System) (req : HttpRequest) (f : Fields) (uri : Bytes) (ka : Bool) (cl : Option Bytes)
    → Answered (post_with sys req f uri ka cl)
unfolding post_with
post_with-Answered sys req f uri ka none = refuse-Answered f 411 (omega arith)
post_with-Answered sys req f uri ka (some _) =
    let body = or_empty (contents req.body (codes "data")) in
    (
      makes_public ∷ (log_body sys body ++ posted f uri ka),
      201,
      rw (search_dict_lem req.body (codes "data"), send_created_lem uri ka),
      posted-Answers sys f uri ka body,
    )

post-Answered :
    (sys : System) (req : HttpRequest) (f : Fields) (uri : Bytes) (ka : Bool)
    → Answered (post sys req f uri ka)
unfolding post
post-Answered sys req f uri ka =
    rw (search_dict_lem req.header_fields (codes "content-length"))
      (post_with-Answered sys req f uri ka (contents req.header_fields (codes "content-length")))

module _ (sys : System) (sizes : HasSizes sys) where
  serve_found-Answered :
      (f : Fields) (get ka : Bool) (found : Option (Bytes × ℕ))
      → Fits found
      → Answered (serve_found sys f get ka found)
  unfolding serve_found
  serve_found-Answered f get ka none fits = refuse-Answered f 404 (omega arith)
  serve_found-Answered f get ka (some (path, size)) (some_byte, small) =
      if_Answered (sys.opens path) (send_found f get ka path size) (refuse f 403)
        (send_found-Answered f get ka path size some_byte small)
        (refuse-Answered f 403 (omega arith))

  serve-Answered : (f : Fields) (uri : Bytes) (get ka : Bool) → Answered (serve sys f uri get ka)
  unfolding serve
  serve-Answered f uri get ka =
      serve_found-Answered f get ka (resolve sys (local_path uri))
        (resolve-Fits sys sizes (local_path uri))

  by_method-Answered :
      (req : HttpRequest) (f : Fields) (method uri : Bytes) (ka : Bool)
      → Answered (by_method sys req f method uri ka)
  unfolding by_method
  by_method-Answered req f method uri ka =
      if_Answered (bytes_eq method (codes "POST")) _ _ (post-Answered sys req f uri ka) (
        if_Answered (bytes_eq method (codes "GET")) _ _ (serve-Answered f uri true ka) (
          if_Answered (bytes_eq method (codes "HEAD")) _ _ (serve-Answered f uri false ka)
            (refuse-Answered f 405 (omega arith))))

  checked-Answered :
      (req : HttpRequest) (f : Fields) (method uri version : Bytes)
      → Answered (checked sys req f method uri version)
  unfolding checked
  checked-Answered req f method uri version =
      if_Answered (not (bytes_eq version (codes "HTTP/1.1"))) _ _
        (refuse-Answered f 505 (omega arith))
        (if_Answered (has_dot_dot_slash uri) _ _ (refuse-Answered f 403 (omega arith)) (
          rw (search_dict_lem req.header_fields (codes "connection"))
            (by_method-Answered req f method uri _)))

  with_fields_read-Answered :
      (req : HttpRequest) (f : Fields) (method uri version : Option Bytes)
      → Answered (with_fields_read sys req f method uri version)
  unfolding with_fields_read
  with_fields_read-Answered req f (some method) (some uri) (some version) =
      checked-Answered req f method uri version
  with_fields_read-Answered req f _ _ _ = refuse-Answered f 400 (omega arith)

  -- When every file has at least one byte and fewer than 2 ^ 31, the handler runs without a fault
  -- whatever the request, and answers it once: what it sends is a head and at most one body that
  -- is no other head, and the status of the head is the one code that is logged, in the one log
  -- entry.
  pub handle_filesystem_request-Answered :
      (req : HttpRequest) → Answered (handle_filesystem_request sys req)
  unfolding handle_filesystem_request
  handle_filesystem_request-Answered req =
      rw
        (
          search_dict_lem req.request_line (codes "method"),
          search_dict_lem req.request_line (codes "uri"),
          search_dict_lem req.request_line (codes "http_version"),
          search_dict_lem req.header_fields (codes "host"),
        )
        (with_fields_read-Answered req _ _ _ _)
