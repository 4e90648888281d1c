-- ===== src/Handler/Empty.antt =====
-- A GET of a file whose size is no positive `int`: handler/http_handler.c:236 and send_file.
use let_us_connect_http_serv.Base.{
  Bool, Bytes, [], arith, codes, false, fault, negsuc, none, ok, pos, refl, some, suc, true, zero,
  ℕ, ℤ, ◌∷◌, ◌≡◌,
}
use let_us_connect_http_serv.Dictionary.Laws.{contents, search_dict_lem}
use let_us_connect_http_serv.Parser.{HttpRequest}
use let_us_connect_http_serv.Response.Head.{send_response_head-fits}
use let_us_connect_http_serv.Handler.{
  Fields, System, body_of, by_method, checked, get_mime_type, handle_filesystem_request,
  has_dot_dot_slash, int_of, keep_alive_of, local_path, logged, resolve, send_found, sends, serve,
  serve_found,
}
use let_us_connect_http_serv.Handler.Found.{length-decimal-int_of, length-mime, ok_head}
use let_us_connect_http_serv.Handler.Traversal.{
  IsRequest, handle_filesystem_request-checked, read_fields,
}

-- A number of bytes for which `send_file` sends nothing, so that it never sets its `n`.
abbrev pub SendsNothing : ℤ → Type 0
SendsNothing (pos zero) = Unit
SendsNothing (pos (suc _)) = ⊥
SendsNothing (negsuc _) = Unit

body_of-faults : (path : Bytes) (len : ℤ) → SendsNothing len → body_of true path len ≡ fault
unfolding body_of
body_of-faults path (pos zero) h = refl
body_of-faults path (pos (suc _)) h = absurd h
body_of-faults path (negsuc _) h = refl

send_found-faults :
    (f : Fields) (ka : Bool) (path : Bytes) (size : ℕ)
    → SendsNothing (int_of size)
    → send_found f true ka path size ≡ fault
unfolding send_found
send_found-faults f ka path size h =
    rw
      (
        send_response_head-fits (codes "200") (codes "OK") (get_mime_type path) (int_of size) none
            ka (omega (arith, length-mime path, length-decimal-int_of size)),
        body_of-faults path (int_of size) h,
      )
      refl

send_found-headed :
    (f : Fields) (ka : Bool) (path : Bytes) (size : ℕ)
    → send_found f false ka path size ≡ ok (sends (ok_head path size ka) ∷ logged f 200 ∷ [])
unfolding send_found body_of
send_found-headed f ka path size =
    rw
      (send_response_head-fits (codes "200") (codes "OK") (get_mime_type path) (int_of size) none ka
        (omega (arith, length-mime path, length-decimal-int_of size)))
      refl

-- A GET of version 1.1 whose URI passes the guard and names a file that opens, of 0 bytes or of a
-- size whose `int` is negative, reads a variable that was never set; the HEAD of the same URI
-- sends the head with status 200 and is logged with it.
pub empty_file_faults :
    (sys : System) (get head : HttpRequest) (uri path : Bytes) (size : ℕ)
    → IsRequest get (codes "GET") uri
    → IsRequest head (codes "HEAD") uri
    → has_dot_dot_slash uri ≡ false
    → resolve sys (local_path uri) ≡ some (path, size)
    → sys.opens path ≡ true
    → SendsNothing (int_of size)
    → (handle_filesystem_request sys get ≡ fault)
      × (handle_filesystem_request sys head
          ≡ ok (
              sends (
                ok_head path size
                  (keep_alive_of (contents head.header_fields (codes "connection"))))
              ∷ logged (read_fields sys head) 200
              ∷ []))
unfolding checked by_method serve serve_found
empty_file_faults sys get head uri path size is_get is_head guard found opens nothing = (
  rw
      (
        handle_filesystem_request-checked sys get (codes "GET") uri is_get,
        guard,
        search_dict_lem get.header_fields (codes "connection"),
        found,
        opens,
      )
      (send_found-faults (read_fields sys get) _ path size nothing),
  rw
      (
        handle_filesystem_request-checked sys head (codes "HEAD") uri is_head,
        guard,
        search_dict_lem head.header_fields (codes "connection"),
        found,
        opens,
      )
      (send_found-headed (read_fields sys head) _ path size),
)
