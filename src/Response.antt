-- ===== src/Response.antt =====
-- The responses of webserver_project/src/network/network.c: send_response_head, send_error,
-- send_not_modified and send_created, as the buffers that they hand to send_all.
pub mod Head
pub mod Error
pub mod Created
pub mod Tests
use mathlib.Core.Option
use let_us_connect_http_serv.Base.{
  Bool, Bytes, List, Option, Outcome, [], codes, crlf, false, fault, if◌then◌else◌, length, ltb, ok,
  or_empty, pos, some, ℕ, ℤ, ◌++◌, ◌==◌, ◌∷◌, ◌>>=◌,
}
use let_us_connect_http_serv.CString.Format.{decimal, snprintf}

-- The text of the head. `extra` is NULL or whole header lines.
unfoldable pub head_text : Bytes → Bytes → Bytes → ℤ → Option Bytes → Bool → Bytes
head_text status text ct cl extra ka =
    codes "HTTP/1.1 "
    ++ (status
        ++ (b' '
            ∷ (text
                ++ (crlf
                    ++ (codes "Server: Let-us-Connect/1.0"
                        ++ (crlf
                            ++ (codes "Content-Type: "
                                ++ (ct
                                    ++ (crlf
                                        ++ (codes "Content-Length: "
                                            ++ (decimal cl
                                                ++ (crlf
                                                    ++ (codes "Connection: "
                                                        ++ ((if ka
                                                            then codes "keep-alive"
                                                            else codes "close")
                                                            ++ (crlf
                                                            ++ (or_empty extra
                                                            ++ crlf))))))))))))))))

-- What send_all is given: the buffer of 1024 bytes and the length that snprintf returned, which is
-- that of the whole text. A length beyond the buffer is read out of bounds.
unfoldable pub send_response_head : Bytes → Bytes → Bytes → ℤ → Option Bytes → Bool → Outcome Bytes
send_response_head status text ct cl extra ka =
    let whole = head_text status text ct cl extra ka in
    let len = length whole in
    if ltb len 1024
    then ok whole
    else if len == 1024
    then ok (snprintf 1024 whole ++ 0 ∷ [])
    else fault

-- `switch (code)`
unfoldable pub reason : ℕ → Bytes
reason code =
    if code == 404
    then codes "Not Found"
    else if code == 400
    then codes "Bad Request"
    else if code == 403
    then codes "Forbidden"
    else if code == 405
    then codes "Method Not Allowed"
    else if code == 411
    then codes "Length Required"
    else if code == 501
    then codes "Not Implemented"
    else if code == 505
    then codes "HTTP/1.1 505 HTTP Version Not Supported"
    else codes "Internal Server Error"

unfoldable pub error_body : ℕ → Bytes
error_body code =
    codes "<html><body><h1>"
    ++ (decimal (pos code)
        ++ (b' ' ∷ (reason code ++ codes "</h1><p>Let-us-Connect Server</p></body></html>")))

-- The two buffers: the head, and the body with the length that snprintf returned.
unfoldable pub send_error : ℕ → Outcome (List Bytes)
send_error code = do
  let body = error_body code
  let body_len = length body
  head ←
      send_response_head (decimal (pos code)) (reason code) (codes "text/html") (pos body_len)
        (some []) false
  ok (head ∷ snprintf 512 body ∷ [])

unfoldable pub extra_line : Bytes → Bytes → Bytes
extra_line name value = snprintf 256 (name ++ (value ++ crlf))

unfoldable pub send_not_modified : Bytes → Bool → Outcome (List Bytes)
send_not_modified last_modified ka = do
  head ←
      send_response_head (codes "304") (codes "Not Modified") (codes "text/plain") (pos 0)
        (some (extra_line (codes "Last-Modified: ") last_modified)) ka
  ok (head ∷ [])

abbrev pub created_body : Bytes
created_body = codes "Resource successfully created.\n"

unfoldable pub send_created : Bytes → Bool → Outcome (List Bytes)
send_created location ka = do
  head ←
      send_response_head (codes "201") (codes "Created") (codes "text/plain")
        (pos (length created_body)) (some (extra_line (codes "Location: ") location)) ka
  ok (head ∷ created_body ∷ [])
