-- ===== src/Response/Error.antt =====
-- `send_error` for every status code of three digits at most.
use let_us_connect_http_serv.Base.{
  Bytes, [], arith, codes, crlf, false, length, length-append, ok, pos, refl, some, take_all, true,
  ℕ, ◌++◌, ◌+◌, ◌<◌, ◌∷◌, ◌≡◌, ◌≤◌,
}
use let_us_connect_http_serv.CString.Format.{decimal, length-decimal-le}
use let_us_connect_http_serv.Parser.{cut_at}
use let_us_connect_http_serv.Parser.Print.{cut_at-text, Free-of, joined, no_crlf}
use let_us_connect_http_serv.Response.{error_body, head_text, reason, send_error}
use let_us_connect_http_serv.Response.Head.{
  decimal-clean, head_lines, head_lines-IsLine, head_text-text, send_response_head-fits,
}

-- The reasons are short, and hold no CR and no LF.
reason_fits : (code : ℕ) → (length (reason code) ≤ 39) × (no_crlf (reason code) ≡ true)
unfolding reason
reason_fits code = ground arith

length-error_body :
    (code : ℕ) → length (error_body code) ≡ length (decimal (pos code)) + length (reason code) + 64
unfolding error_body
length-error_body code = simp length-append (omega arith)

abbrev pub error_head : ℕ → Bytes
error_head code =
    head_text (decimal (pos code)) (reason code) (codes "text/html")
      (pos (length (error_body code))) (some []) false

error_sizes :
    (code : ℕ)
    → code < 1000
    → (length (error_body code) ≤ 106)
      × (length (decimal (pos code)) ≤ 3)
      × (length (decimal (pos (length (error_body code)))) ≤ 3)
error_sizes code h =
    let small = length-decimal-le 2 code h in
    let size = length-error_body code in
    let long : length (error_body code) ≤ 106 = omega (arith, small, size, (reason_fits code).0) in
    (long, small, length-decimal-le 2 (length (error_body code)) (omega (arith, long)))

pub send_error_lem :
    (code : ℕ) → code < 1000 → send_error code ≡ ok (error_head code ∷ error_body code ∷ [])
unfolding send_error
send_error_lem code h =
    let sizes = error_sizes code h in
    rw (
      send_response_head-fits (decimal (pos code)) (reason code) (codes "text/html")
          (pos (length (error_body code))) (some []) false
          (omega (arith, sizes, (reason_fits code).0)),
      take_all 511 (error_body code) (omega (arith, sizes)),
    )

-- For every code below 1000, `send_error` reads no buffer out of bounds and sends a head and a
-- body: the head is cut at its blank line with nothing behind it, its Content-Length is the length
-- of the body, and the body is sent whole.
pub send_error-framed :
    (code : ℕ)
    → code < 1000
    → let lines =
        head_lines
          (decimal (pos code))
          (reason code)
          (codes "text/html")
          (pos (length (error_body code)))
          false in
      (head : Bytes) × (send_error code ≡ ok (head ∷ error_body code ∷ []))
      × (cut_at head (crlf ++ crlf) ≡ (joined lines.0 lines.1, some []))
send_error-framed code h =
    let status = decimal (pos code) in
    let why = reason code in
    let html = codes "text/html" in
    let cl = pos (length (error_body code)) in
    let lines = head_lines status why html cl false in
    let clean =
      head_lines-IsLine status why html cl false (decimal-clean (pos code))
        (Free-of why (reason_fits code).1) (Free-of html refl) in
    (
      error_head code,
      send_error_lem code h,
      rw (head_text-text status why html cl false) (cut_at-text lines.0 lines.1 [] clean.0 clean.1),
    )
