-- ===== src/Response/Tests.antt =====
-- The responses at a status, and at a short and a long location.
use let_us_connect_http_serv.Base.{
  Bytes, [], ap, arith, codes, crlf, false, length, none, ok, pos, refl, some, suc, true, zero, ℕ,
  ◌++◌, ◌∷◌, ◌≡◌,
}
use let_us_connect_http_serv.CString.Token.{Free}
use let_us_connect_http_serv.CString.Format.{decimal}
use let_us_connect_http_serv.Parser.{cut_at, is_crlf}
use let_us_connect_http_serv.Parser.Print.{joined}
use let_us_connect_http_serv.Response.{created_body, error_body, reason, send_created, send_error}
use let_us_connect_http_serv.Response.Head.{head_lines}
use let_us_connect_http_serv.Response.Error.{send_error-framed}
use let_us_connect_http_serv.Response.Created.{
  created_lines, send_created-framed, send_created-unframed,
}

send_error-framed_example :
    let lines =
      head_lines
        (decimal (pos 404))
        (reason 404)
        (codes "text/html")
        (pos (length (error_body 404)))
        false in
    (head : Bytes) × (send_error 404 ≡ ok (head ∷ error_body 404 ∷ []))
    × (cut_at head (crlf ++ crlf) ≡ (joined lines.0 lines.1, some []))
send_error-framed_example = send_error-framed 404 (omega arith)

send_created-framed_example :
    (head : Bytes) × (send_created (codes "/a") true ≡ ok (head ∷ created_body ∷ []))
    × (cut_at head (crlf ++ crlf) ≡ (
      joined
          (created_lines true).0
          ((created_lines true).1 ++ (codes "Location: " ++ codes "/a") ∷ []),
      some [],
    ))
send_created-framed_example = send_created-framed (codes "/a") true (refl, (refl, tt)) (omega arith)

-- `n` times the letter a
abbrev letters : ℕ → Bytes
letters zero = []
letters (suc n) = b'a' ∷ letters n

letters-Free : (n : ℕ) → Free is_crlf (letters n)
letters-Free zero = tt
letters-Free (suc n) = (refl, letters-Free n)

length-letters : (n : ℕ) → length (letters n) ≡ n
length-letters zero = refl
length-letters (suc n) = ap suc (length-letters n)

send_created-unframed_example :
    (head : Bytes) × (send_created (letters 300) false ≡ ok (head ∷ created_body ∷ []))
    × ((cut_at head (crlf ++ crlf)).1 ≡ none)
send_created-unframed_example =
    send_created-unframed (letters 300) false (letters-Free 300)
      (rw (length-letters 300) (omega arith))
