-- ===== src/Response/Created.antt =====
-- `send_created` by the length of the location.
use let_us_connect_http_serv.Base.{
  All, All-append, All-take, Bool, Bytes, List, [], ap, arith, codes, crlf, false, length,
  length-append, length-take, none, ok, pos, refl, some, take, take-append_le, take_all, ◌++◌, ◌∷◌,
  ◌≡◌, ◌≤◌,
}
use let_us_connect_http_serv.CString.Token.{Free}
use let_us_connect_http_serv.CString.Format.{length-decimal-le}
use let_us_connect_http_serv.Parser.{cut_at, is_crlf}
use let_us_connect_http_serv.Parser.Print.{IsLine, cut_at-text, Free-of, joined, prefixed}
use let_us_connect_http_serv.Parser.Print.Blank.{cut_at-ended}
use let_us_connect_http_serv.Response.{
  created_body, extra_line, head_text, send_created, send_response_head,
}
use let_us_connect_http_serv.Response.Head.{
  head_lines, head_lines-IsLine, head_text-extra, head_text-open, send_response_head-fits,
}

abbrev pub created_lines : Bool → Bytes × List Bytes
created_lines ka =
    head_lines (codes "201") (codes "Created") (codes "text/plain") (pos (length created_body)) ka

created_lines-IsLine : (ka : Bool) → IsLine (created_lines ka).0 × All IsLine (created_lines ka).1
created_lines-IsLine ka =
    head_lines-IsLine (codes "201") (codes "Created") (codes "text/plain")
      (pos (length created_body)) ka (Free-of (codes "201") refl) (Free-of (codes "Created") refl)
      (Free-of (codes "text/plain") refl)

location_line : (s : Bytes) → Free is_crlf s → IsLine (codes "Location: " ++ s)
location_line s f = prefixed b'L' (codes "ocation: ") s refl f

short_extra :
    (location : Bytes)
    → length location ≤ 243
    → extra_line (codes "Location: ") location ≡ (codes "Location: " ++ location) ++ crlf
unfolding extra_line
short_extra location h =
    take_all 255 (codes "Location: " ++ (location ++ crlf))
      (omega (arith, length-append location crlf))

long_extra :
    (location : Bytes)
    → 245 ≤ length location
    → extra_line (codes "Location: ") location ≡ codes "Location: " ++ take 245 location
unfolding extra_line
long_extra location h = ap (λ s. codes "Location: " ++ s) (take-append_le 245 location crlf h)

abbrev pub created_text : Bytes → Bool → Bytes
created_text extra ka =
    head_text (codes "201") (codes "Created") (codes "text/plain") (pos (length created_body))
      (some extra) ka

length-extra : (name value : Bytes) → length (extra_line name value) ≤ 255
unfolding extra_line
length-extra name value = omega (arith, length-take 255 (name ++ (value ++ crlf)))

created_head :
    (extra : Bytes) (ka : Bool)
    → length extra ≤ 255
    → send_response_head
        (codes "201")
        (codes "Created")
        (codes "text/plain")
        (pos (length created_body))
        (some extra)
        ka
      ≡ ok (
          head_text
            (codes "201")
            (codes "Created")
            (codes "text/plain")
            (pos (length created_body))
            (some extra)
            ka)
created_head extra ka h =
    send_response_head-fits (codes "201") (codes "Created") (codes "text/plain")
      (pos (length created_body)) (some extra) ka
      (omega (arith, length-decimal-le 2 (length created_body) (omega arith)))

-- `send_created` reads no buffer out of bounds, whatever the location.
pub send_created_lem :
    (location : Bytes) (ka : Bool)
    → send_created location ka
      ≡ ok (created_text (extra_line (codes "Location: ") location) ka ∷ created_body ∷ [])
unfolding send_created
send_created_lem location ka = rw (
    created_head (extra_line (codes "Location: ") location) ka
      (length-extra (codes "Location: ") location))

-- Up to 243 bytes of location, with no CR and no LF, `send_created` sends a head that ends in its
-- one blank line and has the location as a line, and then the body.
pub send_created-framed :
    (location : Bytes) (ka : Bool)
    → Free is_crlf location
    → length location ≤ 243
    → (head : Bytes) × (send_created location ka ≡ ok (head ∷ created_body ∷ []))
      × (cut_at head (crlf ++ crlf) ≡ (
        joined (created_lines ka).0 ((created_lines ka).1 ++ (codes "Location: " ++ location) ∷ []),
        some [],
      ))
send_created-framed location ka f h =
    let extra = extra_line (codes "Location: ") location in
    let line = codes "Location: " ++ location in
    let e : extra ≡ line ++ crlf = short_extra location h in
    let lines = created_lines ka in
    let clean = created_lines-IsLine ka in
    (
      created_text extra ka,
      send_created_lem location ka,
      rw
          (
            e,
            head_text-extra (codes "201") (codes "Created") (codes "text/plain") line
                (pos (length created_body)) ka,
          )
          (cut_at-text lines.0 (lines.1 ++ line ∷ []) [] clean.0
            (All-append IsLine lines.1 (line ∷ []) clean.1 (location_line location f, tt))),
    )

-- From 245 bytes of location on, the 256 bytes for the extra header cut off its line end: the head
-- that is sent has no blank line, and the body runs on in it.
pub send_created-unframed :
    (location : Bytes) (ka : Bool)
    → Free is_crlf location
    → 245 ≤ length location
    → (head : Bytes) × (send_created location ka ≡ ok (head ∷ created_body ∷ []))
      × ((cut_at head (crlf ++ crlf)).1 ≡ none)
send_created-unframed location ka f h =
    let extra = extra_line (codes "Location: ") location in
    let line = codes "Location: " ++ take 245 location in
    let e : extra ≡ line = long_extra location h in
    let lines = created_lines ka in
    let clean = created_lines-IsLine ka in
    let f' = All-take (λ c. is_crlf c ≡ false) 245 location f in
    (
      created_text extra ka,
      send_created_lem location ka,
      rw
          (
            e,
            head_text-open (codes "201") (codes "Created") (codes "text/plain") line
                (pos (length created_body)) ka,
          )
          (cut_at-ended lines.0 (lines.1 ++ line ∷ []) clean.0 (
            All-append IsLine lines.1 (line ∷ []) clean.1
              (location_line (take 245 location) f', tt))),
    )
