-- ===== src/Response/Head.antt =====
-- A head is its lines and a blank line, and nothing follows the blank line.
use let_us_connect_http_serv.Base.{
  ==_refl, All, All-append, Bool, Bytes, List, Option, [], append_assoc, arith, bytes_eq, codes,
  crlf, false, if◌then◌else◌, length, length-append, ltb, lt→ltb, not, ok, or_empty, refl, some,
  true, ℕ, ℤ, ◌&&◌, ◌++◌, ◌+◌, ◌∷◌, ◌≡◌, ◌≤◌,
}
use let_us_connect_http_serv.CString.Token.{Free}
use let_us_connect_http_serv.CString.Search.{is_prefix}
use let_us_connect_http_serv.CString.Format.{decimal, decimal-Free}
use let_us_connect_http_serv.Parser.{is_crlf}
use let_us_connect_http_serv.Parser.Print.{IsLine, Free-of, joined, no_crlf, prefixed, text}
use let_us_connect_http_serv.Response.{head_text, reason, send_response_head}

unfoldable pub head_lines : Bytes → Bytes → Bytes → ℤ → Bool → Bytes × List Bytes
head_lines status reason ct cl ka = (
  codes "HTTP/1.1 " ++ (status ++ (b' ' ∷ reason)),
  codes "Server: Let-us-Connect/1.0"
      ∷ (codes "Content-Type: " ++ ct)
      ∷ (codes "Content-Length: " ++ decimal cl)
      ∷ (codes "Connection: " ++ (if ka then codes "keep-alive" else codes "close"))
      ∷ [],
)

-- The head whose `extra` holds the lines `more`, each with its line end.
pub head_text-text :
    (status reason ct : Bytes) (cl : ℤ) (ka : Bool)
    → head_text status reason ct cl (some []) ka
      ≡ text ((head_lines status reason ct cl ka).0 ∷ (head_lines status reason ct cl ka).1) []
unfolding head_text head_lines text
head_text-text status reason ct cl ka = simp append_assoc

-- The same with one more line in `extra`.
pub head_text-extra :
    (status reason ct line : Bytes) (cl : ℤ) (ka : Bool)
    → head_text status reason ct cl (some (line ++ crlf)) ka
      ≡ text
          ((head_lines status reason ct cl ka).0
            ∷ ((head_lines status reason ct cl ka).1 ++ line ∷ []))
          []
unfolding head_text head_lines text
head_text-extra status reason ct line cl ka = simp append_assoc

pub decimal-clean : (n : ℤ) → Free is_crlf (decimal n)
decimal-clean n = decimal-Free is_crlf n (λ d h. ground arith) refl

line_of :
    (p s : Bytes) → (no_crlf p && not (bytes_eq p [])) ≡ true → Free is_crlf s → IsLine (p ++ s)
line_of [] s h f = cc
line_of (c ∷ p) s h f = prefixed c p s (ground arith) f

connection_line :
    (ka : Bool)
    → IsLine (codes "Connection: " ++ (if ka then codes "keep-alive" else codes "close"))
connection_line true =
    line_of (codes "Connection: ") (codes "keep-alive") refl (Free-of (codes "keep-alive") refl)
connection_line false =
    line_of (codes "Connection: ") (codes "close") refl (Free-of (codes "close") refl)

-- The lines of a head are lines when its parts hold no CR and no LF.
pub head_lines-IsLine :
    (status reason ct : Bytes) (cl : ℤ) (ka : Bool)
    → Free is_crlf status
    → Free is_crlf reason
    → Free is_crlf ct
    → IsLine (head_lines status reason ct cl ka).0
      × All IsLine (head_lines status reason ct cl ka).1
unfolding head_lines
head_lines-IsLine status reason ct cl ka fs fr fc = (
  line_of (codes "HTTP/1.1 ") (status ++ (b' ' ∷ reason)) refl
      (All-append (λ c. is_crlf c ≡ false) status (b' ' ∷ reason) fs (refl, fr)),
  (
    line_of (codes "Server: Let-us-Connect/1.0") [] refl tt,
    (
      line_of (codes "Content-Type: ") ct refl fc,
      (
        line_of (codes "Content-Length: ") (decimal cl) refl (decimal-clean cl),
        (connection_line ka, tt),
      ),
    ),
  ),
)

pub length-head_text :
    (status reason ct : Bytes) (cl : ℤ) (extra : Option Bytes) (ka : Bool)
    → length (head_text status reason ct cl extra ka)
      ≤ 103
        + length status
        + length reason
        + length ct
        + length (decimal cl)
        + length (or_empty extra)
unfolding head_text
length-head_text status reason ct cl extra true = simp length-append (omega arith)
length-head_text status reason ct cl extra false = simp length-append (omega arith)

-- The same with a last line that has lost its line end.
pub head_text-open :
    (status reason ct line : Bytes) (cl : ℤ) (ka : Bool)
    → head_text status reason ct cl (some line) ka
      ≡ joined
          (head_lines status reason ct cl ka).0
          ((head_lines status reason ct cl ka).1 ++ line ∷ [])
        ++ crlf
unfolding head_text head_lines joined
head_text-open status reason ct line cl ka = simp append_assoc

-- A head with room to spare is sent as it is.
pub send_response_head-fits :
    (status reason ct : Bytes) (cl : ℤ) (extra : Option Bytes) (ka : Bool)
    → length status + length reason + length ct + length (decimal cl) + length (or_empty extra)
      ≤ 920
    → send_response_head status reason ct cl extra ka ≡ ok (head_text status reason ct cl extra ka)
unfolding send_response_head
send_response_head-fits status reason ct cl extra ka h =
    let small : ltb (length (head_text status reason ct cl extra ka)) 1024 ≡ true =
      lt→ltb _ _ (omega (arith, length-head_text status reason ct cl extra ka)) in
    rw small

prefix_cons : (s t : Bytes) (c : ℕ) → is_prefix (s ++ c ∷ []) (s ++ c ∷ t) ≡ true
unfolding is_prefix
prefix_cons [] t c = ground (arith, ==_refl c)
prefix_cons (a ∷ s) t c = ground (arith, ==_refl a, prefix_cons s t c)

-- How the head of an answer with this status begins.
abbrev pub status_start : Bytes → Bytes
status_start status = codes "HTTP/1.1 " ++ (status ++ b' ' ∷ [])

pub head_text-status_start :
    (status reason ct : Bytes) (cl : ℤ) (extra : Option Bytes) (ka : Bool)
    → is_prefix (status_start status) (head_text status reason ct cl extra ka) ≡ true
unfolding is_prefix head_text
head_text-status_start status reason ct cl extra ka = prefix_cons status _ b' '
