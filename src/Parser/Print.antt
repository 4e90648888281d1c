-- ===== src/Parser/Print.antt =====
-- A request written out, and the pieces that the parser cuts it into.
pub mod Blank
use let_us_connect_http_serv.Base.{
  All, All-append, Bool, Bytes, List, Option, [], ap, append-nil, arith, crlf, false, none, not,
  refl, some, true, ℕ, ◌&&◌, ◌++◌, ◌∙◌, ◌∷◌, ◌≡◌, ◌≢◌,
}
use let_us_connect_http_serv.CString.Token.{Free}
use let_us_connect_http_serv.CString.Search.{strstr}
use let_us_connect_http_serv.CString.Split.{tokens, tokens_last, tokens_next, tokens_skip}
use let_us_connect_http_serv.Parser.{cut_at, is_crlf}

-- Lines, each ended by CRLF, then the blank line and the body.
unfoldable pub text : List Bytes → Bytes → Bytes
text [] body = crlf ++ body
text (l ∷ ls) body = l ++ (crlf ++ text ls body)

-- The lines with CRLF between them.
unfoldable pub joined : Bytes → List Bytes → Bytes
joined l [] = l
joined l (m ∷ ls) = l ++ (crlf ++ joined m ls)

-- A line is not empty, and has no CR and no LF.
pub record IsLine (l : Bytes) : Type 0 where
  pub clean : Free is_crlf l
  pub ne_nil : l ≢ []

-- A search for a CR passes over a line.
strstr_skip :
    (l s t u v : Bytes)
    → Free is_crlf l
    → strstr s (b'\r' ∷ t) ≡ some (u, v)
    → strstr (l ++ s) (b'\r' ∷ t) ≡ some (l ++ u, v)
unfolding strstr
strstr_skip [] s t u v f e = e
strstr_skip (c ∷ l) s t u v f e = ground (arith, strstr_skip l s t u v f.1 e)

strstr_end : (l t : Bytes) → Free is_crlf l → strstr l (b'\r' ∷ t) ≡ none
unfolding strstr
strstr_end [] t f = refl
strstr_end (c ∷ l) t f = ground (arith, strstr_end l t f.1)

-- A line end with a line behind it is passed over in the search for a blank line.
strstr_line_end :
    (m s u v : Bytes)
    → IsLine m
    → strstr (m ++ s) (crlf ++ crlf) ≡ some (u, v)
    → strstr (crlf ++ (m ++ s)) (crlf ++ crlf) ≡ some (crlf ++ u, v)
unfolding strstr
strstr_line_end [] s u v h e = absurd (h.ne_nil refl)
strstr_line_end (c ∷ m) s u v h e = ground (arith, h.clean.0)

strstr_blank :
    (l : Bytes) (ls : List Bytes) (body : Bytes)
    → IsLine l
    → All IsLine ls
    → strstr (text (l ∷ ls) body) (crlf ++ crlf) ≡ some (joined l ls, crlf ++ (crlf ++ body))
unfolding text joined
strstr_blank l [] body h hs =
    strstr_skip l (crlf ++ (crlf ++ body)) (b'\n' ∷ crlf) [] (crlf ++ (crlf ++ body)) h.clean
      (unfold strstr in refl)
    ∙ rw append-nil
strstr_blank l (m ∷ ls) body h (hm, hs) =
    strstr_skip l (crlf ++ text (m ∷ ls) body) (b'\n' ∷ crlf) (crlf ++ joined m ls)
      (crlf ++ (crlf ++ body)) h.clean
      (strstr_line_end m (crlf ++ text ls body) (joined m ls) (crlf ++ (crlf ++ body)) hm
        (strstr_blank m ls body hm hs))

-- The blank line parts the head from the body.
pub cut_at-text :
    (l : Bytes) (ls : List Bytes) (body : Bytes)
    → IsLine l
    → All IsLine ls
    → cut_at (text (l ∷ ls) body) (crlf ++ crlf) ≡ (joined l ls, some body)
unfolding cut_at
cut_at-text l ls body h hs = rw (strstr_blank l ls body h hs)

unfoldable pub rest_of : List Bytes → Option Bytes
rest_of [] = none
rest_of (m ∷ ls) = some (joined m ls)

-- The first line end parts the first line from the others.
pub cut_at-joined :
    (l : Bytes) (ls : List Bytes) → IsLine l → cut_at (joined l ls) crlf ≡ (l, rest_of ls)
unfolding cut_at joined rest_of
cut_at-joined l [] h = rw (strstr_end l (b'\n' ∷ []) h.clean)
cut_at-joined l (m ∷ ls) h =
    rw
      (strstr_skip l (crlf ++ joined m ls) (b'\n' ∷ []) [] (crlf ++ joined m ls) h.clean
        (unfold strstr in refl))
      (rw append-nil)

-- Cutting the lines at CR and LF gives them back.
pub tokens-joined :
    (l : Bytes) (ls : List Bytes) → IsLine l → All IsLine ls → tokens is_crlf (joined l ls) ≡ l ∷ ls
unfolding joined
tokens-joined l [] h hs = tokens_last is_crlf l h.ne_nil h.clean
tokens-joined l (m ∷ ls) h (hm, hs) =
    tokens_next is_crlf l b'\r' (b'\n' ∷ joined m ls) h.ne_nil h.clean refl
    ∙ ap (◌∷◌ l) (tokens_skip is_crlf b'\n' (joined m ls) refl ∙ tokens-joined m ls hm hs)

-- A literal is checked byte by byte.
abbrev pub no_crlf : Bytes → Bool
no_crlf [] = true
no_crlf (c ∷ s) = not (is_crlf c) && no_crlf s

pub Free-of : (s : Bytes) → no_crlf s ≡ true → Free is_crlf s
Free-of [] h = tt
Free-of (c ∷ s) h = (ground arith, Free-of s (ground arith))

-- A line that begins with a literal.
pub prefixed :
    (c : ℕ) (p s : Bytes) → no_crlf (c ∷ p) ≡ true → Free is_crlf s → IsLine ((c ∷ p) ++ s)
prefixed c p s h f = record {
  clean = All-append (λ d. is_crlf d ≡ false) (c ∷ p) s (Free-of (c ∷ p) h) f;
  ne_nil = λ e. cc;
}
