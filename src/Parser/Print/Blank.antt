-- ===== src/Parser/Print/Blank.antt =====
-- Lines with no blank line: the search for one fails.
use let_us_connect_http_serv.Base.{
  All, Bytes, List, [], ap, append_assoc, arith, crlf, none, refl, ◌++◌, ◌∷◌, ◌≡◌,
}
use let_us_connect_http_serv.CString.Token.{Free}
use let_us_connect_http_serv.CString.Search.{strstr}
use let_us_connect_http_serv.Parser.{cut_at, is_crlf}
use let_us_connect_http_serv.Parser.Print.{IsLine, joined}

skip_none :
    (l s t : Bytes)
    → Free is_crlf l
    → strstr s (b'\r' ∷ t) ≡ none
    → strstr (l ++ s) (b'\r' ∷ t) ≡ none
unfolding strstr
skip_none [] s t f e = e
skip_none (c ∷ l) s t f e = ground (arith, skip_none l s t f.1 e)

line_end_none :
    (m s : Bytes)
    → IsLine m
    → strstr (m ++ s) (crlf ++ crlf) ≡ none
    → strstr (crlf ++ (m ++ s)) (crlf ++ crlf) ≡ none
unfolding strstr
line_end_none [] s h e = absurd (h.ne_nil refl)
line_end_none (c ∷ m) s h e = ground (arith, h.clean.0)

-- The lines, each with its line end.
ended : Bytes → List Bytes → Bytes
ended l [] = l ++ crlf
ended l (m ∷ ls) = l ++ (crlf ++ ended m ls)

joined-ended : (l : Bytes) (ls : List Bytes) → joined l ls ++ crlf ≡ ended l ls
unfolding joined ended
joined-ended l [] = refl
joined-ended l (m ∷ ls) = rw append_assoc (ap (λ s. l ++ (crlf ++ s)) (joined-ended m ls))

starts_with_line : (m : Bytes) (ls : List Bytes) → (s : Bytes) × (ended m ls ≡ m ++ s)
unfolding ended
starts_with_line m [] = (crlf, refl)
starts_with_line m (n ∷ ls) = (crlf ++ ended n ls, refl)

no_blank :
    (l : Bytes) (ls : List Bytes)
    → IsLine l
    → All IsLine ls
    → strstr (ended l ls) (crlf ++ crlf) ≡ none
unfolding ended
no_blank l [] h hs = skip_none l crlf (b'\n' ∷ crlf) h.clean (unfold strstr in refl)
no_blank l (m ∷ ls) h (hm, hs) =
    let (s, e) = starts_with_line m ls in
    skip_none l (crlf ++ ended m ls) (b'\n' ∷ crlf) h.clean
      (rw e (line_end_none m s hm (rw e at (no_blank m ls hm hs))))

-- With no blank line behind the lines nothing is cut off.
pub cut_at-ended :
    (l : Bytes) (ls : List Bytes)
    → IsLine l
    → All IsLine ls
    → (cut_at (joined l ls ++ crlf) (crlf ++ crlf)).1 ≡ none
unfolding cut_at
cut_at-ended l ls h hs = rw (joined-ended l ls, no_blank l ls h hs)
