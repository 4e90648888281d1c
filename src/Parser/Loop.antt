-- ===== src/Parser/Loop.antt =====
-- `token_loop` runs over the tokens of the text, whatever is done with each.
use let_us_connect_http_serv.Base.{
  Bool, Bytes, List, Outcome, [], arith, inl, inr, length, ok, suc, zero, ℕ, ◌<◌, ◌∷◌, ◌≡◌,
}
use let_us_connect_http_serv.CString.Split.{strtok_r-FirstToken, tokens}
use let_us_connect_http_serv.Parser.{HttpRequest, token_loop}

unfoldable pub fold : (HttpRequest → Bytes → HttpRequest) → HttpRequest → List Bytes → HttpRequest
fold pure r [] = r
fold pure r (t ∷ ts) = fold pure (pure r t) ts

module _ {ℓ} (P : HttpRequest → Type ℓ) (store : HttpRequest → Bytes → Outcome HttpRequest)
    (pure : HttpRequest → Bytes → HttpRequest)
    (keeps : (r : HttpRequest) (t : Bytes) → P r → (store r t ≡ ok (pure r t)) × P (pure r t)) where
  -- With more fuel than bytes, the loop stores every token, in order, and ends.
  pub token_loop_lem :
      (p : ℕ → Bool) (fuel : ℕ) (r : HttpRequest) (s : Bytes)
      → length s < fuel
      → P r
      → token_loop p store fuel r s ≡ ok (fold pure r (tokens p s))
  unfolding token_loop fold
  token_loop_lem p zero r s h v = absurd (omega arith)
  token_loop_lem p (suc fuel) r s h v = elim (strtok_r-FirstToken p s) [
    | inl (cut, none_left) ↦ rw (cut, none_left)
    | inr (t, rest, cut, first, shorter) ↦
        let (stored, v') = keeps r t v in
        rw (cut, first, stored) (token_loop_lem p fuel (pure r t) rest (omega arith) v')
  ]
