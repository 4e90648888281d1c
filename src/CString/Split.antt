-- ===== src/CString/Split.antt =====
-- The tokens of a text, by an independent description: the nonempty pieces between delimiters.
use let_us_connect_http_serv.Base.{
  Bool, Bool-cases, Bytes, List, [], ap, arith, false, if◌then◌else◌, inl, inr, length, none, refl,
  some, subst, sym, true, ℕ, ◌++◌, ◌<◌, ◌∙◌, ◌∷◌, ◌≡◌, ◌≢◌, ◌⊎◌,
}
use let_us_connect_http_serv.CString.Token.{Free, skip_while, strtok_r, strtok_r-shorter, until}

pub cons_head : ℕ → List Bytes → List Bytes
cons_head c [] = (c ∷ []) ∷ []
cons_head c (t ∷ ts) = (c ∷ t) ∷ ts

-- The text cut at every delimiter.
pub pieces : (ℕ → Bool) → Bytes → List Bytes
pieces p [] = [] ∷ []
pieces p (c ∷ s) = let rest = pieces p s in if p c then [] ∷ rest else cons_head c rest

pub nonempty : List Bytes → List Bytes
nonempty [] = []
nonempty ([] ∷ ts) = nonempty ts
nonempty ((c ∷ t) ∷ ts) = (c ∷ t) ∷ nonempty ts

unfoldable pub tokens : (ℕ → Bool) → Bytes → List Bytes
unfolding pieces nonempty cons_head
tokens p s = nonempty (pieces p s)

-- The first piece, and the tokens of the text behind its delimiter.
pieces-until :
    (p : ℕ → Bool) (s : Bytes)
    → (tail : List Bytes) × (pieces p s ≡ (until p s).0 ∷ tail)
      × (nonempty tail ≡ tokens p (until p s).1)
unfolding tokens until
pieces-until p [] = ([], refl, refl)
pieces-until p (c ∷ s) = elim (Bool-cases (p c)) [
  | inl sep ↦ (pieces p s, rw (sep, pieces), rw sep)
  | inr free ↦
      let (tail, e, f) = pieces-until p s in (tail, rw (free, pieces, e), rw (free, until) f)
]

skip_while_head :
    (p : ℕ → Bool) (s : Bytes) (c : ℕ) (t : Bytes) → skip_while p s ≡ c ∷ t → p c ≡ false
unfolding skip_while
skip_while_head p [] c t h = cc
skip_while_head p (d ∷ s) c t h = ground (arith, skip_while_head p s c t)

tokens-skip_while : (p : ℕ → Bool) (s : Bytes) → tokens p (skip_while p s) ≡ tokens p s
unfolding tokens skip_while
tokens-skip_while p [] = refl
tokens-skip_while p (c ∷ s) = elim (Bool-cases (p c)) [
  | inl sep ↦ rw sep (tokens-skip_while p s)
  | inr free ↦ rw (free, skip_while) (rw (free, pieces))
]

first_token :
    (p : ℕ → Bool) (c : ℕ) (t : Bytes)
    → p c ≡ false
    → tokens p (c ∷ t) ≡ (until p (c ∷ t)).0 ∷ tokens p (until p (c ∷ t)).1
unfolding tokens until
first_token p c t free =
    let (tail, cut, after) = pieces-until p t in
    rw (free, pieces, cut) (unfold nonempty in ap (◌∷◌ (c ∷ (until p t).0)) after)

-- One call of `strtok_r` takes the first token off the text, or says that there is none.
abbrev pub FirstToken : (ℕ → Bool) → Bytes → Type 0
FirstToken p s =
    ((strtok_r p s ≡ (none, [])) × (tokens p s ≡ []))
    ⊎ ((t : Bytes) × (rest : Bytes) × (strtok_r p s ≡ (some t, rest))
        × (tokens p s ≡ t ∷ tokens p rest)
        × (length rest < length s))

pub strtok_r-FirstToken : (p : ℕ → Bool) (s : Bytes) → FirstToken p s
strtok_r-FirstToken p s = go (skip_while p s) refl
  where
    go : (u : Bytes) → skip_while p s ≡ u → FirstToken p s
    go [] e =
        inl (unfold strtok_r in rw e, sym (tokens-skip_while p s) ∙ rw e (unfold tokens in refl))
    go (c ∷ t) e =
        let cut : strtok_r p s ≡ (some (until p (c ∷ t)).0, (until p (c ∷ t)).1) =
          unfold strtok_r in rw e in
        inr (
          (until p (c ∷ t)).0,
          (until p (c ∷ t)).1,
          cut,
          sym (tokens-skip_while p s) ∙ rw e (first_token p c t (skip_while_head p s c t e)),
          subst (λ r. length r.1 < length s) cut
              (strtok_r-shorter p s (until p (c ∷ t)).0 (ap (λ r. r.0) cut)),
        )

pub strtok_r_nil : (p : ℕ → Bool) → strtok_r p [] ≡ (none, [])
unfolding strtok_r
strtok_r_nil p = refl

pieces_next :
    (p : ℕ → Bool) (t : Bytes) (sep : ℕ) (rest : Bytes)
    → Free p t
    → p sep ≡ true
    → pieces p (t ++ (sep ∷ rest)) ≡ t ∷ pieces p rest
unfolding pieces cons_head
pieces_next p [] sep rest f h = rw h
pieces_next p (c ∷ t) sep rest f h = rw (f.0, pieces_next p t sep rest f.1 h)

pieces_last : (p : ℕ → Bool) (t : Bytes) → Free p t → pieces p t ≡ t ∷ []
unfolding pieces cons_head
pieces_last p [] f = refl
pieces_last p (c ∷ t) f = rw (f.0, pieces_last p t f.1)

-- A token in front of a delimiter, the last token, and a delimiter in front.
pub tokens_next :
    (p : ℕ → Bool) (t : Bytes) (sep : ℕ) (rest : Bytes)
    → t ≢ []
    → Free p t
    → p sep ≡ true
    → tokens p (t ++ (sep ∷ rest)) ≡ t ∷ tokens p rest
unfolding tokens
tokens_next p [] sep rest n f h = absurd (n refl)
tokens_next p (c ∷ t) sep rest n f h = rw (pieces_next p (c ∷ t) sep rest f h)

pub tokens_last : (p : ℕ → Bool) (t : Bytes) → t ≢ [] → Free p t → tokens p t ≡ t ∷ []
unfolding tokens
tokens_last p [] n f = absurd (n refl)
tokens_last p (c ∷ t) n f = rw (pieces_last p (c ∷ t) f)

pub tokens_skip :
    (p : ℕ → Bool) (sep : ℕ) (s : Bytes) → p sep ≡ true → tokens p (sep ∷ s) ≡ tokens p s
unfolding tokens
tokens_skip p sep s h = rw (h, pieces)
