-- ===== src/CString/Token.antt =====
-- strtok_r: the next token and the text that `saveptr` is left at.
use let_us_connect_http_serv.Base.{
  All, Bool, Bytes, Option, [], arith, false, if◌then◌else◌, length, none, refl, some, true, ℕ,
  ◌++◌, ◌<◌, ◌∷◌, ◌≡◌, ◌≤◌,
}

unfoldable pub skip_while : (ℕ → Bool) → Bytes → Bytes
skip_while p [] = []
skip_while p (c ∷ s) = let rest = skip_while p s in if p c then rest else c ∷ s

-- The token up to a delimiter, and the text behind that delimiter.
unfoldable pub until : (ℕ → Bool) → Bytes → Bytes × Bytes
until p [] = ([], [])
until p (c ∷ s) =
    let rest : Bytes × Bytes = (c ∷ (until p s).0, (until p s).1) in if p c then ([], s) else rest

token_of : (ℕ → Bool) → Bytes → Option Bytes × Bytes
unfolding until
token_of p [] = (none, [])
token_of p (c ∷ s) = (some (until p (c ∷ s)).0, (until p (c ∷ s)).1)

-- `none` is NULL: only delimiters are left.
unfoldable pub strtok_r : (ℕ → Bool) → Bytes → Option Bytes × Bytes
unfolding skip_while token_of
strtok_r p s = token_of p (skip_while p s)

-- Bytes that are no delimiters.
abbrev pub Free : (ℕ → Bool) → Bytes → Type 0
Free p s = All (λ c. p c ≡ false) s

pub skip_while_free :
    (p : ℕ → Bool) (c : ℕ) (s : Bytes) → p c ≡ false → skip_while p (c ∷ s) ≡ c ∷ s
unfolding skip_while
skip_while_free p c s h = rw h

until-Free :
    (p : ℕ → Bool) (t rest : Bytes) (sep : ℕ)
    → Free p t
    → p sep ≡ true
    → until p (t ++ (sep ∷ rest)) ≡ (t, rest)
unfolding until
until-Free p [] rest sep f h = rw h
until-Free p (c ∷ t) rest sep f h = rw (f.0, until-Free p t rest sep f.1 h)

until_end : (p : ℕ → Bool) (t : Bytes) → Free p t → until p t ≡ (t, [])
unfolding until
until_end p [] f = refl
until_end p (c ∷ t) f = rw (f.0, until_end p t f.1)

-- A token in front of a delimiter is cut off with it.
pub strtok_r_next :
    (p : ℕ → Bool) (c : ℕ) (t rest : Bytes) (sep : ℕ)
    → Free p (c ∷ t)
    → p sep ≡ true
    → strtok_r p ((c ∷ t) ++ (sep ∷ rest)) ≡ (some (c ∷ t), rest)
unfolding strtok_r
strtok_r_next p c t rest sep f h =
    rw (skip_while_free p c (t ++ (sep ∷ rest)) f.0, until-Free p (c ∷ t) rest sep f h)

-- The last token.
pub strtok_r_last :
    (p : ℕ → Bool) (c : ℕ) (t : Bytes) → Free p (c ∷ t) → strtok_r p (c ∷ t) ≡ (some (c ∷ t), [])
unfolding strtok_r
strtok_r_last p c t f = rw (skip_while_free p c t f.0, until_end p (c ∷ t) f)

-- A delimiter in front is passed over.
pub strtok_r_skip :
    (p : ℕ → Bool) (sep : ℕ) (s : Bytes) → p sep ≡ true → strtok_r p (sep ∷ s) ≡ strtok_r p s
unfolding strtok_r skip_while
strtok_r_skip p sep s h = rw h

until-shorter : (p : ℕ → Bool) (c : ℕ) (s : Bytes) → length (until p (c ∷ s)).1 ≤ length s
unfolding until
until-shorter p c [] = ground arith
until-shorter p c (d ∷ s) = ground (arith, until-shorter p d s)

token_of-shorter :
    (p : ℕ → Bool) (s t : Bytes) → (token_of p s).0 ≡ some t → length (token_of p s).1 < length s
unfolding token_of
token_of-shorter p [] t h = cc
token_of-shorter p (c ∷ s) t h = omega (arith, until-shorter p c s)

length-skip_while-le : (p : ℕ → Bool) (s : Bytes) → length (skip_while p s) ≤ length s
unfolding skip_while
length-skip_while-le p [] = omega arith
length-skip_while-le p (c ∷ s) = ground (arith, length-skip_while-le p s)

-- Each token takes at least a byte off the text.
pub strtok_r-shorter :
    (p : ℕ → Bool) (s t : Bytes) → (strtok_r p s).0 ≡ some t → length (strtok_r p s).1 < length s
unfolding strtok_r
strtok_r-shorter p s t h =
    omega (arith, token_of-shorter p (skip_while p s) t h, length-skip_while-le p s)
