-- ===== src/CString/Search.antt =====
-- strchr, strrchr, strstr and strcasestr, isspace and tolower, and strtok_r.
use mathlib.Core.Option
use let_us_connect_http_serv.Base.{
  Bool, Bytes, Option, [], bytes_eq, false, if◌then◌else◌, leb, map, none, some, true, ℕ, ◌&&◌, ◌+◌,
  ◌==◌, ◌||◌, ◌∷◌,
}

-- `isspace` of the "C" locale.
unfoldable pub isspace : ℕ → Bool
isspace c = c == b' ' || (leb 9 c && leb c 13)

unfoldable pub tolower : ℕ → ℕ
tolower c = if leb b'A' c && leb c b'Z' then c + 32 else c

-- `strcasecmp(s, t) == 0`
unfoldable pub strcasecmp_eq : Bytes → Bytes → Bool
unfolding tolower
strcasecmp_eq s t = bytes_eq (map tolower s) (map tolower t)

unfoldable pub is_prefix : Bytes → Bytes → Bool
is_prefix [] s = true
is_prefix (a ∷ t) [] = false
is_prefix (a ∷ t) (c ∷ s) = a == c && is_prefix t s

-- What stands before the first occurrence, and what stands from it on; `none` is NULL.
unfoldable pub split_at_first : (Bytes → Bool) → Bytes → Option (Bytes × Bytes)
split_at_first here [] = if here [] then some ([], []) else none
split_at_first here (c ∷ s) =
    let later = Option.map (λ (p : Bytes × Bytes). (c ∷ p.0, p.1)) (split_at_first here s) in
    if here (c ∷ s) then some ([], c ∷ s) else later

abbrev starts : ℕ → Bytes → Bool
starts a [] = false
starts a (c ∷ _) = c == a

-- `strchr(s, a)`, for `a` not NUL
unfoldable pub strchr : Bytes → ℕ → Option (Bytes × Bytes)
unfolding split_at_first
strchr s a = split_at_first (starts a) s

-- `strstr(s, t)`
unfoldable pub strstr : Bytes → Bytes → Option (Bytes × Bytes)
unfolding split_at_first is_prefix
strstr s t = split_at_first (is_prefix t) s

unfoldable pub strcasestr : Bytes → Bytes → Option (Bytes × Bytes)
unfolding split_at_first is_prefix tolower
strcasestr s t = split_at_first (λ u. is_prefix (map tolower t) (map tolower u)) s

-- `strrchr(s, a)`: what stands from the last occurrence on.
unfoldable pub strrchr : Bytes → ℕ → Option Bytes
strrchr [] a = none
strrchr (c ∷ s) a = elim (strrchr s a) [
  | some t ↦ some t
  | none ↦ if c == a then some (c ∷ s) else none
]
