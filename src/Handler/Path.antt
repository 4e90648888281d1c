-- ===== src/Handler/Path.antt =====
-- The path that a URI is turned into stays in its buffer, and begins with `public`.
use let_us_connect_http_serv.Base.{
  Bool-cases, Bytes, Option, [], arith, codes, inl, inr, length, length-append, length-take, none,
  refl, some, subst, take, true, ℕ, ◌++◌, ◌<◌, ◌∷◌, ◌≡◌,
}
use let_us_connect_http_serv.CString.Search.{is_prefix}
use let_us_connect_http_serv.CString.Format.{strncat}
use let_us_connect_http_serv.Handler.{
  FileStat, System, add_slash, ends_in_slash, html_path, index_path, local_path, path_size, regular,
  resolve, resolve_stat, room,
}

abbrev Stays : Bytes → Type 0
Stays path = (length path < path_size) × (is_prefix (codes "public") path ≡ true)

is_prefix-append : (p s t : Bytes) → is_prefix p s ≡ true → is_prefix p (s ++ t) ≡ true
unfolding is_prefix
is_prefix-append [] s t h = refl
is_prefix-append (a ∷ p) [] t h = cc
is_prefix-append (a ∷ p) (c ∷ s) t h = ground (arith, is_prefix-append p s t)

strncat-Stays : (path s : Bytes) → Stays path → Stays (strncat path s (room path))
strncat-Stays path s (short, public) = (
  omega (arith, length-append path (take (room path) s), length-take (room path) s),
  is_prefix-append (codes "public") path (take (room path) s) public,
)

local_path-Stays : (uri : Bytes) → Stays (local_path uri)
unfolding local_path is_prefix
local_path-Stays uri = (omega (arith, length-take 511 (codes "public" ++ uri)), refl)

add_slash-Stays : (path : Bytes) → Stays path → Stays (add_slash path)
unfolding add_slash
add_slash-Stays path h = elim (Bool-cases (ends_in_slash path)) [
  | inl e ↦ rw e h
  | inr e ↦ rw e (strncat-Stays path (b'/' ∷ []) h)
]

regular_path :
    (path : Bytes) (st : Option FileStat) (found : Bytes) (size : ℕ)
    → regular path st ≡ some (found, size)
    → path ≡ found
unfolding regular
regular_path path none found size e = cc
regular_path path (some st) found size e = ground arith

resolve_stat-Stays :
    (sys : System) (path : Bytes) (st : Option FileStat) (found : Bytes) (size : ℕ)
    → Stays path
    → resolve_stat sys path st ≡ some (found, size)
    → Stays found
unfolding resolve_stat html_path index_path
resolve_stat-Stays sys path none found size h e =
    subst Stays (regular_path (html_path path) (sys.stat (html_path path)) found size e)
      (strncat-Stays path (codes ".html") h)
resolve_stat-Stays sys path (some st) found size h e = elim (Bool-cases st.is_dir) [
  | inl dir ↦
      subst Stays
        (regular_path (index_path path) (sys.stat (index_path path)) found size (rw dir at e))
        (strncat-Stays (add_slash path) (codes "index.html") (add_slash-Stays path h))
  | inr file ↦ subst Stays (ground arith) h
]

-- Whatever the file system and the URI, the file that is served has a path of at most 511 bytes
-- that begins with `public`.
pub resolve-Stays :
    (sys : System) (uri found : Bytes) (size : ℕ)
    → resolve sys (local_path uri) ≡ some (found, size)
    → (length found < path_size) × (is_prefix (codes "public") found ≡ true)
unfolding resolve
resolve-Stays sys uri found size e =
    resolve_stat-Stays sys (local_path uri) (sys.stat (local_path uri)) found size
      (local_path-Stays uri) e
