-- ===== src/Handler/Found.antt =====
-- The files that the handler finds, their sizes and how they are sent.
use let_us_connect_http_serv.Base.{
  Bool, Bool-cases, Bytes, List, Option, [], arith, codes, false, if◌then◌else◌, inl, inr, length,
  ltb, ltb→lt, lt→ltb, none, ok, pos, refl, some, suc, true, zero, ℕ, ◌%◌, ◌++◌, ◌-◌, ◌<◌, ◌∷◌, ◌≡◌,
  ◌≤◌,
}
use let_us_connect_http_serv.CString.Search.{is_prefix, strrchr}
use let_us_connect_http_serv.CString.Format.{decimal, length-decimal-le, length-decimal-negsuc-le}
use let_us_connect_http_serv.Response.{head_text}
use let_us_connect_http_serv.Response.Head.{
  head_text-status_start, send_response_head-fits, status_start,
}
use let_us_connect_http_serv.Handler.{
  Action, Fields, FileStat, System, body_of, get_mime_type, html_path, index_path, int_of, logged,
  mime_of, regular, resolve, resolve_stat, send_found, sends, sends_file,
}
use let_us_connect_http_serv.Handler.Reply.{Answered, Answers, logged_codes, output}

-- The files have at least one byte, and fewer than an `int` can count. (A directory has any size.)
abbrev pub HasSizes : System → Type 0
HasSizes sys =
    (path : Bytes) (st : FileStat)
    → sys.stat path ≡ some st
    → st.is_dir ≡ false
    → (0 < st.st_size) × (st.st_size < 2147483648)

pub length-decimal-int_of : (n : ℕ) → length (decimal (int_of n)) ≤ 11
unfolding int_of
length-decimal-int_of n = elim (Bool-cases (ltb (n % 4294967296) 2147483648)) [
  | inl small ↦
      rw small
        (omega (arith, length-decimal-le 9 (n % 4294967296) (omega (arith, ltb→lt _ _ small))))
  | inr large ↦ rw large (length-decimal-negsuc-le 9 (4294967295 - n % 4294967296) (omega arith))
]

length-mime_of : (ext : Option Bytes) → length (mime_of ext) ≤ 24
unfolding mime_of
length-mime_of none = omega arith
length-mime_of (some ext) = ground arith

pub length-mime : (path : Bytes) → length (get_mime_type path) ≤ 24
unfolding get_mime_type
length-mime path = length-mime_of (strrchr path b'.')

abbrev pub ok_head : Bytes → ℕ → Bool → Bytes
ok_head path size ka =
    head_text (codes "200") (codes "OK") (get_mime_type path) (int_of size) none ka

int_of_small : (size : ℕ) → size < 2147483648 → int_of size ≡ pos size
unfolding int_of
int_of_small size h =
    let low : size % 4294967296 ≡ size = omega arith in rw (low, lt→ltb size 2147483648 h) refl

abbrev pub sent_body : Bool → Bytes → ℕ → List Action
sent_body get path size = if get then sends_file path size ∷ [] else []

body_of-fits :
    (get : Bool) (path : Bytes) (size : ℕ)
    → 0 < size
    → size < 2147483648
    → body_of get path (int_of size) ≡ ok (sent_body get path size)
unfolding body_of
body_of-fits get path zero some_byte small = absurd (omega arith)
body_of-fits false path (suc n) some_byte small = refl
body_of-fits true path (suc n) some_byte small = rw (int_of_small (suc n) small) refl

pub send_found_lem :
    (f : Fields) (get ka : Bool) (path : Bytes) (size : ℕ)
    → 0 < size
    → size < 2147483648
    → send_found f get ka path size
      ≡ ok (sends (ok_head path size ka) ∷ (sent_body get path size ++ logged f 200 ∷ []))
unfolding send_found
send_found_lem f get ka path size some_byte small =
    rw
      (
        send_response_head-fits (codes "200") (codes "OK") (get_mime_type path) (int_of size) none
            ka (omega (arith, length-mime path, length-decimal-int_of size)),
        body_of-fits get path size some_byte small,
      )
      refl

ok_head-status_start :
    (path : Bytes) (size : ℕ) (ka : Bool)
    → is_prefix (status_start (decimal (pos 200))) (ok_head path size ka) ≡ true
unfolding decimal
ok_head-status_start path size ka =
    head_text-status_start (codes "200") (codes "OK") (get_mime_type path) (int_of size) none ka

found-Answers :
    (f : Fields) (get ka : Bool) (path : Bytes) (size : ℕ)
    → Answers 200 (sends (ok_head path size ka) ∷ (sent_body get path size ++ logged f 200 ∷ []))
unfolding output logged_codes logged
found-Answers f true ka path size = record {
  head = ok_head path size ka;
  body = sends_file path size ∷ [];
  sends_head = refl;
  one_body = omega arith;
  no_other_head = (tt, tt);
  has_status = ok_head-status_start path size ka;
  logs_once = refl;
}
found-Answers f false ka path size = record {
  head = ok_head path size ka;
  body = [];
  sends_head = refl;
  one_body = omega arith;
  no_other_head = tt;
  has_status = ok_head-status_start path size ka;
  logs_once = refl;
}

pub send_found-Answered :
    (f : Fields) (get ka : Bool) (path : Bytes) (size : ℕ)
    → 0 < size
    → size < 2147483648
    → Answered (send_found f get ka path size)
send_found-Answered f get ka path size some_byte small = (
  sends (ok_head path size ka) ∷ (sent_body get path size ++ logged f 200 ∷ []),
  200,
  send_found_lem f get ka path size some_byte small,
  found-Answers f get ka path size,
)

-- What `resolve` finds is a file with these sizes.
abbrev pub Fits : Option (Bytes × ℕ) → Type 0
Fits none = Unit
Fits (some (path, size)) = (0 < size) × (size < 2147483648)

module _ (sys : System) (sizes : HasSizes sys) where
  regular-Fits : (path : Bytes) (m : Option FileStat) → sys.stat path ≡ m → Fits (regular path m)
  unfolding regular
  regular-Fits path none e = tt
  regular-Fits path (some st) e = elim (Bool-cases st.is_dir) [
    | inl dir ↦ rw dir tt
    | inr file ↦ rw file (sizes path st e file)
  ]

  resolve_stat-Fits :
      (path : Bytes) (m : Option FileStat) → sys.stat path ≡ m → Fits (resolve_stat sys path m)
  unfolding resolve_stat
  resolve_stat-Fits path none e = regular-Fits (html_path path) _ refl
  resolve_stat-Fits path (some st) e = elim (Bool-cases st.is_dir) [
    | inl dir ↦ rw dir (regular-Fits (index_path path) _ refl)
    | inr file ↦ rw file (sizes path st e file)
  ]

  pub resolve-Fits : (path : Bytes) → Fits (resolve sys path)
  unfolding resolve
  resolve-Fits path = resolve_stat-Fits path (sys.stat path) refl
