-- ===== src/Parser.antt =====
-- webserver_project/src/parser/http_parser.c. A request is a C string, so the bytes before its NUL;
-- cutting it with NULs is splitting it here. Memory for the copies is taken to be there.
pub mod Loop
pub mod Fields
pub mod Parse
pub mod Meaning
pub mod Print
pub mod Message
pub mod RoundTrip
pub mod Tests
use mathlib.Core.Option
use let_us_connect_http_serv.Base.{
  Bool, Bytes, List, Option, Outcome, [], codes, crlf, drop, false, fault, if◌then◌else◌, length,
  map, none, ok, some, suc, true, zero, ℕ, ◌++◌, ◌==◌, ◌>>=◌, ◌||◌, ◌∷◌,
}
use let_us_connect_http_serv.CString.Token.{skip_while, strtok_r}
use let_us_connect_http_serv.CString.Search.{isspace, strchr, strstr, tolower}
use let_us_connect_http_serv.LinkedList.{LinkedList}
use let_us_connect_http_serv.Dictionary.{
  Dictionary, dictionary_constructor, dictionary_destructor, insert_dict, search_dict,
}

-- `struct HTTPRequest`
pub record HttpRequest : Type 0 where
  pub request_line : Dictionary Bytes
  pub header_fields : Dictionary Bytes
  pub body : Dictionary Bytes

-- `while (end > str && isspace(*end)) end--;` behind the first byte.
unfoldable pub trim_end : Bytes → Bytes
trim_end [] = []
trim_end (c ∷ s) = elim (trim_end s) [ [] ↦ if isspace c then [] else c ∷ [] | d ∷ t ↦ c ∷ d ∷ t ]

keep_first : Bytes → Bytes
unfolding trim_end
keep_first [] = []
keep_first (c ∷ s) = c ∷ trim_end s

unfoldable pub trim_whitespace : Bytes → Bytes
unfolding isspace keep_first
trim_whitespace s = keep_first (skip_while isspace s)

abbrev pub is_space : ℕ → Bool
is_space c = c == b' '

abbrev pub is_crlf : ℕ → Bool
is_crlf c = c == b'\r' || c == b'\n'

abbrev pub is_ampersand : ℕ → Bool
is_ampersand c = c == b'&'

-- `if (value) dictionary.insert(key, value)`
unfoldable pub insert_if : Dictionary Bytes → Bytes → Option Bytes → Outcome (Dictionary Bytes)
insert_if d key none = ok d
insert_if d key (some value) = insert_dict d key value

insert_line :
    Dictionary Bytes → Option Bytes → Option Bytes → Option Bytes → Outcome (Dictionary Bytes)
unfolding insert_if
insert_line d method uri http_version = do
  d ← insert_if d (codes "method") method
  d ← insert_if d (codes "uri") uri
  insert_if d (codes "http_version") http_version

unfoldable pub extract_request_line_fields : HttpRequest → Bytes → Outcome HttpRequest
unfolding insert_line
extract_request_line_fields request request_line = do
  let method = strtok_r is_space request_line
  let uri = strtok_r is_space method.1
  let http_version = strtok_r is_space uri.1
  d ← insert_line request.request_line method.0 uri.0 http_version.0
  ok (record request { request_line = d })

-- `if (key && value && strlen(key) > 0)`, with the key in lower case.
add_field : HttpRequest → Bytes → Bytes → Outcome HttpRequest
unfolding tolower
add_field request [] value = ok request
add_field request (c ∷ key) value = do
  d ← insert_dict request.header_fields (map tolower (c ∷ key)) value
  ok (record request { header_fields = d })

-- A line, split at its colon; one that has none is left out.
store_field : HttpRequest → Option (Bytes × Bytes) → Outcome HttpRequest
unfolding trim_whitespace add_field
store_field request none = ok request
store_field request (some (name, rest)) =
    add_field request (trim_whitespace name) (trim_whitespace (drop 1 rest))

-- `while (token) { …; token = strtok_r(NULL, …); }`
next_token :
    (HttpRequest → Bytes → Outcome HttpRequest)
    → (HttpRequest → Bytes → Outcome HttpRequest)
    → HttpRequest
    → Option Bytes × Bytes
    → Outcome HttpRequest
next_token store next request (none, _) = ok request
next_token store next request (some token, rest) = store request token >>= λ r. next r rest

-- Without fuel it is a `fault`; a token takes a byte at least, so the length is enough.
unfoldable pub token_loop :
    (ℕ → Bool)
    → (HttpRequest → Bytes → Outcome HttpRequest)
    → ℕ
    → HttpRequest
    → Bytes
    → Outcome HttpRequest
unfolding next_token
token_loop delimiter store zero request s = fault
token_loop delimiter store (suc fuel) request s =
    next_token store (token_loop delimiter store fuel) request (strtok_r delimiter s)

unfoldable pub store_line : HttpRequest → Bytes → Outcome HttpRequest
unfolding store_field strchr
store_line request line = store_field request (strchr line b':')

unfoldable pub extract_header_fields : HttpRequest → Bytes → Outcome HttpRequest
unfolding token_loop store_line
extract_header_fields request header_fields =
    token_loop is_crlf store_line (suc (length header_fields)) request header_fields

add_pair : HttpRequest → Option (Bytes × Bytes) → Outcome HttpRequest
add_pair request none = ok request
add_pair request (some (key, rest)) = do
  d ← insert_dict request.body key (drop 1 rest)
  ok (record request { body = d })

unfoldable pub store_pair : HttpRequest → Bytes → Outcome HttpRequest
unfolding add_pair strchr
store_pair request pair = add_pair request (strchr pair b'=')

-- `content_type && strstr(content_type, "application/x-www-form-urlencoded")`
unfoldable pub is_form : Option Bytes → Bool
unfolding strstr
is_form none = false
is_form (some content_type) =
    elim (strstr content_type (codes "application/x-www-form-urlencoded")) [
      | none ↦ false
      | some _ ↦ true
    ]

form_fields : Option Bytes → HttpRequest → Bytes → Outcome HttpRequest
unfolding token_loop store_pair is_form
form_fields content_type request body =
    if is_form content_type
    then token_loop is_ampersand store_pair (suc (length body)) request body
    else ok request

unfoldable pub extract_body : HttpRequest → Bytes → Outcome HttpRequest
unfolding form_fields
extract_body request body = do
  d ← insert_dict request.body (codes "data") body
  content_type ← search_dict (some request.header_fields) (some (codes "content-type"))
  form_fields content_type (record request { body = d }) body

-- `if (part && strlen(part) > 0) extract(request, part);`
unfoldable pub extract_if :
    (HttpRequest → Bytes → Outcome HttpRequest) → HttpRequest → Option Bytes → Outcome HttpRequest
extract_if extract request none = ok request
extract_if extract request (some []) = ok request
extract_if extract request (some (c ∷ s)) = extract request (c ∷ s)

cut_found : Bytes → ℕ → Option (Bytes × Bytes) → Bytes × Option Bytes
cut_found s n none = (s, none)
cut_found s n (some (before, rest)) = (before, some (drop n rest))

-- What stands before the first `mark`, and what stands behind it; without one, all and NULL.
unfoldable pub cut_at : Bytes → Bytes → Bytes × Option Bytes
unfolding cut_found
cut_at s mark = cut_found s (length mark) (strstr s mark)

unfoldable pub empty_request : HttpRequest
unfolding dictionary_constructor
empty_request = record {
  request_line = dictionary_constructor;
  header_fields = dictionary_constructor;
  body = dictionary_constructor;
}

-- The parts that the blank line and the first line end mark off.
unfoldable pub extract_parts : HttpRequest → Bytes → Outcome HttpRequest
unfolding cut_at extract_if
extract_parts request requested = do
  let (header_part, body_part) = cut_at requested (crlf ++ crlf)
  let (request_line_part, headers_start) = cut_at header_part crlf
  r ← extract_if extract_request_line_fields request (some request_line_part)
  r ← extract_if extract_header_fields r headers_start
  extract_if extract_body r body_part

-- `none` is a NULL `request_string`.
unfoldable pub http_request_constructor : Option Bytes → Outcome HttpRequest
unfolding extract_parts
http_request_constructor none = ok empty_request
http_request_constructor (some []) = ok empty_request
http_request_constructor (some (c ∷ s)) = extract_parts empty_request (c ∷ s)

-- What the destructor leaves of the three key lists.
unfoldable pub http_request_destructor :
    Option HttpRequest → Outcome (List (Option (LinkedList Bytes)))
unfolding dictionary_destructor
http_request_destructor none = ok []
http_request_destructor (some request) = do
  line ← dictionary_destructor request.request_line
  fields ← dictionary_destructor request.header_fields
  body ← dictionary_destructor request.body
  ok (line.0 ∷ fields.0 ∷ body.0 ∷ [])
