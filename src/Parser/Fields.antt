-- ===== src/Parser/Fields.antt =====
-- What each part of a request adds to its dictionary, as a list of keys and values.
use let_us_connect_http_serv.Base.{
  Bytes, List, Option, [], codes, drop, if◌then◌else◌, map, none, ok, refl, some, ◌++◌, ◌∷◌, ◌≡◌,
}
use let_us_connect_http_serv.CString.Search.{strchr, tolower}
use let_us_connect_http_serv.CString.Split.{tokens}
use let_us_connect_http_serv.Dictionary.Laws.{IsValid, insert_dict_lem}
use let_us_connect_http_serv.Dictionary.History.{after, after-IsValid}
use let_us_connect_http_serv.Parser.{
  HttpRequest, add_field, add_pair, is_ampersand, is_form, store_field, store_line, store_pair,
  trim_whitespace,
}

abbrev pub Pairs : Type 0
Pairs = List (Bytes × Bytes)

abbrev pub keyed : Bytes → Bytes → Pairs
keyed [] value = []
keyed (c ∷ key) value = (map tolower (c ∷ key), value) ∷ []

abbrev named : Option (Bytes × Bytes) → Pairs
named none = []
named (some (name, rest)) = keyed (trim_whitespace name) (trim_whitespace (drop 1 rest))

-- The field of a header line: the trimmed name in lower case, and the trimmed value.
unfoldable pub field_of : Bytes → Pairs
field_of line = named (strchr line b':')

unfoldable pub fields_of : List Bytes → Pairs
fields_of [] = []
fields_of (line ∷ lines) = field_of line ++ fields_of lines

abbrev parted : Option (Bytes × Bytes) → Pairs
parted none = []
parted (some (key, rest)) = (key, drop 1 rest) ∷ []

unfoldable pub pair_of : Bytes → Pairs
pair_of pair = parted (strchr pair b'=')

unfoldable pub pairs_of : List Bytes → Pairs
pairs_of [] = []
pairs_of (pair ∷ pairs) = pair_of pair ++ pairs_of pairs

-- The names of the first three tokens of a request line.
unfoldable pub line_pairs : List Bytes → Pairs
line_pairs [] = []
line_pairs (method ∷ []) = (codes "method", method) ∷ []
line_pairs (method ∷ uri ∷ []) = (codes "method", method) ∷ (codes "uri", uri) ∷ []
line_pairs (method ∷ uri ∷ version ∷ _) =
    (codes "method", method) ∷ (codes "uri", uri) ∷ (codes "http_version", version) ∷ []

unfoldable pub body_pairs : Option Bytes → Bytes → Pairs
body_pairs content_type [] = []
body_pairs content_type (c ∷ body) =
    (codes "data", c ∷ body)
    ∷ (if is_form content_type then pairs_of (tokens is_ampersand (c ∷ body)) else [])

pub record IsValidRequest (r : HttpRequest) : Type 0 where
  pub line : IsValid r.request_line
  pub fields : IsValid r.header_fields
  pub form : IsValid r.body

-- The request with these pairs inserted into its dictionaries.
abbrev pub with_fields : HttpRequest → Pairs → HttpRequest
with_fields r pairs = record r { header_fields = after pairs r.header_fields }

abbrev pub with_body : HttpRequest → Pairs → HttpRequest
with_body r pairs = record r { body = after pairs r.body }

abbrev pub with_line : HttpRequest → Pairs → HttpRequest
with_line r pairs = record r { request_line = after pairs r.request_line }

module _ (r : HttpRequest) (v : IsValidRequest r) where
  pub with_fields-IsValidRequest : (pairs : Pairs) → IsValidRequest (with_fields r pairs)
  with_fields-IsValidRequest pairs = record {
    line = v.line;
    fields = after-IsValid pairs r.header_fields v.fields;
    form = v.form;
  }

  pub with_body-IsValidRequest : (pairs : Pairs) → IsValidRequest (with_body r pairs)
  with_body-IsValidRequest pairs = record {
    line = v.line;
    fields = v.fields;
    form = after-IsValid pairs r.body v.form;
  }

  pub with_line-IsValidRequest : (pairs : Pairs) → IsValidRequest (with_line r pairs)
  with_line-IsValidRequest pairs = record {
    line = after-IsValid pairs r.request_line v.line;
    fields = v.fields;
    form = v.form;
  }

  -- One line, and one pair of a form.
  add_field_lem : (key value : Bytes) → add_field r key value ≡ ok (with_fields r (keyed key value))
  unfolding add_field after
  add_field_lem [] value = refl
  add_field_lem (c ∷ key) value =
      rw (insert_dict_lem r.header_fields (map tolower (c ∷ key)) value v.fields)

  store_field_lem :
      (cut : Option (Bytes × Bytes)) → store_field r cut ≡ ok (with_fields r (named cut))
  unfolding store_field after
  store_field_lem none = refl
  store_field_lem (some (name, rest)) =
      add_field_lem (trim_whitespace name) (trim_whitespace (drop 1 rest))

  add_pair_lem : (cut : Option (Bytes × Bytes)) → add_pair r cut ≡ ok (with_body r (parted cut))
  unfolding add_pair after
  add_pair_lem none = refl
  add_pair_lem (some (key, rest)) = rw (insert_dict_lem r.body key (drop 1 rest) v.form)

pub store_line_lem :
    (r : HttpRequest) (line : Bytes)
    → IsValidRequest r
    → (store_line r line ≡ ok (with_fields r (field_of line)))
      × IsValidRequest (with_fields r (field_of line))
unfolding store_line field_of
store_line_lem r line v =
    (store_field_lem r v (strchr line b':'), with_fields-IsValidRequest r v (field_of line))

pub store_pair_lem :
    (r : HttpRequest) (pair : Bytes)
    → IsValidRequest r
    → (store_pair r pair ≡ ok (with_body r (pair_of pair)))
      × IsValidRequest (with_body r (pair_of pair))
unfolding store_pair pair_of
store_pair_lem r pair v =
    (add_pair_lem r v (strchr pair b'='), with_body-IsValidRequest r v (pair_of pair))
