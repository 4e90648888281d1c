-- ===== src/Parser/Meaning.antt =====
-- The whole request: what the three dictionaries of a parsed request hold.
use let_us_connect_http_serv.Base.{
  Bytes, Option, [], ap, codes, crlf, none, ok, or_empty, refl, some, ◌++◌, ◌∙◌, ◌∷◌, ◌≡◌,
}
use let_us_connect_http_serv.CString.Split.{tokens}
use let_us_connect_http_serv.CString.Search.{strstr}
use let_us_connect_http_serv.Dictionary.{Dictionary, dictionary_constructor, search_dict}
use let_us_connect_http_serv.Dictionary.Laws.{contents, search_dict_lem}
use let_us_connect_http_serv.Dictionary.History.{
  after, contents-dictionary_of, dictionary_constructor-IsValid, lookup,
}
use let_us_connect_http_serv.Parser.{
  HttpRequest, cut_at, empty_request, extract_body, extract_header_fields, extract_if,
  extract_parts, extract_request_line_fields, http_request_constructor, is_crlf, is_space,
}
use let_us_connect_http_serv.Parser.Fields.{
  IsValidRequest, Pairs, body_pairs, fields_of, line_pairs, with_body, with_fields,
  with_fields-IsValidRequest, with_line, with_line-IsValidRequest,
}
use let_us_connect_http_serv.Parser.Parse.{
  extract_body_lem, extract_header_fields_lem, extract_request_line_fields_lem,
}

pub record Parts : Type 0 where
  pub line : Pairs
  pub fields : Pairs
  pub form : Pairs

-- The pairs of a request: its first line, the lines up to the blank line, and what follows.
unfoldable pub parts_of : Bytes → Parts
parts_of s =
    let (head, body) = cut_at s (crlf ++ crlf) in
    let (line, headers) = cut_at head crlf in
    let fields = fields_of (tokens is_crlf (or_empty headers)) in
    record {
      line = line_pairs (tokens is_space line);
      fields = fields;
      form = body_pairs (lookup fields (codes "content-type")) (or_empty body);
    }

abbrev pub dictionary_of : Pairs → Dictionary Bytes
dictionary_of pairs = after pairs dictionary_constructor

unfoldable pub request_of : Parts → HttpRequest
request_of p = record {
  request_line = dictionary_of p.line;
  header_fields = dictionary_of p.fields;
  body = dictionary_of p.form;
}

pub empty_request-IsValid : IsValidRequest empty_request
unfolding empty_request
empty_request-IsValid = record {
  line = dictionary_constructor-IsValid;
  fields = dictionary_constructor-IsValid;
  form = dictionary_constructor-IsValid;
}

pub search-dictionary_of :
    (pairs : Pairs) (key : Bytes)
    → search_dict (some (dictionary_of pairs)) (some key) ≡ ok (lookup pairs key)
search-dictionary_of pairs key =
    search_dict_lem (dictionary_of pairs) key ∙ ap ok (contents-dictionary_of pairs key)

if_line :
    (r : HttpRequest) (s : Bytes)
    → IsValidRequest r
    → extract_if extract_request_line_fields r (some s)
      ≡ ok (with_line r (line_pairs (tokens is_space s)))
unfolding extract_if
if_line r [] v = unfold tokens line_pairs after in refl
if_line r (c ∷ s) v = extract_request_line_fields_lem r (c ∷ s) v

if_fields :
    (r : HttpRequest) (s : Option Bytes)
    → IsValidRequest r
    → extract_if extract_header_fields r s
      ≡ ok (with_fields r (fields_of (tokens is_crlf (or_empty s))))
unfolding extract_if
if_fields r none v = unfold tokens fields_of after in refl
if_fields r (some []) v = unfold tokens fields_of after in refl
if_fields r (some (c ∷ s)) v = extract_header_fields_lem r (c ∷ s) v

if_body :
    (r : HttpRequest) (s : Option Bytes)
    → IsValidRequest r
    → extract_if extract_body r s
      ≡ ok (with_body r (body_pairs (contents r.header_fields (codes "content-type")) (or_empty s)))
unfolding extract_if
if_body r none v = unfold body_pairs after in refl
if_body r (some []) v = unfold body_pairs after in refl
if_body r (some (c ∷ s)) v = extract_body_lem r c s v

extract_parts_lem : (s : Bytes) → extract_parts empty_request s ≡ ok (request_of (parts_of s))
unfolding extract_parts parts_of request_of
extract_parts_lem s =
    let (head, body) = cut_at s (crlf ++ crlf) in
    let (line, headers) = cut_at head crlf in
    let v = empty_request-IsValid in
    let p1 = line_pairs (tokens is_space line) in
    let v1 = with_line-IsValidRequest empty_request v p1 in
    let r1 = with_line empty_request p1 in
    let p2 = fields_of (tokens is_crlf (or_empty headers)) in
    let v2 = with_fields-IsValidRequest r1 v1 p2 in
    rw (if_line empty_request line v, if_fields r1 headers v1, if_body (with_fields r1 p2) body v2)
      (unfold empty_request in rw (contents-dictionary_of p2 (codes "content-type")))

-- Every request is parsed without a fault, and the three dictionaries are those of its parts.
pub http_request_constructor_lem :
    (s : Bytes) → http_request_constructor (some s) ≡ ok (request_of (parts_of s))
unfolding http_request_constructor
http_request_constructor_lem [] =
    unfold parts_of request_of empty_request cut_at strstr tokens fields_of line_pairs body_pairs
      after in
    refl
http_request_constructor_lem (c ∷ s) = extract_parts_lem (c ∷ s)
