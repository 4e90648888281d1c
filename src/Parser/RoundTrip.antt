-- ===== src/Parser/RoundTrip.antt =====
-- A well-formed request, written out and parsed, is read back.
use let_us_connect_http_serv.Base.{
  All, Bytes, List, Option, [], ap, codes, none, ok, or_empty, refl, some, ◌∙◌, ◌∷◌, ◌≡◌,
}
use let_us_connect_http_serv.CString.Split.{tokens}
use let_us_connect_http_serv.Dictionary.{search_dict}
use let_us_connect_http_serv.Dictionary.History.{lookup}
use let_us_connect_http_serv.Parser.{HttpRequest, http_request_constructor, is_crlf}
use let_us_connect_http_serv.Parser.Fields.{Pairs, body_pairs}
use let_us_connect_http_serv.Parser.Meaning.{
  dictionary_of, http_request_constructor_lem, parts_of, request_of, search-dictionary_of,
}
use let_us_connect_http_serv.Parser.Print.{
  IsLine, cut_at-joined, cut_at-text, rest_of, tokens-joined,
}
use let_us_connect_http_serv.Parser.Message.{
  IsHeader, IsWellFormed, Message, fields_of-header_lines, first_line, first_line-IsLine,
  header_line-IsLine, header_lines, line_pairs-first_line, lowered, print,
}

header_lines-IsLine : (hs : List (Bytes × Bytes)) → All IsHeader hs → All IsLine (header_lines hs)
unfolding header_lines
header_lines-IsLine [] f = tt
header_lines-IsLine (h ∷ hs) f = (header_line-IsLine h f.0, header_lines-IsLine hs f.1)

tokens-rest_of : (ls : List Bytes) → All IsLine ls → tokens is_crlf (or_empty (rest_of ls)) ≡ ls
unfolding rest_of
tokens-rest_of [] h = unfold tokens in refl
tokens-rest_of (l ∷ ls) h = tokens-joined l ls h.0 h.1

abbrev three_words : Message → Pairs
three_words m =
    (codes "method", m.method) ∷ (codes "uri", m.uri) ∷ (codes "http_version", m.version) ∷ []

-- The parts of a printed request.
pub parts_of-print :
    (m : Message)
    → IsWellFormed m
    → parts_of (print m) ≡ record {
      line = three_words m;
      fields = lowered m.headers;
      form = body_pairs (lookup (lowered m.headers) (codes "content-type")) m.content;
    }
unfolding parts_of print
parts_of-print m w =
    let ls = header_lines m.headers in
    let hl = first_line-IsLine m w in
    let hs = header_lines-IsLine m.headers w.headers_fine in
    rw (
      cut_at-text (first_line m) ls m.content hl hs,
      cut_at-joined (first_line m) ls hl,
      tokens-rest_of ls hs,
      line_pairs-first_line m w,
      fields_of-header_lines m.headers w.headers_fine,
    )

-- What a reader of the parsed request sees.
pub record Reads (r : HttpRequest) (m : Message) : Type 0 where
  pub method_read : search_dict (some r.request_line) (some (codes "method")) ≡ ok (some m.method)
  pub uri_read : search_dict (some r.request_line) (some (codes "uri")) ≡ ok (some m.uri)
  pub version_read :
      search_dict (some r.request_line) (some (codes "http_version")) ≡ ok (some m.version)
  pub header_read :
      (name : Bytes)
      → search_dict (some r.header_fields) (some name) ≡ ok (lookup (lowered m.headers) name)
  pub content_read :
      search_dict (some r.body) (some (codes "data"))
      ≡ ok (elim m.content [ [] ↦ none | c ∷ s ↦ some (c ∷ s) ])

body_read :
    (content_type : Option Bytes) (content : Bytes)
    → lookup (body_pairs content_type content) (codes "data")
      ≡ elim content [ [] ↦ none | c ∷ s ↦ some (c ∷ s) ]
unfolding lookup body_pairs
body_read content_type [] = refl
body_read content_type (c ∷ s) = refl

-- Parsing a well-formed request that was written out succeeds: the method, the URI, the version
-- and the body read back, and each header under its name in lower case, the first of a name.
pub http_request_constructor-print :
    (m : Message)
    → IsWellFormed m
    → (r : HttpRequest) × (http_request_constructor (some (print m)) ≡ ok r) × Reads r m
unfolding request_of lookup
http_request_constructor-print m w = (
  request_of (parts_of (print m)),
  http_request_constructor_lem (print m),
  record {
    method_read = read_line (codes "method");
    uri_read = read_line (codes "uri");
    version_read = read_line (codes "http_version");
    header_read =
        λ name. search-dictionary_of (parts_of (print m)).fields name ∙ rw (parts_of-print m w);
    content_read =
        search-dictionary_of (parts_of (print m)).form (codes "data")
        ∙ rw (parts_of-print m w)
            (ap ok (body_read (lookup (lowered m.headers) (codes "content-type")) m.content));
  },
)
  where
    read_line :
        (key : Bytes)
        → search_dict (some (dictionary_of (parts_of (print m)).line)) (some key)
          ≡ ok (lookup (three_words m) key)
    read_line key = search-dictionary_of (parts_of (print m)).line key ∙ rw (parts_of-print m w)
