-- ===== src/Parser/Message.antt =====
-- A request as a client writes it, line by line, and what each line is parsed to.
use let_us_connect_http_serv.Base.{
  ==_refl, All, All-append, Bool, Bytes, List, [], codes, false, map, refl, some, ℕ, ◌++◌, ◌==◌,
  ◌∷◌, ◌≡◌, ◌≢◌,
}
use let_us_connect_http_serv.CString.Token.{Free, skip_while}
use let_us_connect_http_serv.CString.Search.{isspace, strchr, tolower}
use let_us_connect_http_serv.CString.Split.{tokens, tokens_last, tokens_next}
use let_us_connect_http_serv.Parser.{is_crlf, is_space, trim_end, trim_whitespace}
use let_us_connect_http_serv.Parser.Fields.{Pairs, field_of, fields_of, keyed, line_pairs}
use let_us_connect_http_serv.Parser.Print.{IsLine, text}

pub record Message : Type 0 where
  pub method : Bytes
  pub uri : Bytes
  pub version : Bytes
  pub headers : List (Bytes × Bytes)
  pub content : Bytes

unfoldable pub first_line : Message → Bytes
first_line m = m.method ++ (b' ' ∷ (m.uri ++ (b' ' ∷ m.version)))

unfoldable pub header_line : Bytes × Bytes → Bytes
header_line (name, value) = name ++ (b':' ∷ b' ' ∷ value)

unfoldable pub header_lines : List (Bytes × Bytes) → List Bytes
header_lines [] = []
header_lines (h ∷ hs) = header_line h ∷ header_lines hs

-- `METHOD uri version`, the header lines `name: value`, a blank line and the body.
unfoldable pub print : Message → Bytes
print m = text (first_line m ∷ header_lines m.headers) m.content

-- A word of the request line: not empty, with no space, CR or LF.
pub record IsWord (s : Bytes) : Type 0 where
  pub clean : Free is_crlf s
  pub unspaced : Free is_space s
  pub ne_nil : s ≢ []

-- No white space at either end.
abbrev pub IsTrimmedEnd : Bytes → Type 0
IsTrimmedEnd [] = Unit
IsTrimmedEnd (c ∷ []) = isspace c ≡ false
IsTrimmedEnd (c ∷ d ∷ s) = IsTrimmedEnd (d ∷ s)

abbrev pub IsTrimmed : Bytes → Type 0
IsTrimmed [] = Unit
IsTrimmed (c ∷ s) = (isspace c ≡ false) × IsTrimmedEnd (c ∷ s)

abbrev is_colon : ℕ → Bool
is_colon c = c == b':'

pub record IsHeader (h : Bytes × Bytes) : Type 0 where
  pub name_clean : Free is_crlf h.0
  pub name_no_colon : Free is_colon h.0
  pub name_trimmed : IsTrimmed h.0
  pub name_ne_nil : h.0 ≢ []
  pub value_clean : Free is_crlf h.1
  pub value_trimmed : IsTrimmed h.1

pub record IsWellFormed (m : Message) : Type 0 where
  pub method_word : IsWord m.method
  pub uri_word : IsWord m.uri
  pub version_word : IsWord m.version
  pub headers_fine : All IsHeader m.headers

-- The headers with their names in lower case.
unfoldable pub lowered : List (Bytes × Bytes) → Pairs
lowered [] = []
lowered ((name, value) ∷ hs) = (map tolower name, value) ∷ lowered hs

trim_end_trimmed : (s : Bytes) → IsTrimmedEnd s → trim_end s ≡ s
unfolding trim_end
trim_end_trimmed [] h = refl
trim_end_trimmed (c ∷ []) h = rw h
trim_end_trimmed (c ∷ d ∷ s) h = rw (trim_end_trimmed (d ∷ s) h)

trim_whitespace_trimmed : (s : Bytes) → IsTrimmed s → trim_whitespace s ≡ s
unfolding trim_whitespace skip_while
trim_whitespace_trimmed [] h = refl
trim_whitespace_trimmed (c ∷ []) h = rw h.0
trim_whitespace_trimmed (c ∷ d ∷ s) h = rw (h.0, trim_end_trimmed (d ∷ s) h.1)

trim_whitespace_space : (s : Bytes) → trim_whitespace (b' ' ∷ s) ≡ trim_whitespace s
unfolding trim_whitespace skip_while
trim_whitespace_space s = refl

strchr-Free :
    (p : Bytes) (a : ℕ) (s : Bytes)
    → Free (λ c. c == a) p
    → strchr (p ++ (a ∷ s)) a ≡ some (p, a ∷ s)
unfolding strchr
strchr-Free [] a s f = rw ==_refl
strchr-Free (c ∷ p) a s f = rw (f.0, strchr-Free p a s f.1)

keyed_ne_nil : (name value : Bytes) → name ≢ [] → keyed name value ≡ (map tolower name, value) ∷ []
keyed_ne_nil [] value n = absurd (n refl)
keyed_ne_nil (c ∷ name) value n = refl

append-ne-nil : (s t : Bytes) → s ≢ [] → s ++ t ≢ []
append-ne-nil [] t n = absurd (n refl)
append-ne-nil (c ∷ s) t n = λ e. cc

-- A header line gives its field.
field_of-header_line :
    (h : Bytes × Bytes) → IsHeader h → field_of (header_line h) ≡ (map tolower h.0, h.1) ∷ []
unfolding field_of header_line
field_of-header_line (name, value) h =
    rw
      (
        strchr-Free name b':' (b' ' ∷ value) h.name_no_colon,
        trim_whitespace_trimmed name h.name_trimmed,
        trim_whitespace_space value,
        trim_whitespace_trimmed value h.value_trimmed,
      )
      (keyed_ne_nil name value h.name_ne_nil)

pub fields_of-header_lines :
    (hs : List (Bytes × Bytes)) → All IsHeader hs → fields_of (header_lines hs) ≡ lowered hs
unfolding fields_of header_lines lowered
fields_of-header_lines [] f = refl
fields_of-header_lines (h ∷ hs) f = rw (field_of-header_line h f.0, fields_of-header_lines hs f.1)

pub header_line-IsLine : (h : Bytes × Bytes) → IsHeader h → IsLine (header_line h)
unfolding header_line
header_line-IsLine (name, value) h = record {
  clean =
      All-append (λ c. is_crlf c ≡ false) name (b':' ∷ b' ' ∷ value) h.name_clean
        (refl, (refl, h.value_clean));
  ne_nil = append-ne-nil name (b':' ∷ b' ' ∷ value) h.name_ne_nil;
}

pub first_line-IsLine : (m : Message) → IsWellFormed m → IsLine (first_line m)
unfolding first_line
first_line-IsLine m w = record {
  clean =
      All-append (λ c. is_crlf c ≡ false) m.method (b' ' ∷ (m.uri ++ (b' ' ∷ m.version)))
        w.method_word.clean
        (
          refl,
          All-append (λ c. is_crlf c ≡ false) m.uri (b' ' ∷ m.version) w.uri_word.clean
              (refl, w.version_word.clean),
        );
  ne_nil = append-ne-nil m.method (b' ' ∷ (m.uri ++ (b' ' ∷ m.version))) w.method_word.ne_nil;
}

pub line_pairs-first_line :
    (m : Message)
    → IsWellFormed m
    → line_pairs (tokens is_space (first_line m))
      ≡ (codes "method", m.method) ∷ (codes "uri", m.uri) ∷ (codes "http_version", m.version) ∷ []
unfolding first_line line_pairs
line_pairs-first_line m w =
    let mw = w.method_word in
    let uw = w.uri_word in
    let vw = w.version_word in
    rw (
      tokens_next is_space m.method b' ' (m.uri ++ (b' ' ∷ m.version)) mw.ne_nil mw.unspaced refl,
      tokens_next is_space m.uri b' ' m.version uw.ne_nil uw.unspaced refl,
      tokens_last is_space m.version vw.ne_nil vw.unspaced,
    )
