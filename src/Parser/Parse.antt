-- ===== src/Parser/Parse.antt =====
-- The parser never faults, and its dictionaries are those of the lists of pairs.
use let_us_connect_http_serv.Base.{
  Bool-cases, Bytes, List, Option, [], ap, arith, codes, if◌then◌else◌, inl, inr, length, none, ok,
  refl, some, suc, ℕ, ◌++◌, ◌∙◌, ◌∷◌, ◌≡◌,
}
use let_us_connect_http_serv.CString.Token.{strtok_r}
use let_us_connect_http_serv.CString.Split.{strtok_r-FirstToken, strtok_r_nil, tokens}
use let_us_connect_http_serv.Dictionary.{Dictionary}
use let_us_connect_http_serv.Dictionary.Laws.{
  IsValid, contents, insert_dict_lem, inserted-IsValid, search_dict_lem,
}
use let_us_connect_http_serv.Dictionary.History.{after, after-append}
use let_us_connect_http_serv.Parser.{
  HttpRequest, extract_body, extract_header_fields, extract_request_line_fields, form_fields,
  insert_if, insert_line, is_ampersand, is_crlf, is_form, is_space, store_line, store_pair,
}
use let_us_connect_http_serv.Parser.Loop.{fold, token_loop_lem}
use let_us_connect_http_serv.Parser.Fields.{
  IsValidRequest, Pairs, body_pairs, field_of, fields_of, line_pairs, pair_of, pairs_of,
  store_line_lem, store_pair_lem, with_body, with_body-IsValidRequest, with_fields, with_line,
}

fold-fields :
    (r : HttpRequest) (lines : List Bytes)
    → fold (λ q line. with_fields q (field_of line)) r lines ≡ with_fields r (fields_of lines)
unfolding fold fields_of
fold-fields r [] = unfold after in refl
fold-fields r (line ∷ lines) =
    fold-fields (with_fields r (field_of line)) lines
    ∙ rw (after-append (field_of line) (fields_of lines) r.header_fields)

fold-pairs :
    (r : HttpRequest) (pairs : List Bytes)
    → fold (λ q pair. with_body q (pair_of pair)) r pairs ≡ with_body r (pairs_of pairs)
unfolding fold pairs_of
fold-pairs r [] = unfold after in refl
fold-pairs r (pair ∷ pairs) =
    fold-pairs (with_body r (pair_of pair)) pairs
    ∙ rw (after-append (pair_of pair) (pairs_of pairs) r.body)

pub extract_header_fields_lem :
    (r : HttpRequest) (s : Bytes)
    → IsValidRequest r
    → extract_header_fields r s ≡ ok (with_fields r (fields_of (tokens is_crlf s)))
unfolding extract_header_fields
extract_header_fields_lem r s v =
    token_loop_lem IsValidRequest store_line (λ q line. with_fields q (field_of line))
      store_line_lem is_crlf (suc (length s)) r s (omega arith) v
    ∙ ap ok (fold-fields r (tokens is_crlf s))

form_fields_lem :
    (r : HttpRequest) (content_type : Option Bytes) (s : Bytes)
    → IsValidRequest r
    → form_fields content_type r s
      ≡ ok (with_body r (if is_form content_type then pairs_of (tokens is_ampersand s) else []))
unfolding form_fields
form_fields_lem r content_type s v = elim (Bool-cases (is_form content_type)) [
  | inl form ↦ rw form (
      token_loop_lem IsValidRequest store_pair (λ q pair. with_body q (pair_of pair)) store_pair_lem
        is_ampersand (suc (length s)) r s (omega arith) v
      ∙ ap ok (fold-pairs r (tokens is_ampersand s)))
  | inr other ↦ rw other (unfold after in refl)
]

pub extract_body_lem :
    (r : HttpRequest) (c : ℕ) (s : Bytes)
    → IsValidRequest r
    → extract_body r (c ∷ s)
      ≡ ok (with_body r (body_pairs (contents r.header_fields (codes "content-type")) (c ∷ s)))
unfolding extract_body body_pairs
extract_body_lem r c s v =
    let data_pair : Pairs = (codes "data", c ∷ s) ∷ [] in
    rw
      (
        insert_dict_lem r.body (codes "data") (c ∷ s) v.form,
        search_dict_lem r.header_fields (codes "content-type"),
      )
      (unfold after in
        form_fields_lem (with_body r data_pair) (contents r.header_fields (codes "content-type"))
          (c ∷ s) (with_body-IsValidRequest r v data_pair))

abbrev pair_if : Bytes → Option Bytes → Pairs
pair_if key none = []
pair_if key (some value) = (key, value) ∷ []

insert_if_lem :
    (d : Dictionary Bytes) (key : Bytes) (value : Option Bytes)
    → IsValid d
    → (insert_if d key value ≡ ok (after (pair_if key value) d))
      × IsValid (after (pair_if key value) d)
unfolding insert_if after
insert_if_lem d key none v = (refl, v)
insert_if_lem d key (some value) v = (insert_dict_lem d key value v, inserted-IsValid d key value v)

insert_line_lem :
    (d : Dictionary Bytes) (method uri version : Option Bytes)
    → IsValid d
    → insert_line d method uri version
      ≡ ok (
          after
            (pair_if (codes "method") method
              ++ (pair_if (codes "uri") uri ++ pair_if (codes "http_version") version))
            d)
unfolding insert_line
insert_line_lem d method uri version v =
    let m = pair_if (codes "method") method in
    let u = pair_if (codes "uri") uri in
    let w = pair_if (codes "http_version") version in
    let (e1, v1) = insert_if_lem d (codes "method") method v in
    let (e2, v2) = insert_if_lem (after m d) (codes "uri") uri v1 in
    let (e3, _) = insert_if_lem (after u (after m d)) (codes "http_version") version v2 in
    rw (after-append m (u ++ w) d, after-append u w (after m d), e1, e2, e3)

-- The three calls of `strtok_r` give the first three tokens, NULL from the first that is not there.
record Calls (s : Bytes) : Type 0 where
  method : Option Bytes
  uri : Option Bytes
  version : Option Bytes
  first : (strtok_r is_space s).0 ≡ method
  second : (strtok_r is_space (strtok_r is_space s).1).0 ≡ uri
  third : (strtok_r is_space (strtok_r is_space (strtok_r is_space s).1).1).0 ≡ version
  pairs :
      pair_if (codes "method") method
        ++ (pair_if (codes "uri") uri ++ pair_if (codes "http_version") version)
      ≡ line_pairs (tokens is_space s)

calls : (s : Bytes) → Calls s
unfolding line_pairs
calls s = elim (strtok_r-FirstToken is_space s) [
  | inl (cut, e) ↦ record {
    method = none;
    uri = none;
    version = none;
    first = rw cut;
    second = rw (cut, strtok_r_nil is_space);
    third = rw (cut, strtok_r_nil is_space, strtok_r_nil is_space);
    pairs = rw e;
  }
  | inr (t, rest, cut, e, _) ↦ elim (strtok_r-FirstToken is_space rest) [
    | inl (cut', e') ↦ record {
      method = some t;
      uri = none;
      version = none;
      first = rw cut;
      second = rw (cut, cut');
      third = rw (cut, cut', strtok_r_nil is_space);
      pairs = rw (e, e');
    }
    | inr (t', rest', cut', e', _) ↦ elim (strtok_r-FirstToken is_space rest') [
      | inl (cut'', e'') ↦ record {
        method = some t;
        uri = some t';
        version = none;
        first = rw cut;
        second = rw (cut, cut');
        third = rw (cut, cut', cut'');
        pairs = rw (e, e', e'');
      }
      | inr (t'', rest'', cut'', e'', _) ↦ record {
        method = some t;
        uri = some t';
        version = some t'';
        first = rw cut;
        second = rw (cut, cut');
        third = rw (cut, cut', cut'');
        pairs = rw (e, e', e'');
      }
    ]
  ]
]

pub extract_request_line_fields_lem :
    (r : HttpRequest) (s : Bytes)
    → IsValidRequest r
    → extract_request_line_fields r s ≡ ok (with_line r (line_pairs (tokens is_space s)))
unfolding extract_request_line_fields
extract_request_line_fields_lem r s v =
    let c = calls s in
    rw (
      c.first,
      c.second,
      c.third,
      insert_line_lem r.request_line c.method c.uri c.version v.line,
      c.pairs,
    )
