-- ===== src/Parser/Tests.antt =====
-- Requests parsed by evaluation.
use let_us_connect_http_serv.Base.{
  Bytes, Option, Outcome, [], codes, crlf, ok, refl, some, ◌++◌, ◌>>=◌, ◌∷◌, ◌≡◌,
}
use let_us_connect_http_serv.CString.Search.{isspace}
use let_us_connect_http_serv.CString.Token.{strtok_r}
use let_us_connect_http_serv.CString.Compare.{strcmp}
use let_us_connect_http_serv.LinkedList.{LinkedList, advance, insert_ll}
use let_us_connect_http_serv.Tree.{insert_bst, iterate_bst, search_bst}
use let_us_connect_http_serv.Dictionary.{Dictionary, compare_string_keys, insert_dict, search_dict}
use let_us_connect_http_serv.Parser.{
  HttpRequest, empty_request, extract_body, extract_header_fields, extract_request_line_fields,
  http_request_constructor,
}
use let_us_connect_http_serv.Parser.Meaning.{http_request_constructor_lem, parts_of, request_of}
use let_us_connect_http_serv.Parser.Message.{IsWellFormed, Message, print}
use let_us_connect_http_serv.Parser.RoundTrip.{Reads, http_request_constructor-print}

abbrev get_request : Bytes
get_request =
    codes "GET /a.html HTTP/1.1"
    ++ (crlf
        ++ (codes "Host:  x.dev "
            ++ (crlf ++ (codes "HOST: y" ++ (crlf ++ (crlf ++ codes "k=v&data=z"))))))

reads : (HttpRequest → Dictionary Bytes) → Bytes → Outcome HttpRequest → Outcome (Option Bytes)
reads part key m = m >>= λ r. search_dict (some (part r)) (some key)

get_method :
    reads (λ r. r.request_line) (codes "method") (http_request_constructor (some get_request))
    ≡ ok (some (codes "GET"))
unfolding reads http_request_constructor empty_request extract_request_line_fields strtok_r
    extract_header_fields extract_body insert_dict insert_bst iterate_bst
    let_us_connect_http_serv.LinkedList.advance insert_ll search_dict search_bst compare_string_keys
    strcmp
get_method = refl

get_host :
    reads (λ r. r.header_fields) (codes "host") (http_request_constructor (some get_request))
    ≡ ok (some (codes "x.dev"))
unfolding reads http_request_constructor empty_request extract_request_line_fields strtok_r
    extract_header_fields extract_body insert_dict insert_bst iterate_bst
    let_us_connect_http_serv.LinkedList.advance insert_ll search_dict search_bst compare_string_keys
    strcmp
get_host = refl

abbrev sample : Message
sample = record {
  method = codes "GET";
  uri = codes "/a";
  version = codes "HTTP/1.1";
  headers = (codes "Host", codes "x.dev") ∷ (codes "HOST", codes "y") ∷ [];
  content = codes "k=v";
}

sample-IsWellFormed : IsWellFormed sample
unfolding isspace
sample-IsWellFormed = record {
  method_word = record {
    clean = (refl, (refl, (refl, tt)));
    unspaced = (refl, (refl, (refl, tt)));
    ne_nil = λ e. cc;
  };
  uri_word = record { clean = (refl, (refl, tt)); unspaced = (refl, (refl, tt)); ne_nil = λ e. cc };
  version_word = record {
    clean = (refl, (refl, (refl, (refl, (refl, (refl, (refl, (refl, tt))))))));
    unspaced = (refl, (refl, (refl, (refl, (refl, (refl, (refl, (refl, tt))))))));
    ne_nil = λ e. cc;
  };
  headers_fine = (
    record {
      name_clean = (refl, (refl, (refl, (refl, tt))));
      name_no_colon = (refl, (refl, (refl, (refl, tt))));
      name_trimmed = (refl, refl);
      name_ne_nil = λ e. cc;
      value_clean = (refl, (refl, (refl, (refl, (refl, tt)))));
      value_trimmed = (refl, refl);
    },
    (
      record {
        name_clean = (refl, (refl, (refl, (refl, tt))));
        name_no_colon = (refl, (refl, (refl, (refl, tt))));
        name_trimmed = (refl, refl);
        name_ne_nil = λ e. cc;
        value_clean = (refl, tt);
        value_trimmed = (refl, refl);
      },
      tt,
    ),
  );
}

http_request_constructor-print_example :
    (r : HttpRequest) × (http_request_constructor (some (print sample)) ≡ ok r) × Reads r sample
http_request_constructor-print_example = http_request_constructor-print sample sample-IsWellFormed

http_request_constructor_lem_example :
    http_request_constructor (some get_request) ≡ ok (request_of (parts_of get_request))
http_request_constructor_lem_example = http_request_constructor_lem get_request
