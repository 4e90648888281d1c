-- ===== src/Worker/Tests.antt =====
-- A short request in two pieces, answered by a handler that refuses.
use let_us_connect_http_serv.Base.{
  All, Bytes, List, [], arith, codes, false, fault, none, ok, refl, some, true, ℕ, ◌++◌, ◌∷◌, ◌≡◌,
}
use let_us_connect_http_serv.CString.Token.{skip_while, until}
use let_us_connect_http_serv.CString.Search.{is_prefix, isspace, strcasestr, strstr, tolower}
use let_us_connect_http_serv.CString.Number.{atoi}
use let_us_connect_http_serv.Dictionary.History.{lookup}
use let_us_connect_http_serv.Handler.{Fields, refuse}
use let_us_connect_http_serv.Handler.Reply.{Answers, refuse-Answered}
use let_us_connect_http_serv.Connections.{received}
use let_us_connect_http_serv.Worker.{Route, Worked, got, read_on, request_complete, work}
use let_us_connect_http_serv.Worker.Complete.{IsBounded, work-IsBounded}
use let_us_connect_http_serv.Worker.Pieces.{
  IsPartial, read_pieces, read_pieces-whole, reading, whole,
}
use let_us_connect_http_serv.Worker.Answer.{IsAnswering, Settles, routes_of, work-Answers}

abbrev nobody : Fields
nobody = record { client_ip = b'-' ∷ []; method = none; uri = none; version = none; host = none }

refusing : Route
refusing _ = refuse nobody 403

abbrev table : List (Bytes × Route)
table = (codes "*", refusing) ∷ []

table-IsAnswering : All IsAnswering table
unfolding refusing
table-IsAnswering = (λ req. refuse-Answered nobody 403 (omega arith), tt)

abbrev first_piece : Bytes
first_piece = codes "GET / HT"

abbrev second_piece : Bytes
second_piece = codes "TP/1.1\r\n\r\n"

first_piece-IsPartial : IsPartial [] ((5, first_piece) ∷ [])
unfolding request_complete strstr is_prefix until
first_piece-IsPartial = (refl, tt)

both_complete : request_complete (first_piece ++ second_piece) ≡ ok true
unfolding request_complete strstr strcasestr is_prefix until tolower
both_complete = refl

-- A length that is short by a byte, and one that is too large for the sum.
length_short : request_complete (codes "A\r\ncontent-length: 3\r\n\r\nxy") ≡ ok false
unfolding request_complete strstr strcasestr is_prefix until tolower atoi skip_while isspace
length_short = refl

length_overflow : request_complete (codes "A\r\nContent-Length: 2147483647\r\n\r\n") ≡ fault
unfolding request_complete strstr strcasestr is_prefix until tolower atoi skip_while isspace
length_overflow = refl

read_pieces-whole_example :
    read_pieces
      (some (routes_of table))
      7
      ((5, first_piece) ∷ [])
      6
      second_piece
      (reading 7 4 true [])
    ≡ work 6 (some (routes_of table)) 7 (got (first_piece ++ second_piece)) (reading 7 5 true [])
unfolding whole
read_pieces-whole_example =
    read_pieces-whole (some (routes_of table)) 7 ((5, first_piece) ∷ []) 6 second_piece 7 4 true []
      first_piece-IsPartial

work-Answers_example :
    (w : Worked) × (code : ℕ) × (work 6
        (some (routes_of table))
        7
        (got second_piece)
        (reading 7 5 true first_piece)
      ≡ ok w)
    × Answers code w.actions
    × Settles 7 w
work-Answers_example =
    work-Answers table table-IsAnswering refusing (unfold lookup in refl) 6 7 second_piece
      (reading 7 5 true first_piece) both_complete

abbrev waiting : Worked
waiting = record {
  conn = record (reading 7 6 true first_piece) { is_busy = false };
  actions = [];
  closed = [];
}

-- The first piece is within what `recv` was asked for.
read_first : work 6 none 7 (got first_piece) (reading 7 4 true []) ≡ ok waiting
unfolding work read_on request_complete strstr is_prefix until received
read_first = refl

work-IsBounded_example : IsBounded waiting.conn
work-IsBounded_example =
    work-IsBounded 6 none 7 (got first_piece) (reading 7 4 true []) waiting (omega arith)
      (omega arith) read_first
