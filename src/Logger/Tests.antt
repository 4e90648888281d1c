-- ===== src/Logger/Tests.antt =====
-- A run that opens the log file twice, writes, closes, and writes again.
use let_us_connect_http_serv.Base.{List, [], codes, none, pos, refl, some, true, ◌++◌, ◌∷◌, ◌≡◌}
use let_us_connect_http_serv.CString.Format.{decimal}
use let_us_connect_http_serv.Logger.{Request, line, or_dash}
use let_us_connect_http_serv.Logger.Session.{
  Call, destroy, init, log, logger_with, open_after, steps, steps-refines, written,
}

abbrev request : Request
request = record {
  client_ip = some (codes "10.0.0.1");
  method = some (codes "GET");
  path = none;
  status_code = pos 200;
  host = some (codes "x.dev");
}

abbrev calls : List Call
calls =
    init (some (codes "server.log")) true
    ∷ init none true
    ∷ log (codes "now") request
    ∷ destroy
    ∷ log (codes "later") request
    ∷ []

one_line :
    written (some (codes "server.log")) none calls
    ≡ codes "10.0.0.1 - - [now] \"GET -\" 200 (Host: x.dev)\n"
unfolding written line or_dash decimal
one_line = refl

no_line_elsewhere : written (some (codes "other.log")) none calls ≡ []
unfolding written
no_line_elsewhere = refl

steps-refines_example :
    steps calls (logger_with none [] (λ _. codes "old\n"))
    ≡ logger_with
        (open_after none calls)
        ([] ++ written none none calls)
        (λ path. codes "old\n" ++ written (some path) none calls)
steps-refines_example = steps-refines calls none [] (λ _. codes "old\n")
