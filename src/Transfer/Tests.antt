-- ===== src/Transfer/Tests.antt =====
-- A text taken in two calls with an interruption between them.
use let_us_connect_http_serv.Base.{List, [], arith, codes, ◌∷◌}
use let_us_connect_http_serv.Transfer.{Returned, interrupted, send_all, transferred, would_block}
use let_us_connect_http_serv.Transfer.Delivery.{Returns, send_all-Returns}

abbrev calls : List Returned
calls = transferred 2 ∷ interrupted ∷ transferred 1 ∷ would_block ∷ []

send_all-Returns_example : Returns (codes "abc") (send_all calls (codes "abc"))
send_all-Returns_example =
    send_all-Returns calls (codes "abc") (omega arith, (tt, (omega arith, (tt, tt)))) (omega arith)
      (λ e. cc)
