-- ===== src/Connections/Tests.antt =====
-- A table of two slots, of which the first has half a request and its time is up.
use let_us_connect_http_serv.Base.{List, [], codes, false, refl, some, true, ◌∷◌, ◌≡◌}
use let_us_connect_http_serv.Connections.{
  ClientConnection, check_keepalive_timeouts, claim, is_expired, received,
}
use let_us_connect_http_serv.Connections.Sockets.{stale_read}

abbrev silent : ClientConnection
silent = record {
  fd = 5;
  last_activity = 100;
  is_active = true;
  is_busy = false;
  read_buffer = codes "GET /a";
}

abbrev busy : ClientConnection
busy = record { fd = 6; last_activity = 100; is_active = true; is_busy = true; read_buffer = [] }

stale_read_example :
    (d : ClientConnection) × (ds : List ClientConnection) × (claim 7 110
        (check_keepalive_timeouts 110 (silent ∷ busy ∷ [])).0
      ≡ some (0, d ∷ ds))
    × (d.fd ≡ 7)
    × ((received (codes "GET /b") d).read_buffer ≡ codes "GET /aGET /b")
stale_read_example =
    stale_read silent (busy ∷ []) 7 110 (codes "GET /b") (unfold is_expired in refl)
