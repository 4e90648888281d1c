-- ===== src/Worker/Ends.antt =====
-- What becomes of a connection and its socket, on every branch of the work.
use let_us_connect_http_serv.Base.{
  >>=-eq-ok, Bool, Bool-cases, List, Option, [], codes, false, inl, inr, ok, refl, some, subst,
  true, ℕ, ◌++◌, ◌∷◌, ◌≡◌, ◌⊎◌,
}
use let_us_connect_http_serv.Dictionary.{Dictionary, search_dict}
use let_us_connect_http_serv.Parser.{http_request_constructor, http_request_destructor}
use let_us_connect_http_serv.Handler.{Action, keep_alive_of}
use let_us_connect_http_serv.Connections.{ClientConnection, received}
use let_us_connect_http_serv.Worker.{
  Received, Route, Worked, answer, c_string, dropped, ended, find_route, finished, got, kept,
  nothing_yet, read_on, request_complete, route, work,
}

-- The socket stays with the connection, or is closed once with the slot given up.
abbrev pub Ends : ℕ → ClientConnection → Worked → Type 0
Ends client_fd conn w =
    ((w.closed ≡ []) × (w.conn.is_active ≡ conn.is_active) × (w.conn.fd ≡ conn.fd))
    ⊎ ((w.closed ≡ client_fd ∷ []) × (w.conn.is_active ≡ false))

finished-Ends :
    (now client_fd : ℕ) (keep_alive : Bool) (actions : List Action) (conn : ClientConnection)
    → Ends client_fd conn (finished now client_fd keep_alive actions conn)
unfolding finished
finished-Ends now client_fd true actions conn = elim (Bool-cases conn.is_active) [
  | inl a ↦ simp a (inl (refl, refl, refl))
  | inr a ↦ simp a (inr (refl, refl))
]
finished-Ends now client_fd false actions conn = inr (refl, refl)

answer-Ends :
    (now : ℕ) (routes : Option (Dictionary Route)) (client_fd : ℕ) (conn : ClientConnection)
    (w : Worked)
    → answer now routes client_fd conn ≡ ok w
    → Ends client_fd conn w
unfolding answer
answer-Ends now routes client_fd conn w e =
    let (req, _, e1) =
      >>=-eq-ok (http_request_constructor (some (c_string conn.read_buffer))) _ e in
    let (connection_val, _, e2) =
      >>=-eq-ok (search_dict (some req.header_fields) (some (codes "connection"))) _ e1 in
    let (uri, _, e3) = >>=-eq-ok (search_dict (some req.request_line) (some (codes "uri"))) _ e2 in
    let (handler, _, e4) = >>=-eq-ok (find_route routes uri) _ e3 in
    let (actions, _, e5) = >>=-eq-ok (route routes handler req) _ e4 in
    let (left, _, e6) = >>=-eq-ok (http_request_destructor (some req)) _ e5 in
    let end : finished now client_fd (keep_alive_of connection_val) actions conn ≡ w = cc in
    subst (Ends client_fd conn) end
      (finished-Ends now client_fd (keep_alive_of connection_val) actions conn)

pub work-Ends :
    (now : ℕ) (routes : Option (Dictionary Route)) (client_fd : ℕ) (r : Received)
    (conn : ClientConnection) (w : Worked)
    → work now routes client_fd r conn ≡ ok w
    → Ends client_fd conn w
unfolding work read_on received
work-Ends now routes client_fd (got s) conn w e =
    let (full, _, f) = >>=-eq-ok (request_complete (conn.read_buffer ++ s)) _ e in by_full full f
  where
    by_full :
        (full : Bool)
        → read_on now routes client_fd (received s conn) full ≡ ok w
        → Ends client_fd conn w
    by_full true f = answer-Ends now routes client_fd (received s conn) w f
    by_full false f =
        let end : record { conn = kept now (received s conn); actions = []; closed = [] } ≡ w =
          cc in
        subst (Ends client_fd conn) end (inl (refl, refl, refl))
work-Ends now routes client_fd nothing_yet conn w e =
    let end : record { conn = record conn { is_busy = false }; actions = []; closed = [] } ≡ w =
      cc in
    subst (Ends client_fd conn) end (inl (refl, refl, refl))
work-Ends now routes client_fd ended conn w e =
    let end : dropped client_fd conn [] ≡ w = cc in
    subst (Ends client_fd conn) end (inr (refl, refl))

pub work-ended :
    (now : ℕ) (routes : Option (Dictionary Route)) (client_fd : ℕ) (conn : ClientConnection)
    → work now routes client_fd ended conn ≡ ok (dropped client_fd conn [])
unfolding work
work-ended now routes client_fd conn = refl
