-- ===== src/Worker/Answer.antt =====
-- The answer to a whole request, and what becomes of its connection.
use let_us_connect_http_serv.Base.{
  All, Bool, Bool-cases, Bytes, List, Option, Option-cases, [], ap, bytes_eq, codes, false, inl,
  inr, none, ok, refl, some, subst, true, ℕ, ◌++◌, ◌∙◌, ◌∷◌, ◌≡◌, ◌⊎◌,
}
use let_us_connect_http_serv.LinkedList.{LinkedList}
use let_us_connect_http_serv.Dictionary.{
  Dictionary, Entry, dictionary_constructor, dictionary_destructor, search_dict,
}
use let_us_connect_http_serv.Dictionary.Laws.{IsValid, contents, search_dict_lem}
use let_us_connect_http_serv.Dictionary.History.{
  after, after-IsValid, contents-dictionary_of, dictionary_constructor-IsValid, lookup,
}
use let_us_connect_http_serv.Dictionary.Destroy.{dictionary_destructor-leaks}
use let_us_connect_http_serv.Parser.{HttpRequest, http_request_destructor}
use let_us_connect_http_serv.Parser.Fields.{Pairs}
use let_us_connect_http_serv.Parser.Meaning.{
  Parts, dictionary_of, http_request_constructor_lem, parts_of, request_of,
}
use let_us_connect_http_serv.Handler.{Action, keep_alive_of}
use let_us_connect_http_serv.Handler.Reply.{Answered, Answers}
use let_us_connect_http_serv.Connections.{ClientConnection, received}
use let_us_connect_http_serv.Worker.{
  Route, Worked, answer, any_route, c_string, fallback, find_route, finished, got, read_on,
  request_complete, route, work,
}

-- A route whose handler answers every request.
abbrev pub IsAnswering : Bytes × Route → Type 0
IsAnswering (uri, handler) = (req : HttpRequest) → Answered (handler req)

-- The connection is released for the next request, or its socket is closed once; its buffer is
-- empty.
pub record Settles (client_fd : ℕ) (w : Worked) : Type 0 where
  pub emptied : w.conn.read_buffer ≡ []
  pub released :
      ((w.conn.is_busy ≡ false) × (w.conn.is_active ≡ true) × (w.closed ≡ []))
      ⊎ ((w.conn.is_active ≡ false) × (w.closed ≡ client_fd ∷ []))

finished-Settles :
    (now client_fd : ℕ) (keep_alive : Bool) (actions : List Action) (conn : ClientConnection)
    → Settles client_fd (finished now client_fd keep_alive actions conn)
      × ((finished now client_fd keep_alive actions conn).actions ≡ actions)
unfolding finished
finished-Settles now client_fd true actions conn = elim (Bool-cases conn.is_active) [
  | inl a ↦ simp a (record { emptied = refl; released = inl (refl, refl, refl) }, refl)
  | inr a ↦ simp a (record { emptied = refl; released = inr (refl, refl) }, refl)
]
finished-Settles now client_fd false actions conn =
    (record { emptied = refl; released = inr (refl, refl) }, refl)

destructor_of :
    (r : HttpRequest) (a b c : Option (LinkedList Bytes) × List (Entry Bytes))
    → dictionary_destructor r.request_line ≡ ok a
    → dictionary_destructor r.header_fields ≡ ok b
    → dictionary_destructor r.body ≡ ok c
    → http_request_destructor (some r) ≡ ok (a.0 ∷ b.0 ∷ c.0 ∷ [])
unfolding http_request_destructor
destructor_of r a b c ea eb ec = rw (ea, eb, ec) refl

valid : (pairs : Pairs) → IsValid (dictionary_of pairs)
valid pairs = after-IsValid pairs dictionary_constructor dictionary_constructor-IsValid

http_request_destructor-request_of :
    (p : Parts)
    → (left : List (Option (LinkedList Bytes))) × (http_request_destructor (some (request_of p))
        ≡ ok left)
unfolding request_of
http_request_destructor-request_of p =
    let (_, line, _) = dictionary_destructor-leaks (dictionary_of p.line) (valid p.line) in
    let (_, fields, _) = dictionary_destructor-leaks (dictionary_of p.fields) (valid p.fields) in
    let (_, form, _) = dictionary_destructor-leaks (dictionary_of p.form) (valid p.form) in
    (_, destructor_of (request_of p) _ _ _ line fields form)

-- A handler that is found answers.
lookup-Answered :
    (pairs : List (Bytes × Route)) (key : Bytes) (handler : Route) (req : HttpRequest)
    → All IsAnswering pairs
    → lookup pairs key ≡ some handler
    → Answered (handler req)
unfolding lookup
lookup-Answered [] key handler req all e = cc
lookup-Answered ((name, found) ∷ pairs) key handler req all e =
    elim (Bool-cases (bytes_eq name key)) [
      | inl b ↦
          let here : some found ≡ some handler = rw b at e in
          let same : found ≡ handler = cc in subst (λ h. Answered (h req)) same (all.0 req)
      | inr b ↦ lookup-Answered pairs key handler req all.1 (rw b at e)
    ]

-- The table that registers these handlers.
abbrev pub routes_of : List (Bytes × Route) → Dictionary Route
routes_of pairs = after pairs dictionary_constructor

module _ (pairs : List (Bytes × Route)) (answering : All IsAnswering pairs) where
  search-routes_of :
      (key : Bytes) → search_dict (some (routes_of pairs)) (some key) ≡ ok (lookup pairs key)
  search-routes_of key =
      search_dict_lem (routes_of pairs) key ∙ ap ok (contents-dictionary_of pairs key)

  module _ (star : Route) (registered : lookup pairs (codes "*") ≡ some star) where
    fallback-Answered : (req : HttpRequest) → Answered (route (some (routes_of pairs)) none req)
    unfolding route any_route fallback
    fallback-Answered req =
        rw (search-routes_of (codes "*"), registered)
          (lookup-Answered pairs (codes "*") star req answering registered)

    route-Answered :
        (uri : Bytes) (req : HttpRequest)
        → Answered (route (some (routes_of pairs)) (lookup pairs uri) req)
    unfolding route
    route-Answered uri req = elim (Option-cases (lookup pairs uri)) [
      | inl e ↦ rw e (fallback-Answered req)
      | inr (handler, e) ↦ rw e (lookup-Answered pairs uri handler req answering e)
    ]

    -- The route that is looked up, for a URI or for none.
    abbrev found_for : Option Bytes → Option Route
    found_for none = none
    found_for (some uri) = lookup pairs uri

    find_route_lem :
        (uri : Option Bytes) → find_route (some (routes_of pairs)) uri ≡ ok (found_for uri)
    unfolding find_route
    find_route_lem none = refl
    find_route_lem (some uri) = search-routes_of uri

    found_for-Answered :
        (uri : Option Bytes) (req : HttpRequest)
        → Answered (route (some (routes_of pairs)) (found_for uri) req)
    found_for-Answered none req = fallback-Answered req
    found_for-Answered (some uri) req = route-Answered uri req

    -- When a read makes the request whole, and the table of routes has handlers that answer and
    -- one for "*", the work runs without a fault: the request is answered once, with the status
    -- that is logged, and its connection is released for the next request with an empty buffer,
    -- or its socket is closed, once.
    pub work-Answers :
        (now client_fd : ℕ) (s : Bytes) (conn : ClientConnection)
        → request_complete (conn.read_buffer ++ s) ≡ ok true
        → (w : Worked) × (code : ℕ) × (work now (some (routes_of pairs)) client_fd (got s) conn
            ≡ ok w)
          × Answers code w.actions
          × Settles client_fd w
    unfolding work read_on answer received
    work-Answers now client_fd s conn full =
        let req = request_of (parts_of (c_string (conn.read_buffer ++ s))) in
        let uri = contents req.request_line (codes "uri") in
        let ka = keep_alive_of (contents req.header_fields (codes "connection")) in
        let (actions, code, done, answers) = found_for-Answered uri req in
        let (left, freed) =
          http_request_destructor-request_of (parts_of (c_string (conn.read_buffer ++ s))) in
        let (settles, same) = finished-Settles now client_fd ka actions (received s conn) in
        (
          finished now client_fd ka actions (received s conn),
          code,
          rw
              (
                full,
                http_request_constructor_lem (c_string (conn.read_buffer ++ s)),
                search_dict_lem req.header_fields (codes "connection"),
                search_dict_lem req.request_line (codes "uri"),
                find_route_lem uri,
                done,
                freed,
              )
              refl,
          rw same answers,
          settles,
        )
