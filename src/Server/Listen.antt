-- ===== src/Server/Listen.antt =====
-- `network_init`, `make_nonblocking` and `network_shutdown` of network/network.c, with what the
-- socket calls return as parameters.
use let_us_connect_http_serv.Base.{
  Bool, Bool-cases, List, Option, [], false, if◌then◌else◌, inl, inr, none, not, refl, some, true,
  ℕ, ◌&&◌, ◌∷◌, ◌≡◌, ◌⊎◌,
}
use let_us_connect_http_serv.Connections.{ClientConnection}
use let_us_connect_http_serv.Server.Invariant.{AllFree}

-- The socket that `socket` makes, and whether each of the other calls succeeds.
pub record Calls : Type 0 where
  pub socket : Option ℕ
  pub setsockopt : Bool
  pub get_flags : Bool
  pub set_flags : Bool
  pub bind : Bool
  pub listen : Bool

-- What is returned (-1 is `none`), the sockets closed, and the table.
pub record Listening : Type 0 where
  pub server_fd : Option ℕ
  pub closed : List ℕ
  pub conns : List ClientConnection

-- 0 is `true`.
make_nonblocking : Bool → Bool → Bool
make_nonblocking false set_flags = false
make_nonblocking true set_flags = set_flags

refused : ℕ → List ClientConnection → Listening
refused fd cs = record { server_fd = none; closed = fd ∷ []; conns = cs }

-- The slots of the table, each `is_active = 0` and `is_busy = 0`.
clear_slots : List ClientConnection → List ClientConnection
clear_slots [] = []
clear_slots (c ∷ cs) = record c { is_active = false; is_busy = false } ∷ clear_slots cs

with_socket : Calls → List ClientConnection → Option ℕ → Listening
unfolding make_nonblocking refused clear_slots
with_socket calls cs none = record { server_fd = none; closed = []; conns = cs }
with_socket calls cs (some fd) =
    if not calls.setsockopt
    then refused fd cs
    else if not (make_nonblocking calls.get_flags calls.set_flags)
    then refused fd cs
    else if not calls.bind
    then refused fd cs
    else if not calls.listen
    then refused fd cs
    else record { server_fd = some fd; closed = []; conns = clear_slots cs }

pub network_init : Calls → List ClientConnection → Listening
unfolding with_socket
network_init calls cs = with_socket calls cs calls.socket

-- The socket that is closed.
pub network_shutdown : ℕ → List ℕ
network_shutdown server_fd = server_fd ∷ []

abbrev pub all_succeed : Calls → Bool
all_succeed calls =
    calls.setsockopt && (calls.get_flags && (calls.set_flags && (calls.bind && calls.listen)))

clear_slots-AllFree : (cs : List ClientConnection) → AllFree (clear_slots cs)
unfolding clear_slots
clear_slots-AllFree [] = tt
clear_slots-AllFree (c ∷ cs) = (refl, clear_slots-AllFree cs)

-- The socket is returned over a table with no active slot when every call succeeds; else none is,
-- and the socket, if there is one, is closed.
abbrev pub Listens : Calls → Option ℕ → Listening → Type 0
Listens calls none l = (l.server_fd ≡ none) × (l.closed ≡ [])
Listens calls (some fd) l =
    ((all_succeed calls ≡ true) × (l.server_fd ≡ some fd) × (l.closed ≡ []) × AllFree l.conns)
    ⊎ ((all_succeed calls ≡ false) × (l.server_fd ≡ none) × (l.closed ≡ fd ∷ []))

with_socket-Listens :
    (calls : Calls) (cs : List ClientConnection) (socket : Option ℕ)
    → Listens calls socket (with_socket calls cs socket)
unfolding with_socket refused make_nonblocking
with_socket-Listens calls cs none = (refl, refl)
with_socket-Listens calls cs (some fd) = elim (Bool-cases calls.setsockopt) [
  | inr e ↦ simp e (inr (refl, refl, refl))
  | inl e1 ↦ elim (Bool-cases calls.get_flags) [
    | inr e ↦ simp (e1, e) (inr (refl, refl, refl))
    | inl e2 ↦ elim (Bool-cases calls.set_flags) [
      | inr e ↦ simp (e1, e2, e) (inr (refl, refl, refl))
      | inl e3 ↦ elim (Bool-cases calls.bind) [
        | inr e ↦ simp (e1, e2, e3, e) (inr (refl, refl, refl))
        | inl e4 ↦ elim (Bool-cases calls.listen) [
          | inr e ↦ simp (e1, e2, e3, e4, e) (inr (refl, refl, refl))
          | inl e5 ↦ simp (e1, e2, e3, e4, e5) (inl (refl, refl, refl, clear_slots-AllFree cs))
        ]
      ]
    ]
  ]
]

-- `network_init` returns the socket that it opened, over a table with no active slot, when every
-- call on it succeeds; when one fails it returns -1 with the socket closed, once, and without a
-- socket it returns -1 and closes none.
pub network_init-Listens :
    (calls : Calls) (cs : List ClientConnection)
    → Listens calls calls.socket (network_init calls cs)
unfolding network_init
network_init-Listens calls cs = with_socket-Listens calls cs calls.socket
