-- ===== src/Connections.antt =====
-- The table of connections of webserver_project/src/network/network.c: the slot that an accepted
-- client gets, the time-out, and the read of a worker into a slot (network/thread_pool.c). The
-- clock and what `recv` returns are parameters.
pub mod Sockets
pub mod Claimed
pub mod Tests
use let_us_connect_http_serv.Base.{
  Bool, Bytes, List, Option, [], false, if◌then◌else◌, leb, none, not, some, suc, true, zero, ℕ,
  ◌&&◌, ◌++◌, ◌-◌, ◌∷◌,
}

-- `struct ClientConnection`; the buffer is its bytes up to `read_length`.
pub record ClientConnection : Type 0 where
  pub fd : ℕ
  pub last_activity : ℕ
  pub is_active : Bool
  pub is_busy : Bool
  pub read_buffer : Bytes

unfoldable pub occupied : ℕ → ℕ → ClientConnection → ClientConnection
occupied client_fd now c = record c {
  fd = client_fd;
  last_activity = now;
  is_active = true;
  is_busy = true;
}

further : ClientConnection → Option (ℕ × List ClientConnection) → Option (ℕ × List ClientConnection)
further c none = none
further c (some (i, cs)) = some (suc i, c ∷ cs)

-- The search for a slot that is not active: its number and the table, or no slot.
unfoldable pub claim : ℕ → ℕ → List ClientConnection → Option (ℕ × List ClientConnection)
unfolding occupied further
claim client_fd now [] = none
claim client_fd now (c ∷ cs) =
    let rest = further c (claim client_fd now cs) in
    if c.is_active then rest else some (0, occupied client_fd now c ∷ cs)

-- `is_active && !is_busy`, and idle for 10 seconds or more
pub is_expired : ℕ → ClientConnection → Bool
is_expired now c = c.is_active && (not c.is_busy && leb 10 (now - c.last_activity))

-- The table, and the sockets that are closed.
unfoldable pub check_keepalive_timeouts : ℕ → List ClientConnection → List ClientConnection × List ℕ
check_keepalive_timeouts now [] = ([], [])
check_keepalive_timeouts now (c ∷ cs) =
    let rest = check_keepalive_timeouts now cs in
    if is_expired now c
    then (record c { is_active = false } ∷ rest.0, c.fd ∷ rest.1)
    else (c ∷ rest.0, rest.1)

-- `recv` of these bytes behind what is in the buffer.
unfoldable pub received : Bytes → ClientConnection → ClientConnection
received s c = record c { read_buffer = c.read_buffer ++ s }

-- The table with slot `i` changed.
abbrev pub modify :
    (ClientConnection → ClientConnection) → List ClientConnection → ℕ → List ClientConnection
modify f [] i = []
modify f (c ∷ cs) zero = f c ∷ cs
modify f (c ∷ cs) (suc i) = c ∷ modify f cs i

abbrev pub off : ClientConnection → ClientConnection
off c = record c { is_active = false }
