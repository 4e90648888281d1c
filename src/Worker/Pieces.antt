-- ===== src/Worker/Pieces.antt =====
-- A request that arrives in pieces, one call of `work` for each, against one that arrives at once.
use let_us_connect_http_serv.Base.{
  Bool, Bytes, List, Option, Outcome, [], append_assoc, false, fault, ok, refl, true, ℕ, ◌++◌,
  ◌>>=◌, ◌∙◌, ◌∷◌, ◌≡◌,
}
use let_us_connect_http_serv.Connections.{ClientConnection, received}
use let_us_connect_http_serv.Dictionary.{Dictionary}
use let_us_connect_http_serv.Worker.{Route, Worked, got, kept, read_on, request_complete, work}

-- One read after another, with the times of the reads; before each the loop of the server marks
-- the connection busy. What is done and closed is put together.
pub read_pieces :
    Option (Dictionary Route) → ℕ → List (ℕ × Bytes) → ℕ → Bytes → ClientConnection → Outcome Worked
read_pieces routes client_fd [] now s conn = work now routes client_fd (got s) conn
read_pieces routes client_fd ((t, p) ∷ ps) now s conn = do
  w ← work t routes client_fd (got p) conn
  later ← read_pieces routes client_fd ps now s (record w.conn { is_busy = true })
  ok (record later { actions = w.actions ++ later.actions; closed = w.closed ++ later.closed })

unfoldable pub whole : List (ℕ × Bytes) → Bytes → Bytes
whole [] s = s
whole ((t, p) ∷ ps) s = p ++ whole ps s

-- The request is not complete after any of the pieces.
abbrev pub IsPartial : Bytes → List (ℕ × Bytes) → Type 0
IsPartial buffer [] = Unit
IsPartial buffer ((t, p) ∷ ps) =
    (request_complete (buffer ++ p) ≡ ok false) × IsPartial (buffer ++ p) ps

abbrev last_time : ℕ → List (ℕ × Bytes) → ℕ
last_time time [] = time
last_time time ((t, p) ∷ ps) = last_time t ps

-- A connection that a worker reads.
abbrev pub reading : ℕ → ℕ → Bool → Bytes → ClientConnection
reading fd time active buffer = record {
  fd = fd;
  last_activity = time;
  is_active = active;
  is_busy = true;
  read_buffer = buffer;
}

work-partial :
    (now : ℕ) (routes : Option (Dictionary Route)) (client_fd : ℕ) (s : Bytes)
    (conn : ClientConnection)
    → request_complete (conn.read_buffer ++ s) ≡ ok false
    → work now routes client_fd (got s) conn
      ≡ ok (record { conn = kept now (received s conn); actions = []; closed = [] })
unfolding work read_on received
work-partial now routes client_fd s conn e = rw e refl

work-append :
    (now : ℕ) (routes : Option (Dictionary Route)) (client_fd fd time : ℕ) (active : Bool)
    (buffer p s : Bytes)
    → work now routes client_fd (got s) (reading fd time active (buffer ++ p))
      ≡ work now routes client_fd (got (p ++ s)) (reading fd time active buffer)
unfolding work received
work-append now routes client_fd fd time active buffer p s = rw (append_assoc buffer p s) refl

again :
    (m : Outcome Worked)
    → (m >>= λ later.
        ok (record later { actions = [] ++ later.actions; closed = [] ++ later.closed }))
      ≡ m
again fault = refl
again (ok w) = refl

-- However a request is cut into pieces, if only the last makes it complete, the reads together do
-- what one read of the whole would do: the same answer, once, and the same end of the connection,
-- but for the time of the last activity before.
pub read_pieces-whole :
    (routes : Option (Dictionary Route)) (client_fd : ℕ) (ps : List (ℕ × Bytes)) (now : ℕ)
    (s : Bytes) (fd time : ℕ) (active : Bool) (buffer : Bytes)
    → IsPartial buffer ps
    → read_pieces routes client_fd ps now s (reading fd time active buffer)
      ≡ work now routes client_fd (got (whole ps s)) (reading fd (last_time time ps) active buffer)
unfolding read_pieces whole work received
read_pieces-whole routes client_fd [] now s fd time active buffer h = refl
read_pieces-whole routes client_fd ((t, p) ∷ ps) now s fd time active buffer (e, h) =
    rw (work-partial t routes client_fd p (reading fd time active buffer) e) (
      again (
        read_pieces routes client_fd ps now s
          (record (kept t (received p (reading fd time active buffer))) { is_busy = true }))
      ∙ read_pieces-whole routes client_fd ps now s fd t active (buffer ++ p) h
      ∙ work-append now routes client_fd fd (last_time t ps) active buffer p (whole ps s))
