-- ===== src/Program/Balance.antt =====
-- Every run of the program that ends has ended what it began, in an order that the threads can
-- live with.
use let_us_connect_http_serv.Base.{
  Bool, Bytes, List, Option, Outcome, [], codes, false, if◌then◌else◌, none, not, ok, refl, some,
  true, ℕ, ◌&&◌, ◌∷◌, ◌≡◌, ◌≤◌, ◌⊎◌,
}
use let_us_connect_http_serv.Handler.{System}
use let_us_connect_http_serv.Pool.Invariant.{IsNew}
use let_us_connect_http_serv.Worker.{Route}
use let_us_connect_http_serv.Worker.Answer.{routes_of}
use let_us_connect_http_serv.Server.Invariant.{AllFree}
use let_us_connect_http_serv.Program.{
  Call, Ended, Serving, begins, filesystem_route, logger_begins, logger_ends, pool_begins,
  pool_ends, routes_begin, routes_end, serves, socket_begins, socket_ends,
}

-- What the program holds.
pub record Held : Type 0 where
  pub logger : Bool
  pub pool : Bool
  pub routes : Bool
  pub socket : Bool

abbrev pub nothing_held : Held
nothing_held = record { logger = false; pool = false; routes = false; socket = false }

-- A call, where it may be made: nothing is taken twice or given back twice, it is served with all
-- four, and the routes and the logger, which the threads read, are given back after the pool.
abbrev pub allowed : Call → Held → Bool
allowed logger_begins h = not h.logger
allowed pool_begins h = not h.pool
allowed routes_begin h = not h.routes
allowed socket_begins h = not h.socket
allowed serves h = h.logger && (h.pool && (h.routes && h.socket))
allowed socket_ends h = h.socket
allowed pool_ends h = h.pool
allowed routes_end h = h.routes && not h.pool
allowed logger_ends h = h.logger && not h.pool

abbrev pub made : Call → Held → Held
made logger_begins h = record h { logger = true }
made pool_begins h = record h { pool = true }
made routes_begin h = record h { routes = true }
made socket_begins h = record h { socket = true }
made serves h = h
made socket_ends h = record h { socket = false }
made pool_ends h = record h { pool = false }
made routes_end h = record h { routes = false }
made logger_ends h = record h { logger = false }

unfoldable pub replay : List Call → Held → Option Held
replay [] h = some h
replay (call ∷ calls) h = if allowed call h then replay calls (made call h) else none

-- The routes of the program: one handler, for "*".
abbrev pub program_routes : System → List (Bytes × Route)
program_routes files = (codes "*", filesystem_route files) ∷ []

-- What the loop of the server is given: a table with no active slot, a pool of threads that has no
-- work, and the one route.
pub record Fresh (files : System) (s : Serving) : Type 0 where
  pub free_table : AllFree s.conns
  pub new_pool : IsNew s.pool
  pub threads : 1 ≤ s.pool.curr_size
  pub one_route : s.routes ≡ routes_of (program_routes files)

abbrev pub all_held : Held
all_held = record { logger = true; pool = true; routes = true; socket = true }

abbrev pub has_ended : Option ℕ → Bool
has_ended none = false
has_ended (some _) = true

-- A run that is at its end, all that it began ended and the log closed, with status 0 if it
-- served, else 1; or that serves, with all four at hand.
pub record Ends (files : System) (ends : Bool) (h : Held) (m : Outcome Ended) : Type 0 where
  pub ended : Ended
  pub returns : m ≡ ok ended
  pub balance :
      replay ended.trace h ≡ some (if has_ended ended.code then nothing_held else all_held)
  pub log : has_ended ended.code ≡ true → ended.logger.initialized ≡ false
  pub status :
      ((ended.code ≡ (if ends then some 0 else none))
        × (s : Serving) × (ended.serving ≡ some s)
        × Fresh files s)
      ⊎ ((ended.code ≡ some 1) × (ended.serving ≡ none))

pub begins-Ends :
    (files : System) (ends : Bool) (call : Call) (h : Held) (m : Outcome Ended)
    → allowed call h ≡ true
    → Ends files ends (made call h) m
    → Ends files ends h (begins call m)
unfolding begins replay
begins-Ends files ends call h m may e = record {
  ended = record e.ended { trace = call ∷ e.ended.trace };
  returns = rw e.returns refl;
  balance = rw may e.balance;
  log = e.log;
  status = e.status;
}
