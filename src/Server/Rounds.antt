-- ===== src/Server/Rounds.antt =====
-- `network_run_server` of network/network.c as a sequence of rounds, and the sockets it waits for.
use let_us_connect_http_serv.Base.{
  All, Bool, Bool-cases, List, Option, [], arith, false, if◌then◌else◌, inl, inr, ltb, not, ℕ, ◌&&◌,
  ◌||◌, ◌∷◌, ◌≤◌,
}
use let_us_connect_http_serv.Connections.{ClientConnection}
use let_us_connect_http_serv.Dictionary.{Dictionary}
use let_us_connect_http_serv.Worker.{Route}
use let_us_connect_http_serv.Server.{Server, server_round}
use let_us_connect_http_serv.Server.Exclusive.{Reach, server_round-Reach}

-- What a round meets: what `select` returns, the time, the clients that `accept` yields with whether
-- their tasks are taken, the sockets set, and whether the task of a ready slot is taken.
pub record Round : Type 0 where
  pub select_fails : Bool
  pub interrupted : Bool
  pub now : ℕ
  pub clients : List (Bool × ℕ)
  pub is_set : ℕ → Bool
  pub added : ℕ → Bool

-- The loop that fills `read_fds` and `max_fd`.
unfoldable pub watch : List ClientConnection → List ℕ → ℕ → List ℕ × ℕ
watch [] read_fds max_fd = (read_fds, max_fd)
watch (c ∷ cs) read_fds max_fd =
    if c.is_active && not c.is_busy
    then watch cs (c.fd ∷ read_fds) (if ltb max_fd c.fd then c.fd else max_fd)
    else watch cs read_fds max_fd

-- Each round as `select` lets it run; `break` when it fails but for a signal.
pub network_run_server : List Round → Server → Server
network_run_server [] s = s
network_run_server (r ∷ rounds) s =
    let rest = network_run_server rounds (server_round r.now r.clients r.is_set r.added s) in
    if r.select_fails && not r.interrupted then s else rest

-- Whether `break` is met.
unfoldable pub loop_ends : List Round → Bool
loop_ends [] = false
loop_ends (r ∷ rounds) = (r.select_fails && not r.interrupted) || loop_ends rounds

abbrev AreUpTo : ℕ → List ℕ → Type 0
AreUpTo max_fd fds = All (λ (fd : ℕ). fd ≤ max_fd) fds

AreUpTo-≤ : (m n : ℕ) (fds : List ℕ) → m ≤ n → AreUpTo m fds → AreUpTo n fds
AreUpTo-≤ m n [] le h = tt
AreUpTo-≤ m n (fd ∷ fds) le (up, h) = (omega arith, AreUpTo-≤ m n fds le h)

-- Every socket that is set is within what `select` is told to look at.
watch-AreUpTo :
    (cs : List ClientConnection) (read_fds : List ℕ) (max_fd : ℕ)
    → AreUpTo max_fd read_fds
    → AreUpTo (watch cs read_fds max_fd).1 (watch cs read_fds max_fd).0
unfolding watch
watch-AreUpTo [] read_fds max_fd h = h
watch-AreUpTo (c ∷ cs) read_fds max_fd h = elim (Bool-cases (c.is_active && not c.is_busy)) [
  | inr other ↦ rw other (watch-AreUpTo cs read_fds max_fd h)
  | inl idle ↦
      let top = if ltb max_fd c.fd then c.fd else max_fd in
      let le : max_fd ≤ top = ground arith in
      let at : c.fd ≤ top = ground arith in
      rw idle (watch-AreUpTo cs (c.fd ∷ read_fds) top (at, AreUpTo-≤ max_fd top read_fds le h))
]

-- Whatever `select` and `accept` yield, round after round, the loop of the server from a reachable
-- state is a sequence of the steps of the server, and ends in a reachable one.
pub network_run_server-Reach :
    (routes : Option (Dictionary Route)) (cs : List ClientConnection) (rounds : List Round)
    (s : Server)
    → Reach routes cs s
    → Reach routes cs (network_run_server rounds s)
unfolding network_run_server
network_run_server-Reach routes cs [] s h = h
network_run_server-Reach routes cs (r ∷ rounds) s h =
    elim (Bool-cases (r.select_fails && not r.interrupted)) [
      | inl fails ↦ rw fails h
      | inr runs ↦ rw runs (
          network_run_server-Reach routes cs rounds
            (server_round r.now r.clients r.is_set r.added s)
            (server_round-Reach routes cs r.now r.clients r.is_set r.added s h))
    ]
