-- ===== src/Server/Threads/Untouched.antt =====
-- The slot of a thread at work under the steps of the loop and of the other threads. The work reads
-- and writes the slot with no lock held, and is one step of the model.
use let_us_connect_http_serv.Base.{
  Bool, Bool-cases, List, Option, [], ap, arith, false, get_elem?, inl, inr, none, not, refl, some,
  subst, sym, true, ℕ, ◌&&◌, ◌<◌, ◌==◌, ◌∙◌, ◌∷◌, ◌≡◌, ◌≢◌,
}
use let_us_connect_http_serv.Pool.{Pool}
use let_us_connect_http_serv.Pool.Family.{set_at}
use let_us_connect_http_serv.Pool.Invariant.{IsNew}
use let_us_connect_http_serv.Connections.{ClientConnection, claim, modify, occupied}
use let_us_connect_http_serv.Connections.Claimed.{ClaimsSlot, Holds, claim-ClaimsSlot}
use let_us_connect_http_serv.Connections.Sockets.{is_expired-busy}
use let_us_connect_http_serv.Server.{
  ClientTask, Server, accept_at, accept_client, finish_task, hand_over, marked_busy, ready_at,
  ready_slot, time_out,
}
use let_us_connect_http_serv.Server.Slots.{modify_other}
use let_us_connect_http_serv.Server.Invariant.{AllFree, check_keepalive_timeouts-Holds}
use let_us_connect_http_serv.Server.Steps.{ready_idle}
use let_us_connect_http_serv.Server.Threads.{
  Hands, Reach, Running, Step, accepts, ends, finishes, hands, hands_none, inner, readies, takes,
  times_out,
}
use let_us_connect_http_serv.Server.Threads.Alone.{works_alone}
use let_us_connect_http_serv.Dictionary.{Dictionary}
use let_us_connect_http_serv.Worker.{Route}

-- The table's steps, on a slot that is active and busy.
module _ (k : ℕ) (c : ClientConnection) (active : c.is_active ≡ true)
    (busy : c.is_busy ≡ true) where
  other_slot :
      (f : ClientConnection → ClientConnection) (cs : List ClientConnection) (i : ℕ)
      (d : ClientConnection)
      → Holds cs i d
      → (d.is_active && d.is_busy) ≡ false
      → Holds cs k c
      → Holds (modify f cs i) k c
  other_slot f cs i d at idle h =
      let apart : i ≢ k = λ e.
        let same : ◌≡◌ {A = Option ClientConnection} (some d) (some c) =
          sym at ∙ ap (get_elem? cs) e ∙ h in
        let here : d ≡ c = cc in
        absurd (differs (ap (λ (x : ClientConnection). x.is_active && x.is_busy) here)) in
      modify_other f cs i k apart ∙ h
    where
      differs : (d.is_active && d.is_busy) ≡ (c.is_active && c.is_busy) → ⊥
      differs e = ground (arith, e, idle, active, busy)

  accept_client-Holds :
      (now fd : ℕ) (s : Server) → Holds s.conns k c → Holds (accept_client now true fd s).conns k c
  unfolding accept_client accept_at hand_over
  accept_client-Holds now fd s h =
      accept_at-Holds (claim fd now s.conns) (claim-ClaimsSlot fd now s.conns)
    where
      accept_at-Holds :
          (m : Option (ℕ × List ClientConnection))
          → ClaimsSlot fd now s.conns m
          → Holds (accept_at fd true s m).conns k c
      accept_at-Holds none slot = h
      accept_at-Holds (some (i, ds)) slot =
          subst (λ (cs : List ClientConnection). Holds cs k c) (sym slot.changed)
            (other_slot (occupied fd now) s.conns i slot.was slot.held (simp slot.idle refl) h)

  time_out-Holds : (now : ℕ) (s : Server) → Holds s.conns k c → Holds (time_out now s).conns k c
  unfolding time_out
  time_out-Holds now s h =
      check_keepalive_timeouts-Holds now s.conns k c h (is_expired-busy now c busy)

  ready_at-Holds :
      (is_set : ℕ → Bool) (i : ℕ) (s : Server) (o : Option ClientConnection)
      → get_elem? s.conns i ≡ o
      → Holds s.conns k c
      → Holds (ready_at is_set true i s o).conns k c
  unfolding ready_at hand_over
  ready_at-Holds is_set i s none e h = h
  ready_at-Holds is_set i s (some d) e h =
      elim (Bool-cases (d.is_active && (not d.is_busy && is_set d.fd))) [
        | inl ready ↦
            simp ready (other_slot marked_busy s.conns i d e (ready_idle d is_set ready) h)
        | inr other ↦ simp other h
      ]

  ready_slot-Holds :
      (is_set : ℕ → Bool) (i : ℕ) (s : Server)
      → Holds s.conns k c
      → Holds (ready_slot is_set true i s).conns k c
  unfolding ready_slot
  ready_slot-Holds is_set i s h = ready_at-Holds is_set i s (get_elem? s.conns i) refl h

Hands-Holds :
    (k : ℕ) (c : ClientConnection) {s t : Running} (next : Server)
    → Hands s next t
    → Holds next.conns k c
    → Holds t.table.conns k c
Hands-Holds k c next (hands task o e) h = h
Hands-Holds k c next (hands_none e) h = h

Step-Holds :
    (n : ℕ) (routes : Option (Dictionary Route)) (k : ℕ) (c : ClientConnection)
    → c.is_active ≡ true
    → c.is_busy ≡ true
    → (s t : Running) (i : ℕ) (task : ClientTask) → Step n routes s t
    → s.at_work i ≡ task ∷ []
    → t.at_work i ≡ task ∷ []
    → Holds s.table.conns k c
    → ((j : ℕ) (other : ClientTask) → j < n → i ≢ j → s.at_work j ≡ other ∷ [] → other.slot ≢ k)
    → Holds t.table.conns k c
Step-Holds n routes k c is_on is_taken s t i task (accepts now fd given) at still held alone =
    Hands-Holds k c _ given (accept_client-Holds k c is_on is_taken now fd s.table held)
Step-Holds n routes k c is_on is_taken s t i task (readies is_set j given) at still held alone =
    Hands-Holds k c _ given (ready_slot-Holds k c is_on is_taken is_set j s.table held)
Step-Holds n routes k c is_on is_taken s _ i task (times_out now) at still held alone =
    time_out-Holds k c is_on is_taken now s.table held
Step-Holds n routes k c is_on is_taken s _ i task (inner u step e) at still held alone = held
Step-Holds n routes k c is_on is_taken s _ i task (takes j lt e) at still held alone = held
Step-Holds n routes k c is_on is_taken s _ i task
      (finishes j before other after now r d w lt e at_j split held_j worked) at still held alone =
    elim (Bool-cases (i == j)) [
      | inl same ↦
          let at_i : set_at s.at_work j [] i ≡ [] = rw same refl in
          let gone : ◌≡◌ {A = List ClientTask} [] (task ∷ []) = sym at_i ∙ still in absurd (cc)
      | inr apart ↦
          let ne : i ≢ j = λ x. ground (arith, apart, x) in
          unfold finish_task in
          (modify_other (λ _. w.conn) s.table.conns other.slot k (alone j other lt ne at_j) ∙ held)
    ]
Step-Holds n routes k c is_on is_taken s _ i task (ends j task_of_j lt e at_j) at still held alone =
    held

module _ (n : ℕ) (routes : Option (Dictionary Route)) (cs : List ClientConnection)
    (p : Pool ClientTask) where
  -- In every reachable state, a step of the loop, the owner or another thread leaves the slot of a
  -- task that a thread works on as it is.
  pub slot_untouched :
      (s t : Running) (i : ℕ) (task : ClientTask) (c : ClientConnection)
      → IsNew p
      → AllFree cs
      → Reach n routes cs p s
      → i < n
      → s.at_work i ≡ task ∷ []
      → Holds s.table.conns task.slot c
      → Step n routes s t
      → t.at_work i ≡ task ∷ []
      → Holds t.table.conns task.slot c
  slot_untouched s t i task c new unused r lt at held step still =
      let (_, owned, _, alone) = works_alone n routes cs p s i task new unused r lt at in
      let same : ◌≡◌ {A = Option ClientConnection} (some owned.conn) (some c) =
        sym owned.held ∙ held in
      let is_c : owned.conn ≡ c = cc in
      let active = subst (λ (x : ClientConnection). x.is_active ≡ true) is_c owned.active in
      let busy = subst (λ (x : ClientConnection). x.is_busy ≡ true) is_c owned.busy in
      Step-Holds n routes task.slot c active busy s t i task step at still held alone
