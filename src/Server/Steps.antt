-- ===== src/Server/Steps.antt =====
-- Each step of the server and of its threads keeps what holds of the table.
use mathlib.Core.List.{Perm, perm_middle, perm_append_comm}
use mathlib.Core.List.Perm
use let_us_connect_http_serv.Base.{
  All, Bool, Bool-cases, List, Option, [], append_assoc, arith, false, get_elem?, inl, inr, none,
  not, ok, refl, some, subst, sym, true, ℕ, ◌&&◌, ◌++◌, ◌+◌, ◌∷◌, ◌≡◌, ◌≤◌,
}
use let_us_connect_http_serv.Connections.{
  ClientConnection, check_keepalive_timeouts, claim, modify, occupied, off,
}
use let_us_connect_http_serv.Connections.Claimed.{ClaimsSlot, Holds, claim-ClaimsSlot}
use let_us_connect_http_serv.Connections.Sockets.{active_fds, check_keepalive_timeouts-Perm}
use let_us_connect_http_serv.Dictionary.{Dictionary}
use let_us_connect_http_serv.Worker.{Received, Route, Worked, work}
use let_us_connect_http_serv.Worker.Ends.{Ends, work-Ends}
use let_us_connect_http_serv.Server.{
  ClientTask, Server, accept_at, accept_client, finish_task, hand_over, marked_busy, ready_at,
  ready_slot, time_out,
}
use let_us_connect_http_serv.Server.Slots.{
  active_fds-off, active_fds-on, active_fds-same, modify_self,
}
use let_us_connect_http_serv.Server.Invariant.{
  Inv, Owned, Owned-check_keepalive_timeouts, Owned-modify, count_at, count_at-append,
  count_at-cons, count_at-cons_self, count_at-idle,
}

-- A slot with no task changes, with what that does to the sockets.
modify-Inv :
    (f : ClientConnection → ClientConnection) (i : ℕ) (s : Server) (accepted closed : List ℕ)
    → Inv s
    → count_at i s.tasks ≡ 0
    → Perm accepted (closed ++ active_fds (modify f s.conns i))
    → Inv (record s { conns = modify f s.conns i; accepted = accepted; closed = closed })
modify-Inv f i s accepted closed h none_at sockets = record {
  owned = Owned-modify f s.conns i s.tasks h.owned none_at;
  single = h.single;
  sockets = sockets;
}

-- A socket that leaves the table is closed.
moves_out :
    (fd : ℕ) (accepted closed before after : List ℕ)
    → Perm accepted (closed ++ before)
    → Perm before (fd ∷ after)
    → Perm accepted (fd ∷ (closed ++ after))
moves_out fd accepted closed before after h out =
    Perm.trans h (Perm.trans (Perm.append_left closed out) (perm_middle closed after))

-- A new task for a slot that is active and busy and has none.
ready_active :
    (c : ClientConnection) (is_set : ℕ → Bool)
    → (c.is_active && (not c.is_busy && is_set c.fd)) ≡ true
    → c.is_active ≡ true
ready_active c is_set e = ground arith

pub ready_idle :
    (c : ClientConnection) (is_set : ℕ → Bool)
    → (c.is_active && (not c.is_busy && is_set c.fd)) ≡ true
    → (c.is_active && c.is_busy) ≡ false
ready_idle c is_set e = ground arith

hand_over-Inv :
    (added : Bool) (i : ℕ) (c : ClientConnection) (s : Server)
    → Inv s
    → count_at i s.tasks ≡ 0
    → Holds s.conns i c
    → c.is_active ≡ true
    → c.is_busy ≡ true
    → Inv (hand_over added c.fd i s)
unfolding hand_over
hand_over-Inv true i c s h none_at at a b = record {
  owned = (record { conn = c; held = at; active = a; busy = b; same_fd = refl }, h.owned);
  single = λ j. one_more j;
  sockets = h.sockets;
}
  where
    one_more : (j : ℕ) → count_at j (record { client_fd = c.fd; slot = i } ∷ s.tasks) ≤ 1
    one_more j = count_at-cons i c.fd j s.tasks none_at (h.single j)
hand_over-Inv false i c s h none_at at a b =
    modify-Inv off i s s.accepted (c.fd ∷ s.closed) h none_at (
      moves_out c.fd s.accepted s.closed (active_fds s.conns) (active_fds (modify off s.conns i))
        h.sockets (active_fds-off off s.conns i c at a refl))

-- A socket that comes into the table was accepted.
moves_in :
    (fd : ℕ) (accepted closed before after : List ℕ)
    → Perm accepted (closed ++ before)
    → Perm (fd ∷ before) after
    → Perm (fd ∷ accepted) (closed ++ after)
moves_in fd accepted closed before after h come =
    Perm.trans (Perm.cons fd h)
      (Perm.trans (Perm.symm (perm_middle closed before)) (Perm.append_left closed come))

accept_at-Inv :
    (now : ℕ) (added : Bool) (fd : ℕ) (s : Server) (m : Option (ℕ × List ClientConnection))
    → ClaimsSlot fd now s.conns m
    → Inv s
    → Inv (accept_at fd added s m)
unfolding accept_at occupied
accept_at-Inv now added fd s none slot h = record {
  owned = h.owned;
  single = h.single;
  sockets = Perm.cons fd h.sockets;
}
accept_at-Inv now added fd s (some (i, ds)) slot h =
    let none_at =
      count_at-idle s.conns i slot.was s.tasks h.owned slot.held (simp slot.idle refl) in
    let taken = modify (occupied fd now) s.conns i in
    let come = active_fds-on (occupied fd now) s.conns i slot.was slot.held slot.idle refl in
    let table =
      modify-Inv (occupied fd now) i s (fd ∷ s.accepted) s.closed h none_at
        (moves_in fd s.accepted s.closed (active_fds s.conns) (active_fds taken) h.sockets come) in
    subst (λ x. Inv (hand_over added fd i (record s { conns = x; accepted = fd ∷ s.accepted })))
      (sym slot.changed)
      (hand_over-Inv added i (occupied fd now slot.was)
        (record s { conns = taken; accepted = fd ∷ s.accepted }) table none_at
        (modify_self (occupied fd now) s.conns i slot.was slot.held) refl refl)

pub accept_client-Inv :
    (now : ℕ) (added : Bool) (fd : ℕ) (s : Server) → Inv s → Inv (accept_client now added fd s)
unfolding accept_client
accept_client-Inv now added fd s h =
    accept_at-Inv now added fd s (claim fd now s.conns) (claim-ClaimsSlot fd now s.conns) h

ready_at-Inv :
    (is_set : ℕ → Bool) (added : Bool) (i : ℕ) (s : Server) (o : Option ClientConnection)
    → get_elem? s.conns i ≡ o
    → Inv s
    → Inv (ready_at is_set added i s o)
unfolding ready_at
ready_at-Inv is_set added i s none e h = h
ready_at-Inv is_set added i s (some c) e h =
    elim (Bool-cases (c.is_active && (not c.is_busy && is_set c.fd))) [
      | inl ready ↦ simp ready (handed (ready_active c is_set ready) (ready_idle c is_set ready))
      | inr other ↦ simp other h
    ]
  where
    handed :
        c.is_active ≡ true
        → (c.is_active && c.is_busy) ≡ false
        → Inv (hand_over added c.fd i (record s { conns = modify marked_busy s.conns i }))
    handed a idle =
        let none_at = count_at-idle s.conns i c s.tasks h.owned e idle in
        let same = active_fds-same marked_busy s.conns i c e refl refl in
        let table =
          modify-Inv marked_busy i s s.accepted s.closed h none_at
            (subst (λ fds. Perm s.accepted (s.closed ++ fds)) (sym same) h.sockets) in
        hand_over-Inv added i (marked_busy c) (record s { conns = modify marked_busy s.conns i })
          table none_at (modify_self marked_busy s.conns i c e) a refl

pub ready_slot-Inv :
    (is_set : ℕ → Bool) (added : Bool) (i : ℕ) (s : Server)
    → Inv s
    → Inv (ready_slot is_set added i s)
unfolding ready_slot
ready_slot-Inv is_set added i s h = ready_at-Inv is_set added i s (get_elem? s.conns i) refl h

pub time_out-Inv : (now : ℕ) (s : Server) → Inv s → Inv (time_out now s)
unfolding time_out
time_out-Inv now s h = record {
  owned = Owned-check_keepalive_timeouts now s.conns s.tasks h.owned;
  single = h.single;
  sockets =
      let (left, out) = check_keepalive_timeouts now s.conns in
      Perm.trans h.sockets (
        Perm.trans (Perm.append_left s.closed (check_keepalive_timeouts-Perm now s.conns)) (
          subst (λ fds. Perm fds ((out ++ s.closed) ++ active_fds left))
            (append_assoc s.closed out (active_fds left))
            (Perm.append_right (active_fds left) (perm_append_comm s.closed out))));
}

pub All-split :
    (cs : List ClientConnection) (before : List ClientTask) (task : ClientTask)
    (after : List ClientTask)
    → All (Owned cs) (before ++ task ∷ after)
    → Owned cs task × All (Owned cs) (before ++ after)
All-split cs [] task after h = h
All-split cs (t ∷ before) task after (o, h) =
    let (own, rest) = All-split cs before task after h in (own, (o, rest))

pub count_at-without :
    (i : ℕ) (before : List ClientTask) (task : ClientTask) (after : List ClientTask)
    → count_at i (before ++ task ∷ after) ≡ count_at i (before ++ after) + count_at i (task ∷ [])
count_at-without i before task after = omega (
  arith,
  count_at-append i before (task ∷ after),
  count_at-append i before after,
  count_at-append i (task ∷ []) after,
)

-- What the work leaves of the slot, and of its socket.
finished_sockets :
    (s : Server) (i fd : ℕ) (c : ClientConnection) (w : Worked)
    → Holds s.conns i c
    → c.is_active ≡ true
    → c.fd ≡ fd
    → Ends fd c w
    → Perm s.accepted (s.closed ++ active_fds s.conns)
    → Perm s.accepted ((w.closed ++ s.closed) ++ active_fds (modify (λ _. w.conn) s.conns i))
finished_sockets s i fd c w at a f (inl (none_closed, active, same_fd)) h =
    let same = active_fds-same (λ _. w.conn) s.conns i c at active same_fd in
    rw (none_closed, same) h
finished_sockets s i fd c w at a f (inr (one_closed, inactive)) h =
    let out = active_fds-off (λ _. w.conn) s.conns i c at a inactive in
    rw one_closed (
      moves_out fd s.accepted s.closed (active_fds s.conns)
        (active_fds (modify (λ _. w.conn) s.conns i)) h
        (subst
          (λ (x : ℕ). Perm (active_fds s.conns) (x ∷ active_fds (modify (λ _. w.conn) s.conns i))) f
          out))

pub finish_task-Inv :
    (before : List ClientTask) (task : ClientTask) (after : List ClientTask) (s : Server) (now : ℕ)
    (routes : Option (Dictionary Route)) (r : Received) (c : ClientConnection) (w : Worked)
    → s.tasks ≡ before ++ task ∷ after
    → Holds s.conns task.slot c
    → work now routes task.client_fd r c ≡ ok w
    → Inv s
    → Inv (finish_task before task after w s)
unfolding finish_task
finish_task-Inv before task after s now routes r c w e at worked h =
    let owned : All (Owned s.conns) (before ++ task ∷ after) =
      subst (λ ts. All (Owned s.conns) ts) e h.owned in
    let (own, others) = All-split s.conns before task after owned in
    let is_c : own.conn ≡ c = ground arith in
    let single = λ (j : ℕ). subst (λ ts. count_at j ts ≤ 1) e (h.single j) in
    let none_at : count_at task.slot (before ++ after) ≡ 0 = omega (
      arith,
      single task.slot,
      count_at-without task.slot before task after,
      count_at-cons_self task [],
    ) in
    record {
      owned = Owned-modify (λ _. w.conn) s.conns task.slot (before ++ after) others none_at;
      single = λ j. omega (arith, single j, count_at-without j before task after);
      sockets =
          finished_sockets s task.slot task.client_fd c w at
            (subst (λ (x : ClientConnection). x.is_active ≡ true) is_c own.active)
            (subst (λ (x : ClientConnection). x.fd ≡ task.client_fd) is_c own.same_fd)
            (work-Ends now routes task.client_fd r c w worked) h.sockets;
    }
