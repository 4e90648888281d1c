-- ===== src/Server/Invariant.antt =====
-- What holds of the table, the tasks and the sockets.
use mathlib.Core.List.{Perm}
use let_us_connect_http_serv.Base.{
  All, Bool-cases, List, [], arith, false, if◌then◌else◌, inl, inr, refl, subst, suc, sym, true,
  zero, ℕ, ◌&&◌, ◌++◌, ◌+◌, ◌==◌, ◌∙◌, ◌∷◌, ◌≡◌, ◌≢◌, ◌≤◌,
}
use let_us_connect_http_serv.Connections.{
  ClientConnection, check_keepalive_timeouts, is_expired, modify,
}
use let_us_connect_http_serv.Connections.Claimed.{Holds}
use let_us_connect_http_serv.Connections.Sockets.{active_fds, is_expired-busy}
use let_us_connect_http_serv.Server.{ClientTask, Server}
use let_us_connect_http_serv.Server.Slots.{modify_other}

pub count_at : ℕ → List ClientTask → ℕ
count_at i [] = 0
count_at i (t ∷ ts) = (if t.slot == i then 1 else 0) + count_at i ts

-- The table as `network_init` leaves it: no slot is active.
abbrev pub AllFree : List ClientConnection → Type 0
AllFree cs = All (λ (c : ClientConnection). c.is_active ≡ false) cs

-- The slot of a task is active and busy, with the task's socket.
pub record Owned (cs : List ClientConnection) (t : ClientTask) : Type 0 where
  pub conn : ClientConnection
  pub held : Holds cs t.slot conn
  pub active : conn.is_active ≡ true
  pub busy : conn.is_busy ≡ true
  pub same_fd : conn.fd ≡ t.client_fd

-- Each task that is queued or at work owns its slot, no two the same one; and each socket that was
-- accepted is closed or in an active slot, once.
pub record Inv (s : Server) : Type 0 where
  pub owned : All (Owned s.conns) s.tasks
  pub single : (i : ℕ) → count_at i s.tasks ≤ 1
  pub sockets : Perm s.accepted (s.closed ++ active_fds s.conns)

-- A slot with no task may change.
pub Owned-modify :
    (f : ClientConnection → ClientConnection) (cs : List ClientConnection) (i : ℕ)
    (ts : List ClientTask)
    → All (Owned cs) ts
    → count_at i ts ≡ 0
    → All (Owned (modify f cs i)) ts
unfolding count_at
Owned-modify f cs i [] h e = tt
Owned-modify f cs i (t ∷ ts) (o, h) e =
    let other : i ≢ t.slot = λ x. ground arith in
    (
      record {
        conn = o.conn;
        held = modify_other f cs i t.slot other ∙ o.held;
        active = o.active;
        busy = o.busy;
        same_fd = o.same_fd;
      },
      Owned-modify f cs i ts h (ground arith),
    )

-- A slot that is not active, or not busy, has no task.
pub count_at-idle :
    (cs : List ClientConnection) (i : ℕ) (c : ClientConnection) (ts : List ClientTask)
    → All (Owned cs) ts
    → Holds cs i c
    → (c.is_active && c.is_busy) ≡ false
    → count_at i ts ≡ 0
unfolding count_at
count_at-idle cs i c [] h e idle = refl
count_at-idle cs i c (t ∷ ts) (o, h) e idle = elim (Bool-cases (t.slot == i)) [
  | inl same ↦
      let here : t.slot ≡ i = ground arith in
      let at_i : Holds cs i o.conn = subst (λ (j : ℕ). Holds cs j o.conn) here o.held in
      let is_c : o.conn ≡ c = cc in
      let a : c.is_active ≡ true =
        subst (λ (x : ClientConnection). x.is_active ≡ true) is_c o.active in
      let b : c.is_busy ≡ true = subst (λ (x : ClientConnection). x.is_busy ≡ true) is_c o.busy in
      ground arith
  | inr other ↦ rw other (omega (arith, count_at-idle cs i c ts h e idle))
]

-- The time-out leaves the slots of tasks alone.
pub check_keepalive_timeouts-Holds :
    (now : ℕ) (cs : List ClientConnection) (i : ℕ) (c : ClientConnection)
    → Holds cs i c
    → is_expired now c ≡ false
    → Holds (check_keepalive_timeouts now cs).0 i c
unfolding check_keepalive_timeouts
check_keepalive_timeouts-Holds now [] i c h e = cc
check_keepalive_timeouts-Holds now (d ∷ cs) zero c h e =
    let same : d ≡ c = ground arith in
    let live : is_expired now d ≡ false = subst (λ x. is_expired now x ≡ false) (sym same) e in
    rw live h
check_keepalive_timeouts-Holds now (d ∷ cs) (suc i) c h e = elim (Bool-cases (is_expired now d)) [
  | inl x ↦ rw x (check_keepalive_timeouts-Holds now cs i c h e)
  | inr x ↦ rw x (check_keepalive_timeouts-Holds now cs i c h e)
]

pub Owned-check_keepalive_timeouts :
    (now : ℕ) (cs : List ClientConnection) (ts : List ClientTask)
    → All (Owned cs) ts
    → All (Owned (check_keepalive_timeouts now cs).0) ts
Owned-check_keepalive_timeouts now cs [] h = tt
Owned-check_keepalive_timeouts now cs (t ∷ ts) (o, h) = (
  record {
    conn = o.conn;
    held =
        check_keepalive_timeouts-Holds now cs t.slot o.conn o.held
          (is_expired-busy now o.conn o.busy);
    active = o.active;
    busy = o.busy;
    same_fd = o.same_fd;
  },
  Owned-check_keepalive_timeouts now cs ts h,
)

pub count_at-append :
    (i : ℕ) (ts us : List ClientTask) → count_at i (ts ++ us) ≡ count_at i ts + count_at i us
unfolding count_at
count_at-append i [] us = omega arith
count_at-append i (t ∷ ts) us = omega (arith, count_at-append i ts us)

pub count_at-cons_self :
    (t : ClientTask) (ts : List ClientTask) → count_at t.slot (t ∷ ts) ≡ suc (count_at t.slot ts)
unfolding count_at
count_at-cons_self t ts = ground arith

pub count_at-cons :
    (i fd j : ℕ) (ts : List ClientTask)
    → count_at i ts ≡ 0
    → count_at j ts ≤ 1
    → count_at j (record { client_fd = fd; slot = i } ∷ ts) ≤ 1
unfolding count_at
count_at-cons i fd j ts none_at h = elim (Bool-cases (i == j)) [
  | inl e ↦
      let same : i ≡ j = ground arith in
      let none_j : count_at j ts ≡ 0 = subst (λ (k : ℕ). count_at k ts ≡ 0) same none_at in
      rw e (omega arith)
  | inr e ↦ rw e (omega arith)
]

pub count_at-none : (i : ℕ) → count_at i [] ≤ 1
unfolding count_at
count_at-none i = omega arith

pub count_at-others :
    (i : ℕ) (ts : List ClientTask) → count_at i ts ≡ 0 → All (λ (t : ClientTask). t.slot ≢ i) ts
unfolding count_at
count_at-others i [] e = tt
count_at-others i (t ∷ ts) e = (λ x. ground arith, count_at-others i ts (ground arith))
