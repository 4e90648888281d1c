-- ===== src/Connections/Sockets.antt =====
-- Which sockets are in the table.
use mathlib.Core.List.{Perm, perm_middle}
use mathlib.Core.List.Perm
use let_us_connect_http_serv.Base.{
  All, Bool, Bool-cases, Bytes, List, Option, [], arith, false, if◌then◌else◌, inl, inr, none, refl,
  some, true, ℕ, ◌++◌, ◌∷◌, ◌≡◌,
}
use let_us_connect_http_serv.Connections.{
  ClientConnection, check_keepalive_timeouts, claim, further, is_expired, occupied, received,
}

-- The sockets of the active slots.
unfoldable pub active_fds : List ClientConnection → List ℕ
active_fds [] = []
active_fds (c ∷ cs) = if c.is_active then c.fd ∷ active_fds cs else active_fds cs

pub is_expired-busy : (now : ℕ) (c : ClientConnection) → c.is_busy ≡ true → is_expired now c ≡ false
unfolding is_expired
is_expired-busy now c e = ground arith

is_expired-active : (now : ℕ) (c : ClientConnection) → is_expired now c ≡ true → c.is_active ≡ true
unfolding is_expired
is_expired-active now c e = ground arith

-- The sockets before are those that are closed and those that are left, each as often: none is
-- lost and none is closed twice.
pub check_keepalive_timeouts-Perm :
    (now : ℕ) (cs : List ClientConnection)
    → Perm
        (active_fds cs)
        ((check_keepalive_timeouts now cs).1 ++ active_fds (check_keepalive_timeouts now cs).0)
unfolding check_keepalive_timeouts active_fds
check_keepalive_timeouts-Perm now [] = Perm.refl []
check_keepalive_timeouts-Perm now (c ∷ cs) =
    let rest = check_keepalive_timeouts-Perm now cs in
    let closed = (check_keepalive_timeouts now cs).1 in
    let left = active_fds (check_keepalive_timeouts now cs).0 in
    elim (Bool-cases (is_expired now c)) [
      | inl e ↦ rw (e, is_expired-active now c e) (Perm.cons c.fd rest)
      | inr e ↦ elim (Bool-cases c.is_active) [
        | inl a ↦ rw (e, a) (Perm.trans (Perm.cons c.fd rest) (Perm.symm (perm_middle closed left)))
        | inr a ↦ rw (e, a) rest
      ]
    ]

-- What a claim of a slot does to the sockets of the table.
pub Claims : ℕ → List ClientConnection → Option (ℕ × List ClientConnection) → Type 0
Claims fd cs none = All (λ c. c.is_active ≡ true) cs
Claims fd cs (some (i, ds)) = Perm (active_fds ds) (fd ∷ active_fds cs)

further-Claims :
    (fd : ℕ) (c : ClientConnection) (cs : List ClientConnection)
    (m : Option (ℕ × List ClientConnection))
    → c.is_active ≡ true
    → Claims fd cs m
    → Claims fd (c ∷ cs) (further c m)
unfolding Claims active_fds further
further-Claims fd c cs none a h = (a, h)
further-Claims fd c cs (some (i, ds)) a h =
    rw a (Perm.trans (Perm.cons c.fd h) (Perm.swap fd c.fd (active_fds cs)))

claim_further :
    (b : Bool) (fd : ℕ) (c : ClientConnection) (cs : List ClientConnection)
    (rest : Option (ℕ × List ClientConnection)) (now : ℕ)
    → c.is_active ≡ b
    → Claims fd cs rest
    → Claims fd (c ∷ cs) (if b then further c rest else some (0, occupied fd now c ∷ cs))
unfolding Claims active_fds occupied
claim_further true fd c cs rest now a h = further-Claims fd c cs rest a h
claim_further false fd c cs rest now a h = rw a (Perm.refl (fd ∷ active_fds cs))

-- With no slot found, every slot is active; else the table has the new socket and those it had.
pub claim-Claims : (fd now : ℕ) (cs : List ClientConnection) → Claims fd cs (claim fd now cs)
unfolding claim Claims
claim-Claims fd now [] = tt
claim-Claims fd now (c ∷ cs) =
    claim_further c.is_active fd c cs (claim fd now cs) now refl (claim-Claims fd now cs)

-- When the first slot is that of a client who went silent in a request and whose time is up, the
-- next client gets that slot, and what it sends is read behind what the other one had sent.
pub stale_read :
    (c : ClientConnection) (cs : List ClientConnection) (fd now : ℕ) (s : Bytes)
    → is_expired now c ≡ true
    → (d : ClientConnection) × (ds : List ClientConnection) × (claim fd now
          (check_keepalive_timeouts now (c ∷ cs)).0
        ≡ some (0, d ∷ ds))
      × (d.fd ≡ fd)
      × ((received s d).read_buffer ≡ c.read_buffer ++ s)
unfolding claim occupied check_keepalive_timeouts received
stale_read c cs fd now s e =
    (occupied fd now c, (check_keepalive_timeouts now cs).0, rw e refl, refl, refl)
