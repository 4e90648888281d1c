-- ===== src/Server/Slots.antt =====
-- The table under the change of a slot.
use mathlib.Core.List.{Perm}
use mathlib.Core.List.Perm
use let_us_connect_http_serv.Base.{
  Bool-cases, List, [], ap, arith, false, get_elem?, inl, inr, refl, some, subst, suc, sym, true,
  zero, ℕ, ◌∷◌, ◌≡◌, ◌≢◌,
}
use let_us_connect_http_serv.Connections.{ClientConnection, modify}
use let_us_connect_http_serv.Connections.Claimed.{Holds}
use let_us_connect_http_serv.Connections.Sockets.{active_fds}

pub modify_other :
    (f : ClientConnection → ClientConnection) (cs : List ClientConnection) (i j : ℕ)
    → i ≢ j
    → get_elem? (modify f cs i) j ≡ get_elem? cs j
modify_other f [] i j h = refl
modify_other f (c ∷ cs) zero zero h = absurd (h refl)
modify_other f (c ∷ cs) zero (suc j) h = refl
modify_other f (c ∷ cs) (suc i) zero h = refl
modify_other f (c ∷ cs) (suc i) (suc j) h = modify_other f cs i j (λ e. h (ap suc e))

pub modify_self :
    (f : ClientConnection → ClientConnection) (cs : List ClientConnection) (i : ℕ)
    (c : ClientConnection)
    → Holds cs i c
    → Holds (modify f cs i) i (f c)
modify_self f [] i c h = cc
modify_self f (d ∷ cs) zero c h = ap some (ap f (cc))
modify_self f (d ∷ cs) (suc i) c h = modify_self f cs i c h

-- A slot that is given up takes its socket out of those of the table.
pub active_fds-off :
    (f : ClientConnection → ClientConnection) (cs : List ClientConnection) (i : ℕ)
    (c : ClientConnection)
    → Holds cs i c
    → c.is_active ≡ true
    → (f c).is_active ≡ false
    → Perm (active_fds cs) (c.fd ∷ active_fds (modify f cs i))
unfolding active_fds
active_fds-off f [] i c h a b = cc
active_fds-off f (d ∷ cs) zero c h a b =
    let same : d ≡ c = ground arith in
    subst (λ x. Perm (active_fds (x ∷ cs)) (c.fd ∷ active_fds (f x ∷ cs))) (sym same)
      (simp (a, b) (Perm.refl (c.fd ∷ active_fds cs)))
active_fds-off f (d ∷ cs) (suc i) c h a b =
    let rest = active_fds-off f cs i c h a b in
    elim (Bool-cases d.is_active) [
      | inl e ↦
          simp e
            (Perm.trans (Perm.cons d.fd rest) (Perm.swap c.fd d.fd (active_fds (modify f cs i))))
      | inr e ↦ simp e rest
    ]

-- A change that leaves the slot active with its socket changes none of them.
pub active_fds-same :
    (f : ClientConnection → ClientConnection) (cs : List ClientConnection) (i : ℕ)
    (c : ClientConnection)
    → Holds cs i c
    → (f c).is_active ≡ c.is_active
    → (f c).fd ≡ c.fd
    → active_fds (modify f cs i) ≡ active_fds cs
unfolding active_fds
active_fds-same f [] i c h a b = refl
active_fds-same f (d ∷ cs) zero c h a b =
    let same : d ≡ c = ground arith in
    subst (λ x. active_fds (f x ∷ cs) ≡ active_fds (x ∷ cs)) (sym same) (simp (a, b) refl)
active_fds-same f (d ∷ cs) (suc i) c h a b = rw (active_fds-same f cs i c h a b) refl

-- A slot that is taken brings its socket in.
pub active_fds-on :
    (f : ClientConnection → ClientConnection) (cs : List ClientConnection) (i : ℕ)
    (c : ClientConnection)
    → Holds cs i c
    → c.is_active ≡ false
    → (f c).is_active ≡ true
    → Perm ((f c).fd ∷ active_fds cs) (active_fds (modify f cs i))
unfolding active_fds
active_fds-on f [] i c h a b = cc
active_fds-on f (d ∷ cs) zero c h a b =
    let same : d ≡ c = ground arith in
    subst (λ x. Perm ((f c).fd ∷ active_fds (x ∷ cs)) (active_fds (f x ∷ cs))) (sym same)
      (simp (a, b) (Perm.refl ((f c).fd ∷ active_fds cs)))
active_fds-on f (d ∷ cs) (suc i) c h a b =
    let rest = active_fds-on f cs i c h a b in
    elim (Bool-cases d.is_active) [
      | inl e ↦ simp e (Perm.trans (Perm.swap d.fd (f c).fd (active_fds cs)) (Perm.cons d.fd rest))
      | inr e ↦ simp e rest
    ]
