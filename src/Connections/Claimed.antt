-- ===== src/Connections/Claimed.antt =====
-- Which slot an accepted client gets.
use let_us_connect_http_serv.Base.{
  Bool, List, Option, [], ap, false, get_elem?, if◌then◌else◌, none, refl, some, true, ℕ, ◌∷◌, ◌≡◌,
}
use let_us_connect_http_serv.Connections.{ClientConnection, claim, further, modify, occupied}

-- A slot that holds such a connection.
abbrev pub Holds : List ClientConnection → ℕ → ClientConnection → Type 0
Holds cs i c = get_elem? cs i ≡ some c

-- The slot that a client gets was not active, and is the only one that changes.
pub record Claimed (fd now i : ℕ) (cs ds : List ClientConnection) : Type 0 where
  pub was : ClientConnection
  pub held : Holds cs i was
  pub idle : was.is_active ≡ false
  pub changed : ds ≡ modify (occupied fd now) cs i

abbrev pub ClaimsSlot : ℕ → ℕ → List ClientConnection → Option (ℕ × List ClientConnection) → Type 0
ClaimsSlot fd now cs none = Unit
ClaimsSlot fd now cs (some (i, ds)) = Claimed fd now i cs ds

claim-further :
    (b : Bool) (fd now : ℕ) (c : ClientConnection) (cs : List ClientConnection)
    (rest : Option (ℕ × List ClientConnection))
    → c.is_active ≡ b
    → ClaimsSlot fd now cs rest
    → ClaimsSlot fd now (c ∷ cs) (if b then further c rest else some (0, occupied fd now c ∷ cs))
unfolding further
claim-further false fd now c cs rest a h = record { was = c; held = refl; idle = a; changed = refl }
claim-further true fd now c cs none a h = tt
claim-further true fd now c cs (some (i, ds)) a h = record {
  was = h.was;
  held = h.held;
  idle = h.idle;
  changed = ap (◌∷◌ c) h.changed;
}

pub claim-ClaimsSlot :
    (fd now : ℕ) (cs : List ClientConnection) → ClaimsSlot fd now cs (claim fd now cs)
unfolding claim
claim-ClaimsSlot fd now [] = tt
claim-ClaimsSlot fd now (c ∷ cs) =
    claim-further c.is_active fd now c cs (claim fd now cs) refl (claim-ClaimsSlot fd now cs)
