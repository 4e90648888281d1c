-- ===== src/Tree/Order.antt =====
-- What the tree relies on: the comparison of two data is a total preorder.
use Prim.Native.Nat.Ordering.{lt, eq, gt}
use let_us_connect_http_serv.Base.{Ordering, ◌≡◌}

abbrev pub opposite : Ordering → Ordering
opposite lt = gt
opposite eq = eq
opposite gt = lt

pub record IsOrder {ℓ} {D : Type ℓ} (compare : D → D → Ordering) : Type ℓ where
  pub cmp_refl : (a : D) → compare a a ≡ eq
  pub cmp_swap : (a b : D) → compare b a ≡ opposite (compare a b)
  pub cmp_eq : (a b c : D) → compare a b ≡ eq → compare a c ≡ compare b c
  pub lt_trans : (a b c : D) → compare a b ≡ lt → compare b c ≡ lt → compare a c ≡ lt
