-- ===== src/CString/Compare.antt =====
-- strcmp, by the sign of its result, and its laws.
use Prim.Native.Nat.Ordering.{lt, eq, gt}
use let_us_connect_http_serv.Base.{
  Bytes, Ordering, [], arith, bytes_eq, bytes_eq_refl, compare, eq_of_bytes_eq, refl, subst, true,
  ◌↔◌, ◌∷◌, ◌≡◌,
}
use let_us_connect_http_serv.Tree.Order.{opposite}

unfoldable pub strcmp : Bytes → Bytes → Ordering
strcmp [] [] = eq
strcmp [] (_ ∷ _) = lt
strcmp (_ ∷ _) [] = gt
strcmp (a ∷ s) (b ∷ t) = elim (compare a b) [ eq ↦ strcmp s t | lt ↦ lt | gt ↦ gt ]

pub strcmp_refl : (s : Bytes) → strcmp s s ≡ eq
unfolding strcmp
strcmp_refl [] = refl
strcmp_refl (a ∷ s) = ground (arith, strcmp_refl s)

pub eq_of_strcmp : (s t : Bytes) → strcmp s t ≡ eq → s ≡ t
unfolding strcmp
eq_of_strcmp [] [] h = refl
eq_of_strcmp [] (b ∷ t) h = cc
eq_of_strcmp (a ∷ s) [] h = cc
eq_of_strcmp (a ∷ s) (b ∷ t) h = ground (arith, eq_of_strcmp s t)

pub strcmp_swap : (s t : Bytes) → strcmp t s ≡ opposite (strcmp s t)
unfolding strcmp
strcmp_swap [] [] = refl
strcmp_swap [] (b ∷ t) = refl
strcmp_swap (a ∷ s) [] = refl
strcmp_swap (a ∷ s) (b ∷ t) = ground (arith, strcmp_swap s t)

pub strcmp_trans : (s t u : Bytes) → strcmp s t ≡ lt → strcmp t u ≡ lt → strcmp s u ≡ lt
unfolding strcmp
strcmp_trans [] [] u h k = cc
strcmp_trans [] (b ∷ t) [] h k = cc
strcmp_trans [] (b ∷ t) (c ∷ u) h k = refl
strcmp_trans (a ∷ s) [] u h k = cc
strcmp_trans (a ∷ s) (b ∷ t) [] h k = cc
strcmp_trans (a ∷ s) (b ∷ t) (c ∷ u) h k = ground (arith, strcmp_trans s t u)

-- `strcmp(s, t) == 0` is the test for equal bytes.
pub strcmp-bytes_eq : (s t : Bytes) → (strcmp s t ≡ eq) ↔ (bytes_eq s t ≡ true)
strcmp-bytes_eq s t = (
  λ h. subst (λ u. bytes_eq s u ≡ true) (eq_of_strcmp s t h) (bytes_eq_refl s),
  λ h. subst (λ u. strcmp s u ≡ eq) (eq_of_bytes_eq s t h) (strcmp_refl s),
)
