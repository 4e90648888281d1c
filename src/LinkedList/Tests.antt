-- ===== src/LinkedList/Tests.antt =====
-- The list operations on a list of three.
use Prim.Native.Nat.Ordering.{lt, gt}
use native.Mathlib.Omega.{compare-eq, compare-gt, compare-lt}
use let_us_connect_http_serv.Base.{
  Ordering-cases, [], arith, compare, get_elem?, inl, inr, ok, pos, refl, some, suc, true, zero, ℕ,
  ◌∷◌, ◌≡◌, ◌≤◌,
}
use let_us_connect_http_serv.LinkedList.{LinkedList}
use let_us_connect_http_serv.LinkedList.Search.{
  IsSortedFor, binary_search_ll, binary_search_ll_lem, has_equal,
}

abbrev three : LinkedList ℕ
three = record { nodes = 1 ∷ 2 ∷ 3 ∷ []; count = pos 3 }

-- The list is in the order of its numbers.
ordered :
    (i j x y : ℕ)
    → i ≤ j
    → get_elem? three.nodes i ≡ some x
    → get_elem? three.nodes j ≡ some y
    → x ≤ y
ordered zero zero x y le at_i at_j = ground arith
ordered zero (suc zero) x y le at_i at_j = ground arith
ordered zero (suc (suc zero)) x y le at_i at_j = ground arith
ordered (suc zero) zero x y le at_i at_j = absurd (omega arith)
ordered (suc zero) (suc zero) x y le at_i at_j = ground arith
ordered (suc zero) (suc (suc zero)) x y le at_i at_j = ground arith
ordered (suc (suc zero)) zero x y le at_i at_j = absurd (omega arith)
ordered (suc (suc zero)) (suc zero) x y le at_i at_j = absurd (omega arith)
ordered (suc (suc zero)) (suc (suc zero)) x y le at_i at_j = ground arith
ordered i (suc (suc (suc j))) x y le at_i at_j = cc
ordered (suc (suc (suc i))) j x y le at_i at_j = cc

compare_le :
    (x y : ℕ)
    → x ≤ y
    → (compare y 2 ≡ lt → compare x 2 ≡ lt) × (compare x 2 ≡ gt → compare y 2 ≡ gt)
compare_le x y le = (
  λ e. elim (Ordering-cases (compare x 2)) [
    | inl lesser ↦ lesser
    | inr (inl equal) ↦ absurd (omega (arith, le, compare-lt y 2 e, compare-eq x 2 equal))
    | inr (inr greater) ↦ absurd (omega (arith, le, compare-lt y 2 e, compare-gt x 2 greater))
  ],
  λ e. elim (Ordering-cases (compare y 2)) [
    | inl lesser ↦ absurd (omega (arith, le, compare-gt x 2 e, compare-lt y 2 lesser))
    | inr (inl equal) ↦ absurd (omega (arith, le, compare-gt x 2 e, compare-eq y 2 equal))
    | inr (inr greater) ↦ greater
  ],
)

three-IsSortedFor : IsSortedFor compare 2 three.nodes
three-IsSortedFor i j x y le at_i at_j = compare_le x y (ordered i j x y le at_i at_j)

binary_search_ll_lem_example :
    binary_search_ll compare three 2 ≡ ok (some (has_equal compare three.nodes 2))
binary_search_ll_lem_example = binary_search_ll_lem compare three 2 refl three-IsSortedFor

found_two : binary_search_ll compare three 2 ≡ ok (some true)
unfolding has_equal
found_two = binary_search_ll_lem compare three 2 refl three-IsSortedFor
