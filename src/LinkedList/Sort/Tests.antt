-- ===== src/LinkedList/Sort/Tests.antt =====
-- The sort of a list whose first element is, to the sort, a node that heads a chain of three.
use let_us_connect_http_serv.Base.{
  List, Outcome, [], arith, fault, if◌then◌else◌, ltb, ok, pos, refl, some, suc, true, zero, ℕ, ℤ,
  ◌∷◌, ◌≡◌,
}
use let_us_connect_http_serv.LinkedList.{LinkedList, advance, retrieve_ll}
use let_us_connect_http_serv.LinkedList.Sort.{
  AtMost, Sorts, bubble_sort_ll, bubble_sort_ll-Sorts, is_positive, swap_through,
}

abbrev sign : ℕ → ℕ → ℤ
sign x y = if ltb y x then pos 1 else pos 0

total : (x y : ℕ) → is_positive (sign x y) ≡ true → AtMost sign y x
total x y e = ground arith

chained : (x y z : ℕ) → AtMost sign x y → AtMost sign y z → AtMost sign x z
chained x y z e f = ground arith

-- The data 1 stands where such a chain starts; any other is no node.
abbrev heads : ℕ → Outcome (List ℕ)
heads (suc zero) = ok (7 ∷ 4 ∷ 9 ∷ [])
heads _ = fault

abbrev three : LinkedList ℕ
three = record { nodes = 1 ∷ 2 ∷ 3 ∷ []; count = pos 3 }

bubble_sort_ll-Sorts_example : Sorts sign heads (some 1) (bubble_sort_ll sign heads three)
bubble_sort_ll-Sorts_example = bubble_sort_ll-Sorts sign total chained heads three refl

in_order : bubble_sort_ll sign heads three ≡ ok (some (4 ∷ 7 ∷ 9 ∷ []))
unfolding bubble_sort_ll swap_through retrieve_ll advance
in_order = refl
