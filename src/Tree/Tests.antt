-- ===== src/Tree/Tests.antt =====
-- The tree on entries with keys of one byte.
use Prim.Native.Nat.Ordering.{lt, eq}
use let_us_connect_http_serv.Base.{[], codes, ok, refl, some, ℕ, ◌∷◌, ◌≡◌}
use let_us_connect_http_serv.Tree.{
  Tree, binary_search_tree_destructor, binary_search_tree_str_compare, insert_bst, leaf, node,
  recursive_tree_destruction, search_bst,
}
use let_us_connect_http_serv.Tree.Ordered.{Everywhere, IsOrdered, insert_bst-IsOrdered}
use let_us_connect_http_serv.Tree.Search.{search_bst_stored}
use let_us_connect_http_serv.CString.Compare.{strcmp}
use let_us_connect_http_serv.Dictionary.{Entry, compare_string_keys, entry_constructor}
use let_us_connect_http_serv.Dictionary.Laws.{compare_string_keys-IsOrder}

abbrev entry : ℕ → Entry ℕ
entry c = entry_constructor (c ∷ []) (some c)

-- The key b is above a, which stands behind `next`.
abbrev two : Tree (Entry ℕ)
two = node leaf (entry b'b') (node leaf (entry b'a') leaf)

two-IsOrdered : IsOrdered compare_string_keys two
unfolding compare_string_keys strcmp entry_constructor
two-IsOrdered = (tt, (tt, refl, tt), tt, (tt, tt, tt, tt))

insert_bst-IsOrdered_example :
    (u : Tree (Entry ℕ)) × (insert_bst compare_string_keys two (entry b'c') ≡ ok u)
    × IsOrdered compare_string_keys u
insert_bst-IsOrdered_example =
    insert_bst-IsOrdered compare_string_keys two (entry b'c') two-IsOrdered

search_bst_stored_example :
    Everywhere
      (λ y.
        (e : Entry ℕ)
        → compare_string_keys y e ≡ eq
        → search_bst compare_string_keys two e ≡ ok (some y))
      two
search_bst_stored_example =
    search_bst_stored compare_string_keys compare_string_keys-IsOrder leaf (entry b'b')
      (node leaf (entry b'a') leaf) two-IsOrdered

two_freed : binary_search_tree_destructor two ≡ ok (entry b'a' ∷ entry b'b' ∷ [])
unfolding binary_search_tree_destructor recursive_tree_destruction
two_freed = refl

str_compare_less : binary_search_tree_str_compare (codes "ab") (codes "b") ≡ lt
unfolding binary_search_tree_str_compare strcmp
str_compare_less = refl
