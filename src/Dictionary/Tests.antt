-- ===== src/Dictionary/Tests.antt =====
-- The dictionary after insertions with a repeated key.
use mathlib.Core.List.{Perm}
use let_us_connect_http_serv.Base.{
  Bytes, List, [], codes, drop, length, ok, pos, some, ℕ, ◌+◌, ◌/◌, ◌∷◌, ◌≡◌,
}
use let_us_connect_http_serv.LinkedList.{IsCounted}
use let_us_connect_http_serv.Dictionary.{
  Dictionary, Entry, dictionary_constructor, dictionary_destructor, search_dict,
}
use let_us_connect_http_serv.Dictionary.History.{
  after, after-IsValid, dictionary_constructor-IsValid, insert_all, insert_all-refines, keys_of,
  lookup,
}
use let_us_connect_http_serv.Dictionary.Destroy.{dictionary_destructor-leaks, entries}

abbrev pairs : List (Bytes × ℕ)
pairs = (codes "b", 1) ∷ (codes "a", 2) ∷ (codes "b", 3) ∷ []

insert_all-refines_example :
    (d : Dictionary ℕ) × (insert_all pairs dictionary_constructor ≡ ok d)
    × ((j : Bytes) → search_dict (some d) (some j) ≡ ok (lookup pairs j))
    × (d.keys.nodes ≡ keys_of pairs)
    × IsCounted d.keys
insert_all-refines_example = insert_all-refines pairs

dictionary_destructor-leaks_example :
    (freed : List (Entry ℕ)) × (dictionary_destructor (after pairs dictionary_constructor)
      ≡ ok (
        some (record {
          nodes =
              drop
                ((length (after pairs dictionary_constructor).keys.nodes + 1) / 2)
                (after pairs dictionary_constructor).keys.nodes;
          count = pos (length (after pairs dictionary_constructor).keys.nodes / 2);
        }),
        freed,
      ))
    × Perm freed (entries (after pairs dictionary_constructor).binary_search_tree)
dictionary_destructor-leaks_example =
    dictionary_destructor-leaks (after pairs dictionary_constructor)
      (after-IsValid pairs dictionary_constructor dictionary_constructor-IsValid)
