-- ===== src/Dictionary/Destroy.antt =====
-- `dictionary_destructor` frees each entry of the tree once, and leaves half of the key list.
use mathlib.Core.List.{Perm, perm_middle}
use mathlib.Core.List.Perm
use let_us_connect_http_serv.Base.{
  List, [], append-nil, drop, length, ok, pos, some, ◌++◌, ◌+◌, ◌/◌, ◌∷◌, ◌≡◌,
}
use let_us_connect_http_serv.Tree.{Tree, leaf, node}
use let_us_connect_http_serv.LinkedList.Destroy.{linked_list_destructor-leaks}
use let_us_connect_http_serv.Dictionary.{
  Dictionary, Entry, dictionary_destructor, recursive_dictionary_destroy,
}
use let_us_connect_http_serv.Dictionary.Laws.{IsValid}

module _ {ℓ} {V : Type ℓ} where
  pub entries : Tree (Entry V) → List (Entry V)
  entries leaf = []
  entries (node p x n) = entries p ++ (x ∷ entries n)

  -- Each entry is freed once, children before their parent.
  recursive_dictionary_destroy-perm :
      (t : Tree (Entry V)) → Perm (recursive_dictionary_destroy t) (entries t)
  unfolding recursive_dictionary_destroy entries
  recursive_dictionary_destroy-perm leaf = Perm.refl []
  recursive_dictionary_destroy-perm (node p x n) =
      Perm.append (recursive_dictionary_destroy-perm p) (
        Perm.trans (perm_middle (recursive_dictionary_destroy n) [])
          (rw append-nil (Perm.cons x (recursive_dictionary_destroy-perm n))))

  -- The destructor of a valid dictionary returns; it frees every entry of the tree once, and of n
  -- nodes of the key list the last n / 2 are left.
  pub dictionary_destructor-leaks :
      (d : Dictionary V)
      → IsValid d
      → (freed : List (Entry V)) × (dictionary_destructor d
          ≡ ok (
            some (record {
              nodes = drop ((length d.keys.nodes + 1) / 2) d.keys.nodes;
              count = pos (length d.keys.nodes / 2);
            }),
            freed,
          ))
        × Perm freed (entries d.binary_search_tree)
  unfolding dictionary_destructor
  dictionary_destructor-leaks d h = (
    recursive_dictionary_destroy d.binary_search_tree,
    rw (linked_list_destructor-leaks d.keys h.counted),
    recursive_dictionary_destroy-perm d.binary_search_tree,
  )
