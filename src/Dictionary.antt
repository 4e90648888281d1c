-- ===== src/Dictionary.antt =====
-- DataStructures/Dictionary/Dictionary.c and Entry.c: entries in a search tree, and the list of the
-- inserted keys. A value is copied in, so it is a value here.
pub mod Laws
pub mod History
pub mod Destroy
pub mod Tests
use Prim.Native.Nat.Ordering.{lt, eq, gt}
use mathlib.Core.Option
use let_us_connect_http_serv.Base.{
  Bytes, List, Option, Ordering, Outcome, [], none, ok, some, ◌++◌, ◌∷◌, ◌>>=◌,
}
use let_us_connect_http_serv.CString.Compare.{strcmp}
use let_us_connect_http_serv.Tree.{
  Tree, binary_search_tree_constructor, insert_bst, leaf, node, search_bst,
}
use let_us_connect_http_serv.LinkedList.{
  LinkedList, insert_ll, linked_list_constructor, linked_list_destructor,
}

-- `struct Entry`. `none` is the dummy value of the entry that `search_dict` looks for.
pub record Entry {ℓ} (V : Type ℓ) : Type ℓ where
  pub key : Bytes
  pub value : Option V

-- `struct Dictionary`, its data members; its comparison is always `compare_string_keys`.
pub record Dictionary {ℓ} (V : Type ℓ) : Type ℓ where
  pub binary_search_tree : Tree (Entry V)
  pub keys : LinkedList Bytes

module _ {ℓ} {V : Type ℓ} where
  unfoldable pub entry_constructor : Bytes → Option V → Entry V
  entry_constructor key value = record { key = key; value = value }

  -- 1, -1 and 0 as `gt`, `lt` and `eq`.
  unfoldable pub compare_string_keys : Entry V → Entry V → Ordering
  compare_string_keys a b = elim (strcmp a.key b.key) [ gt ↦ gt | lt ↦ lt | eq ↦ eq ]

  unfoldable pub dictionary_constructor : Dictionary V
  unfolding linked_list_constructor binary_search_tree_constructor
  dictionary_constructor = record {
    binary_search_tree = binary_search_tree_constructor;
    keys = linked_list_constructor;
  }

  unfoldable pub value_of : Option (Entry V) → Option V
  value_of none = none
  value_of (some e) = e.value

  search_tree : Tree (Entry V) → Bytes → Outcome (Option V)
  unfolding value_of entry_constructor
  search_tree leaf key = ok none
  search_tree (node p x n) key = do
    result ← search_bst compare_string_keys (node p x n) (entry_constructor key none)
    ok (value_of result)

  -- `none` is a NULL dictionary or a NULL key.
  unfoldable pub search_dict : Option (Dictionary V) → Option Bytes → Outcome (Option V)
  unfolding search_tree
  search_dict none key = ok none
  search_dict (some d) none = ok none
  search_dict (some d) (some key) = search_tree d.binary_search_tree key

  unfoldable pub insert_dict : Dictionary V → Bytes → V → Outcome (Dictionary V)
  unfolding entry_constructor
  insert_dict d key value = do
    tree ← insert_bst compare_string_keys d.binary_search_tree (entry_constructor key (some value))
    keys ← insert_ll d.keys d.keys.count key
    ok (record { binary_search_tree = tree; keys = keys })

  -- The nodes in the order in which they are freed.
  unfoldable pub recursive_dictionary_destroy : Tree (Entry V) → List (Entry V)
  recursive_dictionary_destroy leaf = []
  recursive_dictionary_destroy (node p x n) =
      recursive_dictionary_destroy p ++ (recursive_dictionary_destroy n ++ x ∷ [])

  -- What is left of the key list, and the entries freed.
  unfoldable pub dictionary_destructor :
      Dictionary V → Outcome (Option (LinkedList Bytes) × List (Entry V))
  unfolding recursive_dictionary_destroy
  dictionary_destructor d = do
    left ← linked_list_destructor d.keys
    ok (left, recursive_dictionary_destroy d.binary_search_tree)
