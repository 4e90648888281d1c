-- ===== src/Dictionary/Laws.antt =====
-- The dictionary is a finite map in which the first insertion of a key stays.
use let_us_connect_http_serv.Base.{
  Bytes, Option, Option-cases, [], ap, arith, bytes_eq, if◌then◌else◌, inl, inr, none, ok, refl,
  some, ◌++◌, ◌∙◌, ◌∷◌, ◌≡◌, ◌≢◌,
}
use let_us_connect_http_serv.CString.Compare.{
  eq_of_strcmp, strcmp-bytes_eq, strcmp_refl, strcmp_swap, strcmp_trans,
}
use let_us_connect_http_serv.Tree.{Tree, leaf, node}
use let_us_connect_http_serv.Tree.Order.{IsOrder}
use let_us_connect_http_serv.Tree.Walk.{find, insert_bst_lem, put, search_bst-node}
use let_us_connect_http_serv.Tree.Ordered.{
  Everywhere, Everywhere-put, IsOrdered, find-Everywhere, put-IsOrdered,
}
use let_us_connect_http_serv.Tree.Search.{find-put, first_wins}
use let_us_connect_http_serv.LinkedList.{IsCounted, LinkedList, insert_ll}
use let_us_connect_http_serv.Queue.Fifo.{insert_end, list_of}
use let_us_connect_http_serv.Dictionary.{
  Dictionary, Entry, compare_string_keys, entry_constructor, insert_dict, search_dict, search_tree,
  value_of,
}

insert_keys :
    (l : LinkedList Bytes) (key : Bytes)
    → IsCounted l
    → insert_ll l l.count key ≡ ok (list_of (l.nodes ++ key ∷ []))
insert_keys l key c =
    let same : l ≡ list_of l.nodes = λ i. record { nodes = l.nodes; count = c i } in
    ap (λ m. insert_ll m m.count key) same ∙ insert_end l.nodes key

module _ {ℓ} {V : Type ℓ} where
  -- The comparison of entries fills the interface of the tree.
  pub compare_string_keys-IsOrder : IsOrder (compare_string_keys {V = V})
  unfolding compare_string_keys
  compare_string_keys-IsOrder = record {
    cmp_refl = λ a. rw (strcmp_refl a.key, compare_string_keys);
    cmp_swap = λ a b. ground (arith, strcmp_swap a.key b.key);
    cmp_eq = λ a b c h. ground (arith, eq_of_strcmp a.key b.key);
    lt_trans = λ a b c h k. ground (arith, strcmp_trans a.key b.key c.key);
  }

  -- The abstract map.
  unfoldable pub contents : Dictionary V → Bytes → Option V
  contents d key =
      value_of (find compare_string_keys d.binary_search_tree (entry_constructor key none))

  -- What holds of every dictionary that the constructor and `insert_dict` make.
  pub record IsValid (d : Dictionary V) : Type ℓ where
    pub counted : IsCounted d.keys
    pub has_values : Everywhere (λ e. e.value ≢ none) d.binary_search_tree
    pub ordered : IsOrdered compare_string_keys d.binary_search_tree

  search_tree_lem :
      (t : Tree (Entry V)) (key : Bytes)
      → search_tree t key ≡ ok (value_of (find compare_string_keys t (entry_constructor key none)))
  unfolding search_tree
  search_tree_lem leaf key = unfold find value_of in refl
  search_tree_lem (node p x n) key =
      rw (search_bst-node compare_string_keys p x n (entry_constructor key none))

  -- A search never faults, and reads the map.
  pub search_dict_lem :
      (d : Dictionary V) (key : Bytes) → search_dict (some d) (some key) ≡ ok (contents d key)
  unfolding search_dict contents
  search_dict_lem d key = search_tree_lem d.binary_search_tree key

  -- The dictionary after an insertion.
  unfoldable pub inserted : Dictionary V → Bytes → V → Dictionary V
  inserted d key value = record {
    binary_search_tree =
        put compare_string_keys d.binary_search_tree (entry_constructor key (some value));
    keys = list_of (d.keys.nodes ++ key ∷ []);
  }

  pub insert_dict_lem :
      (d : Dictionary V) (key : Bytes) (value : V)
      → IsValid d
      → insert_dict d key value ≡ ok (inserted d key value)
  unfolding insert_dict inserted
  insert_dict_lem d key value h = rw (
    insert_bst_lem compare_string_keys d.binary_search_tree (entry_constructor key (some value)),
    insert_keys d.keys key h.counted,
  )

  pub inserted-IsValid :
      (d : Dictionary V) (key : Bytes) (value : V) → IsValid d → IsValid (inserted d key value)
  unfolding inserted
  inserted-IsValid d key value h = record {
    counted = refl;
    has_values =
        Everywhere-put compare_string_keys (λ e. e.value ≢ none) d.binary_search_tree
          (entry_constructor key (some value)) h.has_values (unfold entry_constructor in λ e. cc);
    ordered =
        put-IsOrdered compare_string_keys d.binary_search_tree (entry_constructor key (some value))
          h.ordered;
  }

  -- A key keeps its first value.
  abbrev pub or_first : Option V → Bytes → Bytes → V → Option V
  or_first (some w) key j value = some w
  or_first none key j value = if bytes_eq key j then some value else none

  first_wins_value :
      (o : Option (Entry V)) (key j : Bytes) (value : V)
      → ((e : Entry V) → o ≡ some e → e.value ≢ none)
      → value_of (
          first_wins compare_string_keys o
            (entry_constructor key (some value))
            (entry_constructor j none))
        ≡ or_first (value_of o) key j value
  unfolding value_of entry_constructor compare_string_keys
  first_wins_value none key j value h = ground (arith, strcmp-bytes_eq key j)
  first_wins_value (some e) key j value h = elim (Option-cases e.value) [
    | inl empty ↦ absurd (h e refl empty)
    | inr (w, full) ↦ rw full
  ]

  pub contents-inserted :
      (d : Dictionary V) (key j : Bytes) (value : V)
      → IsValid d
      → contents (inserted d key value) j ≡ or_first (contents d j) key j value
  unfolding inserted contents
  contents-inserted d key j value h =
      rw
        (find-put compare_string_keys compare_string_keys-IsOrder d.binary_search_tree
          (entry_constructor key (some value)) (entry_constructor j none))
        (first_wins_value _ key j value λ e hit.
          find-Everywhere compare_string_keys (λ x. x.value ≢ none) d.binary_search_tree
            (entry_constructor j none) e h.has_values hit)
