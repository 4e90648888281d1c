-- ===== src/Tree.antt =====
-- DataStructures/Trees/BinarySearchTree.c. Every node is owned by its parent, so the tree is a
-- value; NULL is `leaf`. `compare` returns 1, -1 or 0, as the header asks of it: `gt`, `lt`, `eq`.
pub mod Order
pub mod Walk
pub mod Ordered
pub mod Search
pub mod Tests
use mathlib.Core.Option
use Prim.Native.Nat.Ordering.{lt, eq, gt}
use let_us_connect_http_serv.Base.{
  Bytes, List, Option, Ordering, Outcome, [], compare, fault, map, none, ok, some, ◌++◌, ◌∷◌,
}
use let_us_connect_http_serv.CString.Compare.{strcmp}

-- `struct Node` in a tree: `previous`, `data` and `next`.
pub data Tree {ℓ} (D : Type ℓ) : Type ℓ where
  leaf : Tree D
  node : Tree D → D → Tree D → Tree D

-- The links that lead from `head` to a node, and where the wanted data lies from it: `*direction`
-- is 1, -1 or 0.
pub data Turn : Type 0 where
  to_next to_previous : Turn

pub data Direction : Type 0 where
  is_next is_previous is_here : Direction

pub record Position : Type 0 where
  pub path : List Turn
  pub direction : Direction

abbrev under : Turn → Position → Position
under t p = record p { path = t ∷ p.path }

-- `if (child) return iterate_bst(child); else { *direction = d; return cursor; }`
abbrev descend {ℓ} : {D : Type ℓ} → Tree D → Turn → Direction → Option Position → Option Position
descend leaf t d below = some (record { path = []; direction = d })
descend (node _ _ _) t d below = Option.map (under t) below

module _ {ℓ} {D : Type ℓ} where
  -- The constructor leaves `head` NULL.
  unfoldable pub binary_search_tree_constructor : Tree D
  binary_search_tree_constructor = leaf

  -- The data of the node at a path, and the tree with a new child there.
  unfoldable pub data_at : List Turn → Tree D → Option D
  data_at path leaf = none
  data_at [] (node p x n) = some x
  data_at (to_next ∷ path) (node p x n) = data_at path n
  data_at (to_previous ∷ path) (node p x n) = data_at path p

  -- `cursor->next = …` and `cursor->previous = …`
  unfoldable pub set_child : List Turn → Turn → Tree D → Tree D → Tree D
  set_child path t child leaf = leaf
  set_child [] to_next child (node p x n) = node p x child
  set_child [] to_previous child (node p x n) = node child x n
  set_child (to_next ∷ path) t child (node p x n) = node p x (set_child path t child n)
  set_child (to_previous ∷ path) t child (node p x n) = node (set_child path t child p) x n

  unfoldable pub create_node_bst : D → Tree D
  create_node_bst d = node leaf d leaf

module _ {ℓ} {D : Type ℓ} (compare : D → D → Ordering) where
  -- `none` is the read through a NULL cursor.
  unfoldable pub iterate_bst : Tree D → D → Option Position
  iterate_bst leaf d = none
  iterate_bst (node p x n) d = elim (compare x d) [
    | gt ↦ descend n to_next is_next (iterate_bst n d)
    | lt ↦ descend p to_previous is_previous (iterate_bst p d)
    | eq ↦ some (record { path = []; direction = is_here })
  ]

  found_at : Tree D → Position → Option D
  unfolding data_at
  found_at t at = elim at.direction [ is_here ↦ data_at at.path t | _ ↦ none ]

  searched : Tree D → Option Position → Outcome (Option D)
  unfolding found_at
  searched t none = fault
  searched t (some at) = ok (found_at t at)

  -- The data that `search_bst` returns; its caller makes sure that `head` is not NULL.
  unfoldable pub search_bst : Tree D → D → Outcome (Option D)
  unfolding searched
  search_bst t d = searched t (iterate_bst t d)

  insert_at : Tree D → D → Position → Tree D
  unfolding set_child create_node_bst
  insert_at t d at = elim at.direction [
    | is_next ↦ set_child at.path to_next (create_node_bst d) t
    | is_previous ↦ set_child at.path to_previous (create_node_bst d) t
    | is_here ↦ t
  ]

  inserted : Tree D → D → Option Position → Outcome (Tree D)
  unfolding insert_at
  inserted t d none = fault
  inserted t d (some at) = ok (insert_at t d at)

  unfoldable pub insert_bst : Tree D → D → Outcome (Tree D)
  unfolding inserted create_node_bst
  insert_bst leaf d = ok (create_node_bst d)
  insert_bst (node p x n) d = inserted (node p x n) d (iterate_bst (node p x n) d)

module _ {ℓ} {D : Type ℓ} where
  -- The data of the nodes in the order in which they are freed.
  recursive_tree_destruction : Tree D → List D
  recursive_tree_destruction leaf = []
  recursive_tree_destruction (node p x n) =
      recursive_tree_destruction p ++ (recursive_tree_destruction n ++ x ∷ [])

  -- A NULL `head` is read through.
  binary_search_tree_destructor : Tree D → Outcome (List D)
  unfolding recursive_tree_destruction
  binary_search_tree_destructor leaf = fault
  binary_search_tree_destructor (node p x n) = ok (recursive_tree_destruction (node p x n))

binary_search_tree_str_compare : Bytes → Bytes → Ordering
binary_search_tree_str_compare data_one data_two = strcmp data_one data_two
