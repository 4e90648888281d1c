-- ===== src/Tree/Walk.antt =====
-- The walk with a cursor, `iterate_bst`, against recursions on the tree.
use Prim.Native.Nat.Ordering.{lt, eq, gt}
use let_us_connect_http_serv.Base.{
  Option, Ordering, Ordering-cases, [], arith, inl, inr, none, ok, refl, some, ◌≡◌,
}
use let_us_connect_http_serv.Tree.{
  Position, Tree, found_at, insert_at, insert_bst, is_here, is_next, is_previous, iterate_bst, leaf,
  node, search_bst, to_next, to_previous, under,
}

module _ {ℓ} {D : Type ℓ} (compare : D → D → Ordering) where
  unfoldable pub find : Tree D → D → Option D
  find leaf d = none
  find (node p x n) d = elim (compare x d) [ gt ↦ find n d | lt ↦ find p d | eq ↦ some x ]

  unfoldable pub put : Tree D → D → Tree D
  put leaf d = node leaf d leaf
  put (node p x n) d = elim (compare x d) [
    | gt ↦ node p x (put n d)
    | lt ↦ node (put p d) x n
    | eq ↦ node p x n
  ]

  -- On a tree that is not empty the cursor lands on a node, and what `search_bst` and `insert_bst`
  -- read off it is what the recursions compute.
  record Walks (t : Tree D) (d : D) (r : Option Position) : Type ℓ where
    at : Position
    lands : r ≡ some at
    found : found_at compare t at ≡ find t d
    inserted : insert_at compare t d at ≡ put t d

  abbrev WalksIfNode : Tree D → D → Type ℓ
  WalksIfNode leaf d = Unit
  WalksIfNode (node p x n) d = Walks (node p x n) d (iterate_bst compare (node p x n) d)

  walk_next :
      (p : Tree D) (x : D) (n : Tree D) (d : D)
      → compare x d ≡ gt
      → WalksIfNode n d
      → Walks (node p x n) d (iterate_bst compare (node p x n) d)
  unfolding iterate_bst find put found_at insert_at
  walk_next p x leaf d e w = record {
    at = record { path = []; direction = is_next };
    lands = rw (e, iterate_bst);
    found = rw (e, find);
    inserted = rw (e, put);
  }
  walk_next p x (node a y b) d e w = record {
    at = under to_next w.at;
    lands = rw (e, iterate_bst, w.lands);
    found = rw (e, find) w.found;
    inserted = rw (e, put, ← w.inserted) (ground arith);
  }

  walk_previous :
      (p : Tree D) (x : D) (n : Tree D) (d : D)
      → compare x d ≡ lt
      → WalksIfNode p d
      → Walks (node p x n) d (iterate_bst compare (node p x n) d)
  unfolding iterate_bst find put found_at insert_at
  walk_previous leaf x n d e w = record {
    at = record { path = []; direction = is_previous };
    lands = rw (e, iterate_bst);
    found = rw (e, find);
    inserted = rw (e, put);
  }
  walk_previous (node a y b) x n d e w = record {
    at = under to_previous w.at;
    lands = rw (e, iterate_bst, w.lands);
    found = rw (e, find) w.found;
    inserted = rw (e, put, ← w.inserted) (ground arith);
  }

  walk_here :
      (p : Tree D) (x : D) (n : Tree D) (d : D)
      → compare x d ≡ eq
      → Walks (node p x n) d (iterate_bst compare (node p x n) d)
  unfolding iterate_bst find put found_at insert_at
  walk_here p x n d e = record {
    at = record { path = []; direction = is_here };
    lands = rw (e, iterate_bst);
    found = rw (e, find);
    inserted = rw (e, put);
  }

  iterate_bst-Walks : (t : Tree D) (d : D) → WalksIfNode t d
  iterate_bst-Walks leaf d = tt
  iterate_bst-Walks (node p x n) d = elim (Ordering-cases (compare x d)) [
    | inl e ↦ walk_previous p x n d e (iterate_bst-Walks p d)
    | inr (inl e) ↦ walk_here p x n d e
    | inr (inr e) ↦ walk_next p x n d e (iterate_bst-Walks n d)
  ]

  pub search_bst-node :
      (p : Tree D) (x : D) (n : Tree D) (d : D)
      → search_bst compare (node p x n) d ≡ ok (find (node p x n) d)
  unfolding search_bst
  search_bst-node p x n d = let w = iterate_bst-Walks (node p x n) d in rw (w.lands, w.found)

  pub insert_bst_lem : (t : Tree D) (d : D) → insert_bst compare t d ≡ ok (put t d)
  unfolding insert_bst
  insert_bst_lem leaf d = unfold put in refl
  insert_bst_lem (node p x n) d =
      let w = iterate_bst-Walks (node p x n) d in rw (w.lands, w.inserted)
