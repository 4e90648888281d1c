-- ===== src/Tree/Ordered.antt =====
-- The search-tree invariant: what lies behind `next` is less than the node, and what lies behind
-- `previous` is greater. `insert_bst` keeps it.
use Prim.Native.Nat.Ordering.{lt, gt}
use let_us_connect_http_serv.Base.{Ordering, arith, ok, some, ◌≡◌}
use let_us_connect_http_serv.Tree.{Tree, insert_bst, leaf, node}
use let_us_connect_http_serv.Tree.Walk.{find, insert_bst_lem, put}

module _ {ℓ} {D : Type ℓ} where
  -- Every datum of the tree satisfies `P`.
  abbrev pub Everywhere {κ} : (D → Type κ) → Tree D → Type κ
  Everywhere P leaf = Unit
  Everywhere P (node p x n) = Everywhere P p × P x × Everywhere P n

module _ {ℓ} {D : Type ℓ} (compare : D → D → Ordering) where
  abbrev pub IsOrdered : Tree D → Type 0
  IsOrdered leaf = Unit
  IsOrdered (node p x n) =
      Everywhere (λ y. compare x y ≡ lt) p
      × Everywhere (λ y. compare x y ≡ gt) n
      × IsOrdered p
      × IsOrdered n

  pub Everywhere-put {κ} :
      (P : D → Type κ) (t : Tree D) (d : D) → Everywhere P t → P d → Everywhere P (put compare t d)
  unfolding put
  Everywhere-put P leaf d h p = (tt, p, tt)
  Everywhere-put P (node l x r) d h p = ground (arith, Everywhere-put P l d, Everywhere-put P r d)

  -- What a search finds is stored.
  pub find-Everywhere {κ} :
      (P : D → Type κ) (t : Tree D) (d x : D) → Everywhere P t → find compare t d ≡ some x → P x
  unfolding find
  find-Everywhere P leaf d x h e = cc
  find-Everywhere P (node l y r) d x h e =
      ground (arith, find-Everywhere P l d x, find-Everywhere P r d x)

  pub put-IsOrdered : (t : Tree D) (d : D) → IsOrdered t → IsOrdered (put compare t d)
  unfolding put
  put-IsOrdered leaf d h = (tt, tt, tt, tt)
  put-IsOrdered (node p x n) d h = ground (
    arith,
    put-IsOrdered p d,
    put-IsOrdered n d,
    Everywhere-put (λ y. compare x y ≡ lt) p d,
    Everywhere-put (λ y. compare x y ≡ gt) n d,
  )

  -- `insert_bst` of an ordered tree returns an ordered tree.
  pub insert_bst-IsOrdered :
      (t : Tree D) (d : D)
      → IsOrdered t
      → (u : Tree D) × (insert_bst compare t d ≡ ok u) × IsOrdered u
  insert_bst-IsOrdered t d h = (put compare t d, insert_bst_lem compare t d, put-IsOrdered t d h)
