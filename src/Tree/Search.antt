-- ===== src/Tree/Search.antt =====
-- What a search finds after an insertion, and that it finds all that is stored.
use Prim.Native.Nat.Ordering.{lt, eq, gt}
use let_us_connect_http_serv.Base.{Option, Ordering, ap, arith, none, ok, some, ◌∙◌, ◌≡◌}
use let_us_connect_http_serv.Tree.{Tree, leaf, node, search_bst}
use let_us_connect_http_serv.Tree.Walk.{find, put, search_bst-node}
use let_us_connect_http_serv.Tree.Order.{IsOrder}
use let_us_connect_http_serv.Tree.Ordered.{Everywhere, IsOrdered}

module _ {ℓ} {D : Type ℓ} (compare : D → D → Ordering) where
  -- A datum that compares equal to one stored is not added: the first insertion stays.
  abbrev pub first_wins : Option D → D → D → Option D
  first_wins (some x) d e = some x
  first_wins none d e = elim (compare d e) [ eq ↦ some d | _ ↦ none ]

module _ {ℓ} {D : Type ℓ} (compare : D → D → Ordering) (order : IsOrder compare) where
  pub find-put :
      (t : Tree D) (d e : D)
      → find compare (put compare t d) e ≡ first_wins compare (find compare t e) d e
  unfolding find put
  find-put leaf d e = ground arith
  find-put (node p x n) d e = ground (
    arith,
    find-put p d e,
    find-put n d e,
    order.cmp_eq d e x,
    order.cmp_swap d x,
    order.cmp_swap e x,
  )

  map_both {κ μ ν} :
      (P : D → Type κ) (Q : D → Type μ) (R : D → Type ν) (t : Tree D)
      → ((y : D) → P y → Q y → R y)
      → Everywhere P t
      → Everywhere Q t
      → Everywhere R t
  map_both P Q R leaf f a b = tt
  map_both P Q R (node p x n) f a b =
      (map_both P Q R p f a.0 b.0, f x a.1 b.1, map_both P Q R n f a.2 b.2)

  -- What compares equal is found alike.
  abbrev Finds : Tree D → D → Type ℓ
  Finds t y = (e : D) → compare y e ≡ eq → find compare t e ≡ some y

  Finds-below :
      (p : Tree D) (x : D) (n : Tree D) (y : D)
      → compare x y ≡ lt
      → Finds p y
      → Finds (node p x n) y
  unfolding find
  Finds-below p x n y less found e same =
      let le : compare x e ≡ lt =
        ground (arith, order.cmp_eq y e x same, order.cmp_swap y x, order.cmp_swap e x) in
      rw (le, find) (found e same)

  Finds-above :
      (p : Tree D) (x : D) (n : Tree D) (y : D)
      → compare x y ≡ gt
      → Finds n y
      → Finds (node p x n) y
  unfolding find
  Finds-above p x n y more found e same =
      let ge : compare x e ≡ gt =
        ground (arith, order.cmp_eq y e x same, order.cmp_swap y x, order.cmp_swap e x) in
      rw (ge, find) (found e same)

  find_stored : (t : Tree D) → IsOrdered compare t → Everywhere (Finds t) t
  unfolding find
  find_stored leaf h = tt
  find_stored (node p x n) h = (
    map_both (λ y. compare x y ≡ lt) (Finds p) (Finds (node p x n)) p (Finds-below p x n) h.0
        (find_stored p h.2),
    λ e same. rw (same, find),
    map_both (λ y. compare x y ≡ gt) (Finds n) (Finds (node p x n)) n (Finds-above p x n) h.1
        (find_stored n h.3),
  )

  -- In an ordered tree that is not empty, `search_bst` for any datum that compares equal to a
  -- stored one returns the stored one.
  pub search_bst_stored :
      (p : Tree D) (x : D) (n : Tree D)
      → IsOrdered compare (node p x n)
      → Everywhere
          (λ y. (e : D) → compare y e ≡ eq → search_bst compare (node p x n) e ≡ ok (some y))
          (node p x n)
  search_bst_stored p x n h =
      let found = find_stored (node p x n) h in
      map_both (Finds (node p x n)) (Finds (node p x n)) _ (node p x n)
        (λ y hit _ e same. search_bst-node compare p x n e ∙ ap ok (hit e same)) found found

  -- What a search returns compares equal to what was asked for.
  pub find_sound : (t : Tree D) (d x : D) → find compare t d ≡ some x → compare x d ≡ eq
  unfolding find
  find_sound leaf d x h = cc
  find_sound (node p y n) d x h = ground (arith, find_sound p d x, find_sound n d x)
