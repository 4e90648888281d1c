-- ===== src/LinkedList/Search.antt =====
-- `binary_search_ll`. `compare` is a parameter, its 1, -1 and any other result `gt`, `lt` and `eq`.
use Prim.Native.Nat.Ordering.{lt, eq, gt}
use let_us_connect_http_serv.Base.{
  Bool, Bool-cases, List, Option, Ordering, Ordering-cases, Outcome, [], ap, arith, false, fault,
  get_elem?, get_elem?_beyond, if◌then◌else◌, inl, inr, length, ltb, ltb→lt, negsuc, none, ok, pos,
  refl, some, suc, true, zero, ℕ, ℤ, ◌+◌, ◌/◌, ◌<◌, ◌==◌, ◌>>=◌, ◌||◌, ◌∙◌, ◌∷◌, ◌≡◌, ◌≢◌, ◌≤◌,
}
use let_us_connect_http_serv.LinkedList.{IsCounted, LinkedList, retrieve_ll}
use let_us_connect_http_serv.LinkedList.Insert.{retrieve_ll_lem}

module _ {ℓ} {D : Type ℓ} (compare : D → D → Ordering) where
  -- `compare` reads through its first argument.
  read_data : Option D → Outcome D
  read_data none = fault
  read_data (some d) = ok d

  -- The loop; `none` when the fuel is out.
  pub search_from : ℕ → LinkedList D → D → ℕ → ℕ → ℕ → Outcome (Option Bool)
  unfolding read_data
  search_from zero l query position min_checked max_checked = ok none
  search_from (suc fuel) l query position min_checked max_checked =
      let before = (min_checked + position) / 2 in
      let behind = (max_checked + position) / 2 in
      if ltb min_checked max_checked
      then (retrieve_ll l (pos position) >>= read_data >>= λ found. elim (compare found query) [
        | gt ↦
            if position == before
            then ok (some false)
            else search_from fuel l query before min_checked position
        | lt ↦
            if position == behind
            then ok (some false)
            else search_from fuel l query behind position max_checked
        | eq ↦ ok (some true)
      ])
      else ok (some false)

  -- A round makes what is not yet checked smaller, so `length` rounds and the last test are enough.
  unfoldable pub search_counted : LinkedList D → D → ℤ → Outcome (Option Bool)
  unfolding search_from
  search_counted l query (pos n) = search_from (suc n) l query (n / 2) 0 n
  search_counted l query (negsuc n) = ok (some false)

  unfoldable pub binary_search_ll : LinkedList D → D → Outcome (Option Bool)
  unfolding search_counted
  binary_search_ll l query = search_counted l query l.count

  is_eq : Ordering → Bool
  is_eq eq = true
  is_eq _ = false

  -- The specification: one after another.
  unfoldable pub has_equal : List D → D → Bool
  unfolding is_eq
  has_equal [] query = false
  has_equal (x ∷ xs) query = is_eq (compare x query) || has_equal xs query

  -- What is less than the query stands before what is greater, with the rest between.
  abbrev pub IsSortedFor : D → List D → Type ℓ
  IsSortedFor query xs =
      (i j : ℕ) (x y : D)
      → i ≤ j
      → get_elem? xs i ≡ some x
      → get_elem? xs j ≡ some y
      → (compare y query ≡ lt → compare x query ≡ lt)
        × (compare x query ≡ gt → compare y query ≡ gt)

  abbrev AreBelow : List D → D → ℕ → Type ℓ
  AreBelow xs query m = (i : ℕ) (x : D) → i < m → get_elem? xs i ≡ some x → compare x query ≡ lt

  abbrev AreAbove : List D → D → ℕ → Type ℓ
  AreAbove xs query m = (i : ℕ) (x : D) → m ≤ i → get_elem? xs i ≡ some x → compare x query ≡ gt

  or_self : (b : Bool) → (b || true) ≡ true
  or_self true = refl
  or_self false = refl

  not_eq : (o : Ordering) → o ≢ eq → is_eq o ≡ false
  unfolding is_eq
  not_eq lt h = refl
  not_eq gt h = refl
  not_eq eq h = absurd (h refl)

  get_elem?_inside : (xs : List D) (i : ℕ) → i < length xs → (x : D) × (get_elem? xs i ≡ some x)
  get_elem?_inside [] i h = absurd (omega arith)
  get_elem?_inside (x ∷ xs) zero h = (x, refl)
  get_elem?_inside (x ∷ xs) (suc i) h = get_elem?_inside xs i (omega arith)

  has_equal-at :
      (xs : List D) (query : D) (i : ℕ) (x : D)
      → get_elem? xs i ≡ some x
      → compare x query ≡ eq
      → has_equal xs query ≡ true
  unfolding has_equal is_eq
  has_equal-at [] query i x at e = cc
  has_equal-at (y ∷ xs) query zero x at e = let same : y ≡ x = cc in rw (same, e) refl
  has_equal-at (y ∷ xs) query (suc i) x at e =
      rw (has_equal-at xs query i x at e) (or_self (is_eq (compare y query)))

  has_equal-none :
      (xs : List D) (query : D)
      → ((i : ℕ) (x : D) → get_elem? xs i ≡ some x → compare x query ≢ eq)
      → has_equal xs query ≡ false
  unfolding has_equal is_eq
  has_equal-none [] query h = refl
  has_equal-none (x ∷ xs) query h =
      let rest = has_equal-none xs query (λ i. h (suc i)) in
      let here : is_eq (compare x query) ≡ false = not_eq (compare x query) (h 0 x refl) in
      rw (here, rest) refl

  -- When all that stands before is less and all that stands behind is greater, none is equal.
  -- What the rounds so far have left: what stands before `low` is less, what stands from `high` on
  -- is greater.
  record Narrowed (xs : List D) (query : D) (low high : ℕ) : Type ℓ where
    order : low ≤ high
    inside : high ≤ length xs
    below : AreBelow xs query low
    above : AreAbove xs query high

  has_equal-checked :
      (xs : List D) (query : D) (m k : ℕ)
      → k ≤ m
      → AreBelow xs query m
      → AreAbove xs query k
      → has_equal xs query ≡ false
  has_equal-checked xs query m k le below above = has_equal-none xs query differs
    where
      differs : (i : ℕ) (x : D) → get_elem? xs i ≡ some x → compare x query ≢ eq
      differs i x at e = elim (Bool-cases (ltb i m)) [
        | inl inside ↦ let lesser = below i x (ltb→lt i m inside) at in cc
        | inr outside ↦ let greater = above i x (ground arith) at in cc
      ]

  -- An element that is greater bounds the rest from above, one that is less from below.
  greater-AreAbove :
      (xs : List D) (query : D) (position : ℕ) (x : D)
      → IsSortedFor query xs
      → get_elem? xs position ≡ some x
      → compare x query ≡ gt
      → AreAbove xs query position
  greater-AreAbove xs query position x sorted at greater =
      λ j y le at_j. (sorted position j x y le at at_j).1 greater

  lesser-AreBelow :
      (xs : List D) (query : D) (position : ℕ) (x : D)
      → IsSortedFor query xs
      → get_elem? xs position ≡ some x
      → compare x query ≡ lt
      → AreBelow xs query (suc position)
  lesser-AreBelow xs query position x sorted at lesser =
      λ j y less at_j. (sorted j position y x (omega arith) at_j at).0 lesser

  search_from_lem :
      (fuel : ℕ) (l : LinkedList D) (query : D) (position low high : ℕ)
      → IsCounted l
      → IsSortedFor query l.nodes
      → position ≡ (low + high) / 2
      → high < low + fuel
      → Narrowed l.nodes query low high
      → search_from fuel l query position low high ≡ ok (some (has_equal l.nodes query))
  unfolding search_from read_data
  search_from_lem zero l query position low high c sorted mid enough n =
      absurd (omega (arith, n.order, enough))
  search_from_lem (suc fuel) l query position low high c sorted mid enough n =
      elim (Bool-cases (ltb low high)) [
        | inr done ↦
            rw (done, has_equal-checked l.nodes query low high (ground arith) n.below n.above) refl
        | inl more ↦
            let less : low < high = ltb→lt low high more in
            let (x, at) = get_elem?_inside l.nodes position (omega (arith, n.inside, less, mid)) in
            elim (Ordering-cases (compare x query)) [
              | inr (inr greater) ↦
                  let above = greater-AreAbove l.nodes query position x sorted at greater in
                  rw (more, retrieve_ll_lem l position c, at, greater)
                    (elim (Bool-cases (position == (low + position) / 2)) [
                      | inl stop ↦
                          let le : position ≤ low = ground arith in
                          rw (stop, has_equal-checked l.nodes query low position le n.below above)
                            refl
                      | inr go ↦ rw go (
                          search_from_lem fuel l query ((low + position) / 2) low position c sorted
                            refl (omega (arith, less, mid, enough))
                            (record {
                              order = omega (arith, less, mid);
                              inside = omega (arith, n.inside, less, mid);
                              below = n.below;
                              above = above;
                            }))
                    ])
              | inl lesser ↦
                  let below = lesser-AreBelow l.nodes query position x sorted at lesser in
                  rw (more, retrieve_ll_lem l position c, at, lesser)
                    (elim (Bool-cases (position == (high + position) / 2)) [
                      | inl stop ↦
                          let le : high ≤ suc position = ground arith in
                          rw
                            (
                              stop,
                              has_equal-checked l.nodes query (suc position) high le below n.above,
                            )
                            refl
                      | inr go ↦ rw go (
                          search_from_lem fuel l query ((high + position) / 2) position high c
                            sorted (omega arith) (ground arith)
                            (record {
                              order = omega (arith, less, mid);
                              inside = n.inside;
                              below = λ j y before. below j y (omega (arith, before));
                              above = n.above;
                            }))
                    ])
              | inr (inl equal) ↦
                  let found = has_equal-at l.nodes query position x at equal in
                  rw (more, retrieve_ll_lem l position c, at, equal, found) refl
            ]
      ]

  -- For a list with the right length in which what is less than the query stands first and what is
  -- greater last, the rest between, the binary search returns whether an element compares equal.
  pub binary_search_ll_lem :
      (l : LinkedList D) (query : D)
      → IsCounted l
      → IsSortedFor query l.nodes
      → binary_search_ll l query ≡ ok (some (has_equal l.nodes query))
  unfolding binary_search_ll search_counted
  binary_search_ll_lem l query c sorted =
      ap (search_counted l query) c
      ∙ search_from_lem (suc (length l.nodes)) l query (length l.nodes / 2) 0 (length l.nodes) c
          sorted (omega arith) (omega arith)
          (record {
            order = omega arith;
            inside = omega arith;
            below = λ i x less at. absurd (omega arith);
            above = λ i x le at. absurd (missing i x le at);
          })
    where
      missing : (i : ℕ) (x : D) → length l.nodes ≤ i → get_elem? l.nodes i ≡ some x → ⊥
      missing i x le at = let none_at = get_elem?_beyond l.nodes i le in cc
