-- ===== src/LinkedList/Insert.antt =====
-- `insert_ll`, `iterate_ll` and `retrieve_ll` against positions in a list.
use let_us_connect_http_serv.Base.{
  ℕ, zero, suc, ◌+◌, ◌≤◌, ◌<◌, List, [], ◌∷◌, ◌++◌, none, some, ok, fault, pos, true, false, length,
  take, drop, get_elem?, if◌then◌else◌, ◌≡◌, refl, ◌∙◌, ap, arith, append_assoc, append-nil, lt→ltb,
  ltb→lt, ltb, leb, Bool-cases, inl, inr, get_elem?_beyond,
}
use let_us_connect_http_serv.LinkedList.{
  LinkedList, advance, iterate_ll, insert_ll, retrieve_ll, IsCounted,
}

module _ {ℓ} {D : Type ℓ} where
  -- The walk stops with the first `i` nodes behind it.
  pub advance_lem :
      (before xs : List D) (i : ℕ)
      → i ≤ length xs
      → advance before xs i ≡ ok (record { before = before ++ take i xs; here = drop i xs })
  unfolding advance
  advance_lem before xs zero h = rw append-nil
  advance_lem before [] (suc i) h = absurd (omega arith)
  advance_lem before (x ∷ xs) (suc i) h =
      advance_lem (before ++ x ∷ []) xs i (omega arith) ∙ rw append_assoc

  pub iterate_ll-lt :
      (l : LinkedList D) (i : ℕ)
      → IsCounted l
      → i < length l.nodes
      → iterate_ll l (pos i) ≡ ok (some (record { before = take i l.nodes; here = drop i l.nodes }))
  unfolding iterate_ll
  iterate_ll-lt l i c h = rw (c, lt→ltb _ _ h, advance_lem [] l.nodes i (omega arith))

  pub iterate_ll-ge :
      (l : LinkedList D) (i : ℕ) → IsCounted l → length l.nodes ≤ i → iterate_ll l (pos i) ≡ ok none
  unfolding iterate_ll
  iterate_ll-ge l i c h = ground arith

  -- The node at a position in range, and the cuts on its two sides.
  pub split_at :
      (xs : List D) (i : ℕ)
      → i < length xs
      → (x : D) × (drop i xs ≡ x ∷ drop (suc i) xs)
        × (take (suc i) xs ≡ take i xs ++ x ∷ [])
        × (get_elem? xs i ≡ some x)
  split_at [] i h = elim h [ ]
  split_at (x ∷ xs) zero h = (x, refl, refl, refl)
  split_at (x ∷ xs) (suc i) h =
      let (y, d, t, g) = split_at xs i (omega arith) in (y, d, ap (◌∷◌ x) t, g)

  pub pointer_at :
      (l : LinkedList D) (i : ℕ)
      → IsCounted l
      → i < length l.nodes
      → (x : D) × (iterate_ll l (pos i)
          ≡ ok (some (record { before = take i l.nodes; here = x ∷ drop (suc i) l.nodes })))
        × (take (suc i) l.nodes ≡ take i l.nodes ++ x ∷ [])
        × (get_elem? l.nodes i ≡ some x)
  pointer_at l i c h =
      let (x, d, t, g) = split_at l.nodes i h in (x, iterate_ll-lt l i c h ∙ rw d, t, g)

  -- Inserting at a position up to the end puts the data there and keeps the count; a position
  -- beyond the end dereferences NULL.
  pub insert_ll_lem :
      (l : LinkedList D) (i : ℕ) (d : D)
      → IsCounted l
      → insert_ll l (pos i) d ≡ (
          if leb i (length l.nodes)
          then ok (record {
            nodes = take i l.nodes ++ (d ∷ drop i l.nodes);
            count = pos (length l.nodes + 1);
          })
          else fault)
  unfolding insert_ll
  insert_ll_lem l zero d c = rw c (ground arith)
  insert_ll_lem l (suc i) d c = elim (Bool-cases (ltb i (length l.nodes))) [
    | inl inside ↦
        let (x, at, t, _) = pointer_at l i c (ltb→lt _ _ inside) in
        let b : leb (suc i) (length l.nodes) ≡ true = ground arith in rw (at, b, c, t, append_assoc)
    | inr beyond ↦
        let b : leb (suc i) (length l.nodes) ≡ false = ground arith in
        rw (iterate_ll-ge l i c (ground arith), b)
  ]

  -- Retrieving reads the position, and yields NULL exactly outside the list.
  pub retrieve_ll_lem :
      (l : LinkedList D) (i : ℕ) → IsCounted l → retrieve_ll l (pos i) ≡ ok (get_elem? l.nodes i)
  unfolding retrieve_ll
  retrieve_ll_lem l i c = elim (Bool-cases (ltb i (length l.nodes))) [
    | inl inside ↦ let (x, at, _, g) = pointer_at l i c (ltb→lt _ _ inside) in rw (at, g)
    | inr beyond ↦
        rw (iterate_ll-ge l i c (ground arith), get_elem?_beyond l.nodes i (ground arith))
  ]
