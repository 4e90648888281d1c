-- ===== src/Fifo/Chain.antt =====
-- Chains of nodes in the heap, from `first` to `last`; later nodes have greater addresses.
use let_us_connect_http_serv.Base.{
  List, Option, [], arith, none, some, suc, ℕ, ◌++◌, ◌<◌, ◌∙◌, ◌∷◌, ◌≡◌, ◌≢◌, ◌≤◌,
}
use let_us_connect_http_serv.Fifo.{Node, update}

module _ {ℓ} {T : Type ℓ} where
  abbrev pub head_of : List (ℕ × T) → Option ℕ
  head_of [] = none
  head_of ((a, t) ∷ rest) = some a

  -- The address of the last node, given the one before the list.
  abbrev pub last_of : ℕ → List (ℕ × T) → ℕ
  last_of a [] = a
  last_of a ((b, t) ∷ rest) = last_of b rest

  -- The nodes `xs` are linked both ways, the first one's `next` is `back`, and their addresses lie
  -- from `lo` on below `fresh`.
  abbrev pub Links : (ℕ → Option (Node T)) → ℕ → ℕ → Option ℕ → List (ℕ × T) → Type ℓ
  Links cells lo fresh back [] = Unit
  Links cells lo fresh back ((a, t) ∷ rest) =
      (lo ≤ a)
      × (a < fresh)
      × (cells a ≡ some (record { task = t; next = back; prev = head_of rest }))
      × Links cells (suc a) fresh (some a) rest

  pub update_ne :
      (cells : ℕ → Option (Node T)) (a b : ℕ) (v : Option (Node T))
      → b ≢ a
      → update cells a v b ≡ cells b
  update_ne cells a b v n = ground (arith, n)

  pub update_eq :
      (cells : ℕ → Option (Node T)) (a : ℕ) (v : Option (Node T)) → update cells a v a ≡ v
  update_eq cells a v = ground arith

  -- A cell below the chain is not of the chain.
  pub Links-update :
      (cells : ℕ → Option (Node T)) (a : ℕ) (v : Option (Node T)) (lo fresh : ℕ) (back : Option ℕ)
      (xs : List (ℕ × T))
      → a < lo
      → Links cells lo fresh back xs
      → Links (update cells a v) lo fresh back xs
  Links-update cells a v lo fresh back [] h l = tt
  Links-update cells a v lo fresh back ((b, t) ∷ rest) h (low, high, here, l) = (
    low,
    high,
    update_ne cells a b v (λ e. omega arith) ∙ here,
    Links-update cells a v (suc b) fresh (some b) rest (omega arith) l,
  )

  pub last_of_ge :
      (cells : ℕ → Option (Node T)) (a fresh : ℕ) (back : Option ℕ) (xs : List (ℕ × T))
      → Links cells (suc a) fresh back xs
      → a ≤ last_of a xs
  last_of_ge cells a fresh back [] l = omega arith
  last_of_ge cells a fresh back ((b, t) ∷ rest) (low, high, here, l) =
      omega (arith, last_of_ge cells b fresh (some b) rest l)

  pub last_of_lt :
      (cells : ℕ → Option (Node T)) (a fresh : ℕ) (back : Option ℕ) (xs : List (ℕ × T))
      → a < fresh
      → Links cells (suc a) fresh back xs
      → last_of a xs < fresh
  last_of_lt cells a fresh back [] h l = h
  last_of_lt cells a fresh back ((b, t) ∷ rest) h (low, high, here, l) =
      last_of_lt cells b fresh (some b) rest high l

  -- The last node of a chain that is not empty, as it is in the heap.
  abbrev pub last_node : Option ℕ → ℕ → T → List (ℕ × T) → Node T
  last_node back a t [] = record { task = t; next = back; prev = none }
  last_node back a t ((b, u) ∷ rest) = last_node (some a) b u rest

  pub last_cell :
      (cells : ℕ → Option (Node T)) (lo fresh : ℕ) (back : Option ℕ) (a : ℕ) (t : T)
      (xs : List (ℕ × T))
      → Links cells lo fresh back ((a, t) ∷ xs)
      → cells (last_of a xs) ≡ some (last_node back a t xs)
  last_cell cells lo fresh back a t [] (low, high, here, l) = here
  last_cell cells lo fresh back a t ((b, u) ∷ rest) (low, high, here, l) =
      last_cell cells (suc a) fresh (some a) b u rest l

  -- The cells with a new node in front of which `l` stands, and after it is linked behind `l`.
  abbrev pub new_cells : (ℕ → Option (Node T)) → ℕ → ℕ → T → ℕ → Option (Node T)
  new_cells cells fresh l t =
      update cells fresh (some (record { task = t; next = some l; prev = none }))

  abbrev pub pushed_cells :
      (ℕ → Option (Node T)) → ℕ → Option ℕ → ℕ → T → List (ℕ × T) → T → ℕ → Option (Node T)
  pushed_cells cells fresh back a u xs t =
      update (new_cells cells fresh (last_of a xs) t) (last_of a xs)
        (some (record (last_node back a u xs) { prev = some fresh }))

  pub Links-push :
      (cells : ℕ → Option (Node T)) (lo fresh : ℕ) (back : Option ℕ) (a : ℕ) (u : T)
      (xs : List (ℕ × T)) (t : T)
      → Links cells lo fresh back ((a, u) ∷ xs)
      → Links
          (pushed_cells cells fresh back a u xs t)
          lo
          (suc fresh)
          back
          ((a, u) ∷ (xs ++ (fresh, t) ∷ []))
  Links-push cells lo fresh back a u [] t (low, high, here, l) = (
    low,
    omega arith,
    update_eq (new_cells cells fresh a t) a
        (some (record { task = u; next = back; prev = some fresh })),
    (
      omega arith,
      omega arith,
      update_ne (new_cells cells fresh a t) a fresh
            (some (record { task = u; next = back; prev = some fresh })) (λ e. omega arith)
          ∙ update_eq cells fresh (some (record { task = t; next = some a; prev = none })),
      tt,
    ),
  )
  Links-push cells lo fresh back a u ((b, v) ∷ rest) t (low, high, here, l) =
      let end = last_of b rest in
      let far : a < end = omega (arith, l.0, last_of_ge cells b fresh (some b) rest l.3) in
      (
        low,
        omega arith,
        update_ne (new_cells cells fresh end t) end a
              (some (record (last_node (some a) b v rest) { prev = some fresh })) (λ e. omega arith)
            ∙ update_ne cells fresh a (some (record { task = t; next = some end; prev = none }))
                (λ e. omega arith)
            ∙ here,
        Links-push cells (suc a) fresh (some a) b v rest t l,
      )
