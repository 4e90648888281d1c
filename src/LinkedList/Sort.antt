-- ===== src/LinkedList/Sort.antt =====
-- `bubble_sort_ll`. It takes the pointer that `retrieve` returns, the data of the first element, for
-- a `struct Node *`, and sorts the chain that starts there; the nodes of the list keep their data.
-- What stands at a data pointer, read as a `struct Node`, is a parameter: the data of the chain
-- that it heads, or `fault` where it is no node.
pub mod Tests
use mathlib.Core.List.{Perm}
use mathlib.Core.List.Perm
use let_us_connect_http_serv.Base.{
  All, Bool, Bool-cases, List, Option, Outcome, [], ap, arith, compare, false, fault, get_elem?,
  if◌then◌else◌, inl, inr, length, none, ok, pos, refl, some, subst, suc, sym, true, zero, ℕ, ℤ,
  ◌>>=◌, ◌∷◌, ◌≡◌,
}
use let_us_connect_http_serv.LinkedList.{IsCounted, LinkedList, first, retrieve_ll}
use let_us_connect_http_serv.LinkedList.Insert.{retrieve_ll_lem}

-- `> 0`
abbrev pub is_positive : ℤ → Bool
is_positive (pos (suc n)) = true
is_positive _ = false

module _ {ℓ} {E : Type ℓ} (compare : E → E → ℤ) where
  -- The inner loop, for the data of `i` and of the nodes behind it.
  unfoldable pub swap_through : E → List E → E × List E
  swap_through x [] = (x, [])
  swap_through x (n ∷ behind) =
      let swaps = is_positive (compare x n) in
      let rest = swap_through (if swaps then n else x) behind in
      (rest.0, (if swaps then x else n) ∷ rest.1)

  -- The outer loop, for a number of nodes.
  sort_from : ℕ → List E → List E
  unfolding swap_through
  sort_from zero xs = []
  sort_from (suc n) [] = []
  sort_from (suc n) (x ∷ behind) =
      let swapped = swap_through x behind in swapped.0 ∷ sort_from n swapped.1

  sort_chain : List E → List E
  unfolding sort_from
  sort_chain xs = sort_from (length xs) xs

  module _ {κ} {D : Type κ} (as_node : D → Outcome (List E)) where
    sort_at : Option D → Outcome (Option (List E))
    unfolding sort_chain
    sort_at none = ok none
    sort_at (some d) = as_node d >>= λ xs. ok (some (sort_chain xs))

    -- What the chain at the first element's data holds afterwards; `none` for a list with no element.
    unfoldable pub bubble_sort_ll : LinkedList D → Outcome (Option (List E))
    unfolding sort_at
    bubble_sort_ll l = retrieve_ll l (pos 0) >>= sort_at

  abbrev pub AtMost : E → E → Type 0
  AtMost x y = is_positive (compare x y) ≡ false

  -- Each is at most all that stand behind it.
  abbrev pub IsSorted : List E → Type ℓ
  IsSorted [] = Unit
  IsSorted (x ∷ xs) = All (AtMost x) xs × IsSorted xs

  -- `p` is `x` and the list with the least of them in front.
  abbrev LeastFirst : E → List E → E × List E → Type ℓ
  LeastFirst x ns p = Perm (p.0 ∷ p.1) (x ∷ ns) × All (AtMost p.0) p.1 × AtMost p.0 x

  swap_through_positive :
      (x n : E) (ns : List E)
      → is_positive (compare x n) ≡ true
      → swap_through x (n ∷ ns) ≡ ((swap_through n ns).0, x ∷ (swap_through n ns).1)
  unfolding swap_through
  swap_through_positive x n ns e = rw e refl

  swap_through-AtMost :
      (x n : E) (ns : List E)
      → AtMost x n
      → swap_through x (n ∷ ns) ≡ ((swap_through x ns).0, n ∷ (swap_through x ns).1)
  unfolding swap_through
  swap_through-AtMost x n ns e = rw e refl

  All-swap_through :
      (P : E → Type 0) (x : E) (ns : List E)
      → P x
      → All P ns
      → P (swap_through x ns).0 × All P (swap_through x ns).1
  unfolding swap_through
  All-swap_through P x [] p ps = (p, tt)
  All-swap_through P x (n ∷ ns) p (q, ps) =
      elim (Bool-cases (is_positive (compare x n)))
        as (λ _. P (swap_through x (n ∷ ns)).0 × All P (swap_through x (n ∷ ns)).1) [
          | inl e ↦
              let (first, rest) = All-swap_through P n ns q ps in
              subst (λ r. P r.0 × All P r.1) (sym (swap_through_positive x n ns e))
                (first, (p, rest))
          | inr e ↦
              let (first, rest) = All-swap_through P x ns p ps in
              subst (λ r. P r.0 × All P r.1) (sym (swap_through-AtMost x n ns e)) (first, (q, rest))
        ]

  All-sort_from : (P : E → Type 0) (n : ℕ) (xs : List E) → All P xs → All P (sort_from n xs)
  unfolding sort_from
  All-sort_from P zero xs ps = tt
  All-sort_from P (suc n) [] ps = tt
  All-sort_from P (suc n) (x ∷ xs) (p, ps) =
      let (first, rest) = All-swap_through P x xs p ps in
      (first, All-sort_from P n (swap_through x xs).1 rest)

  module _ {κ} {D : Type κ} (as_node : D → Outcome (List E)) where
    -- What the sort does where the first element's data is read as a node.
    abbrev pub SortsChain : Outcome (List E) → Outcome (Option (List E)) → Type ℓ
    SortsChain fault r = r ≡ fault
    SortsChain (ok xs) r = (ys : List E) × (r ≡ ok (some ys)) × Perm ys xs × IsSorted ys

    abbrev pub Sorts : Option D → Outcome (Option (List E)) → Type ℓ
    Sorts none r = r ≡ ok none
    Sorts (some d) r = SortsChain (as_node d) r

  length-swap_through : (x : E) (ns : List E) → length (swap_through x ns).1 ≡ length ns
  unfolding swap_through
  length-swap_through x [] = refl
  length-swap_through x (n ∷ ns) =
      ap suc (length-swap_through (if is_positive (compare x n) then n else x) ns)

  module _ (total : (x y : E) → is_positive (compare x y) ≡ true → AtMost y x)
      (chained : (x y z : E) → AtMost x y → AtMost y z → AtMost x z) where
    AtMost-self : (x : E) → AtMost x x
    AtMost-self x = elim (Bool-cases (is_positive (compare x x))) [
      | inl e ↦ total x x e
      | inr e ↦ e
    ]

    swap_through-LeastFirst : (x : E) (ns : List E) → LeastFirst x ns (swap_through x ns)
    unfolding swap_through
    swap_through-LeastFirst x [] = (Perm.refl (x ∷ []), tt, AtMost-self x)
    swap_through-LeastFirst x (n ∷ ns) = elim (Bool-cases (is_positive (compare x n))) [
      | inl e ↦
          let (least, rest) = swap_through n ns in
          let (perm, first, low) = swap_through-LeastFirst n ns in
          let below = chained least n x low (total x n e) in
          subst (LeastFirst x (n ∷ ns)) (sym (swap_through_positive x n ns e))
            (Perm.trans (Perm.swap x least rest) (Perm.cons x perm), (below, first), below)
      | inr e ↦
          let (least, rest) = swap_through x ns in
          let (perm, first, low) = swap_through-LeastFirst x ns in
          subst (LeastFirst x (n ∷ ns)) (sym (swap_through-AtMost x n ns e)) (
            Perm.trans (Perm.swap n least rest) (Perm.trans (Perm.cons n perm) (Perm.swap x n ns)),
            (chained least x n low e, first),
            low,
          )
    ]

    sort_from_lem :
        (n : ℕ) (xs : List E) → length xs ≡ n → Perm (sort_from n xs) xs × IsSorted (sort_from n xs)
    unfolding sort_from
    sort_from_lem zero [] e = (Perm.nil, tt)
    sort_from_lem (suc n) [] e = (Perm.nil, tt)
    sort_from_lem zero (x ∷ xs) e = absurd (omega arith)
    sort_from_lem (suc n) (x ∷ xs) e =
        let (least, rest) = swap_through x xs in
        let (perm, first, low) = swap_through-LeastFirst x xs in
        let same : length rest ≡ length xs = length-swap_through x xs in
        let (sorted, in_order) = sort_from_lem n rest (omega arith) in
        (
          Perm.trans (Perm.cons least sorted) perm,
          (All-sort_from (AtMost least) n rest first, in_order),
        )

    module _ {κ} {D : Type κ} (as_node : D → Outcome (List E)) where
      sort_at-Sorts : (first : Option D) → Sorts as_node first (sort_at as_node first)
      unfolding sort_at sort_chain
      sort_at-Sorts none = refl
      sort_at-Sorts (some d) =
          elim (as_node d) as (λ o. SortsChain as_node o (o >>= λ xs. ok (some (sort_chain xs)))) [
            | fault ↦ refl
            | ok xs ↦
                let (perm, sorted) = sort_from_lem (length xs) xs refl in
                (sort_chain xs, refl, perm, sorted)
          ]

      -- For a comparison that is a total order: an empty list is left alone; else the data of the first
      -- element is read as a node, and where it is one, the chain that it heads holds the same data in
      -- order afterwards.
      pub bubble_sort_ll-Sorts :
          (l : LinkedList D)
          → IsCounted l
          → Sorts as_node (get_elem? l.nodes 0) (bubble_sort_ll as_node l)
      unfolding bubble_sort_ll
      bubble_sort_ll-Sorts l counted =
          subst (λ r. Sorts as_node (get_elem? l.nodes 0) (r >>= sort_at as_node))
            (sym (retrieve_ll_lem l 0 counted)) (sort_at-Sorts (get_elem? l.nodes 0))
