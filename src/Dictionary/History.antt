-- ===== src/Dictionary/History.antt =====
-- A dictionary after any sequence of insertions, against the list of them.
use let_us_connect_http_serv.Base.{
  Bytes, List, Option, Outcome, [], ap, append-nil, append_assoc, arith, bytes_eq, if◌then◌else◌,
  none, ok, refl, some, ◌++◌, ◌>>=◌, ◌∙◌, ◌∷◌, ◌≡◌,
}
use let_us_connect_http_serv.Tree.Walk.{find}
use let_us_connect_http_serv.LinkedList.{IsCounted}
use let_us_connect_http_serv.Dictionary.{
  Dictionary, dictionary_constructor, insert_dict, search_dict, value_of,
}
use let_us_connect_http_serv.Dictionary.Laws.{
  IsValid, contents, contents-inserted, insert_dict_lem, inserted, inserted-IsValid,
  search_dict_lem,
}

module _ {ℓ} {V : Type ℓ} where
  -- The calls of `insert_dict`, in order.
  unfoldable pub insert_all : List (Bytes × V) → Dictionary V → Outcome (Dictionary V)
  insert_all [] d = ok d
  insert_all ((key, value) ∷ pairs) d = insert_dict d key value >>= insert_all pairs

  -- The first pair with the key.
  unfoldable pub lookup : List (Bytes × V) → Bytes → Option V
  lookup [] j = none
  lookup ((key, value) ∷ pairs) j = if bytes_eq key j then some value else lookup pairs j

  pub keys_of : List (Bytes × V) → List Bytes
  keys_of [] = []
  keys_of ((key, _) ∷ pairs) = key ∷ keys_of pairs

  unfoldable pub after : List (Bytes × V) → Dictionary V → Dictionary V
  after [] d = d
  after ((key, value) ∷ pairs) d = after pairs (inserted d key value)

  pub insert_all_lem :
      (pairs : List (Bytes × V)) (d : Dictionary V)
      → IsValid d
      → insert_all pairs d ≡ ok (after pairs d)
  unfolding insert_all after
  insert_all_lem [] d h = refl
  insert_all_lem ((key, value) ∷ pairs) d h =
      rw (insert_dict_lem d key value h)
        (insert_all_lem pairs (inserted d key value) (inserted-IsValid d key value h))

  pub after-IsValid :
      (pairs : List (Bytes × V)) (d : Dictionary V) → IsValid d → IsValid (after pairs d)
  unfolding after
  after-IsValid [] d h = h
  after-IsValid ((key, value) ∷ pairs) d h =
      after-IsValid pairs (inserted d key value) (inserted-IsValid d key value h)

  -- What the dictionary holds already comes first.
  abbrev pub or_else : Option V → Option V → Option V
  or_else (some v) o = some v
  or_else none o = o

  pub contents-after :
      (pairs : List (Bytes × V)) (d : Dictionary V) (j : Bytes)
      → IsValid d
      → contents (after pairs d) j ≡ or_else (contents d j) (lookup pairs j)
  unfolding after lookup
  contents-after [] d j h = ground arith
  contents-after ((key, value) ∷ pairs) d j h = ground (
    arith,
    contents-after pairs (inserted d key value) j (inserted-IsValid d key value h),
    contents-inserted d key j value h,
  )

  keys-after :
      (pairs : List (Bytes × V)) (d : Dictionary V)
      → (after pairs d).keys.nodes ≡ d.keys.nodes ++ keys_of pairs
  unfolding after keys_of inserted
  keys-after [] d = rw append-nil
  keys-after ((key, value) ∷ pairs) d = keys-after pairs (inserted d key value) ∙ rw append_assoc

  pub dictionary_constructor-IsValid : IsValid (dictionary_constructor {V = V})
  unfolding dictionary_constructor
  dictionary_constructor-IsValid = record { counted = refl; has_values = tt; ordered = tt }

  pub contents_empty : (j : Bytes) → contents (dictionary_constructor {V = V}) j ≡ none
  unfolding dictionary_constructor contents find value_of
  contents_empty j = refl

  pub contents-dictionary_of :
      (pairs : List (Bytes × V)) (j : Bytes)
      → contents (after pairs dictionary_constructor) j ≡ lookup pairs j
  contents-dictionary_of pairs j =
      rw contents_empty at
        (contents-after pairs dictionary_constructor j dictionary_constructor-IsValid)

  -- A dictionary made by any insertions is there without a fault, finds for each key the value of
  -- the first insertion with that key and NULL for any other, and lists all the inserted keys,
  -- repeated ones again.
  pub insert_all-refines :
      (pairs : List (Bytes × V))
      → (d : Dictionary V) × (insert_all pairs dictionary_constructor ≡ ok d)
        × ((j : Bytes) → search_dict (some d) (some j) ≡ ok (lookup pairs j))
        × (d.keys.nodes ≡ keys_of pairs)
        × IsCounted d.keys
  insert_all-refines pairs =
      let v = dictionary_constructor-IsValid in
      (
        after pairs dictionary_constructor,
        insert_all_lem pairs dictionary_constructor v,
        λ j. search_dict_lem _ j ∙ ap ok (contents-dictionary_of pairs j),
        keys-after pairs dictionary_constructor ∙ unfold dictionary_constructor in refl,
        (after-IsValid pairs dictionary_constructor v).counted,
      )

module _ {ℓ} {V : Type ℓ} where
  pub after-append :
      (ps qs : List (Bytes × V)) (d : Dictionary V) → after (ps ++ qs) d ≡ after qs (after ps d)
  unfolding after
  after-append [] qs d = refl
  after-append ((key, value) ∷ ps) qs d = after-append ps qs (inserted d key value)
