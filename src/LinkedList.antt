-- ===== src/LinkedList.antt =====
-- DataStructures/Lists/LinkedList.c and DataStructures/Common/Node.c. The chain of nodes from
-- `head` is the list of their data: each node is owned by its one chain. `length` is the C `int`,
-- which the code may drive below zero. Following `next` or reading `data` at NULL is `fault`.
pub mod Insert
pub mod Search
pub mod Sort
pub mod Remove
pub mod Destroy
pub mod Tests
use let_us_connect_http_serv.Base.{
  ℕ, zero, suc, ◌+◌, List, [], ◌∷◌, ◌++◌, Option, none, some, Outcome, ok, fault, ◌>>=◌, ℤ, pos,
  negsuc, incr, decr, ltb_ℤ, Bool, true, false, length, if◌then◌else◌, ◌≡◌,
}

-- `struct LinkedList`, its data members.
pub record LinkedList {ℓ} (D : Type ℓ) : Type ℓ where
  pub nodes : List D
  pub count : ℤ

-- A pointer into the chain: the nodes before it, and the nodes from it on ([] is NULL).
pub record Cursor {ℓ} (D : Type ℓ) : Type ℓ where
  pub before : List D
  pub here : List D

abbrev pub rounds : ℤ → ℕ
rounds (pos n) = suc n
rounds (negsuc _) = 1

abbrev is_zero : ℤ → Bool
is_zero (pos zero) = true
is_zero _ = false

module _ {ℓ} {D : Type ℓ} where
  unfoldable pub linked_list_constructor : LinkedList D
  linked_list_constructor = record { nodes = []; count = pos 0 }

  -- `for (i = 0; i < index; i++) cursor = cursor->next;`
  unfoldable pub advance : List D → List D → ℕ → Outcome (Cursor D)
  advance before here zero = ok (record { before = before; here = here })
  advance before [] (suc i) = fault
  advance before (x ∷ here) (suc i) = advance (before ++ x ∷ []) here i

  -- A valid index; `none` is the NULL that any other yields.
  unfoldable pub iterate_ll : LinkedList D → ℤ → Outcome (Option (Cursor D))
  iterate_ll l (negsuc i) = ok none
  iterate_ll l (pos i) =
      if ltb_ℤ (pos i) l.count then (advance [] l.nodes i >>= λ c. ok (some c)) else ok none

  -- `node_to_insert->next = cursor->next; cursor->next = node_to_insert;`
  link_at : List D → List D → D → Outcome (List D)
  link_at before [] d = fault
  link_at before (x ∷ rest) d = ok (before ++ (x ∷ d ∷ rest))

  -- `node_to_remove = cursor->next; cursor->next = node_to_remove->next;`
  unlink_at : List D → List D → Outcome (List D)
  unlink_at before [] = fault
  unlink_at before (x ∷ []) = fault
  unlink_at before (x ∷ y ∷ rest) = ok (before ++ (x ∷ rest))

  -- The pointer that `iterate_ll` returns, dereferenced.
  deref : Option (Cursor D) → Outcome (Cursor D)
  deref none = fault
  deref (some c) = ok c

  unfoldable pub insert_ll : LinkedList D → ℤ → D → Outcome (LinkedList D)
  unfolding iterate_ll link_at deref
  insert_ll l index d =
      if is_zero index then ok (record { nodes = d ∷ l.nodes; count = incr l.count }) else do
        pointer ← iterate_ll l (decr index)
        cursor ← deref pointer
        nodes ← link_at cursor.before cursor.here d
        ok (record { nodes = nodes; count = incr l.count })

  -- The head unlinked; NULL is left alone.
  remove_head : List D → List D
  remove_head [] = []
  remove_head (x ∷ rest) = rest

  unfoldable pub remove_node_ll : LinkedList D → ℤ → Outcome (LinkedList D)
  unfolding iterate_ll unlink_at deref remove_head
  remove_node_ll l index =
      if is_zero index
      then ok (record { nodes = remove_head l.nodes; count = decr l.count })
      else do
        pointer ← iterate_ll l (decr index)
        cursor ← deref pointer
        nodes ← unlink_at cursor.before cursor.here
        ok (record { nodes = nodes; count = decr l.count })

  first : List D → Option D
  first [] = none
  first (x ∷ _) = some x

  -- `cursor ? cursor->data : NULL`
  data_of : Option (Cursor D) → Option D
  unfolding first
  data_of none = none
  data_of (some c) = first c.here

  unfoldable pub retrieve_ll : LinkedList D → ℤ → Outcome (Option D)
  unfolding iterate_ll data_of
  retrieve_ll l index = do pointer ← iterate_ll l index; ok (data_of pointer)

  -- `for (i = 0; i < linked_list->length; i++) remove(linked_list, 0);`, `none` when the fuel is out.
  unfoldable pub destroy_from : ℕ → ℕ → LinkedList D → Outcome (Option (LinkedList D))
  unfolding remove_node_ll
  destroy_from zero i l = ok none
  destroy_from (suc fuel) i l =
      let rest = remove_node_ll l (pos 0) >>= destroy_from fuel (i + 1) in
      if ltb_ℤ (pos i) l.count then rest else ok (some l)

  -- The list shrinks as `i` grows, so one round more than `length` is enough.
  unfoldable pub linked_list_destructor : LinkedList D → Outcome (Option (LinkedList D))
  unfolding destroy_from
  linked_list_destructor l = destroy_from (rounds l.count) 0 l

-- A list whose `length` counts its nodes, as the constructor makes it and `insert` keeps it.
abbrev pub IsCounted {ℓ} : {D : Type ℓ} → LinkedList D → Type 0
IsCounted l = l.count ≡ pos (length l.nodes)
