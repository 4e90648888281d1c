-- ===== src/LinkedList/Destroy.antt =====
-- `linked_list_destructor` leaves half of the nodes behind: its loop tests the length that each
-- removal makes smaller.
use let_us_connect_http_serv.Base.{
  ℕ, zero, suc, ◌+◌, ◌-◌, ◌/◌, ◌<◌, List, [], ◌∷◌, some, ok, ℤ, pos, length, drop, ◌≡◌, arith, ltb,
  ◌∙◌, true, false, drop_all,
}
use let_us_connect_http_serv.LinkedList.{
  LinkedList, remove_node_ll, remove_head, destroy_from, linked_list_destructor, IsCounted,
}

module _ {ℓ} {D : Type ℓ} where
  destroy_from_lem :
      (fuel i k : ℕ) (xs : List D)
      → length xs < fuel
      → k ≡ (length xs + 1 - i) / 2
      → destroy_from fuel i (record { nodes = xs; count = pos (length xs) })
        ≡ ok (some (record { nodes = drop k xs; count = pos (length xs - k) }))
  unfolding destroy_from remove_node_ll remove_head
  destroy_from_lem zero i k xs h e = absurd (omega arith)
  destroy_from_lem (suc fuel) i k [] h e = rw (drop_all {A = D} k [] (omega arith)) (ground arith)
  destroy_from_lem (suc fuel) i zero (x ∷ xs) h e =
      let b : ltb i (suc (length xs)) ≡ false = ground arith in rw b (ground arith)
  destroy_from_lem (suc fuel) i (suc k) (x ∷ xs) h e =
      let b : ltb i (suc (length xs)) ≡ true = ground arith in
      rw b (destroy_from_lem fuel (i + 1) k xs (omega arith) (omega arith) ∙ ground arith)

  destructor_counted :
      (xs : List D) (n : ℤ)
      → n ≡ pos (length xs)
      → linked_list_destructor (record { nodes = xs; count = n })
        ≡ ok (some (record { nodes = drop ((length xs + 1) / 2) xs; count = pos (length xs / 2) }))
  unfolding linked_list_destructor
  destructor_counted xs n c =
      let half : length xs - (length xs + 1) / 2 ≡ length xs / 2 = omega arith in
      rw (c, ← half)
        (destroy_from_lem (suc (length xs)) 0 ((length xs + 1) / 2) xs (omega arith) (omega arith))

  -- The destructor of a list of n nodes returns, and still holds the last n / 2 of them.
  pub linked_list_destructor-leaks :
      (l : LinkedList D)
      → IsCounted l
      → linked_list_destructor l
        ≡ ok (
            some (record {
              nodes = drop ((length l.nodes + 1) / 2) l.nodes;
              count = pos (length l.nodes / 2);
            }))
  linked_list_destructor-leaks l c = destructor_counted l.nodes l.count c
