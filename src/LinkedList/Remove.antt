-- ===== src/LinkedList/Remove.antt =====
-- `remove_node_ll` against positions in a list, and what it does on an empty list.
use let_us_connect_http_serv.Base.{
  ℕ, zero, suc, ◌-◌, List, [], ◌∷◌, ◌++◌, Outcome, ok, fault, pos, negsuc, ℤ, decr, drop_all,
  length, take, drop, if◌then◌else◌, ◌≡◌, arith, append_assoc, ltb→lt, ltb, Bool-cases, inl, inr,
  false,
}
use let_us_connect_http_serv.LinkedList.{
  LinkedList, unlink_at, remove_node_ll, remove_head, IsCounted,
}
use let_us_connect_http_serv.LinkedList.Insert.{pointer_at, split_at, iterate_ll-ge}

module _ {ℓ} {D : Type ℓ} where
  remove_head_lem :
      (xs : List D) (n : ℤ)
      → n ≡ pos (length xs)
      → ◌≡◌ {A = Outcome (LinkedList D)} (ok (record { nodes = remove_head xs; count = decr n })) (
          if ltb 0 (length xs)
          then ok (record { nodes = drop 1 xs; count = pos (length xs - 1) })
          else ok (record { nodes = []; count = negsuc 0 }))
  unfolding remove_head
  remove_head_lem [] n e = rw e
  remove_head_lem (x ∷ xs) n e = rw e (ground arith)

  -- Removing a position inside the list takes out that node and keeps the count; a position at or
  -- beyond the end, but for 0, dereferences NULL; at 0 of the empty list the count becomes -1.
  pub remove_node_ll_lem :
      (l : LinkedList D) (i : ℕ)
      → IsCounted l
      → remove_node_ll l (pos i) ≡ (
          if ltb i (length l.nodes)
          then ok (record {
            nodes = take i l.nodes ++ drop (suc i) l.nodes;
            count = pos (length l.nodes - 1);
          })
          else elim i [ zero ↦ ok (record { nodes = []; count = negsuc 0 }) | suc _ ↦ fault ])
  unfolding remove_node_ll
  remove_node_ll_lem l zero c = remove_head_lem l.nodes l.count c
  remove_node_ll_lem l (suc i) c = elim (Bool-cases (ltb i (length l.nodes))) [
    | inr beyond ↦
        let b : ltb (suc i) (length l.nodes) ≡ false = ground arith in
        rw (iterate_ll-ge l i c (ground arith), b)
    | inl inside ↦
        let (x, at, t, _) = pointer_at l i c (ltb→lt _ _ inside) in
        elim (Bool-cases (ltb (suc i) (length l.nodes))) [
          | inl next ↦
              let (y, d, _, _) = split_at l.nodes (suc i) (ltb→lt _ _ next) in
              rw (at, next, d, unlink_at, t, append_assoc, c) (ground arith)
          | inr last ↦ rw (at, last, drop_all (suc i) l.nodes (ground arith), unlink_at)
        ]
  ]
