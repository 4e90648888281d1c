-- ===== src/Queue/Fifo.antt =====
-- The queue is first in, first out; a `pop` of the empty queue spoils the next `push`.
use let_us_connect_http_serv.Base.{
  List, [], ◌∷◌, ◌++◌, Outcome, ok, fault, pos, length, ◌≡◌, refl, arith, take_all, drop_all, ◌>>=◌,
  get_elem?, leb, true, length-append,
}
use let_us_connect_http_serv.LinkedList.{LinkedList, insert_ll, remove_node_ll, iterate_ll}
use let_us_connect_http_serv.LinkedList.Insert.{insert_ll_lem, retrieve_ll_lem}
use let_us_connect_http_serv.LinkedList.Remove.{remove_node_ll_lem}
use let_us_connect_http_serv.Queue.{Queue, push, peek, pop}

-- The client's calls.
pub data Call {ℓ} (D : Type ℓ) : Type ℓ where
  pushes : D → Call D
  pops : Call D

module _ {ℓ} {D : Type ℓ} where
  -- The linked list that holds these items with the right count, and the queue over it.
  abbrev pub list_of : List D → LinkedList D
  list_of xs = record { nodes = xs; count = pos (length xs) }

  abbrev pub queue_of : List D → Queue D
  queue_of xs = record { list = list_of xs }

  pub insert_end :
      (xs : List D) (d : D)
      → insert_ll (list_of xs) (pos (length xs)) d ≡ ok (list_of (xs ++ d ∷ []))
  insert_end xs d =
      let inside : leb (length xs) (length xs) ≡ true = ground arith in
      rw (
        insert_ll_lem (list_of xs) (length xs) d refl,
        inside,
        take_all (length xs) xs (omega arith),
        drop_all (length xs) xs (omega arith),
        length-append xs (d ∷ []),
      )

  pub push_lem : (xs : List D) (d : D) → push (queue_of xs) d ≡ ok (queue_of (xs ++ d ∷ []))
  unfolding push
  push_lem xs d = rw (insert_end xs d)

  pub pop_lem : (x : D) (xs : List D) → pop (queue_of (x ∷ xs)) ≡ ok (queue_of xs)
  unfolding pop
  pop_lem x xs = rw (remove_node_ll_lem (list_of (x ∷ xs)) 0 refl) (ground arith)

  pub peek_lem : (xs : List D) → peek (queue_of xs) ≡ ok (get_elem? xs 0)
  unfolding peek
  peek_lem xs = retrieve_ll_lem (list_of xs) 0 refl

  -- The queue after a sequence of calls, and the abstract queue.
  unfoldable pub run : List (Call D) → Queue D → Outcome (Queue D)
  run [] q = ok q
  run (pushes d ∷ calls) q = push q d >>= run calls
  run (pops ∷ calls) q = pop q >>= run calls

  -- Every call is served by a first-in-first-out list, and no call pops when it is empty.
  pub data Serves : List (Call D) → List D → List D → Type ℓ where
    done : {xs : List D} → Serves [] xs xs
    pushed :
        {d : D} {calls : List (Call D)} {xs ys : List D}
        → Serves calls (xs ++ d ∷ []) ys
        → Serves (pushes d ∷ calls) xs ys
    popped :
        {x : D} {calls : List (Call D)} {xs ys : List D}
        → Serves calls xs ys
        → Serves (pops ∷ calls) (x ∷ xs) ys

  -- The queue implements the abstract queue: from the queue that holds `xs`, calls that the list
  -- serves run with no fault, and leave the items that the list is left with, in order.
  pub run-refines :
      {calls : List (Call D)} {xs ys : List D}
      → Serves calls xs ys
      → run calls (queue_of xs) ≡ ok (queue_of ys)
  unfolding run
  run-refines done = refl
  run-refines (pushed {d} {calls} {xs} s) = rw (push_lem xs d) (run-refines s)
  run-refines (popped {x} {calls} {xs} s) = rw (pop_lem x xs) (run-refines s)

  -- After a `pop` of the empty queue `length` is -1, and the next `push` dereferences NULL.
  pub push-pop_empty : (d : D) → (pop (queue_of []) >>= λ q. push q d) ≡ fault
  unfolding pop push remove_node_ll insert_ll iterate_ll
  push-pop_empty d = refl
