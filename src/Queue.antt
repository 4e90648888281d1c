-- ===== src/Queue.antt =====
-- DataStructures/Lists/Queue.c: a queue in an embedded linked list.
pub mod Fifo
pub mod Tests
use mathlib.Core.Option
use let_us_connect_http_serv.Base.{Outcome, ok, ◌>>=◌, Option, pos}
use let_us_connect_http_serv.LinkedList.{
  LinkedList, linked_list_constructor, insert_ll, remove_node_ll, retrieve_ll,
  linked_list_destructor,
}

-- `struct Queue`, its data member.
pub record Queue {ℓ} (D : Type ℓ) : Type ℓ where
  pub list : LinkedList D

module _ {ℓ} {D : Type ℓ} where
  unfoldable pub queue_constructor : Queue D
  unfolding linked_list_constructor
  queue_constructor = record { list = linked_list_constructor }

  unfoldable pub push : Queue D → D → Outcome (Queue D)
  push q d = do list ← insert_ll q.list q.list.count d; ok (record { list = list })

  unfoldable pub peek : Queue D → Outcome (Option D)
  peek q = retrieve_ll q.list (pos 0)

  unfoldable pub pop : Queue D → Outcome (Queue D)
  pop q = do list ← remove_node_ll q.list (pos 0); ok (record { list = list })

  unfoldable pub queue_destructor : Queue D → Outcome (Option (Queue D))
  queue_destructor q = do
    rest ← linked_list_destructor q.list
    ok (Option.map (λ l. record { list = l }) rest)
