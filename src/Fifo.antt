-- ===== src/Fifo.antt =====
-- webserver_project/src/network/fifo_queue.c, on a heap of nodes. `malloc` gives an address that
-- was not given before; the read or write of a cell that is not allocated, or of NULL, is `fault`.
pub mod Chain
pub mod Refines
pub mod Tests
use let_us_connect_http_serv.Base.{
  Option, Outcome, fault, if◌then◌else◌, none, ok, some, suc, zero, ℕ, ◌==◌, ◌>>=◌,
}

-- `node_t` and the addresses of its neighbours; NULL is `none`.
pub record Node {ℓ} (T : Type ℓ) : Type ℓ where
  pub task : T
  pub next : Option ℕ
  pub prev : Option ℕ

-- The cells that are allocated, and the next address that malloc gives.
pub record Heap {ℓ} (T : Type ℓ) : Type ℓ where
  pub cells : ℕ → Option (Node T)
  pub fresh : ℕ

pub record FifoQueue : Type 0 where
  pub size : ℕ
  pub first : Option ℕ
  pub last : Option ℕ

-- The values that the two calls return for a queue that is not NULL.
pub data Status : Type 0 where
  done empty_queue : Status

-- `fifo_queue_init`
unfoldable pub fifo_queue_init : FifoQueue
fifo_queue_init = record { size = 0; first = none; last = none }

module _ {ℓ} {T : Type ℓ} where
  abbrev pub update : (ℕ → Option (Node T)) → ℕ → Option (Node T) → ℕ → Option (Node T)
  update cells a v b = if b == a then v else cells b

  allocated : Option (Node T) → Outcome (Node T)
  allocated none = fault
  allocated (some n) = ok n

  pub cell : Heap T → Option ℕ → Outcome (Node T)
  unfolding allocated
  cell h none = fault
  cell h (some a) = allocated (h.cells a)

  -- `a->prev = v` and `a->next = v`
  pub set_prev : Heap T → Option ℕ → Option ℕ → Outcome (Heap T)
  set_prev h none v = fault
  set_prev h (some a) v = do
    n ← cell h (some a)
    ok (record h { cells = update h.cells a (some (record n { prev = v })) })

  pub set_next : Heap T → Option ℕ → Option ℕ → Outcome (Heap T)
  set_next h none v = fault
  set_next h (some a) v = do
    n ← cell h (some a)
    ok (record h { cells = update h.cells a (some (record n { next = v })) })

  -- `malloc` with the fields that are set at once; the new node's address is the old `fresh`.
  pub new_node : Heap T → T → Option ℕ → Heap T
  new_node h task next = record {
    cells = update h.cells h.fresh (some (record { task = task; next = next; prev = none }));
    fresh = suc h.fresh;
  }

  push_onto : FifoQueue → T → Heap T → ℕ → Outcome (Status × FifoQueue × Heap T)
  push_onto q task h zero =
      ok
        (done, record { size = 1; first = some h.fresh; last = some h.fresh }, new_node h task none)
  push_onto q task h (suc n) = do
    linked ← set_prev (new_node h task q.last) q.last (some h.fresh)
    ok (done, record { size = suc (suc n); first = q.first; last = some h.fresh }, linked)

  -- `push_last`, for a queue that is not NULL
  pub push_last : FifoQueue → T → Heap T → Outcome (Status × FifoQueue × Heap T)
  unfolding push_onto
  push_last q task h = push_onto q task h q.size

  freed : Heap T → ℕ → Heap T
  freed h a = record h { cells = update h.cells a none }

  -- The two tests of the size after the removal, with `n` nodes left.
  unlinked : ℕ → Option ℕ → Option ℕ → Heap T → Outcome (FifoQueue × Heap T)
  unlinked zero first last h = ok (record { size = 0; first = first; last = none }, h)
  unlinked (suc n) first last h = do
    cut ← set_next h first none
    ok (record { size = suc n; first = first; last = last }, cut)

  pop_from : FifoQueue → Heap T → ℕ → Option ℕ → Outcome (Status × Option T × FifoQueue × Heap T)
  unfolding freed unlinked
  pop_from q h zero first = ok (empty_queue, none, q, h)
  pop_from q h (suc n) none = ok (empty_queue, none, q, h)
  pop_from q h (suc n) (some a) = do
    old_node ← cell h (some a)
    left ← unlinked n old_node.prev q.last (freed h a)
    ok (done, some old_node.task, left.0, left.1)

  -- `pop_first`, for a queue and a result pointer that are not NULL; the task is `none` where
  -- `*task` is not written.
  pub pop_first : FifoQueue → Heap T → Outcome (Status × Option T × FifoQueue × Heap T)
  unfolding pop_from
  pop_first q h = pop_from q h q.size q.first
