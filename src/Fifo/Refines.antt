-- ===== src/Fifo/Refines.antt =====
-- The queue on the heap implements the list of its tasks.
use let_us_connect_http_serv.Base.{
  List, Option, [], ap, arith, length, length-append, none, ok, refl, some, subst, suc, sym, ℕ,
  ◌++◌, ◌<◌, ◌∙◌, ◌∷◌, ◌≡◌,
}
use let_us_connect_http_serv.Fifo.{
  FifoQueue, Heap, Node, allocated, cell, done, empty_queue, freed, new_node, pop_first, pop_from,
  push_last, push_onto, set_next, set_prev, unlinked, update,
}
use let_us_connect_http_serv.Fifo.Chain.{
  Links, Links-push, Links-update, head_of, last_cell, last_node, last_of, last_of_lt, pushed_cells,
  update_eq, update_ne,
}

module _ {ℓ} {T : Type ℓ} where
  abbrev end_of : List (ℕ × T) → Option ℕ
  end_of [] = none
  end_of ((a, t) ∷ xs) = some (last_of a xs)

  abbrev queue_at : List (ℕ × T) → FifoQueue
  queue_at nodes = record { size = length nodes; first = head_of nodes; last = end_of nodes }

  abbrev tasks_of : List (ℕ × T) → List T
  tasks_of [] = []
  tasks_of ((a, t) ∷ xs) = t ∷ tasks_of xs

  -- The queue in the heap holds these tasks, from `first` to `last`: the nodes are allocated and
  -- linked both ways, and the three fields are right.
  pub record IsFifo (q : FifoQueue) (h : Heap T) (tasks : List T) : Type ℓ where
    pub nodes : List (ℕ × T)
    pub fields : q ≡ queue_at nodes
    pub linked : Links h.cells 0 h.fresh none nodes
    pub holds : tasks_of nodes ≡ tasks

  tasks_of-append :
      (xs : List (ℕ × T)) (a : ℕ) (t : T) → tasks_of (xs ++ (a, t) ∷ []) ≡ tasks_of xs ++ t ∷ []
  tasks_of-append [] a t = refl
  tasks_of-append ((b, u) ∷ xs) a t = ap (◌∷◌ u) (tasks_of-append xs a t)

  last_of-append : (b : ℕ) (xs : List (ℕ × T)) (a : ℕ) (t : T) → last_of b (xs ++ (a, t) ∷ []) ≡ a
  last_of-append b [] a t = refl
  last_of-append b ((c, u) ∷ xs) a t = last_of-append c xs a t

  cell_lem : (h : Heap T) (a : ℕ) (n : Node T) → h.cells a ≡ some n → cell h (some a) ≡ ok n
  unfolding cell allocated
  cell_lem h a n e = rw e refl

  set_prev_lem :
      (h : Heap T) (a : ℕ) (n : Node T) (v : Option ℕ)
      → h.cells a ≡ some n
      → set_prev h (some a) v
        ≡ ok (record h { cells = update h.cells a (some (record n { prev = v })) })
  unfolding set_prev
  set_prev_lem h a n v e = rw (cell_lem h a n e) refl

  set_next_lem :
      (h : Heap T) (a : ℕ) (n : Node T) (v : Option ℕ)
      → h.cells a ≡ some n
      → set_next h (some a) v
        ≡ ok (record h { cells = update h.cells a (some (record n { next = v })) })
  unfolding set_next
  set_next_lem h a n v e = rw (cell_lem h a n e) refl

  -- A push at any chain.
  push_at :
      (nodes : List (ℕ × T)) (h : Heap T) (t : T)
      → Links h.cells 0 h.fresh none nodes
      → (next : Heap T) × (push_last (queue_at nodes) t h
          ≡ ok (done, queue_at (nodes ++ (h.fresh, t) ∷ []), next))
        × Links next.cells 0 next.fresh none (nodes ++ (h.fresh, t) ∷ [])
  unfolding push_last push_onto new_node
  push_at [] h t l =
      (new_node h t none, refl, (omega arith, omega arith, update_eq h.cells h.fresh _, tt))
  push_at ((a, u) ∷ xs) h t l =
      let end = last_of a xs in
      let old : end < h.fresh = last_of_lt h.cells a h.fresh (some a) xs l.1 l.3 in
      let longer : length (xs ++ (h.fresh, t) ∷ []) ≡ suc (length xs) =
        omega (arith, length-append xs ((h.fresh, t) ∷ [])) in
      let there =
        update_ne h.cells h.fresh end (some (record { task = t; next = some end; prev = none }))
          (λ e. omega arith)
        ∙ last_cell h.cells 0 h.fresh none a u xs l in
      (
        record { cells = pushed_cells h.cells h.fresh none a u xs t; fresh = suc h.fresh },
        rw
            (
              set_prev_lem (new_node h t (some end)) end (last_node none a u xs) (some h.fresh)
                  there,
              last_of-append a xs h.fresh t,
              longer,
            )
            refl,
        Links-push h.cells 0 h.fresh none a u xs t l,
      )

  -- A pop at a chain that is not empty.
  pop_at :
      (a : ℕ) (t : T) (rest : List (ℕ × T)) (h : Heap T)
      → Links h.cells 0 h.fresh none ((a, t) ∷ rest)
      → (next : Heap T) × (pop_first (queue_at ((a, t) ∷ rest)) h
          ≡ ok (done, some t, queue_at rest, next))
        × Links next.cells 0 next.fresh none rest
  unfolding pop_first pop_from freed unlinked
  pop_at a t [] h (low, high, here, l) = (freed h a, rw (cell_lem h a _ here) refl, tt)
  pop_at a t ((b, u) ∷ rest) h (low, high, here, (low', high', here', l)) =
      let node_b : Node T = record { task = u; next = some a; prev = head_of rest } in
      let still : update h.cells a none b ≡ some node_b =
        update_ne h.cells a b none (λ e. omega arith) ∙ here' in
      let cut = some (record node_b { next = none }) in
      (
        record h { cells = update (update h.cells a none) b cut },
        rw (cell_lem h a _ here, set_next_lem (freed h a) b node_b none still) refl,
        (
          omega arith,
          high',
          update_eq (update h.cells a none) b cut,
          Links-update (update h.cells a none) b cut (suc b) h.fresh (some b) rest (omega arith)
              (Links-update h.cells a none (suc b) h.fresh (some b) rest (omega arith) l),
        ),
      )

  -- Pushing a task on a queue returns 0 without a fault, and the queue then holds the task behind
  -- the others.
  pub push_last-IsFifo :
      (q : FifoQueue) (h : Heap T) (tasks : List T) (t : T)
      → IsFifo q h tasks
      → (q' : FifoQueue) × (h' : Heap T) × (push_last q t h ≡ ok (done, q', h'))
        × IsFifo q' h' (tasks ++ t ∷ [])
  push_last-IsFifo q h tasks t is =
      let (h', e, linked) = push_at is.nodes h t is.linked in
      (
        queue_at (is.nodes ++ (h.fresh, t) ∷ []),
        h',
        rw is.fields e,
        record {
          nodes = is.nodes ++ (h.fresh, t) ∷ [];
          fields = refl;
          linked = linked;
          holds = tasks_of-append is.nodes h.fresh t ∙ ap (λ ts. ts ++ t ∷ []) is.holds;
        },
      )

  -- What a pop of a queue with these tasks does.
  unfoldable pub Pops : FifoQueue → Heap T → List T → Type ℓ
  Pops q h [] = pop_first q h ≡ ok (empty_queue, none, q, h)
  Pops q h (t ∷ tasks) =
      (q' : FifoQueue) × (h' : Heap T) × (pop_first q h ≡ ok (done, some t, q', h'))
      × IsFifo q' h' tasks

  Pops-at :
      (nodes : List (ℕ × T)) (h : Heap T)
      → Links h.cells 0 h.fresh none nodes
      → Pops (queue_at nodes) h (tasks_of nodes)
  unfolding pop_first pop_from Pops
  Pops-at [] h l = refl
  Pops-at ((a, t) ∷ rest) h l =
      let (h', e, linked) = pop_at a t rest h l in
      (queue_at rest, h', e, record { nodes = rest; fields = refl; linked = linked; holds = refl })

  -- A pop of a queue reads and writes allocated nodes only. With no task in it, it returns
  -- EMPTY_QUEUE and changes nothing; else it yields the first task, and the queue then holds the
  -- others, in order.
  pub pop_first-IsFifo :
      (q : FifoQueue) (h : Heap T) (tasks : List T) → IsFifo q h tasks → Pops q h tasks
  pop_first-IsFifo q h tasks is =
      subst (λ q. Pops q h tasks) (sym is.fields)
        (subst (Pops (queue_at is.nodes) h) is.holds (Pops-at is.nodes h is.linked))
