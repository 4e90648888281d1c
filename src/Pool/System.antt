-- ===== src/Pool/System.antt =====
-- The threads of the pool and the thread that owns it, interleaved in any order. `sem_wait`,
-- `sem_post` and each locked section is one step; so is the work, which touches no field of the
-- pool. Only the owner adds work, and it adds none once it destroys the pool. A thread that is
-- cancelled stops at `sem_wait` or in the work, whose calls of the system are the other points of
-- cancellation: neither locked section has one.
use let_us_connect_http_serv.Base.{
  Bool, List, Option, [], false, none, some, suc, true, zero, ℕ, ◌++◌, ◌+◌, ◌<◌, ◌∷◌, ◌≡◌,
}
use let_us_connect_http_serv.Pool.{
  Pc, Pool, exited, first_section, invalid_input, push_task, second_section, terminate_all, waiting,
  woken, working,
}
use let_us_connect_http_serv.Pool.Family.{set_at}

-- What the owner does: it adds work, waits until there is none (THREAD_POOL_DESTROY_SOFT), or has
-- told the threads to end and has so many signals left to give, or has so many threads left to
-- cancel (THREAD_POOL_DESTROY_HARD), after which it joins.
pub data Owner : Type 0 where
  serving draining : Owner
  posting : Bool → ℕ → Owner
  cancelling : ℕ → Owner

-- The pool, the threads, the owner, and what was added and taken so far.
pub record System (T : Type 0) : Type 0 where
  pub pool : Pool T
  pub pc : ℕ → Pc T
  pub owner : Owner
  pub added : List T
  pub taken : List T

module _ {T : Type 0} where
  abbrev pub task_of : Pc T → List T
  task_of (working (some task)) = task ∷ []
  task_of (working none) = []
  task_of waiting = []
  task_of woken = []
  task_of exited = []

  -- Thread `i` after a section: what it does to the pool, and where it stands then.
  abbrev pub moved : System T → ℕ → Pool T × Pc T → System T
  moved s i (p, at) = record s { pool = p; pc = set_at s.pc i at; taken = s.taken ++ task_of at }

  abbrev pub posted : Pool T → Pool T
  posted p = record p { pool_sem = p.pool_sem + 1 }

  -- Where a thread that is cancelled may leave: at its `sem_wait`, and in its work, where some calls
  -- are points of cancellation (`send`, `open`) and others are none (a locked log, `sendfile`); so
  -- that a thread in its work may leave and need not.
  abbrev pub IsStoppable : Pc T → Type 0
  IsStoppable waiting = Unit
  IsStoppable (working _) = Unit
  IsStoppable woken = ⊥
  IsStoppable exited = ⊥

  pub data Step (n : ℕ) (s : System T) : System T → Type 0 where
    wakes :
        (i k : ℕ)
        → i < n
        → s.pc i ≡ waiting
        → s.pool.pool_sem ≡ suc k
        → Step n s (moved s i (record s.pool { pool_sem = k }, woken))
    looks_in : (i : ℕ) → i < n → s.pc i ≡ woken → Step n s (moved s i (first_section i s.pool))
    ends_work :
        (i : ℕ) (task : Option T)
        → i < n
        → s.pc i ≡ working task
        → Step n s (record s {
          pool = (second_section i s.pool).0;
          pc = set_at s.pc i (second_section i s.pool).1;
        })
    adds :
        (task : T)
        → s.owner ≡ serving
        → Step n s (record s { pool = push_task task s.pool; added = s.added ++ task ∷ [] })
    destroys_soft : s.owner ≡ serving → Step n s (record s { owner = draining })
    destroys_drop :
        s.owner ≡ serving
        → Step n s (record s { pool = terminate_all n s.pool; owner = posting false n })
    drained :
        s.owner ≡ draining
        → s.pool.available_work ≡ 0
        → Step n s (record s { pool = terminate_all n s.pool; owner = posting true n })
    posts :
        (soft : Bool) (k : ℕ)
        → s.owner ≡ posting soft (suc k)
        → Step n s (record s { pool = posted s.pool; owner = posting soft k })
    destroys_hard : s.owner ≡ serving → Step n s (record s { owner = cancelling n })
    cancels : (k : ℕ) → s.owner ≡ cancelling (suc k) → Step n s (record s { owner = cancelling k })
    stops :
        (i k : ℕ)
        → i + k < n
        → s.owner ≡ cancelling k
        → IsStoppable (s.pc i)
        → Step n s (record s { pc = set_at s.pc i exited })

  -- THREAD_POOL_DESTROY_SOFT, _HARD and _DRAIN_AND_DROP are 0, 1 and 2; `none` for any other.
  begun : ℕ → System T → ℕ → Option (System T)
  begun n s zero = some (record s { owner = draining })
  begun n s (suc zero) = some (record s { owner = cancelling n })
  begun n s (suc (suc zero)) =
      some (record s { pool = terminate_all n s.pool; owner = posting false n })
  begun n s (suc (suc (suc _))) = none

  accepted : System T → Option (System T) → ℕ × Option (System T)
  accepted s none = (invalid_input, some s)
  accepted s (some t) = (0, some t)

  -- `thread_pool_destroy` of a pool of n threads, until the owner waits, cancels or signals: what it
  -- will return, and the system then. The pool is `none` for NULL.
  unfoldable pub thread_pool_destroy : ℕ → Option (System T) → ℕ → ℕ × Option (System T)
  unfolding begun accepted
  thread_pool_destroy n none option = (invalid_input, none)
  thread_pool_destroy n (some s) option = accepted s (begun n s option)

  abbrev pub at_start : Pool T → System T
  at_start p = record { pool = p; pc = λ _. waiting; owner = serving; added = []; taken = [] }

  -- From a pool as it is made, with its threads before their first `sem_wait`.
  pub data Reach (n : ℕ) (p : Pool T) : System T → Type 0 where
    start : Reach n p (at_start p)
    later : {s t : System T} → Reach n p s → Step n s t → Reach n p t
