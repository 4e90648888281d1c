-- ===== src/Pool/Resources.antt =====
-- What `thread_pool_init` takes from the system and `thread_pool_destroy` gives back, in the order
-- of network/thread_pool.c: its allocations, its lock, its two semaphores, and its threads, which a
-- join gives back.
pub mod Held
pub mod Balance
pub mod Tests
use let_us_connect_http_serv.Base.{Bool, List, [], false, suc, true, zero, ℕ, ◌++◌, ◌∷◌}

pub data Resource : Type 0 where
  lock_memory lock semaphore semaphore_name states_array tids_array attributes args init_semaphore
        init_name :
      Resource
  state thread : ℕ → Resource

pub data Action : Type 0 where
  takes gives : Resource → Action

-- The loop of `thread_pool_init`, for k threads from the i-th on.
creations : ℕ → ℕ → List Action
creations i zero = []
creations i (suc k) = takes (state i) ∷ takes (thread i) ∷ creations (suc i) k

-- `thread_pool_init` from the `malloc` of the lock on, with whether `pthread_mutex_init` and
-- `sem_open` succeed.
unfoldable pub init_actions : ℕ → Bool → Bool → List Action
unfolding creations
init_actions n false opens = takes lock_memory ∷ []
init_actions n true false = takes lock_memory ∷ takes lock ∷ gives lock ∷ []
init_actions n true true =
    takes lock_memory
    ∷ takes lock
    ∷ takes semaphore
    ∷ takes semaphore_name
    ∷ takes states_array
    ∷ takes tids_array
    ∷ takes attributes
    ∷ takes args
    ∷ takes init_semaphore
    ∷ takes init_name
    ∷ (creations 0 n ++ (gives init_name ∷ gives args ∷ []))

-- The loop of joins, for k threads from the i-th on.
joins : ℕ → ℕ → List Action
joins i zero = []
joins i (suc k) = gives (thread i) ∷ gives (state i) ∷ joins (suc i) k

-- `thread_pool_destroy` from its joins on.
unfoldable pub destroy_actions : ℕ → List Action
unfolding joins
destroy_actions n =
    joins 0 n
    ++ (gives semaphore
        ∷ gives semaphore_name
        ∷ gives lock
        ∷ gives lock_memory
        ∷ gives tids_array
        ∷ gives states_array
        ∷ [])
