-- ===== src/Pool/Resources/Held.antt =====
-- What the pool holds, and what an action needs and does.
use let_us_connect_http_serv.Base.{
  Bool, List, Option, [], false, if◌then◌else◌, none, not, some, true, ℕ, ◌&&◌, ◌∷◌,
}
use let_us_connect_http_serv.Pool.Family.{set_at}
use let_us_connect_http_serv.Pool.Resources.{
  Action, Resource, args, attributes, gives, init_name, init_semaphore, lock, lock_memory,
  semaphore, semaphore_name, state, states_array, takes, thread, tids_array,
}

-- What is held.
pub record Held : Type 0 where
  pub has_lock_memory : Bool
  pub has_lock : Bool
  pub has_semaphore : Bool
  pub has_semaphore_name : Bool
  pub has_states_array : Bool
  pub has_tids_array : Bool
  pub has_attributes : Bool
  pub has_args : Bool
  pub has_init_semaphore : Bool
  pub has_init_name : Bool
  pub has_state : ℕ → Bool
  pub has_thread : ℕ → Bool

abbrev pub nothing_held : Held
nothing_held = record {
  has_lock_memory = false;
  has_lock = false;
  has_semaphore = false;
  has_semaphore_name = false;
  has_states_array = false;
  has_tids_array = false;
  has_attributes = false;
  has_args = false;
  has_init_semaphore = false;
  has_init_name = false;
  has_state = λ _. false;
  has_thread = λ _. false;
}

abbrev pub has : Resource → Held → Bool
has lock_memory h = h.has_lock_memory
has lock h = h.has_lock
has semaphore h = h.has_semaphore
has semaphore_name h = h.has_semaphore_name
has states_array h = h.has_states_array
has tids_array h = h.has_tids_array
has attributes h = h.has_attributes
has args h = h.has_args
has init_semaphore h = h.has_init_semaphore
has init_name h = h.has_init_name
has (state i) h = h.has_state i
has (thread i) h = h.has_thread i

abbrev pub with_resource : Bool → Resource → Held → Held
with_resource b lock_memory h = record h { has_lock_memory = b }
with_resource b lock h = record h { has_lock = b }
with_resource b semaphore h = record h { has_semaphore = b }
with_resource b semaphore_name h = record h { has_semaphore_name = b }
with_resource b states_array h = record h { has_states_array = b }
with_resource b tids_array h = record h { has_tids_array = b }
with_resource b attributes h = record h { has_attributes = b }
with_resource b args h = record h { has_args = b }
with_resource b init_semaphore h = record h { has_init_semaphore = b }
with_resource b init_name h = record h { has_init_name = b }
with_resource b (state i) h = record h { has_state = set_at h.has_state i b }
with_resource b (thread i) h = record h { has_thread = set_at h.has_thread i b }

-- What stands in what must be there, and what reads what must be gone: the lock is in its memory,
-- the pointers to the states and the ids of the threads are in their arrays, a thread reads `args`,
-- and its state for as long as it runs.
abbrev pub needs : Resource → Held → Bool
needs lock h = h.has_lock_memory
needs (state i) h = h.has_states_array && not (h.has_thread i)
needs (thread i) h = h.has_tids_array && h.has_state i
needs lock_memory h = not h.has_lock
needs _ h = true

-- Nothing is taken twice, and nothing is given back that is not held.
abbrev pub allowed : Action → Held → Bool
allowed (takes r) h = not (has r h) && needs r h
allowed (gives r) h = has r h && needs r h

abbrev pub made : Action → Held → Held
made (takes r) h = with_resource true r h
made (gives r) h = with_resource false r h

unfoldable pub replay : List Action → Held → Option Held
replay [] h = some h
replay (a ∷ rest) h = if allowed a h then replay rest (made a h) else none
