-- ===== src/Pool/Handshake.antt =====
-- The start of the threads: the loop at the end of `thread_pool_init` and the first lines of
-- `_thread_task` in network/thread_pool.c, as steps in any order. All threads are given one `args`,
-- whose `state` the owner writes anew for each; the semaphore INIT_SEM is to keep the owner from
-- that until the thread has read it.
pub mod Phases
pub mod Ready
pub mod Stale
pub mod Tests
use let_us_connect_http_serv.Base.{List, Option, [], none, some, suc, ℕ, ◌+◌, ◌<◌, ◌≡◌}
use let_us_connect_http_serv.Pool.Family.{set_at}

-- A thread: not created, before its first line, with the state that it read, or past its
-- `sem_post(args->init_sem)`.
pub data Child : Type 0 where
  absent born : Child
  holds ready : ℕ → Child

-- The owner before round `i` of the loop, or in it at `sem_wait`, or after `free(args)`.
pub data Creator : Type 0 where
  creating awaits : ℕ → Creator
  created : Creator

-- `args->state`, the states numbered as their threads, is `none` once `args` is freed.
pub record Starting : Type 0 where
  pub args : Option ℕ
  pub init_sem : ℕ
  pub owner : Creator
  pub children : ℕ → Child

pub data Step (n : ℕ) (s : Starting) : Starting → Type 0 where
  creates :
      (i : ℕ)
      → i < n
      → s.owner ≡ creating i
      → Step n s (record s { args = some i; owner = awaits i; children = set_at s.children i born })
  goes_on :
      (i k : ℕ)
      → s.owner ≡ awaits i
      → s.init_sem ≡ suc k
      → Step n s (record s { init_sem = k; owner = creating (suc i) })
  frees : s.owner ≡ creating n → Step n s (record s { args = none; owner = created })
  reads :
      (i j : ℕ)
      → s.children i ≡ born
      → s.args ≡ some j
      → Step n s (record s { children = set_at s.children i (holds j) })
  posts :
      (i j k : ℕ)
      → s.children i ≡ holds j
      → s.args ≡ some k
      → Step n s (record s { init_sem = s.init_sem + 1; children = set_at s.children i (ready j) })

-- From a semaphore with this value; `sem_open` with O_CREAT gives 0 only to one that is new.
abbrev pub at_start : ℕ → Starting
at_start value = record {
  args = none;
  init_sem = value;
  owner = creating 0;
  children = λ _. absent;
}

-- After so many steps.
pub data Reach (n value : ℕ) : ℕ → Starting → Type 0 where
  start : Reach n value 0 (at_start value)
  later : {k : ℕ} {s t : Starting} → Reach n value k s → Step n s t → Reach n value (suc k) t
