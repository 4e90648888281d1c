-- ===== src/Pool/Invariant.antt =====
-- What holds of the pool and its threads in every state.
use let_us_connect_http_serv.Base.{[], false, length, true, ℕ, ◌++◌, ◌+◌, ◌<◌, ◌≡◌, ◌≢◌, ◌≤◌}
use let_us_connect_http_serv.Pool.{Pc, Pool, exited, free, terminated, waiting, woken, working}
use let_us_connect_http_serv.Pool.Family.{sum_of}
use let_us_connect_http_serv.Pool.System.{Owner, System, cancelling, draining, posting, serving}

module _ {T : Type 0} where
  abbrev pub is_waiting : Pc T → ℕ
  is_waiting waiting = 1
  is_waiting _ = 0

  abbrev pub is_woken : Pc T → ℕ
  is_woken woken = 1
  is_woken _ = 0

  abbrev pub is_working : Pc T → ℕ
  is_working (working _) = 1
  is_working _ = 0

  -- Before the end: no thread is told to end, every task that is queued has a signal or a thread
  -- that is awake, and the busy threads are counted.
  pub record IsOpen (n : ℕ) (p : Pool T) (pc : ℕ → Pc T) : Type 0 where
    pub alive : (i : ℕ) → p.threads_states i ≢ terminated
    pub signalled : p.available_work ≤ p.pool_sem + sum_of is_woken n pc
    pub counted : p.busy_threads_num ≡ sum_of is_working n pc
    pub staying : (i : ℕ) → pc i ≢ exited

  -- After it: every thread is told to end, and has a signal, or one to come, to wake up by.
  pub record IsEnding (n k : ℕ) (p : Pool T) (pc : ℕ → Pc T) : Type 0 where
    pub told : (i : ℕ) → i < n → p.threads_states i ≡ terminated
    pub wakeable : sum_of is_waiting n pc ≤ p.pool_sem + k

  abbrev pub Phase : ℕ → Owner → Pool T → (ℕ → Pc T) → Type 0
  Phase n serving p pc = IsOpen n p pc
  Phase n draining p pc = IsOpen n p pc
  Phase n (posting true k) p pc = IsEnding n k p pc × (p.available_work ≡ 0)
  Phase n (posting false k) p pc = IsEnding n k p pc
  Phase n (cancelling k) p pc = Unit

  pub record Inv (n : ℕ) (s : System T) : Type 0 where
    pub queued : length s.pool.queue ≡ s.pool.available_work
    pub in_order : s.taken ++ s.pool.queue ≡ s.added
    pub phase : Phase n s.owner s.pool s.pc

  -- A pool that `thread_pool_init` makes, whatever its semaphore holds.
  pub record IsNew (p : Pool T) : Type 0 where
    pub empty : p.queue ≡ []
    pub idle : p.available_work ≡ 0
    pub none_busy : p.busy_threads_num ≡ 0
    pub all_free : (i : ℕ) → p.threads_states i ≡ free
