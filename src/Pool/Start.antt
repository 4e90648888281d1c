-- ===== src/Pool/Start.antt =====
-- The pool that `thread_pool_init` makes, and what `add_work` does to it.
use let_us_connect_http_serv.Base.{
  Bool, Bytes, Option, arith, false, negsuc, none, pos, refl, some, suc, true, zero, ℕ, ℤ, ◌≡◌, ◌≤◌,
}
use let_us_connect_http_serv.Pool.{
  Pool, SizeOption, dynamic_size, errno_error, invalid_input, opened, pool_with, size_of,
  size_option_of, static_size, thread_pool_init, with_size,
}
use let_us_connect_http_serv.Pool.Invariant.{IsNew}

module _ (T : Type 0) where
  -- What a call of `thread_pool_init` yields.
  pub record Makes (max_thread_num size_option value : ℕ) (m : ℕ × Option (Pool T)) : Type 0 where
    pub pool : Pool T
    pub made : m ≡ (0, some pool)
    pub new : IsNew pool
    pub sized : (1 ≤ pool.curr_size) × (pool.curr_size ≤ max_thread_num)
    pub static : size_option ≡ 0 → pool.curr_size ≡ max_thread_num
    pub signals : pool.pool_sem ≡ value

  abbrev pub Starts : ℤ → ℕ → Option Bytes → Bool → Option ℕ → ℕ × Option (Pool T) → Type 0
  Starts (pos (suc n)) (suc (suc _)) (some name) lock sem m = m ≡ (invalid_input, none)
  Starts (pos (suc n)) option (some name) true (some value) m = Makes (suc n) option value m
  Starts (pos (suc n)) _ (some name) _ _ m = m ≡ (errno_error, none)
  Starts _ _ _ _ _ m = m ≡ (invalid_input, none)

  abbrev code_of : SizeOption → ℕ
  code_of static_size = 0
  code_of dynamic_size = 1

  made_with :
      (n value : ℕ) (option : SizeOption)
      → Makes (suc n) (code_of option) value (0, some (pool_with (suc n) option value))
  unfolding pool_with size_of
  made_with n value static_size = record {
    pool = pool_with (suc n) static_size value;
    made = refl;
    new = record { empty = refl; idle = refl; none_busy = refl; all_free = λ i. refl };
    sized = omega arith;
    static = λ e. refl;
    signals = refl;
  }
  made_with n value dynamic_size = record {
    pool = pool_with (suc n) dynamic_size value;
    made = refl;
    new = record { empty = refl; idle = refl; none_busy = refl; all_free = λ i. refl };
    sized = ground arith;
    static = λ e. ground arith;
    signals = refl;
  }

  -- `thread_pool_init` returns INVALID_INPUT for a number of threads below 1, a size option that
  -- is neither of the two, or no name; else ERRNO_ERROR when the lock or the semaphore cannot be
  -- had; else 0 with a pool with no work, of at least one thread and at most the number asked for,
  -- which a pool of static size has exactly.
  pub thread_pool_init-Starts :
      (max_thread_num : ℤ) (size_option : ℕ) (name : Option Bytes) (lock : Bool) (sem : Option ℕ)
      → Starts max_thread_num size_option name lock sem
          (thread_pool_init {T = T} max_thread_num size_option name lock sem)
  unfolding thread_pool_init with_size opened size_option_of
  thread_pool_init-Starts (negsuc n) size_option name lock sem = refl
  thread_pool_init-Starts (pos zero) size_option name lock sem = refl
  thread_pool_init-Starts (pos (suc n)) zero none lock sem = refl
  thread_pool_init-Starts (pos (suc n)) (suc zero) none lock sem = refl
  thread_pool_init-Starts (pos (suc n)) (suc (suc _)) none lock sem = refl
  thread_pool_init-Starts (pos (suc n)) zero (some name) true (some value) =
      made_with n value static_size
  thread_pool_init-Starts (pos (suc n)) zero (some name) true none = refl
  thread_pool_init-Starts (pos (suc n)) zero (some name) false (some value) = refl
  thread_pool_init-Starts (pos (suc n)) zero (some name) false none = refl
  thread_pool_init-Starts (pos (suc n)) (suc zero) (some name) true (some value) =
      made_with n value dynamic_size
  thread_pool_init-Starts (pos (suc n)) (suc zero) (some name) true none = refl
  thread_pool_init-Starts (pos (suc n)) (suc zero) (some name) false (some value) = refl
  thread_pool_init-Starts (pos (suc n)) (suc zero) (some name) false none = refl
  thread_pool_init-Starts (pos (suc n)) (suc (suc _)) (some name) lock sem = refl
