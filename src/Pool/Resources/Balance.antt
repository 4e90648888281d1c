-- ===== src/Pool/Resources/Balance.antt =====
-- The actions of a start and of an end of the pool, replayed.
use let_us_connect_http_serv.Base.{
  Bool, List, [], ap, append_assoc, arith, false, leb, ltb, refl, some, suc, sym, true, zero, ℕ,
  ◌&&◌, ◌++◌, ◌+◌, ◌==◌, ◌∙◌, ◌∷◌, ◌≡◌,
}
use let_us_connect_http_serv.Pool.Family.{set_at}
use let_us_connect_http_serv.Pool.Resources.{
  Action, args, creations, destroy_actions, gives, init_actions, init_name, joins, state, takes,
  thread,
}
use let_us_connect_http_serv.Pool.Resources.Held.{Held, allowed, made, nothing_held, replay}

replay-allowed :
    (a : Action) (rest : List Action) (h : Held)
    → allowed a h ≡ true
    → replay (a ∷ rest) h ≡ replay rest (made a h)
unfolding replay
replay-allowed a rest h e = rw e refl

abbrev with_threads : (ℕ → Bool) → Held → Held
with_threads f h = record h { has_state = f; has_thread = f }

-- The threads below `i`, and those from `i` on below `n`.
abbrev below : ℕ → ℕ → Bool
below i j = ltb j i

abbrev between : ℕ → ℕ → ℕ → Bool
between i n j = leb i j && ltb j n

below-suc : (i : ℕ) → set_at (below i) i true ≡ below (suc i)
below-suc i = λ t j. next j t
  where
    next : (j : ℕ) → set_at (below i) i true j ≡ below (suc i) j
    next j = ground arith

between-suc : (i n : ℕ) → set_at (between i n) i false ≡ between (suc i) n
between-suc i n = λ t j. next j t
  where
    next : (j : ℕ) → set_at (between i n) i false j ≡ between (suc i) n j
    next j = ground arith

replay-creations :
    (k i n : ℕ) (rest : List Action) (h : Held)
    → n ≡ i + k
    → h.has_states_array ≡ true
    → h.has_tids_array ≡ true
    → replay (creations i k ++ rest) (with_threads (below i) h)
      ≡ replay rest (with_threads (below n) h)
unfolding creations
replay-creations zero i n rest h e a b =
    ap (λ j. replay rest (with_threads (below j) h)) (omega arith)
replay-creations (suc k) i n rest h e a b =
    let old : ltb i i ≡ false = ground arith in
    let self : (i == i) ≡ true = ground arith in
    let new = with_threads (below i) h in
    let more = creations (suc i) k ++ rest in
    replay-allowed (takes (state i)) (takes (thread i) ∷ more) new (simp (old, a))
    ∙ replay-allowed (takes (thread i)) more (made (takes (state i)) new) (simp (old, b, self))
    ∙ ap (λ f. replay more (with_threads f h)) (below-suc i)
    ∙ replay-creations k (suc i) n rest h (omega arith) a b

replay-joins :
    (k i n : ℕ) (rest : List Action) (h : Held)
    → n ≡ i + k
    → h.has_states_array ≡ true
    → h.has_tids_array ≡ true
    → replay (joins i k ++ rest) (with_threads (between i n) h)
      ≡ replay rest (with_threads (between n n) h)
unfolding joins
replay-joins zero i n rest h e a b =
    ap (λ j. replay rest (with_threads (between j n) h)) (omega arith)
replay-joins (suc k) i n rest h e a b =
    let here : leb i i && ltb i n ≡ true = ground arith in
    let self : (i == i) ≡ true = ground arith in
    let old = with_threads (between i n) h in
    let more = joins (suc i) k ++ rest in
    replay-allowed (gives (thread i)) (gives (state i) ∷ more) old (simp (here, b))
    ∙ replay-allowed (gives (state i)) more (made (gives (thread i)) old) (simp (here, a, self))
    ∙ ap (λ f. replay more (with_threads f h)) (between-suc i n)
    ∙ replay-joins k (suc i) n rest h (omega arith) a b

-- What a pool leaves behind when it is destroyed: the attributes of its threads and the handle of
-- INIT_SEM.
abbrev pub left_over : Held
left_over = record nothing_held { has_attributes = true; has_init_semaphore = true }

-- What is held between the loop of `thread_pool_init` and that of `thread_pool_destroy`.
abbrev all_but_threads : Held
all_but_threads = record nothing_held {
  has_lock_memory = true;
  has_lock = true;
  has_semaphore = true;
  has_semaphore_name = true;
  has_states_array = true;
  has_tids_array = true;
  has_attributes = true;
  has_init_semaphore = true;
}

abbrev while_starting : Held
while_starting = record all_but_threads { has_args = true; has_init_name = true }

none_below : below 0 ≡ (λ _. false)
none_below = λ t j. none_at j t
  where
    none_at : (j : ℕ) → below 0 j ≡ false
    none_at j = ground arith

all_between : (n : ℕ) → below n ≡ between 0 n
all_between n = λ t j. all_at j t
  where
    all_at : (j : ℕ) → below n j ≡ between 0 n j
    all_at j = ground arith

none_between : (n : ℕ) → between n n ≡ (λ _. false)
none_between n = λ t j. none_at j t
  where
    none_at : (j : ℕ) → between n n j ≡ false
    none_at j = ground arith

replay-init :
    (n : ℕ) (rest : List Action)
    → replay (init_actions n true true ++ rest) nothing_held
      ≡ replay rest (with_threads (below n) all_but_threads)
unfolding init_actions replay
replay-init n rest =
    let ends = gives init_name ∷ gives args ∷ [] in
    ap (λ f. replay ((creations 0 n ++ ends) ++ rest) (with_threads f while_starting))
      (sym none_below)
    ∙ ap (λ l. replay l (with_threads (below 0) while_starting))
        (append_assoc (creations 0 n) ends rest)
    ∙ replay-creations n 0 n (ends ++ rest) while_starting (omega arith) refl refl

replay-destroy :
    (n : ℕ) → replay (destroy_actions n) (with_threads (below n) all_but_threads) ≡ some left_over
unfolding destroy_actions replay
replay-destroy n =
    ap (λ f. replay (destroy_actions n) (with_threads f all_but_threads)) (all_between n)
    ∙ replay-joins n 0 n _ all_but_threads (omega arith) refl refl
    ∙ ap (λ f. some (with_threads f left_over)) (none_between n)

-- A pool of n threads takes nothing twice, and nothing from where it does not stand; when it is
-- destroyed, all that its start took has been given back, once, and no thread's state before the
-- thread is joined, but for the attributes of the threads and the handle of INIT_SEM. A start that
-- fails keeps the memory of the lock.
pub replay-init_actions :
    (n : ℕ) (opens : Bool)
    → (replay (init_actions n true true ++ destroy_actions n) nothing_held ≡ some left_over)
      × (replay (init_actions n false opens) nothing_held
          ≡ some (record nothing_held { has_lock_memory = true }))
      × (replay (init_actions n true false) nothing_held
          ≡ some (record nothing_held { has_lock_memory = true }))
unfolding init_actions replay
replay-init_actions n opens = (replay-init n (destroy_actions n) ∙ replay-destroy n, refl, refl)
