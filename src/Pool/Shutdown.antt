-- ===== src/Pool/Shutdown.antt =====
-- The end of the pool: every thread is woken and leaves, so that the joins return.
use let_us_connect_http_serv.Base.{
  Bool, Bool-cases, List, [], ap, append-nil, arith, false, inl, inr, length, ltb, ltb→lt, refl,
  suc, sym, true, ℕ, ◌*◌, ◌++◌, ◌+◌, ◌<◌, ◌∙◌, ◌∷◌, ◌≡◌, ◌≢◌, ◌≤◌, ◌⊎◌,
}
use let_us_connect_http_serv.Pool.{Pc, Pool, exited, waiting, woken, working}
use let_us_connect_http_serv.Pool.Family.{
  sum_of, sum_of-ge, sum_of-le_bound, sum_of-set_at, summand_pos,
}
use let_us_connect_http_serv.Pool.System.{
  Reach, Step, System, adds, cancels, destroys_drop, destroys_hard, destroys_soft, drained,
  ends_work, looks_in, posting, posts, stops, wakes,
}
use let_us_connect_http_serv.Pool.Invariant.{Inv, IsEnding, IsNew, is_waiting}
use let_us_connect_http_serv.Pool.Keeps.{first_section-told, second_section-told}
use let_us_connect_http_serv.Pool.Steps.{Inv-Phase, Reach-Inv, Step-Inv}
use let_us_connect_http_serv.Pool.Safety.{Goes, Pc-Goes}

module _ {T : Type 0} where
  -- The steps that a thread has left once it is told to end.
  abbrev pub steps_left : Pc T → ℕ
  steps_left waiting = 2
  steps_left woken = 1
  steps_left (working _) = 1
  steps_left exited = 0

  -- A run of so many steps.
  pub data Run (n : ℕ) (s : System T) : ℕ → System T → Type 0 where
    none_yet : Run n s 0 s
    and_then : {k : ℕ} {t u : System T} → Run n s k t → Step n t u → Run n s (suc k) u

  pub Inv-IsEnding :
      (n : ℕ) (s : System T) (soft : Bool)
      → s.owner ≡ posting soft 0
      → Inv n s
      → IsEnding n 0 s.pool s.pc
  Inv-IsEnding n s true o h = (Inv-Phase n s (posting true 0) o h).0
  Inv-IsEnding n s false o h = Inv-Phase n s (posting false 0) o h

  -- In a join each step is a thread's, and leaves it fewer.
  join-Step :
      (n : ℕ) (soft : Bool) {s t : System T}
      → Step n s t
      → s.owner ≡ posting soft 0
      → Inv n s
      → (sum_of steps_left n t.pc + 1 ≤ sum_of steps_left n s.pc) × (t.owner ≡ posting soft 0)
  join-Step n soft {s} (wakes i k lt at e) o h =
      (ground (arith, sum_of-set_at steps_left n s.pc i woken lt), o)
  join-Step n soft {s} (looks_in i lt at) o h =
      rw (first_section-told i s.pool ((Inv-IsEnding n s soft o h).told i lt))
        (ground (arith, sum_of-set_at steps_left n s.pc i exited lt), o)
  join-Step n soft {s} (ends_work i task lt at) o h =
      rw (second_section-told i s.pool ((Inv-IsEnding n s soft o h).told i lt))
        (ground (arith, sum_of-set_at steps_left n s.pc i exited lt), o)
  join-Step n soft (adds task o') o h = cc
  join-Step n soft (destroys_soft o') o h = cc
  join-Step n soft (destroys_drop o') o h = cc
  join-Step n soft (drained o' _) o h = cc
  join-Step n soft (posts soft' k o') o h = cc
  join-Step n soft (destroys_hard o') o h = cc
  join-Step n soft (cancels k o') o h = cc
  join-Step n soft (stops i k lt o' at) o h = cc

  run_lem :
      (n : ℕ) (soft : Bool) {s : System T} {k : ℕ} {t : System T}
      → Run n s k t
      → s.owner ≡ posting soft 0
      → Inv n s
      → (sum_of steps_left n t.pc + k ≤ sum_of steps_left n s.pc)
        × (t.owner ≡ posting soft 0)
        × Inv n t
  run_lem n soft none_yet o h = (omega arith, o, h)
  run_lem n soft (and_then r step) o h =
      let (shorter, o', h') = run_lem n soft r o h in
      let (less, o'') = join-Step n soft step o' h' in (omega arith, o'', Step-Inv step h')

  left_of : (at : Pc T) → 0 < steps_left at → at ≢ exited
  left_of waiting h e = cc
  left_of woken h e = cc
  left_of (working _) h e = cc
  left_of exited h e = absurd (omega arith)

  all_left : (n : ℕ) (pc : ℕ → Pc T) → sum_of steps_left n pc ≡ 0 → (i : ℕ) → i < n → pc i ≡ exited
  all_left n pc e i lt = exited_of (pc i) (omega (arith, sum_of-ge steps_left n pc i lt))
    where
      exited_of : (at : Pc T) → steps_left at ≡ 0 → at ≡ exited
      exited_of exited h = refl
      exited_of waiting h = absurd (omega arith)
      exited_of woken h = absurd (omega arith)
      exited_of (working _) h = absurd (omega arith)

  pub all_exited :
      (n : ℕ) (pc : ℕ → Pc T)
      → ((i : ℕ) → i < n → pc i ≡ exited) ⊎ ((i : ℕ) × (i < n) × (pc i ≢ exited))
  all_exited n pc = elim (Bool-cases (ltb 0 (sum_of steps_left n pc))) [
    | inl e ↦
        let (i, lt, left) = summand_pos steps_left n pc (ltb→lt _ _ e) in
        inr (i, lt, left_of (pc i) left)
    | inr e ↦ inl (all_left n pc (ground arith))
  ]

  -- Every thread has left, or some thread can go on.
  pub IsEnding-Goes :
      (n : ℕ) (s : System T)
      → IsEnding n 0 s.pool s.pc
      → ((i : ℕ) → i < n → s.pc i ≡ exited) ⊎ Goes n s
  IsEnding-Goes n s h = elim (all_exited n s.pc) [
    | inl all ↦ inl all
    | inr (i, lt, live) ↦ inr (
        Pc-Goes n i s (s.pc i) lt refl live
          (λ w. ground (arith, h.wakeable, sum_of-ge is_waiting n s.pc i lt)))
  ]

  -- Once the threads of a pool are told to end and the signals are given, every order of steps
  -- comes to its end after at most two for each thread, and a state in which no thread can go on
  -- is one in which every thread has left: the joins of `thread_pool_destroy` all return.
  joins_return :
      (n : ℕ) (p : Pool T) (soft : Bool) (s : System T) (k : ℕ) (t : System T)
      → IsNew p
      → Reach n p s
      → s.owner ≡ posting soft 0
      → Run n s k t
      → (k ≤ 2 * n) × (((i : ℕ) → i < n → t.pc i ≡ exited) ⊎ Goes n t)
  joins_return n p soft s k t new r o run =
      let (shorter, o', h') = run_lem n soft run o (Reach-Inv new r) in
      let bound = sum_of-le_bound steps_left 2 n s.pc (λ at. ground arith) in
      (omega arith, IsEnding-Goes n t (Inv-IsEnding n t soft o' h'))

  pub empty_of : (ts : List T) → length ts ≡ 0 → ts ≡ []
  empty_of [] h = refl
  empty_of (t ∷ ts) h = absurd (omega arith)

  -- Once the threads are told to end with THREAD_POOL_DESTROY_SOFT, every task that was added has
  -- been taken, each once and in order.
  pub soft-taken :
      (n k : ℕ) (p : Pool T) (s : System T)
      → IsNew p
      → Reach n p s
      → s.owner ≡ posting true k
      → s.taken ≡ s.added
  soft-taken n k p s new r o =
      let h = Reach-Inv new r in
      let none_left = empty_of s.pool.queue (h.queued ∙ (Inv-Phase n s (posting true k) o h).1) in
      sym (append-nil s.taken) ∙ ap (◌++◌ s.taken) (sym none_left) ∙ h.in_order
