-- ===== src/Pool/Keeps.antt =====
-- Each step keeps what holds of the pool.
use let_us_connect_http_serv.Base.{
  Bool-cases, List, Option, [], arith, inl, inr, length, none, refl, some, suc, sym, zero, ℕ, ◌++◌,
  ◌+◌, ◌-◌, ◌<◌, ◌==◌, ◌∙◌, ◌∷◌, ◌≡◌, ◌≢◌,
}
use let_us_connect_http_serv.Pool.{
  Pc, Pool, ThreadState, busy, exited, first_section, free, in_first, in_second, looks,
  second_section, set_state, takes, terminated, waiting, woken, working,
}
use let_us_connect_http_serv.Pool.Family.{set_at, sum_of, sum_of-set_at}
use let_us_connect_http_serv.Pool.System.{task_of}
use let_us_connect_http_serv.Pool.Invariant.{IsEnding, IsOpen, is_waiting, is_woken, is_working}

module _ {T : Type 0} where
  -- What a change of thread `i` does to the three counts.
  record Counts (n : ℕ) (pc : ℕ → Pc T) (i : ℕ) (at : Pc T) : Type 0 where
    waits :
        sum_of is_waiting n (set_at pc i at) + is_waiting (pc i)
        ≡ sum_of is_waiting n pc + is_waiting at
    wakes_up :
        sum_of is_woken n (set_at pc i at) + is_woken (pc i) ≡ sum_of is_woken n pc + is_woken at
    works :
        sum_of is_working n (set_at pc i at) + is_working (pc i)
        ≡ sum_of is_working n pc + is_working at

  counts : (n : ℕ) (pc : ℕ → Pc T) (i : ℕ) (at : Pc T) → i < n → Counts n pc i at
  counts n pc i at lt = record {
    waits = sum_of-set_at is_waiting n pc i at lt;
    wakes_up = sum_of-set_at is_woken n pc i at lt;
    works = sum_of-set_at is_working n pc i at lt;
  }

  staying-set_at :
      (pc : ℕ → Pc T) (i : ℕ) (at : Pc T)
      → ((j : ℕ) → pc j ≢ exited)
      → at ≢ exited
      → (j : ℕ) → set_at pc i at j ≢ exited
  staying-set_at pc i at h here j = elim (Bool-cases (j == i)) [
    | inl e ↦ rw e here
    | inr e ↦ rw e (h j)
  ]

  -- The first section on the queue and on what was taken.
  takes-queue :
      (i : ℕ) (p : Pool T) (left : ℕ) (queue : List T)
      → p.queue ≡ queue
      → length queue ≡ suc left
      → (length (takes i p left queue).0.queue ≡ (takes i p left queue).0.available_work)
        × (task_of (takes i p left queue).1 ++ (takes i p left queue).0.queue ≡ p.queue)
  unfolding takes
  takes-queue i p left [] e h = absurd (omega arith)
  takes-queue i p left (task ∷ queue) e h = (omega arith, sym e)

  looks-queue :
      (i : ℕ) (p : Pool T) (k : ℕ)
      → p.available_work ≡ k
      → length p.queue ≡ k
      → (length (looks i p k).0.queue ≡ (looks i p k).0.available_work)
        × (task_of (looks i p k).1 ++ (looks i p k).0.queue ≡ p.queue)
  unfolding looks
  looks-queue i p zero e h = (h ∙ sym e, refl)
  looks-queue i p (suc left) e h = takes-queue i p left p.queue refl h

  in_first-queue :
      (i : ℕ) (p : Pool T) (st : ThreadState)
      → length p.queue ≡ p.available_work
      → (length (in_first i p st).0.queue ≡ (in_first i p st).0.available_work)
        × (task_of (in_first i p st).1 ++ (in_first i p st).0.queue ≡ p.queue)
  unfolding in_first
  in_first-queue i p terminated h = (h, refl)
  in_first-queue i p free h = looks-queue i p p.available_work refl h
  in_first-queue i p busy h = looks-queue i p p.available_work refl h

  -- The first section while the pool is open.
  takes-IsOpen :
      (n i : ℕ) (p : Pool T) (pc : ℕ → Pc T) (left : ℕ) (queue : List T)
      → i < n
      → pc i ≡ woken
      → p.available_work ≡ suc left
      → IsOpen n p pc
      → IsOpen n (takes i p left queue).0 (set_at pc i (takes i p left queue).1)
  unfolding takes
  takes-IsOpen n i p pc left [] lt at e h =
      let c = counts n pc i (working none) lt in
      record {
        alive = λ j. ground (arith, h.alive j);
        signalled = ground arith;
        counted = ground arith;
        staying = staying-set_at pc i (working none) h.staying (λ x. cc);
      }
  takes-IsOpen n i p pc left (task ∷ queue) lt at e h =
      let c = counts n pc i (working (some task)) lt in
      record {
        alive = λ j. ground (arith, h.alive j);
        signalled = ground arith;
        counted = ground arith;
        staying = staying-set_at pc i (working (some task)) h.staying (λ x. cc);
      }

  looks-IsOpen :
      (n i : ℕ) (p : Pool T) (pc : ℕ → Pc T) (k : ℕ)
      → i < n
      → pc i ≡ woken
      → p.available_work ≡ k
      → IsOpen n p pc
      → IsOpen n (looks i p k).0 (set_at pc i (looks i p k).1)
  unfolding looks
  looks-IsOpen n i p pc zero lt at e h =
      let c = counts n pc i waiting lt in
      record {
        alive = h.alive;
        signalled = ground arith;
        counted = ground arith;
        staying = staying-set_at pc i waiting h.staying (λ x. cc);
      }
  looks-IsOpen n i p pc (suc left) lt at e h = takes-IsOpen n i p pc left p.queue lt at e h

  in_first-IsOpen :
      (n i : ℕ) (p : Pool T) (pc : ℕ → Pc T) (st : ThreadState)
      → i < n
      → pc i ≡ woken
      → p.threads_states i ≡ st
      → IsOpen n p pc
      → IsOpen n (in_first i p st).0 (set_at pc i (in_first i p st).1)
  unfolding in_first
  in_first-IsOpen n i p pc terminated lt at e h = absurd (h.alive i e)
  in_first-IsOpen n i p pc free lt at e h = looks-IsOpen n i p pc p.available_work lt at refl h
  in_first-IsOpen n i p pc busy lt at e h = looks-IsOpen n i p pc p.available_work lt at refl h

  -- And the second.
  released-IsOpen :
      (n i : ℕ) (p : Pool T) (pc : ℕ → Pc T) (task : Option T)
      → i < n
      → pc i ≡ working task
      → IsOpen n p pc
      → IsOpen n
          (record p {
            busy_threads_num = p.busy_threads_num - 1;
            threads_states = set_state p i free;
          })
          (set_at pc i waiting)
  released-IsOpen n i p pc task lt at h =
      let c = counts n pc i waiting lt in
      record {
        alive = λ j. ground (arith, h.alive j);
        signalled = ground arith;
        counted = ground arith;
        staying = staying-set_at pc i waiting h.staying (λ x. cc);
      }

  in_second-IsOpen :
      (n i : ℕ) (p : Pool T) (pc : ℕ → Pc T) (st : ThreadState) (task : Option T)
      → i < n
      → pc i ≡ working task
      → p.threads_states i ≡ st
      → IsOpen n p pc
      → IsOpen n (in_second i p st).0 (set_at pc i (in_second i p st).1)
  unfolding in_second
  in_second-IsOpen n i p pc terminated task lt at e h = absurd (h.alive i e)
  in_second-IsOpen n i p pc free task lt at e h = released-IsOpen n i p pc task lt at h
  in_second-IsOpen n i p pc busy task lt at e h = released-IsOpen n i p pc task lt at h

  in_second-queue :
      (i : ℕ) (p : Pool T) (st : ThreadState)
      → ((in_second i p st).0.queue ≡ p.queue)
        × ((in_second i p st).0.available_work ≡ p.available_work)
  unfolding in_second
  in_second-queue i p terminated = (refl, refl)
  in_second-queue i p free = (refl, refl)
  in_second-queue i p busy = (refl, refl)

  -- A wake-up, before the end and after.
  pub woken-IsOpen :
      (n i k : ℕ) (p : Pool T) (pc : ℕ → Pc T)
      → i < n
      → pc i ≡ waiting
      → p.pool_sem ≡ suc k
      → IsOpen n p pc
      → IsOpen n (record p { pool_sem = k }) (set_at pc i woken)
  woken-IsOpen n i k p pc lt at e h =
      let c = counts n pc i woken lt in
      record {
        alive = h.alive;
        signalled = ground arith;
        counted = ground arith;
        staying = staying-set_at pc i woken h.staying (λ x. cc);
      }

  pub woken-IsEnding :
      (n i k m : ℕ) (p : Pool T) (pc : ℕ → Pc T)
      → i < n
      → pc i ≡ waiting
      → p.pool_sem ≡ suc k
      → IsEnding n m p pc
      → IsEnding n m (record p { pool_sem = k }) (set_at pc i woken)
  woken-IsEnding n i k m p pc lt at e h =
      let c = counts n pc i woken lt in record { told = h.told; wakeable = ground arith }

  -- A thread that is told to end leaves at its next section, and changes nothing.
  pub exited-IsEnding :
      (n i m : ℕ) (p : Pool T) (pc : ℕ → Pc T)
      → i < n
      → IsEnding n m p pc
      → IsEnding n m p (set_at pc i exited)
  exited-IsEnding n i m p pc lt h =
      let c = counts n pc i exited lt in record { told = h.told; wakeable = ground arith }

  pub first_section-told :
      (i : ℕ) (p : Pool T) → p.threads_states i ≡ terminated → first_section i p ≡ (p, exited)
  unfolding first_section in_first
  first_section-told i p e = rw e refl

  pub second_section-told :
      (i : ℕ) (p : Pool T) → p.threads_states i ≡ terminated → second_section i p ≡ (p, exited)
  unfolding second_section in_second
  second_section-told i p e = rw e refl

  -- The two sections as they are called.
  pub first_section-IsOpen :
      (n i : ℕ) (p : Pool T) (pc : ℕ → Pc T)
      → i < n
      → pc i ≡ woken
      → IsOpen n p pc
      → IsOpen n (first_section i p).0 (set_at pc i (first_section i p).1)
  unfolding first_section
  first_section-IsOpen n i p pc lt at h = in_first-IsOpen n i p pc (p.threads_states i) lt at refl h

  pub second_section-IsOpen :
      (n i : ℕ) (p : Pool T) (pc : ℕ → Pc T) (task : Option T)
      → i < n
      → pc i ≡ working task
      → IsOpen n p pc
      → IsOpen n (second_section i p).0 (set_at pc i (second_section i p).1)
  unfolding second_section
  second_section-IsOpen n i p pc task lt at h =
      in_second-IsOpen n i p pc (p.threads_states i) task lt at refl h

  pub first_section-queue :
      (i : ℕ) (p : Pool T)
      → length p.queue ≡ p.available_work
      → (length (first_section i p).0.queue ≡ (first_section i p).0.available_work)
        × (task_of (first_section i p).1 ++ (first_section i p).0.queue ≡ p.queue)
  unfolding first_section
  first_section-queue i p h = in_first-queue i p (p.threads_states i) h

  pub second_section-queue :
      (i : ℕ) (p : Pool T)
      → ((second_section i p).0.queue ≡ p.queue)
        × ((second_section i p).0.available_work ≡ p.available_work)
  unfolding second_section
  second_section-queue i p = in_second-queue i p (p.threads_states i)
