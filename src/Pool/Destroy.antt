-- ===== src/Pool/Destroy.antt =====
-- The end of the pool, from the call of `thread_pool_destroy` to its joins, in each of its ways.
use let_us_connect_http_serv.Base.{
  Bool-cases, Option, arith, inl, inr, ltb, ltb→lt, refl, some, subst, suc, sym, zero, ℕ, ◌*◌, ◌+◌,
  ◌<◌, ◌≡◌, ◌≢◌, ◌≤◌, ◌⊎◌,
}
use let_us_connect_http_serv.Pool.{Pc, Pool, exited, waiting, woken, working}
use let_us_connect_http_serv.Pool.Family.{sum_of-le_bound}
use let_us_connect_http_serv.Pool.System.{
  IsStoppable, Owner, Reach, Step, System, adds, cancelling, cancels, destroys_drop, destroys_hard,
  destroys_soft, drained, draining, ends_work, looks_in, posting, posts, serving, stops,
  thread_pool_destroy, wakes,
}
use let_us_connect_http_serv.Pool.Invariant.{Inv, IsNew}
use let_us_connect_http_serv.Pool.Steps.{Inv-Phase, Reach-Inv, Step-Inv, terminate_all_fields}
use let_us_connect_http_serv.Pool.Safety.{Goes, IsOpen-Goes}
use let_us_connect_http_serv.Pool.Shutdown.{
  Inv-IsEnding, IsEnding-Goes, Run, all_exited, and_then, none_yet,
}
use let_us_connect_http_serv.Pool.Fewer.{IsDestroying, Run-less, owner_left, steps_to_stop}

-- The owner is at its joins.
abbrev pub IsJoining : Owner → Type 0
IsJoining (posting _ zero) = Unit
IsJoining (cancelling zero) = Unit
IsJoining _ = ⊥

module _ {T : Type 0} where
  -- A step that is not one of a thread's work: the owner's, and a thread's but for the end of its
  -- work and for its cancellation there.
  abbrev pub IsOfPool : {n : ℕ} {s t : System T} → Step n s t → Type 0
  IsOfPool (wakes _ _ _ _ _) = Unit
  IsOfPool (looks_in _ _ _) = Unit
  IsOfPool (drained _ _) = Unit
  IsOfPool (posts _ _ _) = Unit
  IsOfPool (cancels _ _) = Unit
  IsOfPool {n} {s} (stops i _ _ _ _) = s.pc i ≡ waiting
  IsOfPool _ = ⊥

  -- A thread is in its work, or the pool can go on.
  abbrev pub HasMore : ℕ → System T → Type 0
  HasMore n s =
      ((i : ℕ) × (i < n) × (task : Option T) × (s.pc i ≡ working task))
      ⊎ ((t : System T) × (step : Step n s t) × IsOfPool step)

  stops-HasMore :
      (n i k : ℕ) (s : System T) (at : Pc T)
      → i + k < n
      → s.owner ≡ cancelling k
      → s.pc i ≡ at
      → IsStoppable at
      → HasMore n s
  stops-HasMore n i k s waiting lt o e _ = inr (_, stops i k lt o (subst IsStoppable (sym e) tt), e)
  stops-HasMore n i k s (working task) lt o e _ = inl (i, omega arith, task, e)
  stops-HasMore n i k s woken lt o e h = absurd h
  stops-HasMore n i k s exited lt o e h = absurd h

  Goes-HasMore : (n : ℕ) (s : System T) → Goes n s → HasMore n s
  Goes-HasMore n s (_, wakes i k lt at sem, _) = inr (_, wakes i k lt at sem, tt)
  Goes-HasMore n s (_, looks_in i lt at, _) = inr (_, looks_in i lt at, tt)
  Goes-HasMore n s (_, ends_work i task lt at, _) = inl (i, lt, task, at)
  Goes-HasMore n s (_, adds _ _, of_thread) = absurd of_thread
  Goes-HasMore n s (_, destroys_soft _, of_thread) = absurd of_thread
  Goes-HasMore n s (_, destroys_drop _, of_thread) = absurd of_thread
  Goes-HasMore n s (_, drained _ _, of_thread) = absurd of_thread
  Goes-HasMore n s (_, posts _ _ _, of_thread) = absurd of_thread
  Goes-HasMore n s (_, destroys_hard _, of_thread) = absurd of_thread
  Goes-HasMore n s (_, cancels _ _, of_thread) = absurd of_thread
  Goes-HasMore n s (_, stops i k lt o stop, _) = stops-HasMore n i k s (s.pc i) lt o refl stop

  -- A cancelled thread that has not left is in its work or can go on.
  cancelled-HasMore :
      (n i : ℕ) (s : System T) (at : Pc T)
      → i < n
      → s.owner ≡ cancelling 0
      → s.pc i ≡ at
      → at ≢ exited
      → HasMore n s
  cancelled-HasMore n i s waiting lt o e live = stops-HasMore n i 0 s waiting (omega arith) o e tt
  cancelled-HasMore n i s (working task) lt o e live = inl (i, lt, task, e)
  cancelled-HasMore n i s woken lt o e live = inr (_, looks_in i lt e, tt)
  cancelled-HasMore n i s exited lt o e live = absurd (live refl)

  -- The owner joins and every thread has left, or there is more to do.
  abbrev Ended : ℕ → System T → Owner → Type 0
  Ended n s owner = (IsJoining owner × ((i : ℕ) → i < n → s.pc i ≡ exited)) ⊎ HasMore n s

  owner_ends :
      (n : ℕ) (s : System T) (owner : Owner)
      → 0 < n
      → s.owner ≡ owner
      → IsDestroying owner
      → Inv n s
      → Ended n s owner
  owner_ends n s draining some_thread o d h = elim (Bool-cases (ltb 0 s.pool.available_work)) [
    | inl e ↦
        inr (
          Goes-HasMore n s
            (IsOpen-Goes n s some_thread (ltb→lt _ _ e) (Inv-Phase n s draining o h)))
    | inr e ↦ inr (inr (_, drained o (ground arith), tt))
  ]
  owner_ends n s (posting soft zero) some_thread o d h =
      elim (IsEnding-Goes n s (Inv-IsEnding n s soft o h)) [
        | inl all ↦ inl (tt, all)
        | inr goes ↦ inr (Goes-HasMore n s goes)
      ]
  owner_ends n s (posting soft (suc k)) some_thread o d h = inr (inr (_, posts soft k o, tt))
  owner_ends n s (cancelling zero) some_thread o d h = elim (all_exited n s.pc) [
    | inl all ↦ inl (tt, all)
    | inr (i, lt, live) ↦ inr (cancelled-HasMore n i s (s.pc i) lt o refl live)
  ]
  owner_ends n s (cancelling (suc k)) some_thread o d h = inr (inr (_, cancels k o, tt))
  owner_ends n s serving some_thread o d h = absurd d

  Run-Inv : {n : ℕ} {s : System T} {k : ℕ} {t : System T} → Run n s k t → Inv n s → Inv n t
  Run-Inv none_yet h = h
  Run-Inv (and_then r step) h = Step-Inv step (Run-Inv r h)

  some_of : {a b : System T} → ◌≡◌ {A = ℕ × Option (System T)} (0, some a) (0, some b) → a ≡ b
  some_of e = cc

  -- From the call on.
  destroying_ends :
      (n : ℕ) (s : System T) (k : ℕ) (t : System T)
      → Inv n s
      → 0 < n
      → IsDestroying s.owner
      → owner_left n s.owner ≤ 4 * n + 1
      → Run n s k t
      → (k ≤ 3 * s.pool.pool_sem + 7 * n + 1) × Ended n t t.owner
  destroying_ends n s k t h some_thread d le run =
      let (shorter, d') = Run-less n run d in
      let bound = sum_of-le_bound steps_to_stop 3 n s.pc (λ at. ground arith) in
      (
        omega (arith, shorter, bound, le),
        owner_ends n t t.owner some_thread refl d' (Run-Inv run h),
      )

  -- What the call begins.
  record Begins (n : ℕ) (s t : System T) : Type 0 where
    step : Step n s t
    destroying : IsDestroying t.owner
    owner_bound : owner_left n t.owner ≤ 4 * n + 1
    same_sem : t.pool.pool_sem ≡ s.pool.pool_sem

  thread_pool_destroy-Begins :
      (n : ℕ) (s : System T) (option : ℕ) (t : System T)
      → s.owner ≡ serving
      → thread_pool_destroy n (some s) option ≡ (0, some t)
      → Begins n s t
  unfolding thread_pool_destroy
  thread_pool_destroy-Begins n s zero t o e = subst (Begins n s) (some_of e) (record {
    step = destroys_soft o;
    destroying = tt;
    owner_bound = omega arith;
    same_sem = refl;
  })
  thread_pool_destroy-Begins n s (suc zero) t o e = subst (Begins n s) (some_of e) (record {
    step = destroys_hard o;
    destroying = tt;
    owner_bound = omega arith;
    same_sem = refl;
  })
  thread_pool_destroy-Begins n s (suc (suc zero)) t o e = subst (Begins n s) (some_of e) (record {
    step = destroys_drop o;
    destroying = tt;
    owner_bound = omega arith;
    same_sem = (terminate_all_fields n s.pool).2;
  })
  thread_pool_destroy-Begins n s (suc (suc (suc _))) t o e = cc

  -- Whichever of its three options `thread_pool_destroy` is called with, on a pool of at least one
  -- thread, and with nothing assumed of the work: every order of the steps of the owner and the
  -- threads from then on has at most 3 steps for each signal there is, 7 for each thread, and one;
  -- and in each state of it the owner is at its joins and every thread has left, so that it
  -- returns, or a thread is in its work, or a step is possible that is not one of a thread's work
  -- (its end or its cancellation there).
  pub thread_pool_destroy-ends :
      (n : ℕ) (p : Pool T) (s : System T) (option : ℕ) (begun_at : System T) (k : ℕ) (t : System T)
      → IsNew p
      → 0 < n
      → Reach n p s
      → s.owner ≡ serving
      → thread_pool_destroy n (some s) option ≡ (0, some begun_at)
      → Run n begun_at k t
      → (k ≤ 3 * s.pool.pool_sem + 7 * n + 1)
        × ((IsJoining t.owner × ((i : ℕ) → i < n → t.pc i ≡ exited)) ⊎ HasMore n t)
  thread_pool_destroy-ends n p s option b k t new some_thread r o call run =
      let begins = thread_pool_destroy-Begins n s option b o call in
      rw (← begins.same_sem) (
        destroying_ends n b k t (Step-Inv begins.step (Reach-Inv new r)) some_thread
          begins.destroying begins.owner_bound run)
