-- ===== src/Pool/Safety.antt =====
-- What the pool does while it works: the tasks in order, and no signal lost.
use let_us_connect_http_serv.Base.{
  Bool-cases, arith, inl, inr, length, ltb, ltb→lt, refl, ℕ, ◌++◌, ◌-◌, ◌<◌, ◌≡◌, ◌≢◌,
}
use let_us_connect_http_serv.Pool.{Pc, Pool, exited, waiting, woken, working}
use let_us_connect_http_serv.Pool.Family.{sum_of, summand_pos}
use let_us_connect_http_serv.Pool.System.{
  Owner, Reach, Step, System, cancelling, draining, ends_work, looks_in, posting, serving, stops,
  wakes,
}
use let_us_connect_http_serv.Pool.Invariant.{IsNew, IsOpen, Phase, is_woken, is_working}
use let_us_connect_http_serv.Pool.Steps.{Reach-Inv}

-- The owner has not told the threads to end.
abbrev pub IsServing : Owner → Type 0
IsServing serving = Unit
IsServing draining = Unit
IsServing (posting _ _) = ⊥
IsServing (cancelling _) = ⊥

module _ {T : Type 0} where
  -- A step of a thread, not of the owner.
  abbrev pub IsOfThread : {n : ℕ} {s t : System T} → Step n s t → Type 0
  IsOfThread (wakes _ _ _ _ _) = Unit
  IsOfThread (looks_in _ _ _) = Unit
  IsOfThread (ends_work _ _ _ _) = Unit
  IsOfThread (stops _ _ _ _ _) = Unit
  IsOfThread _ = ⊥

  -- Some thread can go on.
  abbrev pub Goes : ℕ → System T → Type 0
  Goes n s = (t : System T) × (step : Step n s t) × IsOfThread step

  -- Whatever the threads did, the tasks that they took and those in the queue are, one behind the
  -- other, those that were added, in that order: none is lost, taken twice, or overtaken; and
  -- `available_work` is the number of those in the queue.
  pub tasks_in_order :
      (n : ℕ) (p : Pool T) (s : System T)
      → IsNew p
      → Reach n p s
      → (s.taken ++ s.pool.queue ≡ s.added) × (length s.pool.queue ≡ s.pool.available_work)
  tasks_in_order n p s new r = let h = Reach-Inv new r in (h.in_order, h.queued)

  -- A thread that does not wait and has not ended goes on; so does one that waits, with a signal.
  pub Pc-Goes :
      (n i : ℕ) (s : System T) (at : Pc T)
      → i < n
      → s.pc i ≡ at
      → at ≢ exited
      → (at ≡ waiting → 0 < s.pool.pool_sem)
      → Goes n s
  Pc-Goes n i s waiting lt e live signal =
      (_, wakes i (s.pool.pool_sem - 1) lt e (omega (arith, signal refl)), tt)
  Pc-Goes n i s woken lt e live signal = (_, looks_in i lt e, tt)
  Pc-Goes n i s (working task) lt e live signal = (_, ends_work i task lt e, tt)
  Pc-Goes n i s exited lt e live signal = absurd (live refl)

  woken_of : (at : Pc T) → 0 < is_woken at → at ≡ woken
  woken_of woken h = refl
  woken_of waiting h = absurd (omega arith)
  woken_of exited h = absurd (omega arith)
  woken_of (working _) h = absurd (omega arith)

  pub IsOpen-Goes :
      (n : ℕ) (s : System T) → 0 < n → 0 < s.pool.available_work → IsOpen n s.pool s.pc → Goes n s
  IsOpen-Goes n s some_thread work h = elim (Bool-cases (ltb 0 (sum_of is_woken n s.pc))) [
    | inl e ↦
        let (i, lt, awake) = summand_pos is_woken n s.pc (ltb→lt _ _ e) in
        Pc-Goes n i s woken lt (woken_of (s.pc i) awake) (λ x. cc) (λ x. cc)
    | inr e ↦
        Pc-Goes n 0 s (s.pc 0) some_thread refl (h.staying 0) (λ _. ground (arith, h.signalled))
  ]

  IsServing-IsOpen :
      (n : ℕ) (p : Pool T) (pc : ℕ → Pc T) (owner : Owner)
      → IsServing owner
      → Phase n owner p pc
      → IsOpen n p pc
  IsServing-IsOpen n p pc serving o h = h
  IsServing-IsOpen n p pc draining o h = h
  IsServing-IsOpen n p pc (posting _ _) o h = absurd o
  IsServing-IsOpen n p pc (cancelling _) o h = absurd o

  -- No signal is lost: before the end of the pool, while a task is queued, some thread can go on.
  pub queued-Goes :
      (n : ℕ) (p : Pool T) (s : System T)
      → IsNew p
      → 0 < n
      → Reach n p s
      → IsServing s.owner
      → 0 < s.pool.available_work
      → Goes n s
  queued-Goes n p s new some_thread r o work =
      IsOpen-Goes n s some_thread work
        (IsServing-IsOpen n s.pool s.pc s.owner o (Reach-Inv new r).phase)

  -- Before the end of the pool `busy_threads_num` is the number of threads at work.
  pub busy_counted :
      (n : ℕ) (p : Pool T) (s : System T)
      → IsNew p
      → Reach n p s
      → IsServing s.owner
      → s.pool.busy_threads_num ≡ sum_of is_working n s.pc
  busy_counted n p s new r o =
      (IsServing-IsOpen n s.pool s.pc s.owner o (Reach-Inv new r).phase).counted
