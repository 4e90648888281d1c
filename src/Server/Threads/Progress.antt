-- ===== src/Server/Threads/Progress.antt =====
-- That the threads go on while a task of the loop is not finished.
use let_us_connect_http_serv.Pool.System.{
  System, Owner, adds, cancels, destroys_drop, destroys_hard, destroys_soft, drained, ends_work,
  looks_in, posts, stops, wakes, serving, draining, posting, cancelling, Step as PoolStep,
}
use let_us_connect_http_serv.Pool.Safety.{IsOfThread, IsServing, queued-Goes}
use let_us_connect_http_serv.Base.{
  Bool-cases, List, Option, [], ap, arith, inl, inr, length, ltb, ltb→lt, none, refl, some, subst,
  ℕ, ◌<◌, ◌∷◌, ◌≡◌, ◌≢◌,
}
use let_us_connect_http_serv.Pool.{Pc, Pool, exited, waiting, woken, working}
use let_us_connect_http_serv.Pool.Family.{summand_pos}
use let_us_connect_http_serv.Pool.Invariant.{IsNew}
use let_us_connect_http_serv.Pool.Steps.{Reach-Inv}
use let_us_connect_http_serv.Server.{ClientTask}
use let_us_connect_http_serv.Server.Invariant.{AllFree}
use let_us_connect_http_serv.Server.Threads.{
  Reach, Running, Step, accepts, ends, finishes, inner, readies, takes, times_out,
}
use let_us_connect_http_serv.Server.Threads.Settled.{Settled}
use let_us_connect_http_serv.Server.Threads.Coupled.{copies, copies-split, copies_none, copies_self}
use let_us_connect_http_serv.Server.Threads.Runs.{Reach-AllSettled, Reach-Coupled, Reach-PoolReach}
use let_us_connect_http_serv.Server.Threads.Alone.{works_alone}
use let_us_connect_http_serv.Connections.{ClientConnection}
use let_us_connect_http_serv.Dictionary.{Dictionary}
use let_us_connect_http_serv.Worker.{Route, ended}
use let_us_connect_http_serv.Worker.Ends.{work-ended}

-- A step of a thread, not of the loop or the owner.
abbrev pub IsThreadStep :
    {n : ℕ} {routes : Option (Dictionary Route)} {s t : Running} → Step n routes s t → Type 0
IsThreadStep (accepts _ _ _) = ⊥
IsThreadStep (readies _ _ _) = ⊥
IsThreadStep (times_out _) = ⊥
IsThreadStep (inner _ step _) = IsOfThread step
IsThreadStep (takes _ _ _) = Unit
IsThreadStep (finishes _ _ _ _ _ _ _ _ _ _ _ _ _ _) = Unit
IsThreadStep (ends _ _ _ _ _) = Unit

abbrev pub ThreadGoes : ℕ → Option (Dictionary Route) → Running → Type 0
ThreadGoes n routes s = (t : Running) × (step : Step n routes s t) × IsThreadStep step

module _ (n : ℕ) (routes : Option (Dictionary Route)) (cs : List ClientConnection)
    (p : Pool ClientTask) (new : IsNew p) (unused : AllFree cs) (s : Running)
    (r : Reach n routes cs p s) where
  -- A thread that has a task works on it until the peer has closed, at the latest.
  finish-ThreadGoes :
      (i : ℕ) (task : ClientTask)
      → i < n
      → s.system.pc i ≡ working (some task)
      → s.at_work i ≡ task ∷ []
      → ThreadGoes n routes s
  finish-ThreadGoes i task lt at has =
      let ((before, after, split), owned, _, _) =
        works_alone n routes cs p s i task new unused r lt has in
      (
        _,
        finishes i before task after 0 ended owned.conn _ lt at has split owned.held
            (work-ended 0 routes task.client_fd owned.conn),
        tt,
      )

  working-ThreadGoes :
      (i : ℕ) (task : Option ClientTask)
      → i < n
      → s.system.pc i ≡ working task
      → Settled s.system.owner (working task) (s.at_work i)
      → ThreadGoes n routes s
  working-ThreadGoes i task lt at (inl none_left) = (_, ends i task lt at none_left, tt)
  working-ThreadGoes i none lt at (inr has) = (_, ends i none lt at has, tt)
  working-ThreadGoes i (some task) lt at (inr has) = finish-ThreadGoes i task lt at has

  at-ThreadGoes :
      (i : ℕ) (task : Option ClientTask)
      → i < n
      → s.system.pc i ≡ working task
      → ThreadGoes n routes s
  at-ThreadGoes i task lt at = working-ThreadGoes i task lt at (
      subst (λ (x : Pc ClientTask). Settled s.system.owner x (s.at_work i)) at
        (Reach-AllSettled n routes cs p r i))

  pool-ThreadGoes :
      (u : System ClientTask) (step : PoolStep n s.system u)
      → IsOfThread step
      → ThreadGoes n routes s
  pool-ThreadGoes u (wakes i k lt at signal) h = (_, inner _ (wakes i k lt at signal) tt, tt)
  pool-ThreadGoes u (stops i k lt o at) h = (_, inner _ (stops i k lt o at) tt, tt)
  pool-ThreadGoes u (looks_in i lt at) h = (_, takes i lt at, tt)
  pool-ThreadGoes u (ends_work i task lt at) h = at-ThreadGoes i task lt at
  pool-ThreadGoes u (adds _ _) h = absurd h
  pool-ThreadGoes u (destroys_soft _) h = absurd h
  pool-ThreadGoes u (destroys_drop _) h = absurd h
  pool-ThreadGoes u (drained _ _) h = absurd h
  pool-ThreadGoes u (posts _ _ _) h = absurd h
  pool-ThreadGoes u (destroys_hard _) h = absurd h
  pool-ThreadGoes u (cancels _ _) h = absurd h

  -- A thread that has a task is at work, before the end of the pool.
  has-ThreadGoes :
      (i : ℕ) (o : Owner) (at : Pc ClientTask)
      → i < n
      → IsServing o
      → s.system.pc i ≡ at
      → Settled o at (s.at_work i)
      → s.at_work i ≢ []
      → ThreadGoes n routes s
  has-ThreadGoes i o waiting lt serves e h some_task = absurd (some_task h)
  has-ThreadGoes i o woken lt serves e h some_task = absurd (some_task h)
  has-ThreadGoes i o (working task) lt serves e h some_task = at-ThreadGoes i task lt e
  has-ThreadGoes i serving exited lt serves e h some_task = absurd (some_task h)
  has-ThreadGoes i draining exited lt serves e h some_task = absurd (some_task h)
  has-ThreadGoes i (posting _ _) exited lt serves e h some_task = absurd serves
  has-ThreadGoes i (cancelling _) exited lt serves e h some_task = absurd serves

  -- While the loop runs, or waits for the tasks to be done, and a task that was handed over is not
  -- finished, some thread can go on; one that works on a task can, at least when `recv` tells that
  -- the peer has closed.
  pub unfinished-ThreadGoes :
      (task : ClientTask) (rest : List ClientTask)
      → 0 < n
      → IsServing s.system.owner
      → s.table.tasks ≡ task ∷ rest
      → ThreadGoes n routes s
  unfinished-ThreadGoes task rest some_thread serves e =
      let coupled = Reach-Coupled n routes cs p new r task in
      let pool_runs = Reach-PoolReach n routes cs p r in
      let one : 0 < copies task s.table.tasks =
        omega (arith, ap (copies task) e, copies-split task task [] rest, copies_self task) in
      elim (Bool-cases (ltb 0 (copies task s.system.pool.queue))) [
        | inl is_queued ↦
            let work : 0 < s.system.pool.available_work =
              has_work s.system.pool.queue (Reach-Inv new pool_runs).queued
                (ltb→lt _ _ is_queued) in
            let (u, step, of_thread) =
              queued-Goes n p s.system new some_thread pool_runs serves work in
            pool-ThreadGoes u step of_thread
        | inr not_queued ↦
            let (i, lt, has) =
              summand_pos (copies task) n s.at_work (ground (arith, one, coupled)) in
            has-ThreadGoes i s.system.owner (s.system.pc i) lt serves refl
              (Reach-AllSettled n routes cs p r i)
              (λ empty. omega (arith, has, ap (copies task) empty, copies_none task))
      ]
    where
      has_work :
          (queue : List ClientTask)
          → length queue ≡ s.system.pool.available_work
          → 0 < copies task queue
          → 0 < s.system.pool.available_work
      has_work [] l h = absurd (omega (arith, h, copies_none task))
      has_work (t ∷ ts) l h = omega arith
