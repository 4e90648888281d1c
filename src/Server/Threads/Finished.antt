-- ===== src/Server/Threads/Finished.antt =====
-- The end of the pool by THREAD_POOL_DESTROY_SOFT, with the table of the loop.
use let_us_connect_http_serv.Base.{
  List, Option, [], ap, arith, refl, subst, true, ℕ, ◌<◌, ◌∙◌, ◌∷◌, ◌≡◌,
}
use let_us_connect_http_serv.Pool.{Pc, Pool, exited}
use let_us_connect_http_serv.Pool.Family.{sum_of, sum_of-none}
use let_us_connect_http_serv.Pool.Invariant.{IsNew}
use let_us_connect_http_serv.Pool.Steps.{Inv-Phase, Reach-Inv}
use let_us_connect_http_serv.Pool.System.{Owner, posting}
use let_us_connect_http_serv.Server.{ClientTask}
use let_us_connect_http_serv.Server.Threads.{Reach, Running}
use let_us_connect_http_serv.Server.Threads.Settled.{Settled}
use let_us_connect_http_serv.Server.Threads.Coupled.{copies, copies-split, copies_none, copies_self}
use let_us_connect_http_serv.Server.Threads.Runs.{Reach-AllSettled, Reach-Coupled, Reach-PoolReach}
use let_us_connect_http_serv.Connections.{ClientConnection}
use let_us_connect_http_serv.Dictionary.{Dictionary}
use let_us_connect_http_serv.Worker.{Route}
use let_us_connect_http_serv.Pool.Shutdown.{empty_of}

module _ (n : ℕ) (routes : Option (Dictionary Route)) (cs : List ClientConnection)
    (p : Pool ClientTask) where
  no_tasks : (tasks : List ClientTask) → ((t : ClientTask) → copies t tasks ≡ 0) → tasks ≡ []
  no_tasks [] h = refl
  no_tasks (t ∷ tasks) h = absurd (omega (arith, h t, copies-split t t [] tasks, copies_self t))

  left_nothing :
      (w : List ClientTask) (o : Owner) (at : Pc ClientTask)
      → o ≡ posting true 0
      → at ≡ exited
      → Settled o at w
      → w ≡ []
  left_nothing w o at e gone h =
      subst (λ (x : Owner). Settled x exited w) e
        (subst (λ (x : Pc ClientTask). Settled o x w) gone h)

  -- When the pool was destroyed with THREAD_POOL_DESTROY_SOFT and every thread has left, no task is
  -- queued, and every task that the loop handed over has been worked on to its end.
  pub soft-finished :
      (s : Running)
      → IsNew p
      → Reach n routes cs p s
      → s.system.owner ≡ posting true 0
      → ((i : ℕ) → i < n → s.system.pc i ≡ exited)
      → (s.system.pool.queue ≡ []) × (s.table.tasks ≡ [])
  soft-finished s new r o left =
      let h = Reach-Inv new (Reach-PoolReach n routes cs p r) in
      let coupled = Reach-Coupled n routes cs p new r in
      let none_queued =
        empty_of s.system.pool.queue (h.queued ∙ (Inv-Phase n s.system (posting true 0) o h).1) in
      let idle : (t : ClientTask) → sum_of (copies t) n s.at_work ≡ 0 = λ t.
        sum_of-none (copies t) n s.at_work (λ i lt.
          ap (copies t) (
            left_nothing (s.at_work i) s.system.owner (s.system.pc i) o (left i lt)
              (Reach-AllSettled n routes cs p r i))
          ∙ copies_none t) in
      (
        none_queued,
        no_tasks s.table.tasks
            (λ t. omega (arith, coupled t, idle t, ap (copies t) none_queued, copies_none t)),
      )
