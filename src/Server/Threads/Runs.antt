-- ===== src/Server/Threads/Runs.antt =====
-- What the loop and the threads do together, seen from the pool alone and from the table alone.
use let_us_connect_http_serv.Pool.System.{
  adds, ends_work, looks_in, Reach as PoolReach, start as pool_start, later as pool_later,
}
use let_us_connect_http_serv.Server.Exclusive.{
  Reach as TableReach, start as table_start, later as table_later, accepts as table_accepts,
  readies as table_readies, times_out as table_times_out, finishes as table_finishes,
}
use let_us_connect_http_serv.Base.{List, Option, refl, subst, sym, true, ℕ, ◌≡◌}
use let_us_connect_http_serv.Pool.{Pool}
use let_us_connect_http_serv.Pool.Invariant.{IsNew}
use let_us_connect_http_serv.Pool.Steps.{Reach-Inv}
use let_us_connect_http_serv.Server.{ClientTask, Server}
use let_us_connect_http_serv.Server.Threads.{
  Hands, Reach, Running, accepts, ends, finishes, hands, hands_none, inner, later, readies, start,
  takes, times_out,
}
use let_us_connect_http_serv.Server.Threads.Settled.{AllSettled, Step-AllSettled}
use let_us_connect_http_serv.Server.Threads.Coupled.{Coupled, Step-Coupled, at_start-Coupled}
use let_us_connect_http_serv.Connections.{ClientConnection}
use let_us_connect_http_serv.Dictionary.{Dictionary}
use let_us_connect_http_serv.Worker.{Route}

module _ (n : ℕ) (routes : Option (Dictionary Route)) (cs : List ClientConnection)
    (p : Pool ClientTask) where
  Hands-PoolReach :
      {s t : Running} (next : Server)
      → Hands s next t
      → PoolReach n p s.system
      → PoolReach n p t.system
  Hands-PoolReach next (hands task o e) h = pool_later h (adds task o)
  Hands-PoolReach next (hands_none e) h = h

  Hands-table : {s t : Running} (next : Server) → Hands s next t → t.table ≡ next
  Hands-table next (hands task o e) = refl
  Hands-table next (hands_none e) = refl

  -- The pool runs as it does alone.
  pub Reach-PoolReach : {s : Running} → Reach n routes cs p s → PoolReach n p s.system
  Reach-PoolReach start = pool_start
  Reach-PoolReach (later r (accepts now fd given)) = Hands-PoolReach _ given (Reach-PoolReach r)
  Reach-PoolReach (later r (readies is_set i given)) = Hands-PoolReach _ given (Reach-PoolReach r)
  Reach-PoolReach (later r (times_out now)) = Reach-PoolReach r
  Reach-PoolReach (later r (inner u step e)) = pool_later (Reach-PoolReach r) step
  Reach-PoolReach (later r (takes i lt e)) = pool_later (Reach-PoolReach r) (looks_in i lt e)
  Reach-PoolReach (later r (finishes _ _ _ _ _ _ _ _ _ _ _ _ _ _)) = Reach-PoolReach r
  Reach-PoolReach (later r (ends i task lt e at)) =
      pool_later (Reach-PoolReach r) (ends_work i task lt e)

  -- So does the table, with a thread's work on its slot as one step.
  pub Reach-TableReach : {s : Running} → Reach n routes cs p s → TableReach routes cs s.table
  Reach-TableReach start = table_start
  Reach-TableReach (later r (accepts now fd given)) =
      subst (TableReach routes cs) (sym (Hands-table _ given))
        (table_later (Reach-TableReach r) (table_accepts now true fd))
  Reach-TableReach (later r (readies is_set i given)) =
      subst (TableReach routes cs) (sym (Hands-table _ given))
        (table_later (Reach-TableReach r) (table_readies is_set true i))
  Reach-TableReach (later r (times_out now)) =
      table_later (Reach-TableReach r) (table_times_out now)
  Reach-TableReach (later r (inner u step e)) = Reach-TableReach r
  Reach-TableReach (later r (takes i lt e)) = Reach-TableReach r
  Reach-TableReach (later r (finishes i before task after now rd c w lt e at split held worked)) =
      table_later (Reach-TableReach r)
        (table_finishes before task after now rd c w split held worked)
  Reach-TableReach (later r (ends i task lt e at)) = Reach-TableReach r

  pub Reach-AllSettled : {s : Running} → Reach n routes cs p s → AllSettled s
  Reach-AllSettled start = λ i. refl
  Reach-AllSettled (later r step) = Step-AllSettled n routes step (Reach-AllSettled r)

  pub Reach-Coupled : {s : Running} → IsNew p → Reach n routes cs p s → Coupled n routes s
  Reach-Coupled new start = at_start-Coupled n routes cs p new.empty
  Reach-Coupled new (later r step) =
      Step-Coupled n routes (Reach-Inv new (Reach-PoolReach r)).queued (Reach-AllSettled r) step
        (Reach-Coupled new r)
