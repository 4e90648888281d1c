-- ===== src/Server/Threads/Alone.antt =====
-- The slots of the threads at work, in any order of the steps of the loop and of the threads.
use let_us_connect_http_serv.Base.{
  All, List, Option, [], ap, arith, ℕ, ◌++◌, ◌+◌, ◌<◌, ◌∙◌, ◌∷◌, ◌≡◌, ◌≢◌, ◌≤◌,
}
use let_us_connect_http_serv.Pool.{Pool}
use let_us_connect_http_serv.Pool.Family.{set_at, sum_of, sum_of-ge, sum_of-set_at}
use let_us_connect_http_serv.Pool.Invariant.{IsNew}
use let_us_connect_http_serv.Server.{ClientTask}
use let_us_connect_http_serv.Server.Invariant.{AllFree, Owned}
use let_us_connect_http_serv.Server.Exclusive.{one_worker}
use let_us_connect_http_serv.Server.Threads.{Reach, Running}
use let_us_connect_http_serv.Server.Threads.Coupled.{
  All-copies, All-copy, copies, copies-split, copies_none, copies_self, split_at,
}
use let_us_connect_http_serv.Server.Threads.Runs.{Reach-Coupled, Reach-TableReach}
use let_us_connect_http_serv.Connections.{ClientConnection}
use let_us_connect_http_serv.Dictionary.{Dictionary}
use let_us_connect_http_serv.Worker.{Route}

module _ (n : ℕ) (routes : Option (Dictionary Route)) (cs : List ClientConnection)
    (p : Pool ClientTask) where
  -- Two threads take two of the tasks.
  two_at_work :
      (w : List ClientTask → ℕ) (f : ℕ → List ClientTask) (i j : ℕ)
      → w [] ≡ 0
      → i < n
      → j < n
      → i ≢ j
      → w (f i) + w (f j) ≤ sum_of w n f
  two_at_work w f i j e lt_i lt_j other =
      let elsewhere : set_at f i [] j ≡ f j = ground (arith, other) in
      omega (
        arith,
        e,
        sum_of-set_at w n f i [] lt_i,
        sum_of-ge w n (set_at f i []) j lt_j,
        ap w elsewhere,
      )

  -- In every reachable state a task that a thread works on is one that the table has not got back,
  -- and its slot is active and busy, with the socket of the task in it; no other thread works on
  -- that slot, and no queued task is for it.
  pub works_alone :
      (s : Running) (i : ℕ) (task : ClientTask)
      → IsNew p
      → AllFree cs
      → Reach n routes cs p s
      → i < n
      → s.at_work i ≡ task ∷ []
      → ((before : List ClientTask) × (after : List ClientTask) × (s.table.tasks
            ≡ before ++ task ∷ after))
        × Owned s.table.conns task
        × All (λ (t : ClientTask). t.slot ≢ task.slot) s.system.pool.queue
        × ((j : ℕ) (other : ClientTask)
            → j < n
            → i ≢ j
            → s.at_work j ≡ other ∷ []
            → other.slot ≢ task.slot)
  works_alone s i task new unused r lt at =
      let coupled = Reach-Coupled n routes cs p new r in
      let mine : copies task (s.at_work i) ≡ 1 = ap (copies task) at ∙ copies_self task in
      let (before, after, split) =
        split_at task s.table.tasks
          (omega (arith, mine, coupled task, sum_of-ge (copies task) n s.at_work i lt)) in
      let (owned, others) =
        one_worker routes cs s.table before task after unused (Reach-TableReach n routes cs p r)
          split in
      (
        (before, after, split),
        owned,
        All-copies _ s.system.pool.queue (before ++ after)
            (λ t. omega (
              arith,
              coupled t,
              sum_of-ge (copies t) n s.at_work i lt,
              ap (copies t) at,
              ap (copies t) split,
              copies-split t task before after,
            ))
            others,
        λ j other lt_j ne at_j.
            All-copy _ other (before ++ after)
              (omega (
                arith,
                coupled other,
                two_at_work (copies other) s.at_work i j (copies_none other) lt lt_j ne,
                ap (copies other) at,
                ap (copies other) at_j,
                copies_self other,
                ap (copies other) split,
                copies-split other task before after,
              ))
              others,
      )
