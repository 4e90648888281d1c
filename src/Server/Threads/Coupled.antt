-- ===== src/Server/Threads/Coupled.antt =====
-- The tasks of the table against those that are queued or at work.
use let_us_connect_http_serv.Pool.System.{
  System, adds, cancels, destroys_drop, destroys_hard, destroys_soft, drained, ends_work, looks_in,
  posts, stops, task_of, wakes, Step as PoolStep,
}
use let_us_connect_http_serv.Base.{
  All, Bool, Bool-cases, List, Option, [], ap, arith, if◌then◌else◌, inl, inr, length, refl, subst,
  sym, true, ℕ, ◌&&◌, ◌++◌, ◌+◌, ◌<◌, ◌==◌, ◌∷◌, ◌≡◌, ◌≤◌,
}
use let_us_connect_http_serv.Pool.{Pc, Pool, first_section, push_task}
use let_us_connect_http_serv.Pool.Family.{sum_of, sum_of-set_at, sum_of-zero}
use let_us_connect_http_serv.Pool.Keeps.{first_section-queue, second_section-queue}
use let_us_connect_http_serv.Pool.Steps.{terminate_all_fields}
use let_us_connect_http_serv.Server.{ClientTask, Server, finish_task, time_out}
use let_us_connect_http_serv.Server.Threads.{
  Hands, IsInner, Running, Step, accepts, at_start, ends, finishes, hands, hands_none, inner,
  readies, takes, times_out,
}
use let_us_connect_http_serv.Server.Threads.Settled.{AllSettled, Settled}
use let_us_connect_http_serv.Connections.{ClientConnection}
use let_us_connect_http_serv.Dictionary.{Dictionary}
use let_us_connect_http_serv.Worker.{Route}

same_task : ClientTask → ClientTask → Bool
same_task t u = (t.slot == u.slot) && (t.client_fd == u.client_fd)

-- How often a task is in a list.
pub copies : ClientTask → List ClientTask → ℕ
unfolding same_task
copies t [] = 0
copies t (u ∷ us) = (if same_task t u then 1 else 0) + copies t us

copies-append :
    (t : ClientTask) (us vs : List ClientTask) → copies t (us ++ vs) ≡ copies t us + copies t vs
unfolding copies
copies-append t [] vs = omega arith
copies-append t (u ∷ us) vs = omega (arith, copies-append t us vs)

pub copies-split :
    (t u : ClientTask) (before after : List ClientTask)
    → copies t (before ++ u ∷ after) ≡ copies t (u ∷ []) + copies t (before ++ after)
unfolding copies
copies-split t u [] after = omega arith
copies-split t u (v ∷ before) after = omega (arith, copies-split t u before after)

same_task_eq : (t u : ClientTask) → same_task t u ≡ true → t ≡ u
unfolding same_task
same_task_eq t u e =
    let slots : t.slot ≡ u.slot = ground arith in
    let fds : t.client_fd ≡ u.client_fd = ground arith in
    λ i. record { client_fd = fds i; slot = slots i }

pub copies_self : (t : ClientTask) → copies t (t ∷ []) ≡ 1
unfolding copies same_task
copies_self t = ground arith

pub copies_none : (t : ClientTask) → copies t [] ≡ 0
unfolding copies
copies_none t = refl

-- What holds of all of a list holds of a task in it, and of all of a list with no more tasks.
pub All-copy :
    (P : ClientTask → Type 0) (t : ClientTask) (us : List ClientTask)
    → 0 < copies t us
    → All P us
    → P t
unfolding copies
All-copy P t [] h ps = absurd (omega arith)
All-copy P t (u ∷ us) h (q, ps) = elim (Bool-cases (same_task t u)) [
  | inl e ↦ subst P (sym (same_task_eq t u e)) q
  | inr e ↦ All-copy P t us (ground (arith, e)) ps
]

pub All-copies :
    (P : ClientTask → Type 0) (ts us : List ClientTask)
    → ((t : ClientTask) → copies t ts ≤ copies t us)
    → All P us
    → All P ts
unfolding copies
All-copies P [] us h ps = tt
All-copies P (t ∷ ts) us h ps = (
  All-copy P t us (omega (arith, h t, copies_self t)) ps,
  All-copies P ts us (λ u. omega (arith, h u)) ps,
)

-- A task that is in a list stands between others.
pub split_at :
    (t : ClientTask) (us : List ClientTask)
    → 0 < copies t us
    → (before : List ClientTask) × (after : List ClientTask) × (us ≡ before ++ t ∷ after)
unfolding copies
split_at t [] h = absurd (omega arith)
split_at t (u ∷ us) h = elim (Bool-cases (same_task t u)) [
  | inl e ↦ ([], us, ap (λ (v : ClientTask). v ∷ us) (sym (same_task_eq t u e)))
  | inr e ↦
      let (before, after, found) = split_at t us (ground (arith, e)) in
      (u ∷ before, after, ap (◌∷◌ u) found)
]

module _ (n : ℕ) (routes : Option (Dictionary Route)) where
  -- What is queued or at work are the tasks that the table has not got back.
  abbrev pub Coupled : Running → Type 0
  Coupled s =
      (t : ClientTask)
      → copies t s.system.pool.queue + sum_of (copies t) n s.at_work ≡ copies t s.table.tasks

  pub at_start-Coupled :
      (cs : List ClientConnection) (p : Pool ClientTask) → p.queue ≡ [] → Coupled (at_start cs p)
  unfolding copies
  at_start-Coupled cs p e t =
      omega (arith, ap (copies t) e, sum_of-zero (copies t) n (λ _. []) (λ i. copies_none t))

  Hands-Coupled : {s t : Running} (next : Server) → Hands s next t → Coupled s → Coupled t
  unfolding push_task copies
  Hands-Coupled {s} next (hands task _ e) h t =
      omega (arith, h t, ap (copies t) e, copies-append t s.system.pool.queue (task ∷ []))
  Hands-Coupled next (hands_none e) h t = omega (arith, h t, ap (copies t) e)

  -- A step of the pool alone leaves the queue as it is.
  inner-queue :
      (s u : System ClientTask) (step : PoolStep n s u) → IsInner step → u.pool.queue ≡ s.pool.queue
  inner-queue s _ (wakes _ _ _ _ _) _ = refl
  inner-queue s _ (looks_in _ _ _) e = absurd e
  inner-queue s _ (ends_work _ _ _ _) e = absurd e
  inner-queue s _ (adds _ _) e = absurd e
  inner-queue s _ (destroys_soft _) _ = refl
  inner-queue s _ (destroys_drop _) _ = (terminate_all_fields n s.pool).0
  inner-queue s _ (drained _ _) _ = (terminate_all_fields n s.pool).0
  inner-queue s _ (posts _ _ _) _ = refl
  inner-queue s _ (destroys_hard _) _ = refl
  inner-queue s _ (cancels _ _) _ = refl
  inner-queue s _ (stops _ _ _ _ _) _ = refl

  pub Step-Coupled :
      {s t : Running}
      → length s.system.pool.queue ≡ s.system.pool.available_work
      → AllSettled s
      → Step n routes s t
      → Coupled s
      → Coupled t
  Step-Coupled {s} counted settled (accepts now fd given) h = Hands-Coupled _ given h
  Step-Coupled {s} counted settled (readies is_set i given) h = Hands-Coupled _ given h
  Step-Coupled {s} counted settled (times_out now) h = unfold time_out in h
  Step-Coupled {s} counted settled (inner u step e) h =
      λ t. omega (arith, h t, ap (copies t) (inner-queue s.system u step e))
  Step-Coupled {s} counted settled (takes i lt e) h =
      let (left, at) = first_section i s.system.pool in
      let (_, taken) = first_section-queue i s.system.pool counted in
      let no_task : s.at_work i ≡ [] =
        subst (λ (x : Pc ClientTask). Settled s.system.owner x (s.at_work i)) e (settled i) in
      λ t. omega (
        arith,
        h t,
        sum_of-set_at (copies t) n s.at_work i (task_of at) lt,
        ap (copies t) taken,
        ap (copies t) no_task,
        copies_none t,
        copies-append t (task_of at) left.queue,
      )
  Step-Coupled {s} counted settled
        (finishes i before task after now r c w lt e at split held worked) h =
      λ t.
        unfold finish_task copies in
        omega (
          arith,
          h t,
          sum_of-set_at (copies t) n s.at_work i [] lt,
          ap (copies t) at,
          ap (copies t) split,
          copies-split t task before after,
        )
  Step-Coupled {s} counted settled (ends i task lt e at) h =
      λ t. omega (arith, h t, ap (copies t) (second_section-queue i s.system.pool).0)
