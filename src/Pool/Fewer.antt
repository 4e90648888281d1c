-- ===== src/Pool/Fewer.antt =====
-- A measure of what the owner and the threads have left to do once the pool is being destroyed.
use let_us_connect_http_serv.Base.{
  List, [], arith, refl, subst, suc, zero, ℕ, ◌*◌, ◌+◌, ◌<◌, ◌∷◌, ◌≡◌, ◌≤◌,
}
use let_us_connect_http_serv.Pool.{
  Pc, Pool, ThreadState, busy, exited, first_section, free, in_first, in_second, looks,
  second_section, takes, terminated, waiting, woken, working,
}
use let_us_connect_http_serv.Pool.Family.{set_at, sum_of, sum_of-set_at}
use let_us_connect_http_serv.Pool.System.{
  IsStoppable, Owner, Step, System, adds, cancelling, cancels, destroys_drop, destroys_hard,
  destroys_soft, drained, draining, ends_work, looks_in, posting, posts, serving, stops, wakes,
}
use let_us_connect_http_serv.Pool.Steps.{terminate_all_fields}
use let_us_connect_http_serv.Pool.Shutdown.{Run, and_then, none_yet}

-- `thread_pool_destroy` has been called.
abbrev pub IsDestroying : Owner → Type 0
IsDestroying serving = ⊥
IsDestroying _ = Unit

-- What the owner has left to do, where a signal is worth three steps of a thread.
abbrev pub owner_left : ℕ → Owner → ℕ
owner_left n serving = 0
owner_left n draining = 4 * n + 1
owner_left n (posting _ k) = 4 * k
owner_left n (cancelling k) = k

module _ {T : Type 0} where
  -- What a thread that is cancelled can still do, where a wake-up takes a signal.
  abbrev pub steps_to_stop : Pc T → ℕ
  steps_to_stop waiting = 1
  steps_to_stop woken = 3
  steps_to_stop (working _) = 2
  steps_to_stop exited = 0

  -- A section gives no signal, and leaves the thread with fewer steps.
  takes-less :
      (i : ℕ) (p : Pool T) (k : ℕ) (queue : List T)
      → (((takes i p k queue).0.pool_sem ≡ p.pool_sem) × (steps_to_stop (takes i p k queue).1 ≤ 2))
  unfolding takes
  takes-less i p k [] = (refl, omega arith)
  takes-less i p k (task ∷ queue) = (refl, omega arith)

  looks-less :
      (i : ℕ) (p : Pool T) (k : ℕ)
      → ((looks i p k).0.pool_sem ≡ p.pool_sem) × (steps_to_stop (looks i p k).1 ≤ 2)
  unfolding looks
  looks-less i p zero = (refl, omega arith)
  looks-less i p (suc left) = takes-less i p left p.queue

  in_first-less :
      (i : ℕ) (p : Pool T) (st : ThreadState)
      → ((in_first i p st).0.pool_sem ≡ p.pool_sem) × (steps_to_stop (in_first i p st).1 ≤ 2)
  unfolding in_first
  in_first-less i p terminated = (refl, omega arith)
  in_first-less i p free = looks-less i p p.available_work
  in_first-less i p busy = looks-less i p p.available_work

  first_section-less :
      (i : ℕ) (p : Pool T)
      → ((first_section i p).0.pool_sem ≡ p.pool_sem) × (steps_to_stop (first_section i p).1 ≤ 2)
  unfolding first_section
  first_section-less i p = in_first-less i p (p.threads_states i)

  in_second-less :
      (i : ℕ) (p : Pool T) (st : ThreadState)
      → ((in_second i p st).0.pool_sem ≡ p.pool_sem) × (steps_to_stop (in_second i p st).1 ≤ 1)
  unfolding in_second
  in_second-less i p terminated = (refl, omega arith)
  in_second-less i p free = (refl, omega arith)
  in_second-less i p busy = (refl, omega arith)

  second_section-less :
      (i : ℕ) (p : Pool T)
      → ((second_section i p).0.pool_sem ≡ p.pool_sem) × (steps_to_stop (second_section i p).1 ≤ 1)
  unfolding second_section
  second_section-less i p = in_second-less i p (p.threads_states i)

  -- What all have left.
  abbrev pub left_of_all : ℕ → System T → Owner → ℕ
  left_of_all n s owner = 3 * s.pool.pool_sem + sum_of steps_to_stop n s.pc + owner_left n owner

  -- A step of a thread that leaves the owner where it is.
  section-less :
      (n i m : ℕ) (s : System T) (p : Pool T) (at : Pc T)
      → i < n
      → steps_to_stop (s.pc i) ≡ suc m
      → steps_to_stop at ≤ m
      → p.pool_sem ≡ s.pool.pool_sem
      → 3 * p.pool_sem + sum_of steps_to_stop n (set_at s.pc i at) + 1
        ≤ 3 * s.pool.pool_sem + sum_of steps_to_stop n s.pc
  section-less n i m s p at lt was less sem =
      omega (arith, sum_of-set_at steps_to_stop n s.pc i at lt)

  stopped-less :
      (n i : ℕ) (s : System T) (at : Pc T)
      → i < n
      → s.pc i ≡ at
      → IsStoppable at
      → sum_of steps_to_stop n (set_at s.pc i exited) + 1 ≤ sum_of steps_to_stop n s.pc
  stopped-less n i s waiting lt e h = ground (arith, sum_of-set_at steps_to_stop n s.pc i exited lt)
  stopped-less n i s (working _) lt e h =
      ground (arith, sum_of-set_at steps_to_stop n s.pc i exited lt)
  stopped-less n i s woken lt e h = absurd h
  stopped-less n i s exited lt e h = absurd h

  -- Once the pool is being destroyed, every step leaves less to do.
  pub Step-less :
      (n : ℕ) {s t : System T}
      → Step n s t
      → IsDestroying s.owner
      → (left_of_all n t t.owner + 1 ≤ left_of_all n s s.owner) × IsDestroying t.owner
  Step-less n {s} (wakes i k lt at e) d =
      (ground (arith, sum_of-set_at steps_to_stop n s.pc i woken lt), d)
  Step-less n {s} (looks_in i lt at) d =
      let (sem, less) = first_section-less i s.pool in
      let (p, next) = first_section i s.pool in
      let was : steps_to_stop (s.pc i) ≡ 3 = rw at refl in
      (omega (arith, section-less n i 2 s p next lt was less sem), d)
  Step-less n {s} (ends_work i task lt at) d =
      let (sem, less) = second_section-less i s.pool in
      let (p, next) = second_section i s.pool in
      let was : steps_to_stop (s.pc i) ≡ 2 = rw at refl in
      (omega (arith, section-less n i 1 s p next lt was less sem), d)
  Step-less n (adds task o) d = absurd (subst IsDestroying o d)
  Step-less n (destroys_soft o) d = absurd (subst IsDestroying o d)
  Step-less n (destroys_drop o) d = absurd (subst IsDestroying o d)
  Step-less n (destroys_hard o) d = absurd (subst IsDestroying o d)
  Step-less n {s} (drained o none_left) d =
      let (_, _, sem) = terminate_all_fields n s.pool in
      let was : owner_left n s.owner ≡ 4 * n + 1 = rw o refl in (omega (arith, sem, was), tt)
  Step-less n {s} (posts soft k o) d =
      let was : owner_left n s.owner ≡ 4 * suc k = rw o refl in (omega (arith, was), tt)
  Step-less n {s} (cancels k o) d =
      let was : owner_left n s.owner ≡ suc k = rw o refl in (omega (arith, was), tt)
  Step-less n {s} (stops i k lt o at) d =
      (omega (arith, stopped-less n i s (s.pc i) (omega arith) refl at), d)

  pub Run-less :
      (n : ℕ) {s : System T} {k : ℕ} {t : System T}
      → Run n s k t
      → IsDestroying s.owner
      → (left_of_all n t t.owner + k ≤ left_of_all n s s.owner) × IsDestroying t.owner
  Run-less n none_yet d = (omega arith, d)
  Run-less n (and_then r step) d =
      let (shorter, d') = Run-less n r d in
      let (less, d'') = Step-less n step d' in (omega arith, d'')
