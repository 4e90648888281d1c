-- ===== src/Pool/Steps.antt =====
-- The invariant holds at the start and is kept by every step.
use let_us_connect_http_serv.Base.{
  Bool, Option, [], ap, append_assoc, arith, false, length, length-append, refl, subst, suc, sym,
  true, zero, ℕ, ◌++◌, ◌<◌, ◌∙◌, ◌∷◌, ◌≡◌,
}
use let_us_connect_http_serv.Pool.{
  Pc, Pool, exited, first_section, push_task, second_section, terminate_all, terminated, waiting,
  woken, working,
}
use let_us_connect_http_serv.Pool.Family.{set_at, sum_of-le_bound, sum_of-zero}
use let_us_connect_http_serv.Pool.System.{
  Owner, Reach, Step, System, adds, at_start, cancelling, cancels, destroys_drop, destroys_hard,
  destroys_soft, drained, draining, ends_work, later, looks_in, moved, posted, posting, posts,
  serving, start, stops, task_of, wakes,
}
use let_us_connect_http_serv.Pool.Invariant.{
  Inv, IsEnding, IsNew, IsOpen, Phase, is_waiting, is_working,
}
use let_us_connect_http_serv.Pool.Keeps.{
  exited-IsEnding, first_section-IsOpen, first_section-queue, first_section-told,
  second_section-IsOpen, second_section-queue, second_section-told, woken-IsEnding, woken-IsOpen,
}

module _ {T : Type 0} where
  pub terminate_all_fields :
      (n : ℕ) (p : Pool T)
      → ((terminate_all n p).queue ≡ p.queue)
        × ((terminate_all n p).available_work ≡ p.available_work)
        × ((terminate_all n p).pool_sem ≡ p.pool_sem)
  unfolding terminate_all
  terminate_all_fields zero p = (refl, refl, refl)
  terminate_all_fields (suc n) p = terminate_all_fields n p

  terminate_all-told :
      (n : ℕ) (p : Pool T) (i : ℕ) → i < n → (terminate_all n p).threads_states i ≡ terminated
  unfolding terminate_all
  terminate_all-told zero p i h = absurd (omega arith)
  terminate_all-told (suc n) p i h = ground (arith, terminate_all-told n p i)

  terminate_all-IsEnding :
      (n : ℕ) (p : Pool T) (pc : ℕ → Pc T) → IsEnding n n (terminate_all n p) pc
  terminate_all-IsEnding n p pc = record {
    told = terminate_all-told n p;
    wakeable = omega (arith, sum_of-le_bound is_waiting 1 n pc (λ at. ground arith));
  }

  -- The owner's phase under a thread's steps.
  woken-Phase :
      (owner : Owner) (n i k : ℕ) (p : Pool T) (pc : ℕ → Pc T)
      → i < n
      → pc i ≡ waiting
      → p.pool_sem ≡ suc k
      → Phase n owner p pc
      → Phase n owner (record p { pool_sem = k }) (set_at pc i woken)
  woken-Phase serving n i k p pc lt at e h = woken-IsOpen n i k p pc lt at e h
  woken-Phase draining n i k p pc lt at e h = woken-IsOpen n i k p pc lt at e h
  woken-Phase (posting true m) n i k p pc lt at e h = (woken-IsEnding n i k m p pc lt at e h.0, h.1)
  woken-Phase (posting false m) n i k p pc lt at e h = woken-IsEnding n i k m p pc lt at e h
  woken-Phase (cancelling m) n i k p pc lt at e h = tt

  first_section-Phase :
      (owner : Owner) (n i : ℕ) (p : Pool T) (pc : ℕ → Pc T)
      → i < n
      → pc i ≡ woken
      → Phase n owner p pc
      → Phase n owner (first_section i p).0 (set_at pc i (first_section i p).1)
  first_section-Phase serving n i p pc lt at h = first_section-IsOpen n i p pc lt at h
  first_section-Phase draining n i p pc lt at h = first_section-IsOpen n i p pc lt at h
  first_section-Phase (posting true m) n i p pc lt at h =
      rw (first_section-told i p (h.0.told i lt)) (exited-IsEnding n i m p pc lt h.0, h.1)
  first_section-Phase (posting false m) n i p pc lt at h =
      rw (first_section-told i p (h.told i lt)) (exited-IsEnding n i m p pc lt h)
  first_section-Phase (cancelling m) n i p pc lt at h = tt

  second_section-Phase :
      (owner : Owner) (n i : ℕ) (p : Pool T) (pc : ℕ → Pc T) (task : Option T)
      → i < n
      → pc i ≡ working task
      → Phase n owner p pc
      → Phase n owner (second_section i p).0 (set_at pc i (second_section i p).1)
  second_section-Phase serving n i p pc task lt at h = second_section-IsOpen n i p pc task lt at h
  second_section-Phase draining n i p pc task lt at h = second_section-IsOpen n i p pc task lt at h
  second_section-Phase (posting true m) n i p pc task lt at h =
      rw (second_section-told i p (h.0.told i lt)) (exited-IsEnding n i m p pc lt h.0, h.1)
  second_section-Phase (posting false m) n i p pc task lt at h =
      rw (second_section-told i p (h.told i lt)) (exited-IsEnding n i m p pc lt h)
  second_section-Phase (cancelling m) n i p pc task lt at h = tt

  posted-Phase :
      (soft : Bool) (n k : ℕ) (p : Pool T) (pc : ℕ → Pc T)
      → Phase n (posting soft (suc k)) p pc
      → Phase n (posting soft k) (posted p) pc
  posted-Phase true n k p pc (h, none_left) =
      (record { told = h.told; wakeable = omega (arith, h.wakeable) }, none_left)
  posted-Phase false n k p pc h = record { told = h.told; wakeable = omega (arith, h.wakeable) }

  push_task-IsOpen :
      (n : ℕ) (task : T) (p : Pool T) (pc : ℕ → Pc T)
      → IsOpen n p pc
      → IsOpen n (push_task task p) pc
  unfolding push_task
  push_task-IsOpen n task p pc h = record {
    alive = h.alive;
    signalled = omega (arith, h.signalled);
    counted = h.counted;
    staying = h.staying;
  }

  Inv-init : (n : ℕ) (p : Pool T) → IsNew p → Inv n (at_start p)
  Inv-init n p new = record {
    queued = rw new.empty (sym new.idle);
    in_order = new.empty;
    phase = record {
      alive = λ i e. ground (arith, new.all_free i);
      signalled = omega (arith, new.idle);
      counted = new.none_busy ∙ sym (sum_of-zero is_working n (λ _. waiting) (λ i. refl));
      staying = λ i e. cc;
    };
  }

  -- The phase of an owner that is known.
  pub Inv-Phase :
      (n : ℕ) (s : System T) (owner : Owner) → s.owner ≡ owner → Inv n s → Phase n owner s.pool s.pc
  Inv-Phase n s owner e h = subst (λ (x : Owner). Phase n x s.pool s.pc) e h.phase

  push_task-Inv :
      (n : ℕ) (task : T) (s : System T)
      → s.owner ≡ serving
      → Inv n s
      → Inv n (record s { pool = push_task task s.pool; added = s.added ++ task ∷ [] })
  push_task-Inv n task s o h = record {
    queued = unfold push_task in omega (arith, length-append s.pool.queue (task ∷ []), h.queued);
    in_order =
        unfold push_task in
        sym (append_assoc s.taken s.pool.queue (task ∷ [])) ∙ ap (λ ts. ts ++ task ∷ []) h.in_order;
    phase =
        subst (λ (x : Owner). Phase n x (push_task task s.pool) s.pc) (sym o)
          (push_task-IsOpen n task s.pool s.pc (Inv-Phase n s serving o h));
  }

  -- The owner tells all the threads to end.
  told-Inv :
      (n : ℕ) (s : System T) (soft : Bool)
      → Inv n s
      → Phase n (posting soft n) (terminate_all n s.pool) s.pc
      → Inv n (record s { pool = terminate_all n s.pool; owner = posting soft n })
  told-Inv n s soft h ending =
      let (queue, work, _) = terminate_all_fields n s.pool in
      record { queued = rw (queue, work) h.queued; in_order = rw queue h.in_order; phase = ending }

  -- A section of a thread that leaves the queue alone, and one that may take of it.
  section-Inv :
      (n i : ℕ) (s : System T) (p : Pool T) (at : Pc T)
      → length p.queue ≡ p.available_work
      → task_of at ++ p.queue ≡ s.pool.queue
      → Phase n s.owner p (set_at s.pc i at)
      → Inv n s
      → Inv n (moved s i (p, at))
  section-Inv n i s p at queued taken phase h = record {
    queued = queued;
    in_order = append_assoc s.taken (task_of at) p.queue ∙ ap (◌++◌ s.taken) taken ∙ h.in_order;
    phase = phase;
  }

  pub Step-Inv : {n : ℕ} {s t : System T} → Step n s t → Inv n s → Inv n t
  Step-Inv {n} {s} (wakes i k lt at e) h =
      section-Inv n i s (record s.pool { pool_sem = k }) woken h.queued refl
        (woken-Phase s.owner n i k s.pool s.pc lt at e h.phase) h
  Step-Inv {n} {s} (looks_in i lt at) h =
      let (queued, taken) = first_section-queue i s.pool h.queued in
      section-Inv n i s (first_section i s.pool).0 (first_section i s.pool).1 queued taken
        (first_section-Phase s.owner n i s.pool s.pc lt at h.phase) h
  Step-Inv {n} {s} (ends_work i task lt at) h =
      let (queue, work) = second_section-queue i s.pool in
      record {
        queued = rw (queue, work) h.queued;
        in_order = rw queue h.in_order;
        phase = second_section-Phase s.owner n i s.pool s.pc task lt at h.phase;
      }
  Step-Inv {n} {s} (adds task o) h = push_task-Inv n task s o h
  Step-Inv {n} {s} (destroys_soft o) h = record {
    queued = h.queued;
    in_order = h.in_order;
    phase = Inv-Phase n s serving o h;
  }
  Step-Inv {n} {s} (destroys_drop o) h = told-Inv n s false h (terminate_all-IsEnding n s.pool s.pc)
  Step-Inv {n} {s} (drained o none_left) h =
      told-Inv n s true h
        (terminate_all-IsEnding n s.pool s.pc, (terminate_all_fields n s.pool).1 ∙ none_left)
  Step-Inv {n} {s} (posts soft k o) h = record {
    queued = h.queued;
    in_order = h.in_order;
    phase = posted-Phase soft n k s.pool s.pc (Inv-Phase n s (posting soft (suc k)) o h);
  }
  Step-Inv {n} {s} (destroys_hard o) h = record {
    queued = h.queued;
    in_order = h.in_order;
    phase = tt;
  }
  Step-Inv {n} {s} (cancels k o) h = record { queued = h.queued; in_order = h.in_order; phase = tt }
  Step-Inv {n} {s} (stops i k lt o at) h = record {
    queued = h.queued;
    in_order = h.in_order;
    phase = subst (λ (x : Owner). Phase n x s.pool (set_at s.pc i exited)) (sym o) tt;
  }

  pub Reach-Inv : {n : ℕ} {p : Pool T} {s : System T} → IsNew p → Reach n p s → Inv n s
  Reach-Inv {n} {p} new start = Inv-init n p new
  Reach-Inv new (later r step) = Step-Inv step (Reach-Inv new r)
