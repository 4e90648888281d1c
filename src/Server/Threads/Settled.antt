-- ===== src/Server/Threads/Settled.antt =====
-- Where a thread stands against the task that it has.
use let_us_connect_http_serv.Pool.System.{
  Owner, System, adds, cancelling, cancels, destroys_drop, destroys_hard, destroys_soft, drained,
  draining, ends_work, looks_in, posting, posts, serving, stops, task_of, wakes, Step as PoolStep,
}
use let_us_connect_http_serv.Pool.{
  Pc, exited, first_section, second_section, waiting, woken, working,
}
use let_us_connect_http_serv.Pool.Family.{set_at}
use let_us_connect_http_serv.Server.{ClientTask, Server}
use let_us_connect_http_serv.Server.Threads.{
  Hands, IsInner, Running, Step, accepts, ends, finishes, hands, hands_none, inner, readies, takes,
  times_out,
}
use let_us_connect_http_serv.Dictionary.{Dictionary}
use let_us_connect_http_serv.Worker.{Route}
use let_us_connect_http_serv.Base.{
  Bool-cases, List, Option, [], ap, arith, false, inl, inr, refl, subst, suc, sym, true, ℕ, ◌==◌,
  ◌≡◌, ◌⊎◌,
}

-- What a thread that has ended may have left undone.
abbrev MayLeave : Owner → List ClientTask → Type 0
MayLeave (cancelling _) w = Unit
MayLeave serving w = w ≡ []
MayLeave draining w = w ≡ []
MayLeave (posting _ _) w = w ≡ []

abbrev pub Settled : Owner → Pc ClientTask → List ClientTask → Type 0
Settled o waiting w = w ≡ []
Settled o woken w = w ≡ []
Settled o (working task) w = (w ≡ []) ⊎ (w ≡ task_of (working task))
Settled o exited w = MayLeave o w

abbrev pub AllSettled : Running → Type 0
AllSettled s = (i : ℕ) → Settled s.system.owner (s.system.pc i) (s.at_work i)

MayLeave-nil : (o : Owner) (w : List ClientTask) → w ≡ [] → MayLeave o w
MayLeave-nil serving w e = e
MayLeave-nil draining w e = e
MayLeave-nil (posting _ _) w e = e
MayLeave-nil (cancelling _) w e = tt

Settled-nil : (o : Owner) (at : Pc ClientTask) (w : List ClientTask) → w ≡ [] → Settled o at w
Settled-nil o waiting w e = e
Settled-nil o woken w e = e
Settled-nil o (working _) w e = inl e
Settled-nil o exited w e = MayLeave-nil o w e

Settled-task_of : (o : Owner) (at : Pc ClientTask) → Settled o at (task_of at)
Settled-task_of o waiting = refl
Settled-task_of o woken = refl
Settled-task_of o (working _) = inr refl
Settled-task_of o exited = MayLeave-nil o [] refl

-- The owner goes on, and does not come back from cancelling.
Settled-owner :
    (o o' : Owner) (at : Pc ClientTask) (w : List ClientTask)
    → (MayLeave o w → MayLeave o' w)
    → Settled o at w
    → Settled o' at w
Settled-owner o o' waiting w f h = h
Settled-owner o o' woken w f h = h
Settled-owner o o' (working _) w f h = h
Settled-owner o o' exited w f h = f h

MayLeave-at : (o o' : Owner) (w : List ClientTask) → o ≡ o' → MayLeave o w → MayLeave o' w
MayLeave-at o o' w e h = subst (λ (x : Owner). MayLeave x w) e h

-- One thread changes.
Settled-moved :
    (o : Owner) (pc : ℕ → Pc ClientTask) (w : ℕ → List ClientTask) (j : ℕ) (at : Pc ClientTask)
    (v : List ClientTask)
    → ((i : ℕ) → Settled o (pc i) (w i))
    → Settled o at v
    → (i : ℕ) → Settled o (set_at pc j at i) (set_at w j v i)
Settled-moved o pc w j at v h new i = elim (Bool-cases (i == j)) [
  | inl e ↦ rw e new
  | inr e ↦ rw e (h i)
]

at_same : (w : ℕ → List ClientTask) (j i : ℕ) → set_at w j (w j) i ≡ w i
at_same w j i = elim (Bool-cases (i == j)) [
  | inl e ↦ let same : j ≡ i = ground arith in rw e (ap w same)
  | inr e ↦ rw e refl
]

Settled-turned :
    (o : Owner) (pc : ℕ → Pc ClientTask) (w : ℕ → List ClientTask) (j : ℕ) (at : Pc ClientTask)
    → ((i : ℕ) → Settled o (pc i) (w i))
    → Settled o at (w j)
    → (i : ℕ) → Settled o (set_at pc j at i) (w i)
Settled-turned o pc w j at h new i =
    subst (Settled o (set_at pc j at i)) (at_same w j i) (Settled-moved o pc w j at (w j) h new i)

inner-Settled :
    (n : ℕ) (s u : System ClientTask) (w : ℕ → List ClientTask) (step : PoolStep n s u)
    → IsInner step
    → ((i : ℕ) → Settled s.owner (s.pc i) (w i))
    → (i : ℕ) → Settled u.owner (u.pc i) (w i)
inner-Settled n s _ w (wakes j k lt e signal) _ h =
    Settled-turned s.owner s.pc w j woken h
      (subst (λ (x : Pc ClientTask). Settled s.owner x (w j)) e (h j))
inner-Settled n s _ w (looks_in _ _ _) e h = absurd e
inner-Settled n s _ w (ends_work _ _ _ _) e h = absurd e
inner-Settled n s _ w (adds _ _) e h = absurd e
inner-Settled n s _ w (destroys_soft o) _ h =
    λ i. Settled-owner s.owner draining (s.pc i) (w i) (MayLeave-at s.owner serving (w i) o) (h i)
inner-Settled n s _ w (destroys_drop o) _ h = λ i.
    Settled-owner s.owner (posting false n) (s.pc i) (w i) (MayLeave-at s.owner serving (w i) o)
      (h i)
inner-Settled n s _ w (drained o _) _ h = λ i.
    Settled-owner s.owner (posting true n) (s.pc i) (w i) (MayLeave-at s.owner draining (w i) o)
      (h i)
inner-Settled n s _ w (posts soft k o) _ h = λ i.
    Settled-owner s.owner (posting soft k) (s.pc i) (w i)
      (MayLeave-at s.owner (posting soft (suc k)) (w i) o) (h i)
inner-Settled n s _ w (destroys_hard o) _ h =
    λ i. Settled-owner s.owner (cancelling n) (s.pc i) (w i) (λ _. tt) (h i)
inner-Settled n s _ w (cancels k o) _ h =
    λ i. Settled-owner s.owner (cancelling k) (s.pc i) (w i) (λ _. tt) (h i)
inner-Settled n s _ w (stops j k lt o at) _ h =
    Settled-turned s.owner s.pc w j exited h (subst (λ (x : Owner). MayLeave x (w j)) (sym o) tt)

Hands-AllSettled : {s t : Running} (next : Server) → Hands s next t → AllSettled s → AllSettled t
Hands-AllSettled next (hands task o e) h = h
Hands-AllSettled next (hands_none e) h = h

pub Step-AllSettled :
    (n : ℕ) (routes : Option (Dictionary Route)) {s t : Running}
    → Step n routes s t
    → AllSettled s
    → AllSettled t
Step-AllSettled n routes (accepts now fd given) h = Hands-AllSettled _ given h
Step-AllSettled n routes (readies is_set i given) h = Hands-AllSettled _ given h
Step-AllSettled n routes {s} (times_out now) h = h
Step-AllSettled n routes {s} (inner u step e) h = inner-Settled n s.system u s.at_work step e h
Step-AllSettled n routes {s} (takes i lt e) h =
    let at = (first_section i s.system.pool).1 in
    Settled-moved s.system.owner s.system.pc s.at_work i at (task_of at) h
      (Settled-task_of s.system.owner at)
Step-AllSettled n routes {s} (finishes i before task after now r c w lt e at split held worked) h =
    λ j. elim (Bool-cases (j == i)) [
      | inl same ↦ rw same (Settled-nil s.system.owner (s.system.pc j) [] refl)
      | inr other ↦ rw other (h j)
    ]
Step-AllSettled n routes {s} (ends i task lt e at) h =
    let now = (second_section i s.system.pool).1 in
    Settled-turned s.system.owner s.system.pc s.at_work i now h
      (Settled-nil s.system.owner now (s.at_work i) at)
