-- ===== src/Pool/Handshake/Ready.antt =====
-- The start of the threads from a semaphore that is new.
use let_us_connect_http_serv.Base.{
  Bool-cases, Option, ap, arith, inl, inr, ltb, ltb→lt, refl, some, subst, suc, sym, ℕ, ◌*◌, ◌+◌,
  ◌<◌, ◌∙◌, ◌≡◌, ◌≤◌, ◌⊎◌,
}
use let_us_connect_http_serv.Pool.Handshake.{
  Child, Creator, Reach, Starting, Step, absent, awaits, born, created, creates, creating, frees,
  goes_on, holds, posts, reads, ready,
}
use let_us_connect_http_serv.Pool.Handshake.Phases.{Others, Phase, Reach-Phase, Turn}

-- What a thread has of its start: the state it reads, or has read, is its own, and `args` is there
-- while it still reads.
abbrev pub HasOwn : Option ℕ → ℕ → Child → Type 0
HasOwn args i absent = Unit
HasOwn args i born = args ≡ some i
HasOwn args i (holds j) = (args ≡ some i) × (j ≡ i)
HasOwn args i (ready j) = j ≡ i

own_below : (args : Option ℕ) (i : ℕ) (at : Child) → at ≡ ready i → HasOwn args i at
own_below args i at e = subst (HasOwn args i) (sym e) refl

own_above : (args : Option ℕ) (i : ℕ) (at : Child) → at ≡ absent → HasOwn args i at
own_above args i at e = subst (HasOwn args i) (sym e) tt

own_turn :
    (k i sem : ℕ) (args : Option ℕ) (at : Child)
    → args ≡ some i
    → Turn k i sem at
    → HasOwn args i at
own_turn k i sem args absent e t = absurd t
own_turn k i sem args born e t = e
own_turn k i sem args (holds j) e t = (e, t.0)
own_turn k i sem args (ready j) e t = t.0

Others-HasOwn :
    (lo hi : ℕ) (children : ℕ → Child) (args : Option ℕ) (i : ℕ)
    → Others lo hi children
    → (lo ≤ i → i < hi → HasOwn args i (children i))
    → HasOwn args i (children i)
Others-HasOwn lo hi children args i o turn = elim (Bool-cases (ltb i lo)) [
  | inl e ↦ own_below args i (children i) (o.below i (ltb→lt i lo e))
  | inr e ↦ elim (Bool-cases (ltb i hi)) [
    | inl f ↦ turn (ground arith) (ltb→lt i hi f)
    | inr f ↦ own_above args i (children i) (o.above i (ground arith))
  ]
]

Phase-HasOwn :
    (n k : ℕ) (s : Starting) (owner : Creator)
    → Phase n k s owner
    → (i : ℕ) → HasOwn s.args i (s.children i)
Phase-HasOwn n k s (creating j) (le, sem, count, o) i =
    Others-HasOwn j j s.children s.args i o (λ low high. absurd (omega arith))
Phase-HasOwn n k s (awaits j) (lt, args, turn, o) i =
    Others-HasOwn j (suc j) s.children s.args i o (λ low high.
      let same : j ≡ i = omega arith in
      subst (λ (x : ℕ). HasOwn s.args x (s.children x)) same
        (own_turn k j s.init_sem s.args (s.children j) args turn))
Phase-HasOwn n k s created (count, o) i =
    Others-HasOwn n n s.children s.args i o (λ low high. absurd (omega arith))

-- When the semaphore is new, in whatever order the steps come, a thread reads its own state and no
-- other's, and `args` is neither freed nor written anew for another while a thread still reads it.
pub start-HasOwn : (n k : ℕ) (s : Starting) (i : ℕ) → Reach n 0 k s → HasOwn s.args i (s.children i)
start-HasOwn n k s i r = Phase-HasOwn n k s s.owner (Reach-Phase r) i

turn_goes :
    (n k i : ℕ) (s : Starting) (at : Child)
    → s.owner ≡ awaits i
    → s.args ≡ some i
    → s.children i ≡ at
    → Turn k i s.init_sem at
    → (t : Starting) × Step n s t
turn_goes n k i s absent o args e t = absurd t
turn_goes n k i s born o args e t = (_, reads i i e args)
turn_goes n k i s (holds j) o args e t = (_, posts i j i e args)
turn_goes n k i s (ready j) o args e t = (_, goes_on i 0 o t.1)

abbrev pub AreReady : ℕ → (ℕ → Child) → Type 0
AreReady n children = (i : ℕ) → i < n → children i ≡ ready i

Phase-goes :
    (n k : ℕ) (s : Starting) (owner : Creator)
    → s.owner ≡ owner
    → Phase n k s owner
    → (k ≤ 4 * n + 1) × (AreReady n s.children ⊎ ((t : Starting) × Step n s t))
Phase-goes n k s (creating i) o (le, sem, count, others) = (
  omega arith,
  inr (elim (Bool-cases (ltb i n)) [
    | inl e ↦ (_, creates i (ltb→lt i n e) o)
    | inr e ↦ let last : i ≡ n = ground arith in (_, frees (o ∙ ap creating last))
  ]),
)
Phase-goes n k s (awaits i) o (lt, args, turn, others) = (
  turn_count k i s.init_sem (s.children i) turn lt,
  inr (turn_goes n k i s (s.children i) o args refl turn),
)
  where
    turn_count : (k i sem : ℕ) (at : Child) → Turn k i sem at → i < n → k ≤ 4 * n + 1
    turn_count k i sem absent t lt = absurd t
    turn_count k i sem born t lt = omega (arith, t.1, lt)
    turn_count k i sem (holds j) t lt = omega (arith, t.2, lt)
    turn_count k i sem (ready j) t lt = omega (arith, t.2, lt)
Phase-goes n k s created o (count, others) = (omega arith, inl others.below)

-- When the semaphore is new, the start of n threads takes at most 4 n + 1 steps, and in a state in
-- which nothing can go on every thread is past its handshake, with its own state.
pub start-ends :
    (n k : ℕ) (s : Starting)
    → Reach n 0 k s
    → (k ≤ 4 * n + 1) × (AreReady n s.children ⊎ ((t : Starting) × Step n s t))
start-ends n k s r = Phase-goes n k s s.owner refl (Reach-Phase r)
