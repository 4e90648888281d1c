-- ===== src/Pool/Handshake/Phases.antt =====
-- The start of the threads, one after another: what holds in each phase of the owner, from a
-- semaphore that is new.
use let_us_connect_http_serv.Base.{
  Bool-cases, ap, arith, inl, inr, ltb, ltb→lt, none, refl, some, subst, suc, sym, ℕ, ◌*◌, ◌+◌, ◌<◌,
  ◌≡◌, ◌≤◌,
}
use let_us_connect_http_serv.Pool.Family.{set_at, set_at_self}
use let_us_connect_http_serv.Pool.Handshake.{
  Child, Creator, Reach, Starting, Step, absent, awaits, born, created, creates, creating, frees,
  goes_on, holds, later, posts, reads, ready, start,
}

-- The threads before `lo` are past the handshake with their own state, those from `hi` on not
-- created.
pub record Others (lo hi : ℕ) (children : ℕ → Child) : Type 0 where
  pub below : (j : ℕ) → j < lo → children j ≡ ready j
  pub above : (j : ℕ) → hi ≤ j → children j ≡ absent

-- The thread whose turn it is, the semaphore, and the steps so far.
abbrev pub Turn : ℕ → ℕ → ℕ → Child → Type 0
Turn k i sem absent = ⊥
Turn k i sem born = (sem ≡ 0) × (k ≡ 4 * i + 1)
Turn k i sem (holds j) = (j ≡ i) × (sem ≡ 0) × (k ≡ 4 * i + 2)
Turn k i sem (ready j) = (j ≡ i) × (sem ≡ 1) × (k ≡ 4 * i + 3)

abbrev pub Phase : ℕ → ℕ → Starting → Creator → Type 0
Phase n k s (creating i) = (i ≤ n) × (s.init_sem ≡ 0) × (k ≡ 4 * i) × Others i i s.children
Phase n k s (awaits i) =
    (i < n) × (s.args ≡ some i) × Turn k i s.init_sem (s.children i) × Others i (suc i) s.children
Phase n k s created = (k ≡ 4 * n + 1) × Others n n s.children

-- The phase of an owner that is known.
Phase-at :
    (n k : ℕ) (s : Starting) (owner : Creator)
    → s.owner ≡ owner
    → Phase n k s s.owner
    → Phase n k s owner
Phase-at n k s owner e h = subst (Phase n k s) e h

-- A thread that has not posted stands between.
abbrev pub IsWaiting : Child → Type 0
IsWaiting born = Unit
IsWaiting (holds _) = Unit
IsWaiting _ = ⊥

Others-IsWaiting :
    (lo hi : ℕ) (children : ℕ → Child) (i : ℕ)
    → Others lo hi children
    → IsWaiting (children i)
    → (lo ≤ i) × (i < hi)
Others-IsWaiting lo hi children i o w = elim (Bool-cases (ltb i lo)) [
  | inl e ↦ absurd (subst IsWaiting (o.below i (ltb→lt i lo e)) w)
  | inr e ↦ elim (Bool-cases (ltb i hi)) [
    | inl f ↦ (ground arith, ltb→lt i hi f)
    | inr f ↦ absurd (subst IsWaiting (o.above i (ground arith)) w)
  ]
]

Others-set_at :
    (lo hi : ℕ) (children : ℕ → Child) (at : Child)
    → lo ≤ hi
    → hi ≤ suc lo
    → Others lo hi children
    → Others lo (suc lo) (set_at children lo at)
Others-set_at lo hi children at le le' o = record {
  below = λ j lt. ground (arith, o.below j lt);
  above = λ j le''. ground (arith, o.above j);
}

-- What the handshake says of each of its moves.
creates-Phase :
    (n k i : ℕ) (s : Starting)
    → i < n
    → Phase n k s (creating i)
    → Phase n
        (suc k)
        (record s { args = some i; owner = awaits i; children = set_at s.children i born })
        (awaits i)
creates-Phase n k i s lt (le, sem, count, o) = (
  lt,
  refl,
  rw (set_at_self s.children i born) (sem, omega (arith, count)),
  Others-set_at i i s.children born (omega arith) (omega arith) o,
)

ready_turn :
    (k i sem : ℕ) (at : Child)
    → 0 < sem
    → Turn k i sem at
    → (at ≡ ready i) × (sem ≡ 1) × (k ≡ 4 * i + 3)
ready_turn k i sem absent h t = absurd t
ready_turn k i sem born h t = absurd (omega (arith, t.0))
ready_turn k i sem (holds j) h t = absurd (omega (arith, t.1))
ready_turn k i sem (ready j) h (e, one, count) = (ap ready e, one, count)

goes_on-Phase :
    (n k i m : ℕ) (s : Starting)
    → s.init_sem ≡ suc m
    → Phase n k s (awaits i)
    → Phase n (suc k) (record s { init_sem = m; owner = creating (suc i) }) (creating (suc i))
goes_on-Phase n k i m s e (lt, args, turn, o) =
    let (at, sem, count) = ready_turn k i s.init_sem (s.children i) (omega (arith, e)) turn in
    (
      omega arith,
      omega (arith, e, sem),
      omega (arith, count),
      record { below = λ j less. ground (arith, o.below j); above = o.above },
    )

frees-Phase :
    (n k : ℕ) (s : Starting)
    → Phase n k s (creating n)
    → Phase n (suc k) (record s { args = none; owner = created }) created
frees-Phase n k s (le, sem, count, o) = (omega (arith, count), o)

-- A thread that waits is the one whose turn it is.
turn_at :
    (n k i : ℕ) (s : Starting) (owner : Creator)
    → Phase n k s owner
    → IsWaiting (s.children i)
    → (owner ≡ awaits i) × Phase n k s (awaits i)
turn_at n k i s (creating j) (le, sem, count, o) w =
    let (above, below) = Others-IsWaiting j j s.children i o w in absurd (omega arith)
turn_at n k i s (awaits j) (lt, args, turn, o) w =
    let (above, below) = Others-IsWaiting j (suc j) s.children i o w in
    let same : j ≡ i = omega arith in
    (ap awaits same, subst (λ (x : ℕ). Phase n k s (awaits x)) same (lt, args, turn, o))
turn_at n k i s created (count, o) w =
    let (above, below) = Others-IsWaiting n n s.children i o w in absurd (omega arith)

reads-Phase :
    (n k i : ℕ) (s : Starting)
    → s.children i ≡ born
    → Phase n k s (awaits i)
    → (j : ℕ) → s.args ≡ some j
    → Phase n (suc k) (record s { children = set_at s.children i (holds j) }) (awaits i)
reads-Phase n k i s at (lt, args, turn, o) j e =
    let (sem, count) = subst (Turn k i s.init_sem) at turn in
    (
      lt,
      args,
      rw (set_at_self s.children i (holds j)) (ground (arith, e, args), sem, omega (arith, count)),
      Others-set_at i (suc i) s.children (holds j) (omega arith) (omega arith) o,
    )

posts-Phase :
    (n k i j : ℕ) (s : Starting)
    → s.children i ≡ holds j
    → Phase n k s (awaits i)
    → Phase n
        (suc k)
        (record s { init_sem = s.init_sem + 1; children = set_at s.children i (ready j) })
        (awaits i)
posts-Phase n k i j s at (lt, args, turn, o) =
    let (own, sem, count) = subst (Turn k i s.init_sem) at turn in
    (
      lt,
      args,
      rw (set_at_self s.children i (ready j)) (own, omega (arith, sem), omega (arith, count)),
      Others-set_at i (suc i) s.children (ready j) (omega arith) (omega arith) o,
    )

-- In a step of a thread the owner stands still.
Phase-back :
    (n k : ℕ) (s : Starting) (i : ℕ) (owner : Creator)
    → owner ≡ awaits i
    → Phase n k s (awaits i)
    → Phase n k s owner
Phase-back n k s i owner e h = subst (Phase n k s) (sym e) h

Step-Phase :
    (n k : ℕ) {s t : Starting} → Step n s t → Phase n k s s.owner → Phase n (suc k) t t.owner
Step-Phase n k {s} (creates i lt o) h = creates-Phase n k i s lt (Phase-at n k s (creating i) o h)
Step-Phase n k {s} (goes_on i m o e) h = goes_on-Phase n k i m s e (Phase-at n k s (awaits i) o h)
Step-Phase n k {s} (frees o) h = frees-Phase n k s (Phase-at n k s (creating n) o h)
Step-Phase n k {s} (reads i j at e) h =
    let (o, turn) = turn_at n k i s s.owner h (subst IsWaiting (sym at) tt) in
    subst (Phase n (suc k) (record s { children = set_at s.children i (holds j) })) (sym o)
      (reads-Phase n k i s at turn j e)
Step-Phase n k {s} (posts i j m at e) h =
    let (o, turn) = turn_at n k i s s.owner h (subst IsWaiting (sym at) tt) in
    subst
      (Phase n (suc k)
        (record s { init_sem = s.init_sem + 1; children = set_at s.children i (ready j) }))
      (sym o) (posts-Phase n k i j s at turn)

pub Reach-Phase : {n k : ℕ} {s : Starting} → Reach n 0 k s → Phase n k s s.owner
Reach-Phase start = (
  omega arith,
  refl,
  omega arith,
  record { below = λ j lt. absurd (omega arith); above = λ j le. refl },
)
Reach-Phase (later r step) = Step-Phase _ _ step (Reach-Phase r)
