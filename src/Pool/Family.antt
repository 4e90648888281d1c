-- ===== src/Pool/Family.antt =====
-- What each of the first n threads has, and the sum of it.
use let_us_connect_http_serv.Base.{
  Bool-cases, arith, if◌then◌else◌, inl, inr, ltb, ltb→lt, refl, suc, zero, ℕ, ◌*◌, ◌+◌, ◌<◌, ◌==◌,
  ◌≡◌, ◌≤◌,
}

module _ {A : Type 0} where
  -- The family with another value at `i`.
  abbrev pub set_at : (ℕ → A) → ℕ → A → ℕ → A
  set_at f i a j = if j == i then a else f j

  pub set_at_self : (f : ℕ → A) (i : ℕ) (a : A) → set_at f i a i ≡ a
  set_at_self f i a = ground arith

  pub sum_of : (A → ℕ) → ℕ → (ℕ → A) → ℕ
  sum_of w zero f = 0
  sum_of w (suc n) f = w (f n) + sum_of w n f

  sum_of-set_at_beyond :
      (w : A → ℕ) (n : ℕ) (f : ℕ → A) (i : ℕ) (a : A)
      → n ≤ i
      → sum_of w n (set_at f i a) ≡ sum_of w n f
  unfolding sum_of
  sum_of-set_at_beyond w zero f i a h = refl
  sum_of-set_at_beyond w (suc n) f i a h = ground (arith, sum_of-set_at_beyond w n f i a)

  -- One change exchanges one summand.
  pub sum_of-set_at :
      (w : A → ℕ) (n : ℕ) (f : ℕ → A) (i : ℕ) (a : A)
      → i < n
      → sum_of w n (set_at f i a) + w (f i) ≡ sum_of w n f + w a
  unfolding sum_of
  sum_of-set_at w zero f i a h = absurd (omega arith)
  sum_of-set_at w (suc n) f i a h =
      ground (arith, sum_of-set_at w n f i a, sum_of-set_at_beyond w n f i a)

  -- A summand is at most the sum.
  pub sum_of-ge : (w : A → ℕ) (n : ℕ) (f : ℕ → A) (i : ℕ) → i < n → w (f i) ≤ sum_of w n f
  unfolding sum_of
  sum_of-ge w zero f i h = absurd (omega arith)
  sum_of-ge w (suc n) f i h = ground (arith, sum_of-ge w n f i)

  pub sum_of-le_bound :
      (w : A → ℕ) (b n : ℕ) (f : ℕ → A) → ((a : A) → w a ≤ b) → sum_of w n f ≤ b * n
  unfolding sum_of
  sum_of-le_bound w b zero f h = omega arith
  sum_of-le_bound w b (suc n) f h = grind (arith, h (f n), sum_of-le_bound w b n f h)

  -- A sum that is not zero has a summand that is not.
  pub summand_pos :
      (w : A → ℕ) (n : ℕ) (f : ℕ → A) → 0 < sum_of w n f → (i : ℕ) × (i < n) × (0 < w (f i))
  unfolding sum_of
  summand_pos w zero f h = absurd (omega arith)
  summand_pos w (suc n) f h = elim (Bool-cases (ltb 0 (w (f n)))) [
    | inl e ↦ (n, omega arith, ltb→lt 0 (w (f n)) e)
    | inr e ↦ let (i, below, pos_i) = summand_pos w n f (ground arith) in (i, omega arith, pos_i)
  ]

  pub sum_of-none :
      (w : A → ℕ) (n : ℕ) (f : ℕ → A) → ((i : ℕ) → i < n → w (f i) ≡ 0) → sum_of w n f ≡ 0
  unfolding sum_of
  sum_of-none w zero f h = refl
  sum_of-none w (suc n) f h =
      omega (arith, h n (omega arith), sum_of-none w n f (λ i lt. h i (omega arith)))

  pub sum_of-zero : (w : A → ℕ) (n : ℕ) (f : ℕ → A) → ((i : ℕ) → w (f i) ≡ 0) → sum_of w n f ≡ 0
  unfolding sum_of
  sum_of-zero w zero f h = refl
  sum_of-zero w (suc n) f h = omega (arith, h n, sum_of-zero w n f h)
