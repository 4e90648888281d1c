-- ===== src/CString/Format.antt =====
-- `%d`, snprintf and strncat.
use let_us_connect_http_serv.Base.{
  All-append, Bool, Bool-cases, Bytes, [], arith, false, if◌then◌else◌, inl, inr, leb, length,
  length-append, ltb, ltb→lt, negsuc, pos, suc, take, true, zero, ℕ, ℤ, ◌%◌, ◌&&◌, ◌*◌, ◌++◌, ◌+◌,
  ◌-◌, ◌/◌, ◌<◌, ◌∷◌, ◌≡◌, ◌≤◌,
}
use let_us_connect_http_serv.CString.Token.{Free}

-- The decimal digits; more fuel than the number of digits is enough.
unfoldable pub decimal_from : ℕ → ℕ → Bytes
decimal_from zero n = []
decimal_from (suc fuel) n =
    let more = decimal_from fuel (n / 10) ++ ((48 + n % 10) ∷ []) in
    if ltb n 10 then (48 + n) ∷ [] else more

unfoldable pub decimal : ℤ → Bytes
unfolding decimal_from
decimal (pos n) = decimal_from (suc n) n
decimal (negsuc n) = b'-' ∷ decimal_from (suc (suc n)) (suc n)

-- What `snprintf(buf, size, …)` leaves in `buf` of the formatted text, before the NUL.
abbrev pub snprintf : ℕ → Bytes → Bytes
snprintf size s = take (size - 1) s

-- `strncat(dst, src, n)`
abbrev pub strncat : Bytes → Bytes → ℕ → Bytes
strncat dst src n = dst ++ take n src

is_digit : ℕ → Bool
is_digit c = leb b'0' c && leb c b'9'

-- A number is printed with a sign and digits only, so with no CR and no LF.
pub decimal_from-Free :
    (p : ℕ → Bool) (fuel n : ℕ)
    → ((d : ℕ) → d < 10 → p (48 + d) ≡ false)
    → Free p (decimal_from fuel n)
unfolding decimal_from
decimal_from-Free p zero n h = tt
decimal_from-Free p (suc fuel) n h = elim (Bool-cases (ltb n 10)) [
  | inl small ↦ rw small (h n (ltb→lt n 10 small), tt)
  | inr large ↦ rw large (
      All-append (λ c. p c ≡ false) (decimal_from fuel (n / 10)) ((48 + n % 10) ∷ [])
        (decimal_from-Free p fuel (n / 10) h) (h (n % 10) (omega arith), tt))
]

pub decimal-Free :
    (p : ℕ → Bool) (n : ℤ)
    → ((d : ℕ) → d < 10 → p (48 + d) ≡ false)
    → p b'-' ≡ false
    → Free p (decimal n)
unfolding decimal
decimal-Free p (pos n) h m = decimal_from-Free p (suc n) n h
decimal-Free p (negsuc n) h m = (m, decimal_from-Free p (suc (suc n)) (suc n) h)

abbrev pub ten_to : ℕ → ℕ
ten_to zero = 1
ten_to (suc k) = 10 * ten_to k

-- A number below 10^k has at most k digits (one, for k = 0), and one at least.
length-decimal_from-le : (k fuel n : ℕ) → n < ten_to (suc k) → length (decimal_from fuel n) ≤ suc k
unfolding decimal_from
length-decimal_from-le k zero n h = omega arith
length-decimal_from-le zero (suc fuel) n h =
    let b : ltb n 10 ≡ true = ground arith in rw b (omega arith)
length-decimal_from-le (suc k) (suc fuel) n h = elim (Bool-cases (ltb n 10)) [
  | inl small ↦ rw small (omega arith)
  | inr large ↦ rw large (
      omega (
        arith,
        length-append (decimal_from fuel (n / 10)) ((48 + n % 10) ∷ []),
        length-decimal_from-le k fuel (n / 10) (omega arith),
      ))
]

pub length-decimal-le : (k n : ℕ) → n < ten_to (suc k) → length (decimal (pos n)) ≤ suc k
unfolding decimal
length-decimal-le k n h = length-decimal_from-le k (suc n) n h

-- With a sign in front of a negative number.
pub length-decimal-negsuc-le :
    (k n : ℕ) → suc n < ten_to (suc k) → length (decimal (negsuc n)) ≤ suc (suc k)
unfolding decimal
length-decimal-negsuc-le k n h = omega (arith, length-decimal_from-le k (suc (suc n)) (suc n) h)
