-- ===== src/CString/Number.antt =====
-- `atoi`, for a result that an `int` of 32 bits holds; the standard leaves any other undefined, and
-- here it is a `fault`.
use let_us_connect_http_serv.Base.{
  Bool, Bytes, Outcome, [], fault, if◌then◌else◌, leb, ltb, negsuc, ok, pos, suc, zero, ℕ, ℤ, ◌&&◌,
  ◌*◌, ◌+◌, ◌-◌, ◌==◌, ◌∷◌,
}
use let_us_connect_http_serv.CString.Token.{skip_while}
use let_us_connect_http_serv.CString.Search.{isspace}

abbrev is_digit : ℕ → Bool
is_digit c = leb b'0' c && leb c b'9'

-- The digits at the start, after the value `acc` of those before them.
pub digits_value : ℕ → Bytes → ℕ
digits_value acc [] = acc
digits_value acc (c ∷ s) = if is_digit c then digits_value (acc * 10 + (c - 48)) s else acc

abbrev pub int_limit : ℕ
int_limit = 2147483648

positive : ℕ → Outcome ℤ
positive n = if ltb n int_limit then ok (pos n) else fault

negative : ℕ → Outcome ℤ
negative zero = ok (pos 0)
negative (suc n) = if ltb n int_limit then ok (negsuc n) else fault

after_space : Bytes → Outcome ℤ
unfolding digits_value positive negative
after_space [] = ok (pos 0)
after_space (c ∷ s) =
    if c == b'-'
    then negative (digits_value 0 s)
    else if c == b'+'
    then positive (digits_value 0 s)
    else positive (digits_value 0 (c ∷ s))

unfoldable pub atoi : Bytes → Outcome ℤ
unfolding after_space
atoi s = after_space (skip_while isspace s)
