-- ===== src/Claim/Decimal.antt =====
-- The decimal text of an int32: `fmt`'s `%d`, and `strconv.ParseInt(s, 10, 32)`.
pub mod RoundTrip
use cozyplane.Base.{
  ℕ, zero, suc, ◌+◌, ◌-◌, ◌*◌, ◌/◌, ◌%◌, ◌^◌, Bool, true, false, ◌&&◌, List, [], ◌∷◌, ◌++◌, Option,
  none, some, Bytes, ℤ, pos, negsuc, ltb, leb, ◌==◌, if◌then◌else◌,
}

-- The digits of n, most significant first. A number has fewer digits than its value and one.
unfoldable pub digits : ℕ → ℕ → Bytes
digits zero n = []
digits (suc fuel) n =
    let front = digits fuel (n / 10) in
    if ltb n 10 then (b'0' + n) ∷ [] else front ++ (b'0' + n % 10) ∷ []

unfoldable pub format_int : ℤ → Bytes
unfolding digits
format_int (pos n) = digits (suc n) n
format_int (negsuc n) = b'-' ∷ digits (suc (suc n)) (suc n)

unfoldable pub is_digit : ℕ → Bool
is_digit c = leb b'0' c && leb c b'9'

-- The value of the digits behind n; `none` at a byte that is no digit.
unfoldable pub scan : Bytes → ℕ → Option ℕ
unfolding is_digit
scan [] n = some n
scan (c ∷ s) n = if is_digit c then scan s (n * 10 + (c - b'0')) else none

-- `ParseUint`: at least one digit. Its own range error is one of `parse_int`'s.
unfoldable pub parse_uint : Bytes → Option ℕ
unfolding scan
parse_uint [] = none
parse_uint (c ∷ s) = scan (c ∷ s) 0

-- The range of an int32.
unfoldable pub parse_unsigned : Bytes → Option ℤ
unfolding parse_uint
parse_unsigned s = elim (parse_uint s) [
  | none ↦ none
  | some n ↦ if ltb n (2 ^ 31) then some (pos n) else none
]

unfoldable pub negate : ℕ → ℤ
negate zero = pos 0
negate (suc n) = negsuc n

unfoldable pub parse_negative : Bytes → Option ℤ
unfolding parse_uint negate
parse_negative s = elim (parse_uint s) [
  | none ↦ none
  | some n ↦ if leb n (2 ^ 31) then some (negate n) else none
]

-- `ParseInt(s, 10, 32)`; an error is `none`.
unfoldable pub parse_int : Bytes → Option ℤ
unfolding parse_unsigned parse_negative
parse_int [] = none
parse_int (c ∷ s) =
    if c == b'+'
    then parse_unsigned s
    else if c == b'-'
    then parse_negative s
    else parse_unsigned (c ∷ s)
