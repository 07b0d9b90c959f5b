-- ===== src/Claim/Decimal/RoundTrip.antt =====
-- Reading back the decimal text of a number.
use cozyplane.Base.{
  ℕ, zero, suc, ◌+◌, ◌-◌, ◌*◌, ◌/◌, ◌%◌, ◌^◌, ◌≤◌, ◌<◌, ◌≡◌, ◌≢◌, refl, ap, ◌∙◌, [], ◌∷◌, ◌++◌,
  some, Bytes, All, All-append, ltb, inl, inr, Bool-cases, arith, pos, Lacks,
}
use mathlib.Core.List.{concat-ne-nil}
use cozyplane.Claim.Decimal.{
  digits, format_int, is_digit, scan, parse_uint, parse_unsigned, parse_int,
}

abbrev pub IsDigit : ℕ → Type 0
IsDigit c = (b'0' ≤ c) × (c ≤ b'9')

-- A text of digits that starts at n and is read to the end.
scan-append :
    (s : Bytes) (c n : ℕ) {m : ℕ}
    → IsDigit c
    → scan s n ≡ some m
    → scan (s ++ c ∷ []) n ≡ some (m * 10 + (c - b'0'))
unfolding scan
scan-append [] c n d h = ground arith
scan-append (x ∷ s) c n d h = elim (Bool-cases (is_digit x)) [
  | inl e ↦ rw e (scan-append s c (n * 10 + (x - b'0')) d (rw e at h))
  | inr e ↦ ground arith
]

scan-digits : (fuel n : ℕ) → n < fuel → scan (digits fuel n) 0 ≡ some n
unfolding digits
scan-digits zero n h = elim h [ ]
scan-digits (suc fuel) n h = elim (Bool-cases (ltb n 10)) [
  | inl e ↦ rw e (unfold scan in ground arith)
  | inr e ↦ rw e (
      scan-append (digits fuel (n / 10)) (b'0' + n % 10) 0 (omega arith)
        (scan-digits fuel (n / 10) (ground arith))
      ∙ ap some (omega arith))
]

digits-IsDigit : (fuel n : ℕ) → All IsDigit (digits fuel n)
unfolding digits
digits-IsDigit zero n = tt
digits-IsDigit (suc fuel) n = elim (Bool-cases (ltb n 10)) [
  | inl e ↦ rw e (ground arith)
  | inr e ↦
      rw e (All-append _ (digits fuel (n / 10)) _ (digits-IsDigit fuel (n / 10)) (omega arith))
]

digits-ne-nil : (fuel n : ℕ) → digits (suc fuel) n ≢ []
unfolding digits
digits-ne-nil fuel n = elim (Bool-cases (ltb n 10)) [
  | inl e ↦ rw e (cc)
  | inr e ↦ rw e (concat-ne-nil _ _)
]

parse_uint-scan : (s : Bytes) → s ≢ [] → parse_uint s ≡ scan s 0
unfolding parse_uint
parse_uint-scan [] h = absurd (h refl)
parse_uint-scan (c ∷ s) h = refl

parse_uint-digits : (n : ℕ) → parse_uint (digits (suc n) n) ≡ some n
parse_uint-digits n =
    rw (parse_uint-scan _ (digits-ne-nil n n)) (scan-digits (suc n) n (omega arith))

-- A text that starts with a digit has no sign.
parse_int-unsigned : (s : Bytes) → s ≢ [] → All IsDigit s → parse_int s ≡ parse_unsigned s
unfolding parse_int
parse_int-unsigned [] h d = absurd (h refl)
parse_int-unsigned (c ∷ s) h d = ground arith

parse_unsigned-some :
    (s : Bytes) (n : ℕ) → parse_uint s ≡ some n → n < 2 ^ 31 → parse_unsigned s ≡ some (pos n)
unfolding parse_unsigned
parse_unsigned-some s n e h = ground arith

-- The decimal text of a number that an int32 holds is read back as that number.
pub parse_int-format_int : (n : ℕ) → n < 2 ^ 31 → parse_int (format_int (pos n)) ≡ some (pos n)
unfolding format_int
parse_int-format_int n h =
    rw (parse_int-unsigned _ (digits-ne-nil n n) (digits-IsDigit (suc n) n))
      (parse_unsigned-some _ n (parse_uint-digits n) h)

Lacks-digits : (s : Bytes) → All IsDigit s → Lacks b'.' s
Lacks-digits [] d = tt
Lacks-digits (c ∷ s) (d, ds) = ((λ e. omega arith), Lacks-digits s ds)

-- The separator of a claim name stands in no number.
pub format_int-Lacks : (n : ℕ) → Lacks b'.' (format_int (pos n))
unfolding format_int
format_int-Lacks n = Lacks-digits _ (digits-IsDigit (suc n) n)

pub format_int-ne-nil : (n : ℕ) → format_int (pos n) ≢ []
unfolding format_int
format_int-ne-nil n = digits-ne-nil n n
