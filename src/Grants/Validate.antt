-- ===== src/Grants/Validate.antt =====
-- `ValidateForwardingPrefixes` against the condition it checks, and that condition on lists that
-- are appended.
use cozyplane.Base.{
  ℕ, ◌+◌, ◌-◌, ◌≡◌, refl, Bool, true, false, ◌&&◌, List, [], ◌∷◌, ◌++◌, length, length-append,
  Bytes, leb, arith,
}
use cozyplane.Grants.{
  max_forwarding_prefixes, max_forwarding_prefix_bytes, is_none, validate_from,
  validate_forwarding_prefixes,
}

module _ (cidr_ok : Bytes → Bool) where
  -- Every prefix is short enough and parses.
  unfoldable pub all_valid : List Bytes → Bool
  all_valid [] = true
  all_valid (c ∷ cs) = leb (length c) max_forwarding_prefix_bytes && cidr_ok c && all_valid cs

  -- A union of prefixes that a grant may hold.
  unfoldable pub fits : List Bytes → Bool
  fits cs = leb (length cs) max_forwarding_prefixes && all_valid cs

  pub all_valid-append :
      (xs ys : List Bytes) → all_valid (xs ++ ys) ≡ (all_valid xs && all_valid ys)
  unfolding all_valid
  all_valid-append [] ys = refl
  all_valid-append (x ∷ xs) ys = ground (arith, all_valid-append xs ys)

  validate_from_lem :
      (i : ℕ) (cs : List Bytes) → is_none (validate_from cidr_ok i cs) ≡ all_valid cs
  unfolding validate_from all_valid
  validate_from_lem i [] = refl
  validate_from_lem i (c ∷ cs) = ground (arith, validate_from_lem (i + 1) cs)

  pub validate_lem : (cs : List Bytes) → is_none (validate_forwarding_prefixes cidr_ok cs) ≡ fits cs
  unfolding validate_forwarding_prefixes fits
  validate_lem cs = ground (arith, validate_from_lem 0 cs)

  -- What holds of a union holds of its first part.
  pub fits-append_left : (xs ys : List Bytes) → fits xs ≡ false → fits (xs ++ ys) ≡ false
  unfolding fits
  fits-append_left xs ys h = ground (arith, all_valid-append xs ys, length-append xs ys)

  -- The test that `Add` makes before it appends.
  pub fits-append :
      (xs ys : List Bytes)
      → fits xs ≡ true
      → fits (xs ++ ys) ≡ (leb (length ys) (max_forwarding_prefixes - length xs) && fits ys)
  unfolding fits
  fits-append xs ys h = ground (arith, all_valid-append xs ys, length-append xs ys)

  pub fits_nil : fits [] ≡ true
  unfolding fits all_valid
  fits_nil = refl
