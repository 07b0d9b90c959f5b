-- ===== src/Claim/Name/Parse.antt =====
-- What `ParseClaim` accepts, and that it undoes `PortName` and `ServiceVIPName`.
use cozyplane.Base.{
  ℕ, ◌≡◌, ◌≢◌, ap, ◌∙◌, true, ◌<◌, ◌^◌, [], ◌∷◌, ◌++◌, Option, some, Bytes, ℤ, pos, negsuc, inl,
  inr, Option-cases, cut, cut-append, cut_sound, cut_prefix, cut_prefix-append, cut_prefix_sound,
  is_empty_of_ne, ne_of_is_empty, Lacks, arith,
}
use cozyplane.NetId.{valid_vni}
use cozyplane.Claim.Decimal.{format_int, parse_int}
use cozyplane.Claim.Decimal.RoundTrip.{parse_int-format_int, format_int-Lacks, format_int-ne-nil}
use cozyplane.Claim.Name.{claim_name, escape_ip, parse_claim, split_claim}

valid_vni-bound : (n : ℕ) → valid_vni (pos n) ≡ true → n < 2 ^ 31
unfolding valid_vni
valid_vni-bound n h = ground arith

split_claim_lem :
    (n : ℕ) (esc : Bytes)
    → valid_vni (pos n) ≡ true
    → esc ≢ []
    → split_claim (format_int (pos n) ++ b'.' ∷ esc) ≡ some (pos n, esc)
unfolding split_claim
split_claim_lem n esc v h = ground (
  arith,
  cut-append (format_int (pos n)) esc b'.' (format_int-Lacks n),
  is_empty_of_ne (format_int (pos n)) (format_int-ne-nil n),
  is_empty_of_ne esc h,
  parse_int-format_int n (valid_vni-bound n v),
)

-- A claim name of either kind is read back: its VNI, if `netid` admits that, and its escaped
-- address, if that is not empty.
pub parse_claim-claim_name :
    (addr16 : Bytes → Option Bytes) (prefix : Bytes) (v : ℤ) (ip : Bytes)
    → valid_vni v ≡ true
    → escape_ip addr16 ip ≢ []
    → parse_claim prefix (claim_name addr16 prefix v ip) ≡ some (v, escape_ip addr16 ip)
unfolding parse_claim claim_name
parse_claim-claim_name addr16 prefix (pos n) ip v h = ground (
  arith,
  cut_prefix-append prefix (format_int (pos n) ++ b'.' ∷ escape_ip addr16 ip),
  split_claim_lem n (escape_ip addr16 ip) v h,
)
parse_claim-claim_name addr16 prefix (negsuc n) ip v h = unfold valid_vni in ground arith

split_claim_sound :
    (rest : Bytes) (v : ℤ) (esc : Bytes)
    → split_claim rest ≡ some (v, esc)
    → (number : Bytes) × (rest ≡ number ++ b'.' ∷ esc)
      × (parse_int number ≡ some v)
      × Lacks b'.' number
      × (valid_vni v ≡ true)
      × (esc ≢ [])
unfolding split_claim
split_claim_sound rest v esc h = elim (Option-cases (cut rest b'.')) [
  | inl e ↦ absurd (ground arith)
  | inr ((number, esc'), e) ↦
      let cut_ok = cut_sound rest b'.' number esc' e in
      (
        number,
        ground arith,
        ground arith,
        ground arith,
        ground arith,
        ground (arith, ne_of_is_empty esc),
      )
]

-- What a successful parse says of the name: the prefix, a number that `netid` admits as a VNI and
-- that no separator cuts, a separator and an address that is not empty.
pub parse_claim_sound :
    (prefix name : Bytes) (v : ℤ) (esc : Bytes)
    → parse_claim prefix name ≡ some (v, esc)
    → (number : Bytes) × (name ≡ prefix ++ (number ++ b'.' ∷ esc))
      × (parse_int number ≡ some v)
      × Lacks b'.' number
      × (valid_vni v ≡ true)
      × (esc ≢ [])
unfolding parse_claim
parse_claim_sound prefix name v esc h = elim (Option-cases (cut_prefix name prefix)) [
  | inl e ↦ ground arith
  | inr (rest, e) ↦
      let (number, shape, parsed, lacks, valid, full) =
        split_claim_sound rest v esc (rw (e, parse_claim) at h) in
      (
        number,
        cut_prefix_sound name prefix rest e ∙ ap (λ t. prefix ++ t) shape,
        parsed,
        lacks,
        valid,
        full,
      )
]
