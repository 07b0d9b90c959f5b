-- ===== src/Claim/Examples.antt =====
-- The theorems about claims at concrete names and stores.
use cozyplane.Base.{
  ◌≡◌, ◌≢◌, ◌↔◌, refl, sym, ◌∙◌, inl, inr, true, [], ◌∷◌, ◌++◌, Option, none, some, Bytes, codes,
  pos, str_eq, str_eq_iff, if◌then◌else◌, All, Lacks, arith, Bool-cases, cut_prefix, cut, is_empty,
  ◌<◌,
}
use mathlib.Core.Path.{subst}
use cozyplane.NetId.{valid_vni}
use cozyplane.Claim.Decimal.{parse_int}
use cozyplane.Claim.Name.{
  escape_ip, claim_name, claim_prefix_port, port_name, service_vip_name, parse_claim,
}
use cozyplane.Claim.Name.Parse.{parse_claim-claim_name, parse_claim_sound}
use cozyplane.Claim.Name.Unique.{ParsesAddresses, claim_names_unique}

-- A parser that knows one address.
abbrev loopback : Bytes
loopback = codes "::1"

abbrev loopback16 : Bytes
loopback16 = 0 ∷ 0 ∷ 0 ∷ 0 ∷ 0 ∷ 0 ∷ 0 ∷ 0 ∷ 0 ∷ 0 ∷ 0 ∷ 0 ∷ 0 ∷ 0 ∷ 0 ∷ 1 ∷ []

abbrev one_address : Bytes → Option Bytes
one_address s = if str_eq s loopback then some loopback16 else none

parse_claim-claim_name_example :
    parse_claim claim_prefix_port (claim_name one_address claim_prefix_port (pos 100) loopback)
    ≡ some (pos 100, escape_ip one_address loopback)
unfolding valid_vni escape_ip str_eq
parse_claim-claim_name_example =
    parse_claim-claim_name one_address claim_prefix_port (pos 100) loopback refl (λ e. cc)

-- The number of a name may have a sign: such a name is parsed, and is refused elsewhere.
parse_claim_sound_example :
    (number : Bytes) × (codes "v+100.10-0-0-1"
      ≡ claim_prefix_port ++ (number ++ b'.' ∷ codes "10-0-0-1"))
    × (parse_int number ≡ some (pos 100))
    × Lacks b'.' number
    × (valid_vni (pos 100) ≡ true)
    × (codes "10-0-0-1" ≢ [])
unfolding parse_claim parse_int valid_vni cut_prefix cut is_empty
parse_claim_sound_example =
    parse_claim_sound claim_prefix_port (codes "v+100.10-0-0-1") (pos 100) (codes "10-0-0-1") refl

one_address_lem : (s b : Bytes) → one_address s ≡ some b → (s ≡ loopback) × (loopback16 ≡ b)
one_address_lem s b h = elim (Bool-cases (str_eq s loopback)) [
  | inl e ↦ ((str_eq_iff s loopback).0 e, ground arith)
  | inr e ↦ absurd (ground arith)
]

one_address-parses : ParsesAddresses one_address (λ s. Unit {0})
one_address-parses = record {
  bytes_bounded =
      λ s b h. subst (λ t. All (λ c. c < 256) t) (one_address_lem s b h).1 (omega arith);
  canonical_unique = λ s t b c d e f. (one_address_lem s b e).0 ∙ sym (one_address_lem t b f).0;
}

claim_names_unique_example :
    ((port_name one_address (pos 100) loopback ≡ port_name one_address (pos 101) (codes "a::1"))
      ↔ ((pos 100 ≡ pos 101) × (loopback ≡ codes "a::1")))
    × ((service_vip_name one_address (pos 100) loopback
          ≡ service_vip_name one_address (pos 101) (codes "a::1"))
        ↔ ((pos 100 ≡ pos 101) × (loopback ≡ codes "a::1")))
    × (port_name one_address (pos 100) loopback
        ≢ service_vip_name one_address (pos 101) (codes "a::1"))
unfolding valid_vni escape_ip str_eq
claim_names_unique_example =
    claim_names_unique one_address (λ s. Unit {0}) one_address-parses (pos 100) (pos 101) b'.'
      loopback (codes "a::1") (refl, refl) (inl refl) (omega arith, tt, λ e. cc)
      (omega arith, tt, λ e. cc)
