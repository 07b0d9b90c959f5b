-- ===== src/Claim/Name.antt =====
-- api/sdn/names.go: the name of a Port or a ServiceVIP is the claim on its address. `addr16` stands
-- for the 16 bytes of `netip.ParseAddr(ip)` where that is an IPv6 address without a zone.
pub mod Escape
pub mod Parse
pub mod Unique
use cozyplane.Base.{
  ℕ, ◌+◌, ◌/◌, ◌%◌, Bool, true, false, ◌&&◌, ◌||◌, List, [], ◌∷◌, ◌++◌, map, Option, none, some,
  Bytes, codes, ltb, ◌==◌, if◌then◌else◌, ℤ, pos, cut, cut_prefix, is_empty,
}
use cozyplane.Claim.Decimal.{format_int, parse_int}
use cozyplane.NetId.{valid_vni}

abbrev pub claim_prefix_port : Bytes
claim_prefix_port = codes "v"

abbrev pub claim_prefix_service_vip : Bytes
claim_prefix_service_vip = codes "sv"

-- The replacer of `EscapeIP`.
unfoldable pub dash : ℕ → ℕ
dash c = if c == b'.' || c == b':' then b'-' else c

-- `strings.HasPrefix(s, "-")`.
unfoldable pub starts_with_dash : Bytes → Bool
starts_with_dash [] = false
starts_with_dash (c ∷ s) = c == b'-'

-- `strings.HasSuffix(s, "-")`.
unfoldable pub ends_with_dash : Bytes → Bool
ends_with_dash [] = false
ends_with_dash (c ∷ []) = c == b'-'
ends_with_dash (c ∷ d ∷ s) = ends_with_dash (d ∷ s)

unfoldable pub hex_digit : ℕ → ℕ
hex_digit d = if ltb d 10 then b'0' + d else 87 + d

-- `hex.EncodeToString`.
unfoldable pub hex_encode : Bytes → Bytes
unfolding hex_digit
hex_encode [] = []
hex_encode (c ∷ s) = hex_digit (c / 16 % 16) ∷ hex_digit (c % 16) ∷ hex_encode s

module _ (addr16 : Bytes → Option Bytes) where
  -- `EscapeIP`.
  unfoldable pub escape_ip : Bytes → Bytes
  unfolding dash starts_with_dash ends_with_dash hex_encode
  escape_ip ip =
      let escaped = map dash ip in
      if starts_with_dash escaped || ends_with_dash escaped
      then elim (addr16 ip) [ none ↦ escaped | some bytes ↦ b'x' ∷ hex_encode bytes ]
      else escaped

  -- The format of both kinds of names.
  unfoldable pub claim_name : Bytes → ℤ → Bytes → Bytes
  claim_name prefix vni ip = prefix ++ (format_int vni ++ b'.' ∷ escape_ip ip)

  -- `PortName`.
  unfoldable pub port_name : ℤ → Bytes → Bytes
  unfolding claim_name
  port_name = claim_name claim_prefix_port

  -- `ServiceVIPName`.
  unfoldable pub service_vip_name : ℤ → Bytes → Bytes
  unfolding claim_name
  service_vip_name = claim_name claim_prefix_service_vip

-- The range check at the end of `ParseClaim`; a VNI that is no int32 has failed in `parse_int`.
unfoldable pub check_vni : Option ℤ → Bytes → Option (ℤ × Bytes)
check_vni none esc = none
check_vni (some n) esc = if valid_vni n then some (n, esc) else none

unfoldable pub split_claim : Bytes → Option (ℤ × Bytes)
unfolding check_vni
split_claim rest = elim (cut rest b'.') [
  | none ↦ none
  | some (vni_str, esc) ↦
      if is_empty vni_str || is_empty esc then none else check_vni (parse_int vni_str) esc
]

-- `ParseClaim`; `none` where `ok` is false.
unfoldable pub parse_claim : Bytes → Bytes → Option (ℤ × Bytes)
unfolding split_claim
parse_claim prefix name = elim (cut_prefix name prefix) [
  | none ↦ none
  | some rest ↦ split_claim rest
]
