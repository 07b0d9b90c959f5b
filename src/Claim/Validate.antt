-- ===== src/Claim/Validate.antt =====
-- pkg/registry/sdn/port/strategy.go and pkg/registry/sdn/servicevip/strategy.go: the part of
-- `Validate` that pins the name of a claim to the address that it holds.
use cozyplane.Base.{
  ◌≡◌, Bool, true, false, ◌∷◌, ◌++◌, Option, none, some, Bytes, str_eq, str_eq_iff, inl, inr,
  Option-cases, arith,
}
use cozyplane.Claim.Decimal.{format_int}
use cozyplane.Claim.Name.{
  claim_prefix_port, claim_prefix_service_vip, port_name, service_vip_name, parse_claim, escape_ip,
}
use cozyplane.Claim.Store.{ClaimObject, port, service_vip, unsupported}
use cozyplane.Claim.Create.{returned, twin_name}

-- The kinds of claims, and the parts of the names that differ.
pub data Kind : Type 0 where
  ports vips : Kind

abbrev pub tag : Kind → Bytes
tag ports = claim_prefix_port
tag vips = claim_prefix_service_vip

abbrev pub other : Kind → Kind
other ports = vips
other vips = ports

-- The name of the object, by its kind.
abbrev pub IsNamed : Kind → Bytes → ClaimObject → Type 0
IsNamed ports name (port p) = p.name ≡ name
IsNamed vips name (service_vip n ip) = n ≡ name
IsNamed k name o = ⊥

module _ (addr16 : Bytes → Option Bytes) where
  -- The checks on `metadata.name` of both strategies.
  unfoldable pub name_pinned : ClaimObject → Bool
  name_pinned (port p) = elim (parse_claim claim_prefix_port p.name) [
    | none ↦ false
    | some (vni, esc) ↦ str_eq p.name (port_name addr16 vni p.ip)
  ]
  name_pinned (service_vip name ip) = elim (parse_claim claim_prefix_service_vip name) [
    | none ↦ false
    | some (vni, esc) ↦ str_eq name (service_vip_name addr16 vni ip)
  ]
  name_pinned unsupported = false

  -- The name of an accepted claim, and the name that `Create` asks about, end alike: both are the
  -- kind's letters before the same VNI and address.
  pub pinned_twin :
      (o : ClaimObject)
      → name_pinned o ≡ true
      → (k : Kind) × (address : Bytes) × IsNamed k (tag k ++ address) o
        × (twin_name addr16 o ≡ returned (tag (other k) ++ address))
  unfolding name_pinned twin_name port_name service_vip_name
  pinned_twin (port p) h = elim (Option-cases (parse_claim claim_prefix_port p.name)) [
    | inl e ↦ absurd (ground arith)
    | inr ((v, esc), e) ↦ (
      ports,
      format_int v ++ b'.' ∷ escape_ip addr16 p.ip,
      (str_eq_iff p.name _).0 (ground arith),
      rw (e, twin_name),
    )
  ]
  pinned_twin (service_vip name ip) h =
      elim (Option-cases (parse_claim claim_prefix_service_vip name)) [
        | inl e ↦ absurd (ground arith)
        | inr ((v, esc), e) ↦ (
          vips,
          format_int v ++ b'.' ∷ escape_ip addr16 ip,
          (str_eq_iff name _).0 (ground arith),
          rw (e, twin_name),
        )
      ]
  pinned_twin unsupported h = cc
