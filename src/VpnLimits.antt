-- ===== src/VpnLimits.antt =====
-- internal/vpnlimits: the limits on VPN specifications that admission, the controllers and the
-- agents check, and internal/controller/sdn/vpngateway_limits.go, which uses them.
-- What is called of other packages is the record `Library`; a problem is its message, by a name.
pub mod Peer
pub mod Pools
pub mod Client
pub mod Ipsec
pub mod Gateway
pub mod Examples
use cozyplane.Base.{
  ℕ, Bool, true, false, ◌&&◌, ◌||◌, not, List, [], ◌∷◌, Option, none, some, Bytes, is_empty, leb,
  length, if◌then◌else◌,
}

abbrev pub route_prefixes : ℕ
route_prefixes = 4096

abbrev pub route_prefix_bytes : ℕ
route_prefix_bytes = 64

abbrev pub address_pools : ℕ
address_pools = 128

abbrev pub pool_dns_servers : ℕ
pool_dns_servers = 16

abbrev pub bgp_neighbors : ℕ
bgp_neighbors = 64

-- `netip.Prefix` as `ParsePrefix` gives it, and what is asked of `netip.Addr`.
pub record Prefix : Type 0 where
  pub address : Bytes
  pub bits : ℕ
  pub is_mapped : Bool

pub record Addr : Type 0 where
  pub zone : Bytes
  pub is_mapped : Bool
  pub is_unspecified : Bool
  pub is_multicast : Bool

-- `validation.IsDNS1123Subdomain` and `IsDNS1123Label` (no complaint), the strict base64 decoder,
-- `net.SplitHostPort`, and `netip`.
pub record Library : Type 0 where
  pub is_subdomain : Bytes → Bool
  pub is_label : Bytes → Bool
  pub decode : Bytes → Option Bytes
  pub split_host_port : Bytes → Option (Bytes × Bytes)
  pub parse_prefix : Bytes → Option Prefix
  pub masked : Prefix → Prefix
  pub overlaps : Prefix → Prefix → Bool
  pub parse_addr : Bytes → Option Addr

-- A message that is not the empty string.
pub data Problem : Type 0 where
  collections_exceed_two both_key_forms key_missing bad_key bad_paired_key both_endpoint_forms :
      Problem
  endpoints_mismatch bad_endpoint bad_paired_endpoint bad_keepalive : Problem
  too_many_pools bad_pool_name duplicate_pool_name long_cidr bad_cidr overlapping_pools : Problem
  too_many_dns long_dns bad_dns : Problem
  client_remote_cidrs client_endpoints client_pool_count bad_client_pool same_client_pool : Problem
  client_vpc_count bad_client_vpc duplicate_client_vpc : Problem
  empty_pool_name long_pool_name too_many_proposals long_proposal long_address long_identity :
      Problem
  not_client_gateway too_many_vpcs bad_vpc hub_migration too_many_claims bad_claim bad_reference :
      Problem
  active_pools too_many_neighbors : Problem

-- The early returns of a chain of checks.
infixl 40 ◌then_check◌
abbrev pub ◌then_check◌ : Option Problem → Option Problem → Option Problem
a then_check b = elim a [ none ↦ b | some p ↦ some p ]

abbrev pub problem_if : Bool → Problem → Option Problem
problem_if b p = if b then some p else none

-- `return problem` at the first element that a test refuses.
module _ {ℓ} {A : Type ℓ} where
  abbrev pub check_all : (A → Bool) → Problem → List A → Option Problem
  check_all ok p [] = none
  check_all ok p (x ∷ xs) = if ok x then check_all ok p xs else some p

module _ (lib : Library) where
  -- `ObjectName` and `NamespaceName`.
  unfoldable pub object_name : Bytes → Bool
  object_name name = not (is_empty name) && leb (length name) 253 && lib.is_subdomain name

  unfoldable pub namespace_name : Bytes → Bool
  namespace_name name = not (is_empty name) && leb (length name) 63 && lib.is_label name

  -- `PeeringReferences` and `GroupReference`.
  unfoldable pub peering_references : Bytes → Bytes → Bytes → Bytes → Bool
  peering_references namespace local peer_namespace peer =
      namespace_name namespace
      && object_name local
      && namespace_name peer_namespace
      && object_name peer

  unfoldable pub group_reference : Bytes → Bytes → Bytes → Bool
  group_reference group namespace name =
      object_name group
      && ((is_empty namespace && is_empty name) || (namespace_name namespace && object_name name))

-- A field's error: `field.Required` or `field.Invalid`.
pub data FieldError : Type 0 where
  required invalid : FieldError

module _ (lib : Library) where
  -- `NamespaceReferenceErrors` and `ReferenceErrors`, whose lists have one error at most.
  unfoldable pub namespace_reference_errors : Bytes → Option FieldError
  namespace_reference_errors name =
      if not (is_empty name) && not (namespace_name lib name) then some invalid else none

  unfoldable pub reference_errors : Bytes → Bool → Option FieldError
  reference_errors name is_required =
      if is_empty name
      then if is_required then some required else none
      else if not (object_name lib name)
      then some invalid
      else none
