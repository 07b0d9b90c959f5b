-- ===== src/VpcPeering.antt =====
-- internal/controller/sdn/vpcpeering_controller.go: when a half of a peering is ready. A condition is its
-- truth; its texts and its times are left out.
pub mod Ready
pub mod Examples
use cozyplane.Base.{
  ℕ, ◌^◌, Bool, true, false, ◌&&◌, ◌||◌, not, List, [], ◌∷◌, Option, none, some, Bytes, str_eq, ltb,
  length, if◌then◌else◌, ℤ, pos, ltb_ℤ, leb_ℤ,
}
use cozyplane.Base.Api.{
  Read, found, not_found, read_error, Written, wrote, conflict, already_exists, write_error,
}
use cozyplane.Grants.{VpcRef}
use cozyplane.Claim.Guard.{ref_eq}
use cozyplane.VpnLimits.{Library, object_name, namespace_name, peering_references}
use cozyplane.Cidr.{Prefix, cidrs_overlap}

-- A VPC and a half, by the fields that are read.
pub record PeerVpc : Type 0 where
  pub is_deleted : Bool
  pub vni : ℤ
  pub cidrs : List Bytes

pub record Half : Type 0 where
  pub is_deleted : Bool
  pub namespace : Bytes
  pub vpc_name : Bytes
  pub peer : VpcRef

pub data PeeringPhase : Type 0 where
  peering_pending peering_ready : PeeringPhase

pub record PeeringStatus : Type 0 where
  pub phase : PeeringPhase
  pub peer_vni : ℤ
  pub is_matched : Bool
  pub is_vpc_ready : Bool
  pub is_peer_ready : Bool
  pub is_disjoint : Bool

-- `LocalRef` and `Matches`.
abbrev pub local_ref : Half → VpcRef
local_ref p = record { namespace = p.namespace; name = p.vpc_name }

abbrev pub matches : Half → Half → Bool
matches p other =
    not p.is_deleted
    && not other.is_deleted
    && ref_eq (local_ref other) p.peer
    && ref_eq (local_ref p) other.peer

-- `ValidateVPCCIDRs`, with `net.ParseCIDR`; an error is false.
abbrev pub max_vpc_cidrs : ℕ
max_vpc_cidrs = 1024

abbrev pub max_vpc_cidr_bytes : ℕ
max_vpc_cidr_bytes = 64

unfoldable pub all_cidrs : (Bytes → Bool) → List Bytes → Bool
all_cidrs cidr_ok [] = true
all_cidrs cidr_ok (c ∷ cs) =
    not (ltb max_vpc_cidr_bytes (length c)) && cidr_ok c && all_cidrs cidr_ok cs

abbrev pub validate_vpc_cidrs : (Bytes → Bool) → List Bytes → Bool
validate_vpc_cidrs cidr_ok cidrs = not (ltb max_vpc_cidrs (length cidrs)) && all_cidrs cidr_ok cidrs

-- `vpcReady`.
abbrev pub vpc_ready : (Bytes → Bool) → Option PeerVpc → Bool
vpc_ready cidr_ok none = false
vpc_ready cidr_ok (some v) =
    not v.is_deleted
    && ltb_ℤ (pos 0) v.vni
    && ltb_ℤ v.vni (pos (2 ^ 22))
    && validate_vpc_cidrs cidr_ok v.cidrs

-- What the controller calls: the VPC of a reference, if its read succeeds, and the halves that the
-- cache's index answers with for a pair, with `none` for an error.
pub record Cluster : Type 0 where
  pub names : Library
  pub cidr_ok : Bytes → Bool
  pub parse_prefix : Bytes → Option Prefix
  pub read_vpc : VpcRef → Option PeerVpc
  pub list_pair : VpcRef → VpcRef → Option (List Half)

-- `PeeringReferences` of a half.
abbrev pub has_references : Cluster → Half → Bool
has_references c p = peering_references c.names p.namespace p.vpc_name p.peer.namespace p.peer.name

-- The loop of `findReciprocal`.
unfoldable pub first_match : Half → List Half → Bool
first_match p [] = false
first_match p (other ∷ halves) = matches p other || first_match p halves

-- `findReciprocal`; an error is `none`.
unfoldable pub find_reciprocal : Cluster → Half → Option Bool
find_reciprocal c p =
    if not (has_references c p) then some false else elim (c.list_pair p.peer (local_ref p)) [
      | none ↦ none
      | some halves ↦ some (first_match p halves)
    ]

-- `getVPC`.
unfoldable pub get_vpc : Cluster → VpcRef → Option PeerVpc
get_vpc c r =
    if not (namespace_name c.names r.namespace) || not (object_name c.names r.name)
    then none
    else c.read_vpc r

abbrev pub local_vpc : Cluster → Half → Option PeerVpc
local_vpc c p = if has_references c p then get_vpc c (local_ref p) else none

abbrev pub peer_vpc : Cluster → Half → Option PeerVpc
peer_vpc c p = if has_references c p then get_vpc c p.peer else none

-- `disjoint` and the rest of the status.
abbrev pub overlap_of : Cluster → Option PeerVpc → Option PeerVpc → Bool
overlap_of c none v = false
overlap_of c (some u) none = false
overlap_of c (some u) (some v) = cidrs_overlap c.parse_prefix u.cidrs v.cidrs

abbrev pub vni_of : Option PeerVpc → ℤ
vni_of none = pos 0
vni_of (some v) = v.vni

unfoldable pub status_for : Cluster → Half → Bool → PeeringStatus
status_for c p is_matched =
    let u = local_vpc c p in
    let v = peer_vpc c p in
    let ready = vpc_ready c.cidr_ok u && vpc_ready c.cidr_ok v in
    let disjoint = ready && not (overlap_of c u v) in
    record {
      phase = (if is_matched && ready && disjoint then peering_ready else peering_pending);
      peer_vni = vni_of v;
      is_matched = is_matched;
      is_vpc_ready = vpc_ready c.cidr_ok u;
      is_peer_ready = vpc_ready c.cidr_ok v;
      is_disjoint = disjoint;
    }

-- What `Reconcile` computes for a half; an error is `none`.
unfoldable pub peering_status : Cluster → Half → Option PeeringStatus
peering_status c p = elim (find_reciprocal c p) [ none ↦ none | some m ↦ some (status_for c p m) ]
