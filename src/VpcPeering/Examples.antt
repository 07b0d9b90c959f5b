-- ===== src/VpcPeering/Examples.antt =====
-- Two halves of a peering.
use cozyplane.Base.{
  ◌≡◌, refl, true, false, [], ◌∷◌, Option, none, some, inl, inr, Bytes, codes, cut, str_eq,
  is_empty, Bool-cases, arith, pos, if◌then◌else◌,
}
use mathlib.Core.Path.{subst}
use cozyplane.Grants.{VpcRef}
use cozyplane.VpnLimits.{Library, object_name, namespace_name, peering_references}
use cozyplane.Cidr.{
  Addr, Prefix, masked, contains, overlap_prefix, parsed, insert_prefix, sort_prefixes,
  keep_disjoint, around, meets, any_meets, cidrs_overlap,
}
use cozyplane.Cidr.Parsed.{Valid}
use cozyplane.Cidr.Overlap.{Shared}
use cozyplane.VpcPeering.{
  PeerVpc, Half, peering_ready, PeeringStatus, local_ref, matches, all_cidrs, Cluster, first_match,
  find_reciprocal, get_vpc, local_vpc, peer_vpc, status_for, peering_status,
}
use cozyplane.VpcPeering.Ready.{ready_apart, halves_agree}

-- Stand-ins of the libraries: every name is an object's, and two ranges are known.
abbrev names : Library
names = record {
  is_subdomain = λ s. true;
  is_label = λ s. true;
  decode = λ s. none;
  split_host_port = λ s. cut s b':';
  parse_prefix = λ s. none;
  masked = λ p. p;
  overlaps = λ p q. str_eq p.address q.address;
  parse_addr = λ s. none;
}

abbrev red_range : Prefix
red_range = record { addr = record { is4 = true; value = 167772160 }; bits = 8 }

abbrev blue_range : Prefix
blue_range = record { addr = record { is4 = true; value = 2886729728 }; bits = 12 }

abbrev known : Bytes → Option Prefix
known s =
    if str_eq s (codes "10.0.0.0/8")
    then some red_range
    else if str_eq s (codes "172.16.0.0/12")
    then some blue_range
    else none

known-Valid : (s : Bytes) (p : Prefix) → known s ≡ some p → Valid p
known-Valid s p h = elim (Bool-cases (str_eq s (codes "10.0.0.0/8"))) [
  | inl e ↦ let same : red_range ≡ p = ground arith in subst Valid same (omega arith, omega arith)
  | inr e ↦ elim (Bool-cases (str_eq s (codes "172.16.0.0/12"))) [
    | inl f ↦
        let same : blue_range ≡ p = ground arith in subst Valid same (omega arith, omega arith)
    | inr f ↦ absurd (ground arith)
  ]
]

abbrev red : VpcRef
red = record { namespace = codes "red"; name = codes "net" }

abbrev blue : VpcRef
blue = record { namespace = codes "blue"; name = codes "net" }

abbrev red_half : Half
red_half = record {
  is_deleted = false;
  namespace = codes "red";
  vpc_name = codes "net";
  peer = blue;
}

abbrev blue_half : Half
blue_half = record {
  is_deleted = false;
  namespace = codes "blue";
  vpc_name = codes "net";
  peer = red;
}

abbrev red_vpc : PeerVpc
red_vpc = record { is_deleted = false; vni = pos 100; cidrs = codes "10.0.0.0/8" ∷ [] }

abbrev blue_vpc : PeerVpc
blue_vpc = record { is_deleted = false; vni = pos 101; cidrs = codes "172.16.0.0/12" ∷ [] }

abbrev cluster : Cluster
cluster = record {
  names = names;
  cidr_ok = λ s. true;
  parse_prefix = known;
  read_vpc = λ r. if str_eq r.namespace (codes "red") then some red_vpc else some blue_vpc;
  list_pair = λ r s.
      if str_eq r.namespace (codes "red") then some (red_half ∷ []) else some (blue_half ∷ []);
}

abbrev red_status : PeeringStatus
red_status = record {
  phase = peering_ready;
  peer_vni = pos 101;
  is_matched = true;
  is_vpc_ready = true;
  is_peer_ready = true;
  is_disjoint = true;
}

abbrev blue_status : PeeringStatus
blue_status = record {
  phase = peering_ready;
  peer_vni = pos 100;
  is_matched = true;
  is_vpc_ready = true;
  is_peer_ready = true;
  is_disjoint = true;
}

red_half-status : peering_status cluster red_half ≡ some red_status
unfolding peering_status find_reciprocal first_match get_vpc status_for peering_references
    namespace_name object_name all_cidrs str_eq is_empty cidrs_overlap any_meets meets around
    keep_disjoint sort_prefixes insert_prefix parsed overlap_prefix contains masked
red_half-status = refl

blue_half-status : peering_status cluster blue_half ≡ some blue_status
unfolding peering_status find_reciprocal first_match get_vpc status_for peering_references
    namespace_name object_name all_cidrs str_eq is_empty cidrs_overlap any_meets meets around
    keep_disjoint sort_prefixes insert_prefix parsed overlap_prefix contains masked
blue_half-status = refl

red_half-local : local_vpc cluster red_half ≡ some red_vpc
unfolding get_vpc peering_references namespace_name object_name is_empty str_eq
red_half-local = refl

red_half-peer : peer_vpc cluster red_half ≡ some blue_vpc
unfolding get_vpc peering_references namespace_name object_name is_empty str_eq
red_half-peer = refl

abbrev one_address : Addr
one_address = record { is4 = true; value = 167772161 }

ready_apart_example : ¬ (
    Shared one_address (parsed known red_vpc.cidrs)
    × Shared one_address (parsed known blue_vpc.cidrs))
ready_apart_example =
    ready_apart cluster red_half red_status red_vpc blue_vpc one_address known-Valid red_half-status
      refl red_half-local red_half-peer (omega arith)

halves-matches : matches red_half blue_half ≡ true
unfolding str_eq
halves-matches = refl

red_half-listed : cluster.list_pair red_half.peer (local_ref red_half) ≡ some (blue_half ∷ [])
unfolding str_eq
red_half-listed = refl

blue_half-listed : cluster.list_pair blue_half.peer (local_ref blue_half) ≡ some (red_half ∷ [])
unfolding str_eq
blue_half-listed = refl

halves_agree_example : red_status.phase ≡ blue_status.phase
halves_agree_example =
    halves_agree cluster red_half blue_half red_status blue_status (blue_half ∷ []) (red_half ∷ [])
      known-Valid halves-matches red_half-listed blue_half-listed (inl refl) (inl refl)
      red_half-status blue_half-status
