-- ===== src/VpnLimits/Examples.antt =====
-- Specifications at which the limits are met, and those of the properties at them.
use cozyplane.Base.{
  ◌≤◌, ◌≡◌, ◌≢◌, ◌↔◌, ◌⊎◌, refl, true, false, List, [], ◌∷◌, none, some, Bytes, codes, cut, str_eq,
  is_empty, length, All, replicate, pos,
}
use cozyplane.VpnLimits.{Library, object_name}
use cozyplane.VpnLimits.Peer.{WireGuardPeer, wire_guard_peer_problem}
use cozyplane.VpnLimits.Peer.Exact.{OneKey, TwoKeys, Keepalive, wire_guard_peer_exact}
use cozyplane.VpnLimits.Pools.{
  WireGuardAddressPool, has_name, overlaps_any, dns_problems, pool_prefix, pools_from,
  wire_guard_address_pools_problem,
}
use cozyplane.VpnLimits.Pools.Disjoint.{Good, Apart, Pairwise, pools_sound}
use cozyplane.VpnLimits.Client.{wire_guard_client_problem}
use cozyplane.VpnLimits.Client.Exact.{Permitted, Distinct, wire_guard_client_exact}
use cozyplane.VpnLimits.Gateway.{
  VpnGateway, vpn_gateway_input_problem, gateway_refs, RouteStatus, blackhole_vpn_routes, ha_mode,
  client_gateway_problem, additional_vpcs, ipsec_spec_problem, ipsec_pools_problem, warm_standby,
  neighbors_problem, routes_bounded, retained,
}
use cozyplane.VpnLimits.Gateway.References.{
  IsReference, IpsecReferences, HaReferences, vpn_gateway_sound,
}
use cozyplane.VpnLimits.Gateway.Routes.{Blackholed, prefixes_of, blackhole_sound}

-- A stand-in of the libraries: every name is one of an object, keys decode to 32 zeros, and a
-- range is its text.
abbrev lib : Library
lib = record {
  is_subdomain = λ s. true;
  is_label = λ s. true;
  decode = λ s. some (replicate 32 0);
  split_host_port = λ s. cut s b':';
  parse_prefix = λ s. some (record { address = s; bits = 24; is_mapped = false });
  masked = λ p. p;
  overlaps = λ p q. str_eq p.address q.address;
  parse_addr = λ s.
      some (record { zone = []; is_mapped = false; is_unspecified = false; is_multicast = false });
}

abbrev peer : WireGuardPeer
peer = record {
  public_key = replicate 44 65;
  public_keys = [];
  endpoint = [];
  endpoints = [];
  keepalive = pos 25;
}

wire_guard_peer_exact_example :
    (wire_guard_peer_problem lib peer ≡ none)
    ↔ ((OneKey lib peer ⊎ TwoKeys lib peer) × Keepalive peer)
wire_guard_peer_exact_example = wire_guard_peer_exact lib peer

abbrev pool : Bytes → Bytes → WireGuardAddressPool
pool name cidr = record { name = name; cidr = cidr; dns = codes "10.0.0.1" ∷ [] }

abbrev two_pools : List WireGuardAddressPool
two_pools = pool (codes "a") (codes "10.1.0.0/24") ∷ pool (codes "b") (codes "10.2.0.0/24") ∷ []

two_pools_pass : wire_guard_address_pools_problem lib two_pools ≡ none
unfolding wire_guard_address_pools_problem pools_from object_name has_name overlaps_any dns_problems
    pool_prefix str_eq is_empty
two_pools_pass = refl

pools_sound_example :
    (length two_pools ≤ 128) × All (Good lib) two_pools × Pairwise (Apart lib) two_pools
pools_sound_example = pools_sound lib two_pools two_pools_pass

wire_guard_client_exact_example :
    (wire_guard_client_problem lib peer (codes "a" ∷ []) (codes "net" ∷ []) [] ≡ none)
    ↔ Permitted lib peer (codes "a" ∷ []) (codes "net" ∷ []) []
wire_guard_client_exact_example =
    wire_guard_client_exact lib peer (codes "a" ∷ []) (codes "net" ∷ []) []

abbrev gateway : VpnGateway
gateway = record {
  vpc_ref = codes "net";
  additional_vpc_refs = codes "more" ∷ codes "yet" ∷ [];
  address_claim_name = codes "claim";
  address_claim_names = codes "left" ∷ codes "right" ∷ [];
  wire_guard = none;
  ipsec = some (record {
    address_pools = [];
    credential_secret_ref = codes "key";
    trusted_ca_secret_ref = codes "ca";
  });
  ha = some (record {
    mode = warm_standby;
    active_active_peers = none;
    virtual_machine = some (record { state_claim_name = codes "disk"; cloud_init_secret_ref = [] });
  });
  high_availability = true;
}

gateway_passes : vpn_gateway_input_problem lib gateway ≡ none
unfolding vpn_gateway_input_problem client_gateway_problem additional_vpcs ipsec_spec_problem
    ipsec_pools_problem neighbors_problem ha_mode gateway_refs object_name has_name str_eq is_empty
gateway_passes = refl

vpn_gateway_sound_example :
    (length gateway.additional_vpc_refs ≤ 9)
    × Distinct lib gateway.additional_vpc_refs
    × All (λ m. gateway.vpc_ref ≢ m) gateway.additional_vpc_refs
    × (length gateway.address_claim_names ≤ 2)
    × All (λ m. object_name lib m ≡ true) gateway.address_claim_names
    × (IsReference lib gateway.vpc_ref
        × IsReference lib gateway.address_claim_name
        × IpsecReferences lib gateway.ipsec
        × HaReferences lib gateway.ha)
vpn_gateway_sound_example = vpn_gateway_sound lib gateway gateway_passes

abbrev some_routes : List RouteStatus
some_routes =
    record { vpc_ref = codes "net"; cidrs = []; port = codes "gw-1"; ports = [] }
    ∷ record {
      vpc_ref = codes "net";
      cidrs = codes "10.9.0.0/16" ∷ [];
      port = codes "gw-1";
      ports = [];
    }
    ∷ []

abbrev kept_routes : List RouteStatus
kept_routes =
    record { vpc_ref = codes "net"; cidrs = codes "10.9.0.0/16" ∷ []; port = []; ports = [] } ∷ []

routes_kept : blackhole_vpn_routes some_routes ≡ some kept_routes
unfolding blackhole_vpn_routes routes_bounded retained
routes_kept = refl

blackhole_sound_example :
    (prefixes_of kept_routes ≡ prefixes_of some_routes)
    × (length (prefixes_of some_routes) ≤ 4096)
    × All (λ r. All (λ c. length c ≤ 64) r.cidrs) some_routes
    × All Blackholed kept_routes
blackhole_sound_example = blackhole_sound some_routes kept_routes routes_kept
