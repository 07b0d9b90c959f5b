-- ===== src/VpnLimits/Gateway.antt =====
-- internal/controller/sdn/vpngateway_limits.go: what the controller refuses of a gateway and of a
-- connection before it acts on them, and the routes that it keeps while authorization is drained.
pub mod References
pub mod Routes
use cozyplane.Base.{
  ℕ, ◌+◌, ◌-◌, Bool, true, false, ◌&&◌, ◌||◌, not, List, [], ◌∷◌, ◌++◌, Option, none, some, Bytes,
  is_empty, leb, ltb, ◌==◌, length, if◌then◌else◌,
}
use cozyplane.VpnLimits.{
  Library, Problem, not_client_gateway, too_many_pools, too_many_vpcs, bad_vpc, hub_migration,
  too_many_claims, bad_claim, bad_reference, active_pools, too_many_dns, too_many_neighbors,
  ◌then_check◌, problem_if, check_all, object_name, address_pools, pool_dns_servers, bgp_neighbors,
  route_prefixes,
}
use cozyplane.VpnLimits.Pools.{WireGuardAddressPool, has_name, wire_guard_address_pools_problem}
use cozyplane.VpnLimits.Ipsec.{ipsec_pool_name_problem}

-- The modes of high availability; `no_mode` is the empty string.
pub data HaMode : Type 0 where
  no_mode warm_standby active_active live_migration : HaMode

pub record IpsecPool : Type 0 where
  pub name : Bytes
  pub dns : List Bytes

-- The specification's parts that are read; an absent pointer is `none`.
pub record IpsecSpec : Type 0 where
  pub address_pools : List IpsecPool
  pub credential_secret_ref : Bytes
  pub trusted_ca_secret_ref : Bytes

pub record VirtualMachine : Type 0 where
  pub state_claim_name : Bytes
  pub cloud_init_secret_ref : Bytes

pub record HaSpec : Type 0 where
  pub mode : HaMode
  pub active_active_peers : Option (List Bytes)
  pub virtual_machine : Option VirtualMachine

pub record VpnGateway : Type 0 where
  pub vpc_ref : Bytes
  pub additional_vpc_refs : List Bytes
  pub address_claim_name : Bytes
  pub address_claim_names : List Bytes
  pub wire_guard : Option (List WireGuardAddressPool)
  pub ipsec : Option IpsecSpec
  pub ha : Option HaSpec
  pub high_availability : Bool

-- `haMode`.
unfoldable pub ha_mode : VpnGateway → HaMode
ha_mode gw = elim gw.ha [
  | some ha ↦ ha.mode
  | none ↦ if gw.high_availability then warm_standby else no_mode
]

abbrev is_single_or_warm : HaMode → Bool
is_single_or_warm no_mode = true
is_single_or_warm warm_standby = true
is_single_or_warm m = false

abbrev is_migration : HaMode → Bool
is_migration live_migration = true
is_migration m = false

abbrev is_active_active : HaMode → Bool
is_active_active active_active = true
is_active_active m = false

module _ {ℓ} {A : Type ℓ} where
  abbrev present : Option A → Bool
  present none = false
  present (some a) = true

module _ (lib : Library) where
  -- A reference that is empty or an object's name.
  abbrev pub reference_ok : Bytes → Bool
  reference_ok ref = is_empty ref || object_name lib ref

  -- The pools of a WireGuard gateway for clients.
  unfoldable pub client_gateway_problem : VpnGateway → Option Problem
  client_gateway_problem gw = elim gw.wire_guard [
    | none ↦ none
    | some pools ↦
        if length pools == 0
        then none
        else problem_if (present gw.ipsec || not (is_single_or_warm (ha_mode gw)))
            not_client_gateway
          then_check problem_if (ltb address_pools (length pools)) too_many_pools
          then_check wire_guard_address_pools_problem lib pools
  ]

  -- The loop over the additional VPCs, with the names that it has seen.
  unfoldable pub additional_vpcs : List Bytes → List Bytes → Option Problem
  additional_vpcs seen [] = none
  additional_vpcs seen (name ∷ names) =
      problem_if (not (object_name lib name) || has_name seen name) bad_vpc
      then_check additional_vpcs (name ∷ seen) names

  -- `refs` of a gateway.
  unfoldable pub gateway_refs : VpnGateway → List Bytes
  gateway_refs gw =
      gw.vpc_ref
      ∷ gw.address_claim_name
      ∷ (gw.address_claim_names
          ++ (elim gw.ipsec [
            | none ↦ []
            | some ipsec ↦ ipsec.credential_secret_ref ∷ ipsec.trusted_ca_secret_ref ∷ []
          ]
              ++ elim gw.ha [
                | none ↦ []
                | some ha ↦ elim ha.virtual_machine [
                  | none ↦ []
                  | some vm ↦ vm.state_claim_name ∷ vm.cloud_init_secret_ref ∷ []
                ]
              ]))

  unfoldable pub ipsec_pools_problem : List IpsecPool → Option Problem
  ipsec_pools_problem [] = none
  ipsec_pools_problem (pool ∷ pools) =
      ipsec_pool_name_problem pool.name true
      then_check problem_if (ltb pool_dns_servers (length pool.dns)) too_many_dns
      then_check ipsec_pools_problem pools

  unfoldable pub ipsec_spec_problem : HaMode → Option IpsecSpec → Option Problem
  ipsec_spec_problem mode none = none
  ipsec_spec_problem mode (some ipsec) =
      problem_if (not (length ipsec.address_pools == 0) && is_active_active mode) active_pools
      then_check problem_if (ltb address_pools (length ipsec.address_pools)) too_many_pools
      then_check ipsec_pools_problem ipsec.address_pools

  unfoldable pub neighbors_problem : Option HaSpec → Option Problem
  neighbors_problem none = none
  neighbors_problem (some ha) = elim ha.active_active_peers [
    | none ↦ none
    | some peers ↦ problem_if (ltb bgp_neighbors (length peers)) too_many_neighbors
  ]

  -- `vpnGatewayInputProblem`.
  unfoldable pub vpn_gateway_input_problem : VpnGateway → Option Problem
  vpn_gateway_input_problem gw =
      client_gateway_problem gw
      then_check problem_if (ltb 9 (length gw.additional_vpc_refs)) too_many_vpcs
      then_check additional_vpcs (gw.vpc_ref ∷ []) gw.additional_vpc_refs
      then_check problem_if (not (length gw.additional_vpc_refs == 0) && is_migration (ha_mode gw))
          hub_migration
      then_check problem_if (ltb 2 (length gw.address_claim_names)) too_many_claims
      then_check check_all (object_name lib) bad_claim gw.address_claim_names
      then_check check_all reference_ok bad_reference (gateway_refs gw)
      then_check ipsec_spec_problem (ha_mode gw) gw.ipsec
      then_check neighbors_problem gw.ha

-- The parts of a connection that are read.
pub record IpsecConnection : Type 0 where
  pub address_pool : Bytes
  pub psk_secret_ref : Bytes
  pub eap_secret_ref : Option Bytes

pub record VpnConnection : Type 0 where
  pub gateway_ref : Bytes
  pub preshared_key_secret_ref : Option Bytes
  pub ipsec : Option IpsecConnection

abbrev list_of : Option Bytes → List Bytes
list_of none = []
list_of (some ref) = ref ∷ []

module _ (lib : Library) where
  unfoldable pub connection_refs : VpnConnection → List Bytes
  connection_refs c =
      c.gateway_ref
      ∷ (list_of c.preshared_key_secret_ref ++ elim c.ipsec [
        | none ↦ []
        | some ipsec ↦ ipsec.psk_secret_ref ∷ list_of ipsec.eap_secret_ref
      ])

  -- `vpnConnectionReferenceProblem`.
  unfoldable pub vpn_connection_reference_problem : VpnConnection → Option Problem
  vpn_connection_reference_problem c =
      elim c.ipsec [ none ↦ none | some ipsec ↦ ipsec_pool_name_problem ipsec.address_pool false ]
      then_check check_all (reference_ok lib) bad_reference (connection_refs c)

-- `VPCGatewayRouteStatus`.
pub record RouteStatus : Type 0 where
  pub vpc_ref : Bytes
  pub cidrs : List Bytes
  pub port : Bytes
  pub ports : List Bytes

abbrev short : List Bytes → Bool
short [] = true
short (cidr ∷ cidrs) = leb (length cidr) 64 && short cidrs

-- The checks of `blackholeVPNRoutes`, with the prefixes that were counted.
unfoldable pub routes_bounded : ℕ → List RouteStatus → Bool
routes_bounded prefixes [] = true
routes_bounded prefixes (route ∷ routes) =
    not (ltb (route_prefixes - prefixes) (length route.cidrs))
    && short route.cidrs
    && routes_bounded (prefixes + length route.cidrs) routes

-- A route's prefixes with no next hop.
abbrev pub blackhole : RouteStatus → RouteStatus
blackhole route = record { vpc_ref = route.vpc_ref; cidrs = route.cidrs; port = []; ports = [] }

unfoldable pub retained : List RouteStatus → List RouteStatus
retained [] = []
retained (route ∷ routes) =
    if not (length route.cidrs == 0) then blackhole route ∷ retained routes else retained routes

-- `blackholeVPNRoutes`; an error is `none`.
unfoldable pub blackhole_vpn_routes : List RouteStatus → Option (List RouteStatus)
blackhole_vpn_routes routes =
    if ltb route_prefixes (length routes) || not (routes_bounded 0 routes)
    then none
    else some (retained routes)
