-- ===== src/VpnLimits/Client.antt =====
-- The clients of internal/vpnlimits/wireguard_client.go.
pub mod Exact
use cozyplane.Base.{
  ℕ, ◌+◌, Bool, true, false, ◌&&◌, ◌||◌, not, List, [], ◌∷◌, Option, none, some, Bytes, is_empty,
  str_eq, leb, ltb, ◌==◌, length, if◌then◌else◌,
}
use cozyplane.VpnLimits.{
  Library, Problem, client_remote_cidrs, client_endpoints, client_pool_count, bad_client_pool,
  same_client_pool, client_vpc_count, bad_client_vpc, duplicate_client_vpc, ◌then_check◌,
  problem_if, object_name,
}
use cozyplane.VpnLimits.Peer.{WireGuardPeer, wire_guard_peer_problem}
use cozyplane.VpnLimits.Pools.{has_name}

module _ (lib : Library) where
  -- The loop over the pools' names: the second must differ from the first.
  unfoldable pub client_pools : ℕ → Bytes → List Bytes → Option Problem
  client_pools i first [] = none
  client_pools i first (name ∷ names) =
      problem_if (not (object_name lib name)) bad_client_pool
      then_check problem_if ((i == 1) && str_eq name first) same_client_pool
      then_check client_pools (i + 1) first names

  -- The loop over the VPCs, with the names that it has seen.
  unfoldable pub client_vpcs : List Bytes → List Bytes → Option Problem
  client_vpcs seen [] = none
  client_vpcs seen (name ∷ names) =
      problem_if (not (object_name lib name)) bad_client_vpc
      then_check problem_if (has_name seen name) duplicate_client_vpc
      then_check client_vpcs (name ∷ seen) names

  -- `WireGuardClientProblem`.
  unfoldable pub wire_guard_client_problem :
      WireGuardPeer → List Bytes → List Bytes → List Bytes → Option Problem
  wire_guard_client_problem peer pools vpcs remote_cidrs =
      problem_if (not (length remote_cidrs == 0)) client_remote_cidrs
      then_check problem_if
          (not (is_empty peer.endpoint)
            || not (length peer.endpoints == 0)
            || not (length peer.public_keys == 0))
          client_endpoints
      then_check wire_guard_peer_problem lib peer
      then_check problem_if (ltb (length pools) 1 || ltb 2 (length pools)) client_pool_count
      then_check client_pools 0 (elim pools [ [] ↦ [] | ◌∷◌ p ps ↦ p ]) pools
      then_check problem_if (ltb (length vpcs) 1 || ltb 10 (length vpcs)) client_vpc_count
      then_check client_vpcs [] vpcs
