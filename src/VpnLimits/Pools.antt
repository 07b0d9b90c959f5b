-- ===== src/VpnLimits/Pools.antt =====
-- The address pools of internal/vpnlimits/wireguard_client.go.
pub mod Disjoint
use cozyplane.Base.{
  ℕ, Bool, true, false, ◌&&◌, ◌||◌, not, List, [], ◌∷◌, Option, none, some, Bytes, is_empty, str_eq,
  leb, ltb, length, if◌then◌else◌,
}
use cozyplane.VpnLimits.{
  Library, Prefix, Addr, Problem, too_many_pools, bad_pool_name, duplicate_pool_name, long_cidr,
  bad_cidr, overlapping_pools, too_many_dns, long_dns, bad_dns, ◌then_check◌, problem_if, check_all,
  object_name, address_pools, pool_dns_servers, route_prefix_bytes,
}

-- `WireGuardAddressPool`.
pub record WireGuardAddressPool : Type 0 where
  pub name : Bytes
  pub cidr : Bytes
  pub dns : List Bytes

-- A key of a map from strings.
unfoldable pub has_name : List Bytes → Bytes → Bool
has_name [] name = false
has_name (n ∷ names) name = str_eq n name || has_name names name

-- The test on one DNS server's address, after that on its length.
abbrev pub unicast : Option Addr → Bool
unicast none = false
unicast (some a) = is_empty a.zone && not a.is_mapped && not a.is_unspecified && not a.is_multicast

module _ (lib : Library) where
  abbrev pub dns_problem : Bytes → Option Problem
  dns_problem dns =
      problem_if (ltb route_prefix_bytes (length dns)) long_dns
      then_check problem_if (not (unicast (lib.parse_addr dns))) bad_dns

  unfoldable pub dns_problems : List Bytes → Option Problem
  dns_problems [] = none
  dns_problems (dns ∷ servers) = dns_problem dns then_check dns_problems servers

  -- The prefix of a pool that passes the checks up to that on overlaps.
  unfoldable pub pool_prefix : Bytes → Option Prefix
  pool_prefix cidr = elim (lib.parse_prefix cidr) [
    | none ↦ none
    | some prefix ↦ if prefix.is_mapped then none else some (lib.masked prefix)
  ]

  unfoldable pub overlaps_any : Prefix → List Prefix → Bool
  overlaps_any prefix [] = false
  overlaps_any prefix (previous ∷ prefixes) =
      lib.overlaps prefix previous || overlaps_any prefix prefixes

  -- The loop over the pools, with the names and the prefixes that it has seen, the latest first.
  unfoldable pub pools_from : List Bytes → List Prefix → List WireGuardAddressPool → Option Problem
  pools_from names prefixes [] = none
  pools_from names prefixes (pool ∷ pools) =
      let prefix = pool_prefix pool.cidr in
      problem_if (not (object_name lib pool.name)) bad_pool_name
      then_check problem_if (has_name names pool.name) duplicate_pool_name
      then_check problem_if (ltb route_prefix_bytes (length pool.cidr)) long_cidr
      then_check elim prefix [
        | none ↦ some bad_cidr
        | some prefix ↦
            problem_if (overlaps_any prefix prefixes) overlapping_pools
            then_check problem_if (ltb pool_dns_servers (length pool.dns)) too_many_dns
            then_check dns_problems pool.dns
            then_check pools_from (pool.name ∷ names) (prefix ∷ prefixes) pools
      ]

  -- `WireGuardAddressPoolsProblem`.
  unfoldable pub wire_guard_address_pools_problem : List WireGuardAddressPool → Option Problem
  wire_guard_address_pools_problem pools =
      problem_if (ltb address_pools (length pools)) too_many_pools then_check pools_from [] [] pools
