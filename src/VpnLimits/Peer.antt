-- ===== src/VpnLimits/Peer.antt =====
-- internal/vpnlimits/wireguard.go.
pub mod Exact
use cozyplane.Base.{
  ℕ, ◌-◌, ◌+◌, Bool, true, false, ◌&&◌, ◌||◌, not, List, [], ◌∷◌, Option, none, some, Bytes,
  is_empty, str_eq, leb, ltb, ◌==◌, length, take, drop, if◌then◌else◌, ℤ, pos, ltb_ℤ,
}
use cozyplane.Claim.Decimal.{parse_uint}
use cozyplane.VpnLimits.{
  Library, Problem, collections_exceed_two, both_key_forms, key_missing, bad_key, bad_paired_key,
  both_endpoint_forms, endpoints_mismatch, bad_endpoint, bad_paired_endpoint, bad_keepalive,
  ◌then_check◌, problem_if, check_all,
}
use cozyplane.Responder.Answer.{trim_suffix}

-- `WireGuardPeer`.
pub record WireGuardPeer : Type 0 where
  pub public_key : Bytes
  pub public_keys : List Bytes
  pub endpoint : Bytes
  pub endpoints : List Bytes
  pub keepalive : ℤ

module _ (lib : Library) where
  -- `WireGuardKey`.
  unfoldable pub wire_guard_key : Bytes → Bool
  wire_guard_key value =
      (length value == 44) && elim (lib.decode value) [ none ↦ false | some raw ↦ length raw == 32 ]

  -- `WireGuardSecretKey`; `none` where it returns false.
  unfoldable pub wire_guard_secret_key : Bytes → Option Bytes
  wire_guard_secret_key value =
      if ltb (length value) 44 || ltb 46 (length value)
      then none
      else let trimmed = trim_suffix (trim_suffix value (13 ∷ 10 ∷ [])) (10 ∷ []) in
        if not (wire_guard_key trimmed) then none else some trimmed

  -- `ParseUint(port, 10, 16)` with no error, and not 0.
  abbrev port_ok : Bytes → Bool
  port_ok port = elim (parse_uint port) [ none ↦ false | some n ↦ leb n 65535 && not (n == 0) ]

  -- `WireGuardEndpoint`.
  unfoldable pub wire_guard_endpoint : Bytes → Bool
  wire_guard_endpoint value =
      if is_empty value
      then true
      else if ltb 512 (length value)
      then false
      else elim (lib.split_host_port value) [
        | none ↦ false
        | some (host, port) ↦ if is_empty host then false else port_ok port
      ]

  -- `WireGuardPeerProblem`; the empty string is `none`.
  unfoldable pub wire_guard_peer_problem : WireGuardPeer → Option Problem
  wire_guard_peer_problem p =
      problem_if (ltb 2 (length p.public_keys) || ltb 2 (length p.endpoints)) collections_exceed_two
      then_check problem_if (not (is_empty p.public_key) && not (length p.public_keys == 0))
          both_key_forms
      then_check problem_if (is_empty p.public_key && not (length p.public_keys == 2)) key_missing
      then_check problem_if (not (is_empty p.public_key) && not (wire_guard_key p.public_key))
          bad_key
      then_check check_all wire_guard_key bad_paired_key p.public_keys
      then_check problem_if
          (not (is_empty p.endpoint)
            && (not (length p.public_keys == 0) || not (length p.endpoints == 0)))
          both_endpoint_forms
      then_check problem_if
          (not (length p.endpoints == 0) && not (length p.endpoints == length p.public_keys))
          endpoints_mismatch
      then_check problem_if (not (wire_guard_endpoint p.endpoint)) bad_endpoint
      then_check check_all wire_guard_endpoint bad_paired_endpoint p.endpoints
      then_check problem_if (ltb_ℤ p.keepalive (pos 0) || ltb_ℤ (pos 65535) p.keepalive)
          bad_keepalive
