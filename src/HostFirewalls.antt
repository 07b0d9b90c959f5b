-- ===== src/HostFirewalls.antt =====
-- cmd/agent/hostfirewall.go: the rows that a node's HostFirewalls are compiled to. What is only logged
-- is left out.
pub mod Ports
pub mod Rows
pub mod Bounds
pub mod Fit
pub mod Examples
use cozyplane.Base.{
  ℕ, zero, suc, ◌+◌, Bool, true, false, ◌&&◌, ◌||◌, not, List, [], ◌∷◌, ◌++◌, map, Option, none,
  some, Bytes, codes, str_eq, ltb, ◌==◌, length, if◌then◌else◌, ℤ, pos, leb_ℤ, ltb_ℤ, ◌-ℤ◌, ◌+ℤ◌,
  to_ℕ,
}
use cozyplane.PolicyLimits.HostFirewall.{
  HfPort, HfRule, PolicyType, HostFirewall, hf_isolation, validate_hf_compilation,
}

-- `hfProtoNum`.
unfoldable pub hf_proto_num : Bytes → Option ℕ
hf_proto_num proto =
    if str_eq proto (codes "TCP")
    then some 6
    else if str_eq proto (codes "UDP")
    then some 17
    else none

-- `HostFirewallPort`, `HostFirewallPeer` and a rule of either direction.
pub record PortSpec : Type 0 where
  pub protocol : Bytes
  pub port : ℤ
  pub end_port : ℤ

pub record Peer : Type 0 where
  pub cidr : Bytes
  pub except : List Bytes

pub record FwRule : Type 0 where
  pub peers : List Peer
  pub ports : List PortSpec

-- A HostFirewall; `selector` is whether it matches the node, `none` if it is invalid.
pub record Firewall : Type 0 where
  pub selector : Option Bool
  pub policy_types : List PolicyType
  pub ingress : List FwRule
  pub egress : List FwRule

pub record PortRow : Type 0 where
  pub proto : ℕ
  pub port : ℕ

-- The last port of an item.
abbrev pub last_port : PortSpec → ℤ
last_port p = if leb_ℤ p.end_port (pos 0) && leb_ℤ (pos 0) p.end_port then p.port else p.end_port

-- The item passes the checks of its ports, of which it has at most 64.
abbrev pub is_served : PortSpec → Bool
is_served p =
    let lo = p.port in
    let hi = last_port p in
    not (ltb_ℤ lo (pos 0) || ltb_ℤ (pos 65535) lo)
    && not (
        ltb_ℤ hi lo
        || ltb_ℤ (pos 65535) hi
        || leb_ℤ lo (pos 0) && leb_ℤ (pos 0) lo && not (leb_ℤ hi (pos 0) && leb_ℤ (pos 0) hi))
    && not (ltb_ℤ (pos 64) (hi -ℤ lo +ℤ pos 1))

-- The loop over an item's ports from the given one, with so many left.
unfoldable pub expand : ℕ → ℕ → ℕ → List PortRow → List PortRow
expand zero proto port out = out
expand (suc left) proto port out =
    expand left proto (port + 1) (out ++ record { proto = proto; port = port } ∷ [])

unfoldable pub ports_from : List PortRow → List PortSpec → List PortRow
ports_from out [] = out
ports_from out (p ∷ ps) =
    let kept : List PortRow = elim (hf_proto_num p.protocol) [
      | none ↦ out
      | some proto ↦
          if is_served p
          then expand (to_ℕ (last_port p -ℤ p.port) + 1) proto (to_ℕ p.port) out
          else out
    ] in
    ports_from kept ps

-- `hfCompilePorts`.
unfoldable pub hf_compile_ports : List PortSpec → List PortRow
hf_compile_ports ports =
    if length ports == 0
    then record { proto = 6; port = 0 } ∷ record { proto = 17; port = 0 } ∷ []
    else ports_from [] ports

-- `hfAnyPeers`.
abbrev pub hf_any_peers : List Peer
hf_any_peers =
    record { cidr = codes "0.0.0.0/0"; except = [] }
    ∷ record { cidr = codes "::/0"; except = [] }
    ∷ []

-- A row of the map; a network is what `net.ParseCIDR` answers with.
pub record HfAllow (Net : Type 0) : Type 0 where
  pub proto : ℕ
  pub port : ℕ
  pub cidr : Net
  pub allow : Bool

pub record HfCompiled (Net : Type 0) : Type 0 where
  pub ingress : Bool
  pub egress : Bool
  pub into : List (HfAllow Net)
  pub out : List (HfAllow Net)

-- The loops over the exceptions of a row, and over the ports of a peer.
unfoldable pub deny_rows :
    {Net : Type 0} → PortRow → List (HfAllow Net) → List Net → List (HfAllow Net)
deny_rows row entries [] = entries
deny_rows row entries (net ∷ excepts) =
    deny_rows row
      (entries ++ record { proto = row.proto; port = row.port; cidr = net; allow = false } ∷ [])
      excepts

unfoldable pub peer_entries :
    {Net : Type 0} → Net → List Net → List (HfAllow Net) → List PortRow → List (HfAllow Net)
peer_entries net excepts entries [] = entries
peer_entries net excepts entries (row ∷ rows) =
    peer_entries net excepts
      (deny_rows row
        (entries ++ record { proto = row.proto; port = row.port; cidr = net; allow = true } ∷ [])
        excepts)
      rows

module _ {Net : Type 0} (parse_cidr : Bytes → Option Net) where
  -- The loop over the exceptions, with `excepts`; `none` at one that does not parse.
  unfoldable pub excepts_from : List Net → List Bytes → Option (List Net)
  excepts_from excepts [] = some excepts
  excepts_from excepts (e ∷ es) = elim (parse_cidr e) [
    | none ↦ none
    | some net ↦ excepts_from (excepts ++ net ∷ []) es
  ]

  -- What one peer adds.
  unfoldable pub add_peer : List PortRow → List (HfAllow Net) → Peer → List (HfAllow Net)
  add_peer rows entries peer = elim (parse_cidr peer.cidr) [
    | none ↦ entries
    | some net ↦ elim (excepts_from [] peer.except) [
      | none ↦ entries
      | some excepts ↦ peer_entries net excepts entries rows
    ]
  ]

  unfoldable pub peers_from : List PortRow → List (HfAllow Net) → List Peer → List (HfAllow Net)
  peers_from rows entries [] = entries
  peers_from rows entries (p ∷ ps) = peers_from rows (add_peer rows entries p) ps

  -- `hfCompileRule`.
  unfoldable pub hf_compile_rule : List (HfAllow Net) → FwRule → List (HfAllow Net)
  hf_compile_rule entries r =
      peers_from (hf_compile_ports r.ports) entries
        (if length r.peers == 0 then hf_any_peers else r.peers)

  unfoldable pub compile_rules : List (HfAllow Net) → List FwRule → List (HfAllow Net)
  compile_rules entries [] = entries
  compile_rules entries (r ∷ rs) = compile_rules (hf_compile_rule entries r) rs

-- What the preflight counts of a rule and a firewall.
abbrev pub counted_rule : FwRule → HfRule
counted_rule r = record {
  peers = map (λ (p : Peer). length p.except) r.peers;
  ports = map (λ (p : PortSpec). record { port = p.port; end_port = p.end_port }) r.ports;
}

abbrev pub does_select : Firewall → Bool
does_select f = elim f.selector [ none ↦ false | some matches ↦ matches ]

abbrev pub counted : Firewall → HostFirewall
counted f = record {
  selects = does_select f;
  policy_types = f.policy_types;
  ingress = map counted_rule f.ingress;
  egress = map counted_rule f.egress;
}

module _ {Net : Type 0} (parse_cidr : Bytes → Option Net) where
  -- What one firewall adds.
  unfoldable pub add_firewall : HfCompiled Net → Firewall → HfCompiled Net
  add_firewall c f =
      let ing = (hf_isolation (counted f)).0 in
      let eg = (hf_isolation (counted f)).1 in
      if does_select f
      then record {
        ingress = c.ingress || ing;
        egress = c.egress || eg;
        into = (if ing then compile_rules parse_cidr c.into f.ingress else c.into);
        out = (if eg then compile_rules parse_cidr c.out f.egress else c.out);
      }
      else c

  -- The loop over the firewalls.
  unfoldable pub compile_from : HfCompiled Net → List Firewall → HfCompiled Net
  compile_from c [] = c
  compile_from c (f ∷ fs) = compile_from (add_firewall c f) fs

  -- `compileHostFirewalls`; the preflight's error is `none`.
  unfoldable pub compile_host_firewalls : List Firewall → Option (HfCompiled Net)
  compile_host_firewalls fs =
      if validate_hf_compilation (map counted fs)
      then some (compile_from (record { ingress = false; egress = false; into = []; out = [] }) fs)
      else none
