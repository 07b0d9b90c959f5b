-- ===== src/HostFirewalls/Examples.antt =====
-- A firewall with one rule for two ports.
use cozyplane.Base.{
  ◌≡◌, ◌≤◌, refl, Bool, true, false, [], ◌∷◌, Option, none, some, Bytes, codes, str_eq, is_empty,
  length, pos, if◌then◌else◌,
}
use cozyplane.PolicyLimits.HostFirewall.{
  hf_isolation, isolation_from, count, count_rules, firewalls_fit, port_rows, peer_rows,
  validate_hf_compilation,
}
use cozyplane.HostFirewalls.{
  FwRule, Firewall, HfCompiled, hf_proto_num, expand, ports_from, hf_compile_ports, excepts_from,
  deny_rows, peer_entries, add_peer, peers_from, hf_compile_rule, compile_rules, add_firewall,
  compile_from, compile_host_firewalls,
}
use cozyplane.HostFirewalls.Rows.{has_row, any_ingress, any_egress, compile_host_firewalls-rows}
use cozyplane.HostFirewalls.Fit.{compile_host_firewalls-length}

-- A stand-in of `net.ParseCIDR`: every text but the empty one is its own network.
abbrev parse : Bytes → Option Bytes
parse s = if is_empty s then none else some s

abbrev ssh_rule : FwRule
ssh_rule = record {
  peers = record { cidr = codes "10.0.0.0/8"; except = codes "10.9.0.0/16" ∷ [] } ∷ [];
  ports = record { protocol = codes "TCP"; port = pos 22; end_port = pos 23 } ∷ [];
}

abbrev node_firewall : Firewall
node_firewall = record {
  selector = some true;
  policy_types = [];
  ingress = ssh_rule ∷ [];
  egress = [];
}

abbrev compiled_rows : HfCompiled Bytes
compiled_rows = record {
  ingress = true;
  egress = false;
  into =
      record { proto = 6; port = 22; cidr = codes "10.0.0.0/8"; allow = true }
      ∷ record { proto = 6; port = 22; cidr = codes "10.9.0.0/16"; allow = false }
      ∷ record { proto = 6; port = 23; cidr = codes "10.0.0.0/8"; allow = true }
      ∷ record { proto = 6; port = 23; cidr = codes "10.9.0.0/16"; allow = false }
      ∷ [];
  out = [];
}

node_firewall-compiled : compile_host_firewalls parse (node_firewall ∷ []) ≡ some compiled_rows
unfolding compile_host_firewalls validate_hf_compilation firewalls_fit hf_isolation isolation_from
    count_rules count port_rows peer_rows compile_from add_firewall compile_rules hf_compile_rule
    peers_from add_peer peer_entries deny_rows excepts_from hf_compile_ports ports_from expand
    hf_proto_num str_eq is_empty
node_firewall-compiled = refl

abbrev is_excepted : Bytes → Bool → Bool
is_excepted net allow = if allow then false else str_eq net (codes "10.9.0.0/16")

compile_host_firewalls-rows_example :
    (has_row parse 6 23 is_excepted compiled_rows.into
      ≡ any_ingress parse 6 23 is_excepted (node_firewall ∷ []))
    × (has_row parse 6 23 is_excepted compiled_rows.out
        ≡ any_egress parse 6 23 is_excepted (node_firewall ∷ []))
compile_host_firewalls-rows_example =
    compile_host_firewalls-rows parse 6 23 is_excepted (node_firewall ∷ []) compiled_rows
      node_firewall-compiled

compile_host_firewalls-length_example :
    (length compiled_rows.into ≤ 65536) × (length compiled_rows.out ≤ 65536)
compile_host_firewalls-length_example =
    compile_host_firewalls-length parse (node_firewall ∷ []) compiled_rows node_firewall-compiled
