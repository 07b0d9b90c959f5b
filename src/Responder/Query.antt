-- ===== src/Responder/Query.antt =====
-- `ServeDNS`: one query from its arrival to its reply, and the slots that queries in flight hold.
pub mod Slots
pub mod Serve
use cozyplane.Base.{
  ℕ, ◌+◌, ◌-◌, Bool, true, false, ◌||◌, List, [], ◌∷◌, ◌++◌, Option, none, some, Bytes, is_empty,
  leb, ◌==◌, if◌then◌else◌,
}
use cozyplane.Grants.{VpcRef}
use cozyplane.Claim.Guard.{ref_eq}
use cozyplane.Responder.Message.{
  Message, QueryType, type_a, type_aaaa, Dns, reply_message, refuse, failed, soa_record,
  addr_record,
}
use cozyplane.Responder.Answer.{State, OrgGateway}
use cozyplane.Responder.Authoritative.{Question, authoritative}

-- `queryTotal` and `queryVPC`, a map where a missing key is `none`.
pub record Queries : Type 0 where
  pub total : ℕ
  pub vpcs : VpcRef → Option ℕ

-- `r.queryVPC[vpc]`: a missing key reads 0.
abbrev pub at : Queries → VpcRef → ℕ
at s v = elim (s.vpcs v) [ none ↦ 0 | some n ↦ n ]

abbrev pub set : (VpcRef → Option ℕ) → VpcRef → Option ℕ → VpcRef → Option ℕ
set m v o w = if ref_eq v w then o else m w

-- `acquireQuery`; `none` where it returns false.
unfoldable pub acquire_query : VpcRef → Queries → Option Queries
acquire_query v s =
    if leb 256 s.total || leb 16 (at s v)
    then none
    else some (record { total = s.total + 1; vpcs = set s.vpcs v (some (at s v + 1)) })

-- `releaseQuery`.
unfoldable pub release_query : VpcRef → Queries → Queries
release_query v s =
    let n = at s v - 1 in
    record { total = s.total - 1; vpcs = set s.vpcs v (if n == 0 then none else some n) }

-- A request: its questions, and the host that `net.SplitHostPort` finds in the client's address.
pub record Request : Type 0 where
  pub questions : List (QueryType × Bytes)
  pub host : Option Bytes

-- `orgGatewayAnswer` and its loop.
unfoldable pub org_addresses : Bytes → QueryType → List Bytes → Message → Message
org_addresses name t [] m = m
org_addresses name t (ip ∷ ips) m = org_addresses name t ips (elim (addr_record name t ip) [
  | none ↦ m
  | some rr ↦ record m { answer = m.answer ++ rr ∷ [] }
])

module _ (dns : Dns) where
  unfoldable pub org_gateway_answer : Bytes → QueryType → Bytes → List Bytes → Message
  org_gateway_answer name t apex ips =
      let m = org_addresses name t ips reply_message in
      elim m.answer [ [] ↦ record m { ns = soa_record (dns.fqdn apex) ∷ [] } | ◌∷◌ rr rrs ↦ m ]

  -- `apexOf`; the empty string is `none`.
  unfoldable pub apex_of : Bytes → List Bytes → Option Bytes
  apex_of qname [] = none
  apex_of qname (apex ∷ apexes) =
      if dns.is_sub_domain (dns.fqdn apex) qname
      then if is_empty apex then none else some apex
      else apex_of qname apexes

-- `forward`, where `exchange` asks an upstream.
unfoldable pub forward : (Bytes → Option Message) → List Bytes → Message
forward exchange [] = failed
forward exchange (up ∷ ups) = elim (exchange up) [ none ↦ forward exchange ups | some m ↦ m ]

-- `canonIP`, where `parse_ip` is the text that `net.ParseIP` and `String` give an address.
unfoldable pub canon_ip : (Bytes → Option Bytes) → Bytes → Bytes
canon_ip parse_ip s = elim (parse_ip s) [ none ↦ s | some text ↦ text ]

-- The resolver, and what it calls: the standard library's `net.ParseIP`, and an upstream.
pub record Resolver : Type 0 where
  pub domain : Bytes
  pub upstreams : List Bytes
  pub state : State
  pub parse_ip : Bytes → Option Bytes
  pub exchange : Bytes → Option Message

abbrev asks_address : QueryType → Bool
asks_address type_a = true
asks_address type_aaaa = true
asks_address t = false

module _ (dns : Dns) where
  -- The apex of the VPC's organisation Gateway that answers the question, if any.
  unfoldable pub org_apex : OrgGateway → QueryType → Bytes → Option Bytes
  org_apex gw t qname = if asks_address t then apex_of dns qname gw.apexes else none

  -- The reply to a query that holds a slot.
  unfoldable pub answer_query : Resolver → VpcRef → QueryType → Bytes → Message
  answer_query r vpc t name =
      let qname = dns.to_lower name in
      let gw = r.state.org_gateway vpc.namespace in
      if dns.is_sub_domain (dns.fqdn r.domain) qname
      then authoritative dns r.state
          (record { domain = r.domain; vpc = vpc; qtype = t; owner = name }) qname
      else elim (org_apex gw t qname) [
        | some apex ↦ org_gateway_answer dns name t apex gw.ips
        | none ↦ forward r.exchange r.upstreams
      ]

  -- `ServeDNS` from the Port of the client on.
  unfoldable pub serve_port :
      Resolver → Option VpcRef → QueryType → Bytes → Queries → Message × Queries
  serve_port r none t name s = (refuse, s)
  serve_port r (some vpc) t name s = elim (acquire_query vpc s) [
    | none ↦ (failed, s)
    | some s' ↦ (answer_query r vpc t name, release_query vpc s')
  ]

  -- `ServeDNS`.
  unfoldable pub serve_dns : Resolver → Request → Queries → Message × Queries
  serve_dns r req s = elim req.questions [
    | [] ↦ (refuse, s)
    | ◌∷◌ q rest ↦ elim rest [
      | ◌∷◌ q' rest' ↦ (refuse, s)
      | [] ↦ elim req.host [
        | none ↦ (refuse, s)
        | some host ↦
            let (t, name) = q in
            serve_port r (r.state.port_by_fabric_ip (canon_ip r.parse_ip host)) t name s
      ]
    ]
  ]
