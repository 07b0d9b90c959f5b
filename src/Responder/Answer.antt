-- ===== src/Responder/Answer.antt =====
-- `authoritative`: the answer for a name of the cluster's domain, from the querying Port's VPC.
use cozyplane.Base.{
  ℕ, ◌-◌, Bool, true, false, ◌&&◌, ◌||◌, List, [], ◌∷◌, ◌++◌, Option, none, some, Bytes, codes, leb,
  ◌==◌, if◌then◌else◌, str_eq, is_empty, cut, length, take, drop, ℤ, pos, leb_ℤ, to_ℕ,
}
use cozyplane.Grants.{VpcRef}
use cozyplane.Claim.Guard.{ref_eq}
use cozyplane.Responder.Message.{
  srv, QueryType, type_a, type_aaaa, type_srv, type_any, Dns, Builder, in_answer, in_extra,
  addr_record, ◌>>=◌, add, add_some, add_addr,
}

-- `Endpoint`.
pub record Endpoint : Type 0 where
  pub hostname : Bytes
  pub ip : Bytes
  pub is_ready : Bool

-- The fields of a Service and of its ports that are read; `vpc_annotation` is the annotation's
-- value, `none` where the key is missing.
pub record ServicePort : Type 0 where
  pub name : Bytes
  pub protocol : Bytes
  pub port : ℤ

pub record Service : Type 0 where
  pub namespace : Bytes
  pub name : Bytes
  pub vpc_annotation : Option Bytes
  pub ports : List ServicePort
  pub is_headless : Bool
  pub publish_not_ready : Bool

-- `orggateway.Gateway`.
pub record OrgGateway : Type 0 where
  pub apexes : List Bytes
  pub ips : List Bytes

-- The interface `State`, where a Port is its VPC; an error of `Endpoints` and a nil address are `none`.
pub record State : Type 0 where
  pub port_by_fabric_ip : Bytes → Option VpcRef
  pub service : Bytes → Bytes → Option Service
  pub endpoints : Bytes → Bytes → VpcRef → Option (List Endpoint)
  pub peers : VpcRef → List VpcRef
  pub service_vip_for : Bytes → Bytes → VpcRef → Option Bytes
  pub org_gateway : Bytes → OrgGateway

-- What a name asks for: a Service, with the host name or the SRV port and protocol, if any.
pub record Asked : Type 0 where
  pub ns : Bytes
  pub svc : Bytes
  pub hostname : Bytes
  pub srv_port : Bytes
  pub srv_proto : Bytes

abbrev under : Bytes → Bool
under [] = false
under (c ∷ s) = c == b'_'

abbrev asked : Bytes → Bytes → Bytes → Bytes → Bytes → Asked
asked ns svc host port proto = record {
  ns = ns;
  svc = svc;
  hostname = host;
  srv_port = port;
  srv_proto = proto;
}

-- The dissection of the labels in front of the zone.
unfoldable pub dissect : List Bytes → Option Asked
dissect (svc ∷ ns ∷ z ∷ []) = if str_eq z (codes "svc") then some (asked ns svc [] [] []) else none
dissect (host ∷ svc ∷ ns ∷ z ∷ []) =
    if str_eq z (codes "svc") then some (asked ns svc host [] []) else none
dissect (p ∷ t ∷ svc ∷ ns ∷ z ∷ []) =
    if str_eq z (codes "svc") && under p && under t
    then some (asked ns svc [] (drop 1 p) (drop 1 t))
    else none
dissect labels = none

-- `strings.TrimSuffix`.
unfoldable pub trim_suffix : Bytes → Bytes → Bytes
trim_suffix s suffix =
    let at = length s - length suffix in
    if leb (length suffix) (length s) && str_eq (drop at s) suffix then take at s else s

-- `attachedVPC`.
unfoldable pub attached_vpc : Service → Option VpcRef
attached_vpc svc = elim svc.vpc_annotation [
  | none ↦ none
  | some anno ↦ if is_empty anno then none else elim (cut anno b'/') [
    | none ↦ some (record { namespace = svc.namespace; name = anno })
    | some (owner, rest) ↦ some (record { namespace = owner; name = rest })
  ]
]

-- `containsVPC`.
unfoldable pub contains_vpc : List VpcRef → VpcRef → Bool
contains_vpc [] want = false
contains_vpc (r ∷ refs) want = ref_eq r want || contains_vpc refs want

-- `hasHostname`.
unfoldable pub has_hostname : List Endpoint → Bytes → Bool
has_hostname [] hostname = false
has_hostname (e ∷ eps) hostname = str_eq e.hostname hostname || has_hostname eps hostname

-- The endpoints that are published.
unfoldable pub ready : List Endpoint → List Endpoint
ready [] = []
ready (e ∷ eps) = if e.is_ready then e ∷ ready eps else ready eps

module _ (dns : Dns) (domain : Bytes) where
  -- `targetName`, and the target of a Service with a VIP.
  unfoldable pub target_name : Endpoint → Bytes → Bytes → Bytes
  target_name e svc ns =
      dns.fqdn
        (e.hostname ++ (codes "." ++ (svc ++ (codes "." ++ (ns ++ (codes ".svc." ++ domain))))))

  unfoldable pub vip_name : Bytes → Bytes → Bytes
  vip_name svc ns = dns.fqdn (svc ++ (codes "." ++ (ns ++ (codes ".svc." ++ domain))))

  -- `p.Port < 1 || p.Port > 65535`, negated.
  abbrev in_range : ServicePort → Bool
  in_range p = leb_ℤ (pos 1) p.port && leb_ℤ p.port (pos 65535)

  -- The test on a port's name and protocol.
  abbrev matches : ServicePort → Bytes → Bytes → Bool
  matches p srv_port srv_proto =
      dns.equal_fold p.name srv_port && dns.equal_fold p.protocol srv_proto

  abbrev pub asks_srv : QueryType → Bool
  asks_srv type_srv = true
  asks_srv type_any = true
  asks_srv t = false

  -- An SRV record where the query asks for one, and the addresses of its target.
  unfoldable pub add_srv : QueryType → Bytes → ℕ → Bytes → Bytes → Builder → Option Builder
  unfolding add_some
  add_srv t owner port target ip b =
      add_some dns in_answer (if asks_srv t then some (srv owner port target) else none) b >>= λ b₁.
      add_some dns in_extra (addr_record target type_a ip) b₁ >>= λ b₂.
      add_some dns in_extra (addr_record target type_aaaa ip) b₂

  -- The SRV form of a Service with a VIP.
  unfoldable pub vip_srv :
      QueryType → Bytes → Asked → Bytes → List ServicePort → Builder → Option Builder
  vip_srv t owner q vip [] b = some b
  vip_srv t owner q vip (p ∷ ports) b =
      (if in_range p && matches p q.srv_port q.srv_proto
        then add_srv t owner (to_ℕ p.port) (vip_name q.svc q.ns) vip b
        else some b)
      >>= vip_srv t owner q vip ports

  -- The loops of `answerSRV`.
  unfoldable pub srv_endpoints :
      QueryType → Bytes → Service → ServicePort → List Endpoint → Builder → Option Builder
  srv_endpoints t owner svc p [] b = some b
  srv_endpoints t owner svc p (e ∷ eps) b =
      add_srv t owner (to_ℕ p.port) (target_name e svc.name svc.namespace) e.ip b
      >>= srv_endpoints t owner svc p eps

  unfoldable pub answer_srv :
      QueryType
      → Bytes
      → Asked
      → Service
      → List Endpoint
      → List ServicePort
      → Builder
      → Option Builder
  answer_srv t owner q svc eps [] b = some b
  answer_srv t owner q svc eps (p ∷ ports) b =
      (if in_range p && matches p q.srv_port q.srv_proto
        then srv_endpoints t owner svc p eps b
        else some b)
      >>= answer_srv t owner q svc eps ports

  -- The addresses of the endpoints that a test admits.
  unfoldable pub add_addrs :
      QueryType → Bytes → (Endpoint → Bool) → List Endpoint → Builder → Option Builder
  add_addrs t owner want [] b = some b
  add_addrs t owner want (e ∷ eps) b =
      (if want e then add_addr dns t owner e.ip b else some b) >>= add_addrs t owner want eps

  -- The SRV records of a bare name: one for each endpoint and port.
  unfoldable pub bare_ports : Bytes → Asked → Endpoint → List ServicePort → Builder → Option Builder
  bare_ports owner q e [] b = some b
  bare_ports owner q e (p ∷ ports) b =
      (if in_range p
        then add dns in_answer (srv owner (to_ℕ p.port) (target_name e q.svc q.ns)) b
        else some b)
      >>= bare_ports owner q e ports

  unfoldable pub bare_srv :
      Bytes → Asked → List ServicePort → List Endpoint → Builder → Option Builder
  bare_srv owner q ports [] b = some b
  bare_srv owner q ports (e ∷ eps) b = bare_ports owner q e ports b >>= bare_srv owner q ports eps
