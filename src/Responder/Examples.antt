-- ===== src/Responder/Examples.antt =====
-- A small cluster, and runs of the resolver on it.
use cozyplane.Base.{
  ◌≡◌, refl, sym, ap, ◌∙◌, ◌≢◌, ◌⊎◌, Bool-cases, str_eq_iff, is_empty, cut, true, false, List, [],
  ◌∷◌, ◌++◌, Option, none, some, Bytes, codes, inl, inr, arith, if◌then◌else◌, ◌==◌, str_eq,
}
use cozyplane.Grants.{VpcRef}
use cozyplane.Responder.Message.{type_a, Dns}
use cozyplane.Responder.Answer.{Service, attached_vpc, State}
use cozyplane.Responder.Authoritative.{Question, authoritative}
use cozyplane.Responder.Authoritative.Isolation.{SameView, Sees, authoritative-SameView}
use cozyplane.Responder.Authoritative.Replies.{WithinBudget, authoritative-WithinBudget}
use cozyplane.Responder.Query.{Queries, set, acquire_query, Resolver, Request, serve_dns}
use cozyplane.Responder.Query.Slots.{idle, arrives, Counts, Within, slots_exact}
use cozyplane.Responder.Query.Serve.{Same, NoZero, serve_dns-Same}

unfoldable split_dots : Bytes → Bytes → List Bytes
split_dots acc [] = []
split_dots acc (c ∷ s) = if c == 46 then acc ∷ split_dots [] s else split_dots (acc ++ c ∷ []) s

-- A stand-in of the DNS library for names that are already absolute.
abbrev dns : Dns
dns = record {
  fqdn = λ s. s ++ codes ".";
  is_sub_domain = λ zone name. true;
  split_domain_name = λ s. split_dots [] s;
  rr_len = λ rr. 40;
  reply_len = 12;
  to_lower = λ s. s;
  equal_fold = str_eq;
}

abbrev red : VpcRef
red = record { namespace = codes "red"; name = codes "net" }

abbrev blue : VpcRef
blue = record { namespace = codes "blue"; name = codes "net" }

abbrev service_of : Bytes → Service
service_of ns = record {
  namespace = ns;
  name = codes "web";
  vpc_annotation = some (codes "net");
  ports = [];
  is_headless = false;
  publish_not_ready = false;
}

abbrev red_only : Bytes → Bytes → Option Service
red_only ns name = if str_eq ns (codes "red") then some (service_of (codes "red")) else none

-- The Services of both tenants.
abbrev both : Bytes → Bytes → Option Service
both ns name =
    if str_eq ns (codes "blue") then some (service_of (codes "blue")) else red_only ns name

abbrev state_of : (Bytes → Bytes → Option Service) → State
state_of services = record {
  port_by_fabric_ip = λ ip. some red;
  service = services;
  endpoints = λ ns name v. none;
  peers = λ v. [];
  service_vip_for = λ ns name v. some (10 ∷ 0 ∷ 0 ∷ 1 ∷ []);
  org_gateway = λ ns. record { apexes = []; ips = [] };
}

abbrev question : Question
question = record { domain = codes "c"; vpc = red; qtype = type_a; owner = codes "web.blue.svc.c." }

blue_attached : attached_vpc (service_of (codes "blue")) ≡ some blue
unfolding attached_vpc is_empty cut
blue_attached = refl

blue-red : blue ≢ red
blue-red e = let f = ap (λ r. r.namespace) e in cc

-- The blue tenant's Service is not attached within reach of the red VPC.
hidden :
    (svc : Service) → some (service_of (codes "blue")) ≡ some svc → Sees (state_of both) red svc → ⊥
hidden svc e (v, at, near) =
    let same : service_of (codes "blue") ≡ svc = cc in
    let at_blue : some blue ≡ some v = sym blue_attached ∙ (ap attached_vpc same ∙ at) in
    elim near [ inl p ↦ blue-red (cc) | inr p ↦ absurd p ]

split_both :
    (ns name : Bytes)
    → (both ns name ≡ some (service_of (codes "blue"))) ⊎ (both ns name ≡ red_only ns name)
split_both ns name = elim (Bool-cases (str_eq ns (codes "blue"))) [
  | inl e ↦ inl (ground arith)
  | inr e ↦ inr (ground arith)
]

none-some : {svc : Service} → none ≡ some svc → ⊥
none-some e = cc

red_only-both :
    (ns name : Bytes) (svc : Service) → red_only ns name ≡ some svc → both ns name ≡ some svc
unfolding str_eq
red_only-both ns name svc h = elim (Bool-cases (str_eq ns (codes "blue"))) [
  | inl e ↦
      let at_blue : ns ≡ codes "blue" = ground (arith, str_eq_iff ns (codes "blue")) in
      let nothing : red_only ns name ≡ none = ap (λ t. red_only t name) at_blue in
      absurd (none-some (sym nothing ∙ h))
  | inr e ↦ ground arith
]

-- The two clusters differ in the blue tenant's Service.
same_view : SameView red (state_of both) (state_of red_only)
same_view = record {
  peers = refl;
  kept = λ ns name svc sees e. elim (split_both ns name) [
    | inl f ↦ absurd (hidden svc (sym f ∙ e) sees)
    | inr f ↦ sym f ∙ e
  ];
  no_more = λ ns name svc sees e. red_only-both ns name svc e;
  endpoints = λ ns name v near. refl;
  vips = λ ns name v near. refl;
}

authoritative-SameView_example :
    authoritative dns (state_of both) question (codes "web.blue.svc.c.")
    ≡ authoritative dns (state_of red_only) question (codes "web.blue.svc.c.")
authoritative-SameView_example =
    authoritative-SameView dns (state_of both) (state_of red_only) question
      (codes "web.blue.svc.c.") same_view

authoritative-WithinBudget_example :
    WithinBudget dns (authoritative dns (state_of both) question (codes "web.red.svc.c."))
authoritative-WithinBudget_example =
    authoritative-WithinBudget dns question (state_of both) (codes "web.red.svc.c.") (ground arith)

abbrev no_queries : Queries
no_queries = record { total = 0; vpcs = λ v. none }

abbrev one_query : Queries
one_query = record { total = 1; vpcs = set (λ v. none) red (some 1) }

red_arrives : acquire_query red no_queries ≡ some one_query
unfolding acquire_query
red_arrives = refl

slots_exact_example : Counts (red ∷ []) one_query × Within (red ∷ [])
slots_exact_example = slots_exact (red ∷ []) one_query (arrives red idle red_arrives)

abbrev resolver : Resolver
resolver = record {
  domain = codes "c";
  upstreams = [];
  state = state_of both;
  parse_ip = λ s. none;
  exchange = λ up. none;
}

abbrev request : Request
request = record {
  questions = (type_a, codes "web.red.svc.c.") ∷ [];
  host = some (codes "10.0.0.9");
}

no_zero : NoZero no_queries
no_zero v e = cc

serve_dns-Same_example : Same (serve_dns dns resolver request no_queries).1 no_queries
serve_dns-Same_example = serve_dns-Same dns resolver request no_queries no_zero
