-- ===== src/Responder/Query/Serve.antt =====
-- A query leaves the counters as it found them, whichever way its reply is made.
use cozyplane.Base.{
  ℕ, ◌+◌, ◌≡◌, ◌≢◌, refl, ap, true, List, [], ◌∷◌, Option, none, some, inl, inr, Bytes, Bool-cases,
  Option-cases, arith, if◌then◌else◌, ◌==◌, str_eq_iff,
}
use cozyplane.Grants.{VpcRef}
use cozyplane.Claim.Guard.{ref_eq}
use cozyplane.Responder.Message.{QueryType, Dns}
use cozyplane.Responder.Query.{
  Queries, at, set, acquire_query, release_query, Resolver, Request, serve_port, serve_dns,
  canon_ip,
}

-- The same counts, and no key that the other lacks.
abbrev pub Same : Queries → Queries → Type 0
Same s s' = (s.total ≡ s'.total) × ((v : VpcRef) → s.vpcs v ≡ s'.vpcs v)

-- No key of the map holds zero: releasing deletes it.
abbrev pub NoZero : Queries → Type 0
NoZero s = (v : VpcRef) → s.vpcs v ≢ some 0

ref_eq_eq : (a b : VpcRef) → ref_eq a b ≡ true → a ≡ b
ref_eq_eq a b h = ground (arith, str_eq_iff a.namespace b.namespace, str_eq_iff a.name b.name)

ref_eq_refl : (v : VpcRef) → ref_eq v v ≡ true
ref_eq_refl v = ground (arith, str_eq_iff v.namespace v.namespace, str_eq_iff v.name v.name)

abbrev vpcs_or : Queries → VpcRef → Option Queries → Option ℕ
vpcs_or s u o = elim o [ none ↦ s.vpcs u | some t ↦ t.vpcs u ]

acquired :
    (v u : VpcRef) (s s' : Queries)
    → acquire_query v s ≡ some s'
    → (s'.total ≡ s.total + 1) × (s'.vpcs u ≡ (if ref_eq v u then some (at s v + 1) else s.vpcs u))
unfolding acquire_query
acquired v u s s' h =
    let f : some s'
        ≡ some (record { total = s.total + 1; vpcs = set s.vpcs v (some (at s v + 1)) }) =
      ground arith in
    (ground arith, ap (vpcs_or s u) f)

released :
    (v u : VpcRef) (s s' : Queries)
    → s'.vpcs v ≡ some (at s v + 1)
    → (release_query v s').vpcs u
      ≡ (if ref_eq v u then (if at s v == 0 then none else some (at s v)) else s'.vpcs u)
unfolding release_query
released v u s s' h = ground arith

release-acquire :
    (v : VpcRef) (s s' : Queries)
    → NoZero s
    → acquire_query v s ≡ some s'
    → Same (release_query v s') s
unfolding release_query
release-acquire v s s' z h = (
  (let (total, _) = acquired v v s s' h in ground arith),
  λ u.
      let (_, here) = acquired v v s s' h in
      let (_, there) = acquired v u s s' h in
      let at_v : s'.vpcs v ≡ some (at s v + 1) = ground (arith, ref_eq_refl v) in
      let step = released v u s s' at_v in
      let nz = z v in
      elim (Bool-cases (ref_eq v u)) [
        | inl p ↦ let same : s.vpcs v ≡ s.vpcs u = ap s.vpcs (ref_eq_eq v u p) in ground arith
        | inr p ↦ ground arith
      ],
)

Same-refl : (s : Queries) → Same s s
Same-refl s = (refl, λ v. refl)

serve_port-Same :
    (dns : Dns) (r : Resolver) (o : Option VpcRef) (t : QueryType) (name : Bytes) (s : Queries)
    → NoZero s
    → Same (serve_port dns r o t name s).1 s
unfolding serve_port
serve_port-Same dns r none t name s z = Same-refl s
serve_port-Same dns r (some v) t name s z = elim (Option-cases (acquire_query v s)) [
  | inl e ↦ rw (e, serve_port) (Same-refl s)
  | inr (s', e) ↦ rw (e, serve_port) (release-acquire v s s' z e)
]

serve_request-Same :
    (dns : Dns) (r : Resolver) (qs : List (QueryType × Bytes)) (host : Option Bytes) (s : Queries)
    → NoZero s
    → Same (serve_dns dns r (record { questions = qs; host = host }) s).1 s
unfolding serve_dns
serve_request-Same dns r [] host s z = Same-refl s
serve_request-Same dns r (q ∷ q' ∷ rest) host s z = Same-refl s
serve_request-Same dns r (q ∷ []) none s z = Same-refl s
serve_request-Same dns r ((t, name) ∷ []) (some host) s z =
    serve_port-Same dns r (r.state.port_by_fabric_ip (canon_ip r.parse_ip host)) t name s z

-- A query leaves the counters as it found them whichever way it is answered, the early refusals, a
-- full table and every form of reply included. The counters it finds must hold no key with a zero.
pub serve_dns-Same :
    (dns : Dns) (r : Resolver) (req : Request) (s : Queries)
    → NoZero s
    → Same (serve_dns dns r req s).1 s
serve_dns-Same dns r req s z = serve_request-Same dns r req.questions req.host s z
