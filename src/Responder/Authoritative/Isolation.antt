-- ===== src/Responder/Authoritative/Isolation.antt =====
-- What a tenant can learn from the resolver about Services of other VPCs: nothing.
use mathlib.Core.Path.{subst}
use cozyplane.Base.{
  ◌≡◌, sym, ◌∙◌, true, List, [], ◌∷◌, Option, none, some, Bytes, inl, inr, ◌⊎◌, Bool-cases,
  Option-cases, arith, str_eq_iff, Any,
}
use cozyplane.Grants.{VpcRef}
use cozyplane.Claim.Guard.{ref_eq}
use cozyplane.Responder.Message.{Dns, reply_message, nxdomain}
use cozyplane.Responder.Answer.{
  Service, State, Asked, dissect, trim_suffix, attached_vpc, contains_vpc,
}
use cozyplane.Responder.Authoritative.{
  Question, visible_vpc, answer_asked, answer_service, authoritative,
}

-- A VPC and those that it is actively peered with.
abbrev pub Reachable : State → VpcRef → VpcRef → Type 0
Reachable s vpc v = (v ≡ vpc) ⊎ Any (λ r. r ≡ v) (s.peers vpc)

-- The Service is attached to a VPC that the given one reaches.
abbrev pub Sees : State → VpcRef → Service → Type 0
Sees s vpc svc = (v : VpcRef) × (attached_vpc svc ≡ some v) × Reachable s vpc v

-- Two states of the cluster that one VPC cannot tell apart: the same peers, the same attached
-- Services in reach, and for VPCs in reach the same endpoints and addresses.
pub record SameView (vpc : VpcRef) (s s' : State) : Type 0 where
  pub peers : s.peers vpc ≡ s'.peers vpc
  pub kept :
      (ns name : Bytes) (svc : Service)
      → Sees s vpc svc
      → s.service ns name ≡ some svc
      → s'.service ns name ≡ some svc
  pub no_more :
      (ns name : Bytes) (svc : Service)
      → Sees s vpc svc
      → s'.service ns name ≡ some svc
      → s.service ns name ≡ some svc
  pub endpoints :
      (ns name : Bytes) (v : VpcRef)
      → Reachable s vpc v
      → s.endpoints ns name v ≡ s'.endpoints ns name v
  pub vips :
      (ns name : Bytes) (v : VpcRef)
      → Reachable s vpc v
      → s.service_vip_for ns name v ≡ s'.service_vip_for ns name v

ref_eq_eq : (a b : VpcRef) → ref_eq a b ≡ true → a ≡ b
ref_eq_eq a b h = ground (arith, str_eq_iff a.namespace b.namespace, str_eq_iff a.name b.name)

contains_vpc_sound :
    (refs : List VpcRef) (v : VpcRef) → contains_vpc refs v ≡ true → Any (λ r. r ≡ v) refs
unfolding contains_vpc
contains_vpc_sound [] v h = cc
contains_vpc_sound (r ∷ refs) v h = elim (Bool-cases (ref_eq r v)) [
  | inl e ↦ inl (ref_eq_eq r v e)
  | inr e ↦ inr (contains_vpc_sound refs v (ground arith))
]

none-some : {svc : Service} → none ≡ some svc → ⊥
none-some e = cc

two_services :
    {a b : Service} {v : VpcRef}
    → some a ≡ some b
    → (f : Service → Option VpcRef) → f a ≡ none
    → f b ≡ some v
    → ⊥
two_services e f p q = cc

module _ (dns : Dns) where
  visible_vpc_sound :
      (s : State) (vpc v : VpcRef) (svc : Service)
      → visible_vpc dns s vpc svc ≡ some v
      → (attached_vpc svc ≡ some v) × Reachable s vpc v
  unfolding visible_vpc
  visible_vpc_sound s vpc v svc h = elim (Option-cases (attached_vpc svc)) [
    | inl e ↦ absurd (ground arith)
    | inr (u, e) ↦
        let same : some u ≡ some v = ground arith in
        let here : u ≡ v = ground arith in
        (
          e ∙ same,
          subst (λ t. Reachable s vpc t) here
              (elim (Bool-cases (ref_eq u vpc)) [
                | inl p ↦ inl (ref_eq_eq u vpc p)
                | inr p ↦ inr (contains_vpc_sound (s.peers vpc) u (ground arith))
              ]),
        )
  ]

  visible_vpc-peers :
      (s s' : State) (vpc : VpcRef) (svc : Service)
      → s.peers vpc ≡ s'.peers vpc
      → visible_vpc dns s vpc svc ≡ visible_vpc dns s' vpc svc
  unfolding visible_vpc
  visible_vpc-peers s s' vpc svc e = ground arith

  answer_service-SameView :
      (s s' : State) (w : Question) (q : Asked) (svc : Service) (v : VpcRef)
      → s.endpoints q.ns q.svc v ≡ s'.endpoints q.ns q.svc v
      → s.service_vip_for q.ns q.svc v ≡ s'.service_vip_for q.ns q.svc v
      → answer_service dns s w q svc v ≡ answer_service dns s' w q svc v
  unfolding answer_service
  answer_service-SameView s s' w q svc v e f = rw (e, f)

  -- A Service that is not seen is answered as one that does not exist.
  unseen :
      (s : State) (w : Question) (q : Asked) (svc : Service)
      → s.service q.ns q.svc ≡ some svc
      → visible_vpc dns s w.vpc svc ≡ none
      → answer_asked dns s w q ≡ nxdomain dns w.domain reply_message
  unfolding answer_asked
  unseen s w q svc e h = ground arith

  seen :
      (s : State) (w : Question) (q : Asked) (svc : Service) (v : VpcRef)
      → s.service q.ns q.svc ≡ some svc
      → visible_vpc dns s w.vpc svc ≡ some v
      → answer_asked dns s w q ≡ answer_service dns s w q svc v
  unfolding answer_asked
  seen s w q svc v e h = ground arith

  missing :
      (s : State) (w : Question) (q : Asked)
      → s.service q.ns q.svc ≡ none
      → answer_asked dns s w q ≡ nxdomain dns w.domain reply_message
  unfolding answer_asked
  missing s w q e = ground arith

  -- A Service that only one of the two states has is not seen, so both reply alike.
  answer_hidden :
      (s s' : State) (w : Question) (q : Asked) (svc : Service)
      → s.service q.ns q.svc ≡ none
      → s'.service q.ns q.svc ≡ some svc
      → SameView w.vpc s s'
      → answer_asked dns s w q ≡ answer_asked dns s' w q
  answer_hidden s s' w q svc e f same = elim (Option-cases (visible_vpc dns s w.vpc svc)) [
    | inl h ↦
        missing s w q e
        ∙ sym (unseen s' w q svc f (sym (visible_vpc-peers s s' w.vpc svc same.peers) ∙ h))
    | inr (v, h) ↦
        let (at, reach) = visible_vpc_sound s w.vpc v svc h in
        absurd (none-some (sym e ∙ same.no_more q.ns q.svc svc (v, at, reach) f))
  ]

  answer_unseen :
      (s s' : State) (w : Question) (q : Asked) (svc : Service)
      → s.service q.ns q.svc ≡ some svc
      → visible_vpc dns s w.vpc svc ≡ none
      → SameView w.vpc s s'
      → answer_asked dns s' w q ≡ nxdomain dns w.domain reply_message
  answer_unseen s s' w q svc e h same = elim (Option-cases (s'.service q.ns q.svc)) [
    | inl f ↦ missing s' w q f
    | inr (svc', f) ↦ elim (Option-cases (visible_vpc dns s w.vpc svc')) [
      | inl k ↦ unseen s' w q svc' f (sym (visible_vpc-peers s s' w.vpc svc' same.peers) ∙ k)
      | inr (v, k) ↦
          let (at, reach) = visible_vpc_sound s w.vpc v svc' k in
          absurd (
            two_services (sym e ∙ same.no_more q.ns q.svc svc' (v, at, reach) f)
              (λ t. visible_vpc dns s w.vpc t) h k)
    ]
  ]

  answer_asked-SameView :
      (s s' : State) (w : Question) (q : Asked)
      → SameView w.vpc s s'
      → answer_asked dns s w q ≡ answer_asked dns s' w q
  answer_asked-SameView s s' w q same = elim (Option-cases (s.service q.ns q.svc)) [
    | inl e ↦ elim (Option-cases (s'.service q.ns q.svc)) [
      | inl f ↦ missing s w q e ∙ sym (missing s' w q f)
      | inr (svc, f) ↦ answer_hidden s s' w q svc e f same
    ]
    | inr (svc, e) ↦ elim (Option-cases (visible_vpc dns s w.vpc svc)) [
      | inr (v, h) ↦
          let (at, reach) = visible_vpc_sound s w.vpc v svc h in
          seen s w q svc v e h
          ∙ answer_service-SameView s s' w q svc v (same.endpoints q.ns q.svc v reach)
              (same.vips q.ns q.svc v reach)
          ∙ sym (
              seen s' w q svc v (same.kept q.ns q.svc svc (v, at, reach) e)
                (sym (visible_vpc-peers s s' w.vpc svc same.peers) ∙ h))
      | inl h ↦ unseen s w q svc e h ∙ sym (answer_unseen s s' w q svc e h same)
    ]
  ]

  -- The reply to a query depends on nothing but what the querying VPC reaches: two states of the
  -- cluster with the same peers, the same Services attached within reach, and the same endpoints and
  -- service addresses there, give the same reply to every name.
  pub authoritative-SameView :
      (s s' : State) (w : Question) (qname : Bytes)
      → SameView w.vpc s s'
      → authoritative dns s w qname ≡ authoritative dns s' w qname
  unfolding authoritative
  authoritative-SameView s s' w qname same =
      elim (Option-cases
        (dissect (dns.split_domain_name (trim_suffix qname (dns.fqdn w.domain))))) [
          | inl e ↦ rw (e, authoritative)
          | inr (q, e) ↦ rw (e, authoritative) (answer_asked-SameView s s' w q same)
        ]
