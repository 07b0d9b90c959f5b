-- ===== src/VpcPeering/Ready.antt =====
-- When a half is ready, and that both halves agree on it.
use cozyplane.Base.{
  ◌≡◌, refl, sym, ap, ◌∙◌, Bool, true, false, ◌&&◌, not, List, [], ◌∷◌, Option, none, some, inl,
  inr, Bytes, Any, Bool-cases, Option-cases, arith, str_eq_iff, if◌then◌else◌,
}
use cozyplane.Grants.{VpcRef}
use cozyplane.Claim.Guard.{ref_eq}
use cozyplane.VpnLimits.{object_name, namespace_name, peering_references}
use cozyplane.Cidr.{Addr, Prefix, parsed, cidrs_overlap}
use cozyplane.Cidr.Blocks.{Within}
use cozyplane.Cidr.Parsed.{Valid}
use cozyplane.Cidr.Overlap.{Shared, cidrs_overlap-Shared}
use cozyplane.VpcPeering.{
  PeerVpc, Half, PeeringPhase, peering_pending, peering_ready, PeeringStatus, local_ref, matches,
  vpc_ready, Cluster, has_references, first_match, find_reciprocal, get_vpc, local_vpc, peer_vpc,
  overlap_of, status_for, peering_status,
}

module _ (parse : Bytes → Option Prefix)
    (valid : (s : Bytes) (p : Prefix) → parse s ≡ some p → Valid p) where
  -- The overlap does not depend on the order of the lists.
  cidrs_overlap_sym : (a b : List Bytes) → cidrs_overlap parse a b ≡ cidrs_overlap parse b a
  cidrs_overlap_sym a b = elim (Bool-cases (cidrs_overlap parse a b)) [
    | inl h ↦
        let (x, w, i, j) = (cidrs_overlap-Shared parse valid a b).0 h in
        h ∙ sym ((cidrs_overlap-Shared parse valid b a).1 (x, w, j, i))
    | inr h ↦ elim (Bool-cases (cidrs_overlap parse b a)) [
      | inr k ↦ h ∙ sym k
      | inl k ↦
          let (x, w, i, j) = (cidrs_overlap-Shared parse valid b a).0 k in
          let other = (cidrs_overlap-Shared parse valid a b).1 (x, w, j, i) in absurd (ground arith)
    ]
  ]

-- The conditions of a half's phase.
abbrev is_ready : Cluster → Bool → Option PeerVpc → Option PeerVpc → Bool
is_ready c m u v = m && vpc_ready c.cidr_ok u && vpc_ready c.cidr_ok v && not (overlap_of c u v)

abbrev phase_if : Bool → PeeringPhase
phase_if b = if b then peering_ready else peering_pending

status_for-phase :
    (c : Cluster) (p : Half) (m : Bool)
    → (status_for c p m).phase ≡ phase_if (is_ready c m (local_vpc c p) (peer_vpc c p))
unfolding status_for
status_for-phase c p m = ap phase_if (ground arith)

peering_status-phase :
    (c : Cluster) (p : Half) (s : PeeringStatus)
    → peering_status c p ≡ some s
    → (m : Bool) × (find_reciprocal c p ≡ some m)
      × (s.phase ≡ phase_if (is_ready c m (local_vpc c p) (peer_vpc c p)))
unfolding peering_status
peering_status-phase c p s h = elim (Option-cases (find_reciprocal c p)) [
  | inl e ↦ absurd (ground arith)
  | inr (m, e) ↦
      let same : status_for c p m ≡ s = ground arith in
      (m, e, ap (λ t. t.phase) (sym same) ∙ status_for-phase c p m)
]

phase_if-ready : (b : Bool) → phase_if b ≡ peering_ready → b ≡ true
phase_if-ready true h = refl
phase_if-ready false h = absurd (ground arith)

-- Of a half that is ready no address is in a range of both VPCs, among the ranges that
-- `netip.ParsePrefix` reads; the lengths that it reads fit the address's family. A range that only
-- `net.ParseCIDR` takes is in neither list.
pub ready_apart :
    (c : Cluster) (p : Half) (s : PeeringStatus) (u v : PeerVpc) (x : Addr)
    → ((t : Bytes) (r : Prefix) → c.parse_prefix t ≡ some r → Valid r)
    → peering_status c p ≡ some s
    → s.phase ≡ peering_ready
    → local_vpc c p ≡ some u
    → peer_vpc c p ≡ some v
    → Within x
    → ¬ (Shared x (parsed c.parse_prefix u.cidrs) × Shared x (parsed c.parse_prefix v.cidrs))
ready_apart c p s u v x valid h r e f w (i, j) =
    let (m, q, phase) = peering_status-phase c p s h in
    let fine = phase_if-ready (is_ready c m (local_vpc c p) (peer_vpc c p)) (sym phase ∙ r) in
    let meet = (cidrs_overlap-Shared c.parse_prefix valid u.cidrs v.cidrs).1 (x, w, i, j) in
    let apart : is_ready c m (some u) (some v) ≡ true =
      sym (ap (λ o. is_ready c m o (peer_vpc c p)) e ∙ ap (λ o. is_ready c m (some u) o) f)
      ∙ fine in
    absurd (ground arith)

ref_path : (a b : VpcRef) → ref_eq a b ≡ true → a ≡ b
ref_path a b h =
    let ns : a.namespace ≡ b.namespace = (str_eq_iff a.namespace b.namespace).0 (ground arith) in
    let nm : a.name ≡ b.name = (str_eq_iff a.name b.name).0 (ground arith) in
    λ i. record { namespace = ns i; name = nm i }

first_match-Any :
    (p q : Half) (halves : List Half)
    → Any (λ o. o ≡ q) halves
    → matches p q ≡ true
    → first_match p halves ≡ true
unfolding first_match
first_match-Any p q [] a h = elim a [ ]
first_match-Any p q (o ∷ halves) (inl e) h = rw e (rw h refl)
first_match-Any p q (o ∷ halves) (inr a) h = ground (arith, first_match-Any p q halves a h)

find_reciprocal-listed :
    (c : Cluster) (p q : Half) (halves : List Half)
    → c.list_pair p.peer (local_ref p) ≡ some halves
    → Any (λ o. o ≡ q) halves
    → matches p q ≡ true
    → find_reciprocal c p ≡ some (has_references c p)
unfolding find_reciprocal
find_reciprocal-listed c p q halves l a h = elim (Bool-cases (has_references c p)) [
  | inl r ↦ ground (arith, first_match-Any p q halves a h)
  | inr r ↦ ground arith
]

is_ready_sym :
    (c : Cluster)
    → ((t : Bytes) (r : Prefix) → c.parse_prefix t ≡ some r → Valid r)
    → (m : Bool) (u v : Option PeerVpc) → is_ready c m u v ≡ is_ready c m v u
is_ready_sym c valid m none none = refl
is_ready_sym c valid m none (some v) = ground arith
is_ready_sym c valid m (some u) none = ground arith
is_ready_sym c valid m (some u) (some v) =
    ground (arith, cidrs_overlap_sym c.parse_prefix valid u.cidrs v.cidrs)

-- The two references of a half.
abbrev usable : Cluster → VpcRef → Bool
usable c r = namespace_name c.names r.namespace && object_name c.names r.name

has_references-usable :
    (c : Cluster) (p : Half) → has_references c p ≡ (usable c (local_ref p) && usable c p.peer)
unfolding peering_references
has_references-usable c p = ground arith

and_comm : (a b : Bool) → (a && b) ≡ (b && a)
and_comm a b = ground arith

-- Halves that match have the same references, the one's peer being the other's own.
module _ (c : Cluster) (p q : Half) (own : local_ref q ≡ p.peer) (back : local_ref p ≡ q.peer) where
  references_agree : has_references c q ≡ has_references c p
  references_agree =
      has_references-usable c q
      ∙ (ap (λ r. usable c r && usable c q.peer) own
          ∙ (ap (λ r. usable c p.peer && usable c r) (sym back)
              ∙ (and_comm (usable c p.peer) (usable c (local_ref p))
                  ∙ sym (has_references-usable c p))))

  local-peer : local_vpc c q ≡ peer_vpc c p
  local-peer =
      ap (λ b. if b then get_vpc c (local_ref q) else none) references_agree
      ∙ ap (λ r. if has_references c p then get_vpc c r else none) own

  peer-local : peer_vpc c q ≡ local_vpc c p
  peer-local =
      ap (λ b. if b then get_vpc c q.peer else none) references_agree
      ∙ ap (λ r. if has_references c p then get_vpc c r else none) (sym back)

-- Two halves that match, each in the list that the index answers the other with, get the same phase
-- from the same cluster.
pub halves_agree :
    (c : Cluster) (p q : Half) (s t : PeeringStatus) (for_p for_q : List Half)
    → ((x : Bytes) (r : Prefix) → c.parse_prefix x ≡ some r → Valid r)
    → matches p q ≡ true
    → c.list_pair p.peer (local_ref p) ≡ some for_p
    → c.list_pair q.peer (local_ref q) ≡ some for_q
    → Any (λ o. o ≡ q) for_p
    → Any (λ o. o ≡ p) for_q
    → peering_status c p ≡ some s
    → peering_status c q ≡ some t
    → s.phase ≡ t.phase
halves_agree c p q s t for_p for_q valid h lp lq in_p in_q hs ht =
    let own = ref_path (local_ref q) p.peer (ground arith) in
    let back = ref_path (local_ref p) q.peer (ground arith) in
    let (m, fm, sm) = peering_status-phase c p s hs in
    let (n, fn, tn) = peering_status-phase c q t ht in
    let is_m : some m ≡ some (has_references c p) =
      sym fm ∙ find_reciprocal-listed c p q for_p lp in_p h in
    let is_n : some n ≡ some (has_references c q) =
      sym fn ∙ find_reciprocal-listed c q p for_q lq in_q (ground arith) in
    let same : n ≡ m = ground (arith, is_m, is_n, references_agree c p q own back) in
    sm
    ∙ (ap phase_if (is_ready_sym c valid m (local_vpc c p) (peer_vpc c p))
        ∙ (ap (λ o. phase_if (is_ready c m o (local_vpc c p))) (sym (local-peer c p q own back))
            ∙ (ap (λ o. phase_if (is_ready c m (local_vpc c q) o)) (sym (peer-local c p q own back))
                ∙ (ap (λ b. phase_if (is_ready c b (local_vpc c q) (peer_vpc c q))) (sym same)
                    ∙ sym tn))))
