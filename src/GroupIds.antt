-- ===== src/GroupIds.antt =====
-- internal/controller/sdn/securitygroup_controller.go: how a SecurityGroup gets its identifier in its VPC,
-- and which of two groups with one identifier yields.
pub mod Least
pub mod Duplicates
pub mod Examples
use cozyplane.Base.{
  ℕ, zero, suc, ◌+◌, Bool, true, false, ◌&&◌, ◌||◌, not, List, [], ◌∷◌, Bytes, str_eq, str_ltb,
  ◌==◌, if◌then◌else◌, ℤ, pos, ltb_ℤ, leb_ℤ, to_ℕ,
}
use cozyplane.Base.Api.{
  Read, found, not_found, read_error, Written, wrote, conflict, already_exists, write_error,
}
use cozyplane.SgIdentity.{in_range, max_security_groups_per_vpc, same_id}
use cozyplane.Ipam.{Lister, Walked, finished, stopped, WalkError, walk_claims}

pub data Phase : Type 0 where
  pending ready other_phase : Phase

-- The fields of a SecurityGroup that are read.
pub record GroupClaim : Type 0 where
  pub name : Bytes
  pub vpc_name : Bytes
  pub is_deleted : Bool
  pub created : ℤ
  pub id : ℤ
  pub phase : Phase

-- The visitor of `usedIDs`; `used` is the list of its keys.
unfoldable pub visit_used : GroupClaim → List ℕ → GroupClaim → List ℕ
visit_used self used o =
    if str_eq o.name self.name || not (str_eq o.vpc_name self.vpc_name)
    then used
    else if in_range o.id
    then to_ℕ o.id ∷ used
    else used

-- `used[id]`.
unfoldable pub is_used : ℕ → List ℕ → Bool
is_used id [] = false
is_used id (u ∷ used) = id == u || is_used id used

-- The loop of `allocateID` from an identifier, with so many left.
unfoldable pub lowest_from : ℕ → ℕ → List ℕ → ℕ
lowest_from zero id used = 0
lowest_from (suc left) id used =
    let rest = lowest_from left (id + 1) used in if is_used id used then rest else id

-- `allocateID`.
unfoldable pub allocate_id : Lister GroupClaim → GroupClaim → Walked ℕ
allocate_id lister self = elim (walk_claims lister (visit_used self) []) [
  | stopped e ↦ stopped e
  | finished used ↦ finished (lowest_from 62 1 used)
]

-- `sgClaimOlder`.
unfoldable pub sg_claim_older : GroupClaim → GroupClaim → Bool
sg_claim_older a b =
    if ltb_ℤ a.created b.created || ltb_ℤ b.created a.created
    then ltb_ℤ a.created b.created
    else str_ltb a.name b.name

-- The visitor of `lostIDToDuplicate`.
unfoldable pub visit_lost : GroupClaim → Bool → GroupClaim → Bool
visit_lost self lost o =
    if str_eq o.name self.name
      || not (str_eq o.vpc_name self.vpc_name)
      || not (same_id o.id self.id)
    then lost
    else if sg_claim_older o self
    then true
    else lost

-- `lostIDToDuplicate`.
unfoldable pub lost_id_to_duplicate : Lister GroupClaim → GroupClaim → Walked Bool
lost_id_to_duplicate lister self = walk_claims lister (visit_lost self) false

-- The identifier that `Reconcile` gives the group; `is_name` is `vpnlimits.ObjectName`.
unfoldable pub next_id : (Bytes → Bool) → Lister GroupClaim → GroupClaim → Walked ℕ
next_id is_name lister sg =
    let kept : Walked ℕ = elim (lost_id_to_duplicate lister sg) [
      | stopped e ↦ stopped e
      | finished lost ↦ finished (if lost then 0 else to_ℕ sg.id)
    ] in
    if not (is_name sg.vpc_name)
    then finished 0
    else if not (in_range sg.id)
    then allocate_id lister sg
    else kept

-- What `Reconcile` ends with; a group is settled with its identifier, its phase and whether it is
-- reconciled again later.
pub data SgOutcome : Type 0 where
  gone read_failed update_failed requeued : SgOutcome
  scan_failed : WalkError → SgOutcome
  settled : ℕ → Phase → Bool → SgOutcome

abbrev same_phase : Phase → Phase → Bool
same_phase pending pending = true
same_phase pending ready = false
same_phase pending other_phase = false
same_phase ready pending = false
same_phase ready ready = true
same_phase ready other_phase = false
same_phase other_phase p = false

unfoldable pub settle : Written → GroupClaim → ℕ → SgOutcome
settle answer sg id =
    let phase = if id == 0 then pending else ready in
    let updated : SgOutcome = elim answer [
      | wrote ↦ settled id phase (id == 0)
      | conflict ↦ requeued
      | already_exists ↦ update_failed
      | write_error ↦ update_failed
    ] in
    if same_id sg.id (pos id) && same_phase sg.phase phase
    then settled id phase (id == 0)
    else updated

-- `SecurityGroupReconciler.Reconcile`.
unfoldable pub reconcile_group :
    (Bytes → Bool) → Lister GroupClaim → Read GroupClaim → Written → SgOutcome
reconcile_group is_name lister not_found answer = gone
reconcile_group is_name lister read_error answer = read_failed
reconcile_group is_name lister (found sg) answer =
    let live : SgOutcome = elim (next_id is_name lister sg) [
      | stopped e ↦ scan_failed e
      | finished id ↦ settle answer sg id
    ] in
    if sg.is_deleted then gone else live
