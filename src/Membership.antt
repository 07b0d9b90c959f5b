-- ===== src/Membership.antt =====
-- internal/controller/sdn/securitygroup_controller.go: which SecurityGroups a Port is in, as the controller
-- writes it into the Port's status.
pub mod Selected
pub mod Distinct
pub mod Pigeonhole
pub mod Bits
pub mod Published
pub mod Refined
pub mod Examples
use cozyplane.Base.{
  ℕ, zero, suc, ◌+◌, Bool, true, false, ◌&&◌, ◌||◌, not, List, [], ◌∷◌, ◌++◌, Option, none, some,
  Bytes, is_empty, str_eq, ltb, ◌==◌, length, if◌then◌else◌, ℤ, pos, ltb_ℤ, leb_ℤ, to_ℕ,
}
use cozyplane.Base.Api.{
  Read, found, not_found, read_error, Written, wrote, conflict, already_exists, write_error,
}
use cozyplane.Grants.{VpcRef}
use cozyplane.VpnLimits.{Library, object_name, namespace_name}
use cozyplane.SgIdentity.{
  Word, zero_word, set_bit, in_range, SecurityGroup, Index, find, add, GroupRef,
}

-- What a Pod is labelled with.
abbrev pub Labels : Type 0
Labels = List (Bytes × Bytes)

-- The fields of a SecurityGroup that are read. A selector is its test, or `none` if it is invalid;
-- `match_labels` and `values` are the numbers of what it has.
pub record Group : Type 0 where
  pub identity : SecurityGroup
  pub selector : Option (Labels → Bool)
  pub match_labels : ℕ
  pub values : List ℕ

pub record Pod : Type 0 where
  pub is_deleted : Bool
  pub uid : Bytes
  pub labels : Labels

-- The memberships in a Port's status.
pub record Status : Type 0 where
  pub groups : List ℤ
  pub group_refs : List GroupRef
  pub group_pod_uid : Bytes

-- The fields of a Port that are read: the labels that name its Pod, and the annotation.
pub record MemberPort : Type 0 where
  pub is_deleted : Bool
  pub vpc : VpcRef
  pub pod_namespace : Bytes
  pub pod_name : Bytes
  pub pod_uid : Bytes
  pub pod_labels : Bytes
  pub status : Status

abbrev pub membership_work_limit : ℕ
membership_work_limit = 65536

pub data InputError : Type 0 where
  invalid_ref too_many_groups context_done selector_budget value_budget invalid_selector :
      InputError

-- The loop over a selector's expressions, with `work`.
unfoldable pub add_values : ℕ → List ℕ → Option ℕ
add_values work [] = some work
add_values work (v ∷ vs) =
    let rest = add_values (work + v) vs in
    if ltb membership_work_limit (work + v) then none else rest

-- The loop of `membershipInputWork`: how often the context was asked, and `work`. Success is `none`.
unfoldable pub input_work_from : (ℕ → Bool) → ℕ → ℕ → List Group → Option InputError
input_work_from is_done n work [] = if is_done n then some context_done else none
input_work_from is_done n work (g ∷ groups) =
    let skipped = input_work_from is_done (n + 1) work groups in
    let more = work + (g.match_labels + length g.values) in
    let added : Option InputError = elim (add_values more g.values) [
      | none ↦ some value_budget
      | some work' ↦ input_work_from is_done (n + 1) work' groups
    ] in
    if is_done n
    then some context_done
    else if g.identity.is_deleted
    then skipped
    else if ltb membership_work_limit more
    then some selector_budget
    else added

-- `membershipInputWork`.
unfoldable pub membership_input_work : (ℕ → Bool) → List Group → Option InputError
membership_input_work is_done groups =
    if ltb membership_work_limit (length groups)
    then some too_many_groups
    else input_work_from is_done 0 (length groups) groups

-- `podLabelsFor`, with the answer for the Pod that the labels name and the reading of the annotation.
unfoldable pub pod_labels_for : (Bytes → Labels) → Read Pod → MemberPort → Labels
pod_labels_for decode answer port =
    if is_empty port.pod_namespace || is_empty port.pod_name || is_empty port.pod_uid
    then decode port.pod_labels
    else elim answer [
      | not_found ↦ decode port.pod_labels
      | read_error ↦ decode port.pod_labels
      | found pod ↦
          if not pod.is_deleted && str_eq pod.uid port.pod_uid
          then pod.labels
          else decode port.pod_labels
    ]

-- Whether the loops of `Reconcile` pass over a group: it is of another VPC.
abbrev pub is_other : VpcRef → Group → Bool
is_other v g = not (str_eq g.identity.vpc_name v.name)

-- The loop that fills the index.
unfoldable pub index_from : Library → VpcRef → Index → List Group → Index
index_from lib v index [] = index
index_from lib v index (g ∷ groups) =
    index_from lib v (if is_other v g then index else add lib index (some g.identity)) groups

-- The identifier is the group's own on the wire.
abbrev pub is_resolved : Index → VpcRef → SecurityGroup → Bool
is_resolved index v g =
    in_range g.id
    && not (is_empty g.uid)
    && elim (find index v g.id) [ none ↦ is_empty g.uid | some uid ↦ str_eq uid g.uid ]

-- What the loop over the groups ends with: the context is done, a selector is invalid, or `selected`
-- and `refs`.
pub data Selection : Type 0 where
  interrupted invalid : Selection
  selection : Word → List GroupRef → Selection

unfoldable pub select_from :
    (ℕ → Bool) → Index → VpcRef → Labels → ℕ → Word → List GroupRef → List Group → Selection
select_from is_done index v labels n word refs [] = selection word refs
select_from is_done index v labels n word refs (g ∷ groups) =
    let resolved = is_resolved index v g.identity in
    let r : GroupRef = record { id = g.identity.id; uid = g.identity.uid } in
    let skipped = select_from is_done index v labels (n + 1) word refs groups in
    let chosen =
      select_from is_done index v labels (n + 1)
        (set_bit (if resolved then to_ℕ g.identity.id else 0) word)
        (if resolved then refs ++ r ∷ [] else refs) groups in
    if is_done n
    then interrupted
    else if is_other v g || g.identity.is_deleted
    then skipped
    else elim g.selector [
      | none ↦ invalid
      | some matches ↦ if matches labels then chosen else skipped
    ]

-- The loop over the identifiers from the given one, with so many left: those whose bit is set.
unfoldable pub ids_from : ℕ → ℕ → Word → List ℤ
ids_from zero id word = []
ids_from (suc left) id word =
    let rest = ids_from left (id + 1) word in if word id then pos id ∷ rest else rest

-- `slices.SortFunc` by identifier.
unfoldable pub insert_ref : GroupRef → List GroupRef → List GroupRef
insert_ref r [] = r ∷ []
insert_ref r (s ∷ refs) = if ltb_ℤ s.id r.id then s ∷ insert_ref r refs else r ∷ s ∷ refs

unfoldable pub sort_refs : List GroupRef → List GroupRef
sort_refs [] = []
sort_refs (r ∷ refs) = insert_ref r (sort_refs refs)

-- The status that is written for `selected` and `refs`.
unfoldable pub status_of : MemberPort → Word → List GroupRef → Status
status_of port word refs = record {
  groups = ids_from 63 0 word;
  group_refs = sort_refs refs;
  group_pod_uid = port.pod_uid;
}

-- `membershipVPCKeys` of a Port has a key.
abbrev pub is_keyed : Library → VpcRef → Bool
is_keyed lib v = namespace_name lib v.namespace && object_name lib v.name

-- What `Reconcile` reads: the Port, the Pod of its labels, the groups that the cache's index answers
-- with for the Port's VPC, the context's state in each loop and between them, and the update's answer.
pub record Inputs : Type 0 where
  pub port : Read MemberPort
  pub pod : Read Pod
  pub decode : Bytes → Labels
  pub groups : Option (List Group)
  pub is_done_input : ℕ → Bool
  pub is_done : Bool
  pub is_done_select : ℕ → Bool
  pub answer : Written

pub data Outcome : Type 0 where
  absent being_deleted read_failed list_failed context_failed unchanged requeued update_failed :
      Outcome
  updated : Status → Outcome

-- `selected` and `refs`, guarded where the input is in error: bit zero alone. `none` if the context is
-- done.
unfoldable pub guarded_selection :
    Library → Inputs → MemberPort → List Group → Option InputError → Option (Word × List GroupRef)
guarded_selection lib inputs port groups (some e) = some (set_bit 0 zero_word, [])
guarded_selection lib inputs port groups none =
    let index = index_from lib port.vpc [] groups in
    let labels = pod_labels_for inputs.decode inputs.pod port in
    elim (select_from inputs.is_done_select index port.vpc labels 0 zero_word [] groups) [
      | interrupted ↦ none
      | invalid ↦ some (set_bit 0 zero_word, [])
      | selection word refs ↦ some (word, refs)
    ]

unfoldable pub same_ids : List ℤ → List ℤ → Bool
same_ids [] [] = true
same_ids [] (b ∷ bs) = false
same_ids (a ∷ as') [] = false
same_ids (a ∷ as') (b ∷ bs) = leb_ℤ a b && leb_ℤ b a && same_ids as' bs

unfoldable pub same_refs : List GroupRef → List GroupRef → Bool
same_refs [] [] = true
same_refs [] (b ∷ bs) = false
same_refs (a ∷ as') [] = false
same_refs (a ∷ as') (b ∷ bs) =
    leb_ℤ a.id b.id && leb_ℤ b.id a.id && str_eq a.uid b.uid && same_refs as' bs

abbrev same_status : Status → Status → Bool
same_status a b =
    same_ids a.groups b.groups
    && same_refs a.group_refs b.group_refs
    && str_eq a.group_pod_uid b.group_pod_uid

-- `Status().Update`.
unfoldable pub update_status : Written → Status → Outcome
update_status wrote s = updated s
update_status conflict s = requeued
update_status already_exists s = update_failed
update_status write_error s = update_failed

unfoldable pub publish : Inputs → MemberPort → Option (Word × List GroupRef) → Outcome
publish inputs port none = context_failed
publish inputs port (some (word, refs)) =
    let status = status_of port word refs in
    if same_status port.status status then unchanged else update_status inputs.answer status

-- `Reconcile` once the Port is read.
unfoldable pub reconcile_port : Library → Inputs → MemberPort → Outcome
reconcile_port lib inputs port =
    let guarded : Outcome =
      if inputs.is_done
      then context_failed
      else publish inputs port (guarded_selection lib inputs port [] (some invalid_ref)) in
    let listed : Outcome = elim inputs.groups [
      | none ↦ list_failed
      | some groups ↦
          if inputs.is_done
          then context_failed
          else publish inputs port (
              guarded_selection lib inputs port groups
                (membership_input_work inputs.is_done_input groups))
    ] in
    if port.is_deleted then being_deleted else if is_keyed lib port.vpc then listed else guarded

-- `PortMembershipReconciler.Reconcile`.
unfoldable pub reconcile : Library → Inputs → Outcome
reconcile lib inputs = elim inputs.port [
  | not_found ↦ absent
  | read_error ↦ read_failed
  | found port ↦ reconcile_port lib inputs port
]
