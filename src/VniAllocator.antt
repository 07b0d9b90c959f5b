-- ===== src/VniAllocator.antt =====
-- internal/controller/sdn/vpc_controller.go: how a VPC gets its network identifier. The last VNI that
-- was handed out stands in an annotation of a Lease, the counter; the API server is what it answers.
pub mod Store
pub mod Decisions
pub mod Unique
pub mod Reserve
pub mod Fresh
pub mod Duplicates
pub mod Examples
use cozyplane.Base.{
  ℕ, ◌+◌, Bool, true, false, ◌&&◌, ◌||◌, not, List, [], ◌∷◌, ◌++◌, Option, none, some, Bytes,
  str_eq, str_ltb, take, if◌then◌else◌, ℤ, pos, ltb_ℤ, leb_ℤ, ◌+ℤ◌, max_ℤ,
}
use cozyplane.Base.Api.{
  Read, found, not_found, read_error, Written, wrote, conflict, already_exists, write_error,
}
use cozyplane.NetId.{last_vni, valid_vni}
use cozyplane.Claim.Decimal.{format_int, parse_int}
use cozyplane.Claim.Name.{parse_claim, claim_prefix_port, claim_prefix_service_vip}
use cozyplane.Ipam.{Lister, Walked, finished, stopped, WalkError, walk_claims}

-- The counter's fields that are read; a missing annotation is the empty text.
pub record Lease : Type 0 where
  pub annotation : Bytes
  pub is_deleting : Bool
  pub version : ℕ

-- The lists of what bears a VNI already: the status of each VPC, and the names of the claims.
pub record Claims : Type 0 where
  pub vpcs : Lister ℤ
  pub ports : Lister Bytes
  pub service_vips : Lister Bytes

pub data VniError : Type 0 where
  context_done read_failed exhausted being_deleted invalid_counter unconfirmed no_attempt : VniError
  list_failed : WalkError → VniError
  refused_write : Written → VniError

-- The visitors of `initialVNIHighWater`.
unfoldable pub visit_vpc : ℤ → ℤ → ℤ
visit_vpc high vni = if valid_vni vni then max_ℤ high vni else high

unfoldable pub visit_claim : Bytes → ℤ → Bytes → ℤ
visit_claim prefix high name = elim (parse_claim prefix name) [
  | none ↦ high
  | some (vni, esc) ↦ max_ℤ high vni
]

-- `initialVNIHighWater`.
unfoldable pub initial_vni_high_water : Claims → Walked ℤ
initial_vni_high_water c = elim (walk_claims c.vpcs visit_vpc (pos 99)) [
  | stopped e ↦ stopped e
  | finished high ↦ elim (walk_claims c.ports (visit_claim claim_prefix_port) high) [
    | stopped e ↦ stopped e
    | finished high' ↦ walk_claims c.service_vips (visit_claim claim_prefix_service_vip) high'
  ]
]

-- What an attempt asks the API server to write: a counter that does not exist, or the one that it
-- read with a new value; or why it asks nothing.
pub data Decision : Type 0 where
  create_counter : ℤ → Decision
  update_counter : Lease → ℤ → Decision
  refuse : VniError → Decision

unfoldable pub decide_bootstrap : Walked ℤ → Decision
decide_bootstrap (stopped e) = refuse (list_failed e)
decide_bootstrap (finished high) =
    if leb_ℤ last_vni high then refuse exhausted else create_counter (high +ℤ pos 1)

unfoldable pub decide_counter : Lease → Decision
decide_counter l = if l.is_deleting then refuse being_deleted else elim (parse_int l.annotation) [
  | none ↦ refuse invalid_counter
  | some high ↦
      if ltb_ℤ high (pos 99) || ltb_ℤ last_vni high
      then refuse invalid_counter
      else if leb_ℤ last_vni high
      then refuse exhausted
      else update_counter l (high +ℤ pos 1)
]

unfoldable pub decide : Read Lease → Claims → Decision
decide not_found claims = decide_bootstrap (initial_vni_high_water claims)
decide read_error claims = refuse read_failed
decide (found l) claims = decide_counter l

-- One attempt: the context's state, the answer of its read and of its write.
pub record Attempt : Type 0 where
  pub is_done : Bool
  pub counter : Read Lease
  pub claims : Claims
  pub answer : Written

pub data Reservation : Type 0 where
  reserved : ℤ → Reservation
  failed : VniError → Reservation

abbrev confirm : Written → ℤ → Reservation
confirm wrote v = reserved v
confirm conflict v = failed (refused_write conflict)
confirm already_exists v = failed (refused_write already_exists)
confirm write_error v = failed (refused_write write_error)

unfoldable pub run_decision : Decision → Written → Reservation
run_decision (create_counter v) answer = confirm answer v
run_decision (update_counter l v) answer = confirm answer v
run_decision (refuse e) answer = failed e

unfoldable pub run_attempt : Attempt → Reservation
run_attempt a =
    if a.is_done then failed context_done else run_decision (decide a.counter a.claims) a.answer

-- `apierrors.IsConflict(err) || apierrors.IsAlreadyExists(err)`.
abbrev is_retried : VniError → Bool
is_retried (refused_write conflict) = true
is_retried (refused_write already_exists) = true
is_retried e = false

-- `retry.OnError` over the attempts, with the error of the one before.
unfoldable pub attempts_from : VniError → List Attempt → Reservation
attempts_from last [] = failed last
attempts_from last (a ∷ rest) = elim (run_attempt a) [
  | reserved v ↦ reserved v
  | failed e ↦ elim (is_retried e) [ true ↦ attempts_from e rest | false ↦ failed e ]
]

-- `allocateVNI`; `steps` is how many attempts `retry.DefaultRetry` makes at most, and `is_done` the
-- context's state at the end.
unfoldable pub allocate_vni : ℕ → Bool → List Attempt → Reservation
allocate_vni steps is_done attempts =
    if is_done then failed context_done else elim (attempts_from no_attempt (take steps attempts)) [
      | failed e ↦ failed e
      | reserved v ↦ if valid_vni v then reserved v else failed unconfirmed
    ]

-- `vpcClaim`: the time of creation and `namespace/name`.
pub record VpcClaim : Type 0 where
  pub created : ℤ
  pub name : Bytes

-- `vpcClaimOlder`.
unfoldable pub vpc_claim_older : VpcClaim → VpcClaim → Bool
vpc_claim_older a b =
    if ltb_ℤ a.created b.created || ltb_ℤ b.created a.created
    then ltb_ℤ a.created b.created
    else str_ltb a.name b.name

-- The fields of a VPC that the search for duplicates reads.
pub record Vpc : Type 0 where
  pub namespace : Bytes
  pub name : Bytes
  pub created : ℤ
  pub vni : ℤ

-- `vpcClaimKey`.
abbrev pub vpc_claim_key : Vpc → VpcClaim
vpc_claim_key v = record { created = v.created; name = v.namespace ++ b'/' ∷ v.name }

abbrev same_vni : ℤ → ℤ → Bool
same_vni a b = leb_ℤ a b && leb_ℤ b a

-- The visitor of `lostVNIToDuplicate`, for the VPC itself.
unfoldable pub visit_duplicate : Vpc → Bool → Vpc → Bool
visit_duplicate self lost o =
    if not (same_vni o.vni self.vni) || str_eq o.namespace self.namespace && str_eq o.name self.name
    then lost
    else if vpc_claim_older (vpc_claim_key o) (vpc_claim_key self)
    then true
    else lost

-- `lostVNIToDuplicate`.
unfoldable pub lost_vni_to_duplicate : Lister Vpc → Vpc → Walked Bool
lost_vni_to_duplicate lister self = walk_claims lister (visit_duplicate self) false
