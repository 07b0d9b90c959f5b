-- ===== src/Claim/Create.antt =====
-- pkg/registry/sdn/claim/atomic.go: `atomicStorage.Create`. The answers of the libraries that it
-- calls (key construction, codec, transformer, versioner) are fields of the request; what happens in
-- the world during an attempt, between the loop's own steps, is a value of `Attempt`.
pub mod Commit
pub mod Unique
pub mod Nic
mod Examples
use cozyplane.Base.{
  ℕ, zero, suc, ◌+◌, Bool, true, false, not, ◌&&◌, ◌||◌, List, [], ◌∷◌, ◌++◌, Option, none, some,
  Bytes, codes, ◌==◌, if◌then◌else◌, ℤ, pos, str_eq, take, length,
}
use cozyplane.Claim.Decimal.{format_int}
use cozyplane.Claim.Name.{
  claim_prefix_port, claim_prefix_service_vip, port_name, service_vip_name, parse_claim,
}
use cozyplane.Claim.Guard.{
  PortClaim, Page, GuardError, Guarded, modified_below, already_exists, guard_error, is_persistent,
  persistent_guard,
}
use cozyplane.Claim.Store.{
  ClaimObject, port, service_vip, unsupported, Row, Store, Guard, commit, Committed, succeeded,
  failed,
}

pub data CreateError : Type 0 where
  invalid_claim unsupported_type cannot_expire key_problem version_problem version_set : CreateError
  not_encoded context_done commit_problem contention : CreateError
  guard_problem : GuardError → CreateError
  nic_exists : Bytes → CreateError
  key_exists : Bytes → CreateError

pub data Outcome {ℓ} (A : Type ℓ) : Type ℓ where
  returned : A → Outcome A
  stopped : CreateError → Outcome A

-- The next statement runs on a value; an error is returned at once.
infixl 5 ◌>>=◌ ◌>>◌
abbrev pub ◌>>=◌ {ℓ κ} : {A : Type ℓ} {B : Type κ} → Outcome A → (A → Outcome B) → Outcome B
o >>= next = elim o [ returned a ↦ next a | stopped e ↦ stopped e ]

abbrev pub ◌>>◌ {ℓ} : {B : Type ℓ} → Outcome (Unit {0}) → Outcome B → Outcome B
o >> next = o >>= λ _. next

abbrev pub ensure : Bool → CreateError → Outcome (Unit {0})
ensure b e = if b then returned tt else stopped e

abbrev pub or_error {ℓ} : {A : Type ℓ} → Option A → CreateError → Outcome A
or_error o e = elim o [ none ↦ stopped e | some a ↦ returned a ]

-- `prepared[:strings.LastIndex(prepared, "/")+1]`.
unfoldable pub has_slash : Bytes → Bool
has_slash [] = false
has_slash (c ∷ s) = c == b'/' || has_slash s

unfoldable pub root_of : Bytes → Bytes
unfolding has_slash
root_of [] = []
root_of (c ∷ s) = if c == b'/' || has_slash s then c ∷ root_of s else []

-- The VNI of a name, 0 where it has none: `vni, _, _ := ParseClaim(...)`.
unfoldable pub vni_of : Bytes → ℤ
vni_of name = elim (parse_claim claim_prefix_port name) [ none ↦ pos 0 | some (v, esc) ↦ v ]

-- The prefix that the scan reads: the Ports of the claim's VNI.
unfoldable pub scan_prefix : Bytes → PortClaim → Bytes
scan_prefix prepared p = root_of prepared ++ (codes "v" ++ format_int (vni_of p.name) ++ codes ".")

-- The libraries' answers for one object.
pub record Request : Type 0 where
  pub object : ClaimObject
  pub ttl : ℕ
  pub prepared : Option Bytes
  pub twin_key : Bytes → Option Bytes
  pub resource_version : Option ℕ
  pub is_prepared : Bool
  pub is_encoded : Bool

-- One round of the loop: the state of the context, the answers to the scan, and the store when the
-- transaction reaches it.
pub record Attempt : Type 0 where
  pub is_done : Bool
  pub scan_done : ℕ → Bool
  pub get : ℕ → Bytes → ℕ → Option Page
  pub commit_fails : Bool
  pub store : Store

module _ (addr16 : Bytes → Option Bytes) where
  -- The switch on the object: the name that a claim of the other kind on the same address has.
  unfoldable pub twin_name : ClaimObject → Outcome Bytes
  twin_name (port p) = elim (parse_claim claim_prefix_port p.name) [
    | none ↦ stopped invalid_claim
    | some (vni, esc) ↦ returned (service_vip_name addr16 vni p.ip)
  ]
  twin_name (service_vip name ip) = elim (parse_claim claim_prefix_service_vip name) [
    | none ↦ stopped invalid_claim
    | some (vni, esc) ↦ returned (port_name addr16 vni ip)
  ]
  twin_name unsupported = stopped unsupported_type

module _ (range_end : Bytes → Bytes) where
  -- The guard that an attempt adds to its checks; a Port with no VM has none.
  unfoldable pub guard_of : Bytes → ClaimObject → Attempt → Outcome Guard
  guard_of prepared (port p) a =
      let prefix = scan_prefix prepared p in
      let guarded =
        persistent_guard (root_of prepared) prefix (range_end prefix) p a.scan_done a.get in
      if is_persistent p
      then elim guarded [
        | modified_below bound ↦ returned (some (prefix, bound))
        | already_exists name ↦ stopped (nic_exists name)
        | guard_error e ↦ stopped (guard_problem e)
      ]
      else returned none
  guard_of prepared (service_vip name ip) a = returned none
  guard_of prepared unsupported a = returned none

  -- The loop over the attempts.
  unfoldable pub create_loop : Bytes → Bytes → ClaimObject → List Attempt → Outcome Store
  create_loop prepared twin object [] = stopped contention
  create_loop prepared twin object (a ∷ rest) =
      let again = create_loop prepared twin object rest in
      if a.is_done then stopped context_done else do
        guard ← guard_of prepared object a
        if a.commit_fails
            then stopped commit_problem
            else elim (commit prepared twin guard object a.store) [
              | succeeded s ↦ returned s
              | failed true ↦ stopped (key_exists prepared)
              | failed false ↦ again
            ]

abbrev pub persistent_create_attempts : ℕ
persistent_create_attempts = 8

module _ (addr16 : Bytes → Option Bytes) (range_end : Bytes → Bytes) where
  -- `Create`, with the store that its transaction leaves. What the decoder makes of the written
  -- bytes for the caller comes after the write and changes no store; it is left out.
  unfoldable pub create : Request → List Attempt → Outcome Store
  create q attempts = do
    name ← twin_name addr16 q.object
    ensure (q.ttl == 0) cannot_expire
    prepared ← or_error q.prepared key_problem
    twin ← or_error (q.twin_key name) key_problem
    version ← or_error q.resource_version version_problem
    ensure (version == 0) version_set
    ensure q.is_prepared version_problem
    ensure q.is_encoded not_encoded
    create_loop range_end prepared twin q.object (take persistent_create_attempts attempts)
