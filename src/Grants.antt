-- ===== src/Grants.antt =====
-- api/sdn/v1alpha1/binding_grants.go: what the VPCBindings of a consumer namespace grant to the
-- pods that attach to one VPC. `net.ParseCIDR` is asked only whether it succeeds, and is the
-- section's parameter `cidr_ok`; a nil binding pointer is `none`.
pub mod Validate
pub mod Exact
mod Examples
use cozyplane.Base.{
  ℕ, zero, suc, ◌+◌, ◌-◌, ◌≡◌, Bool, true, false, not, ◌&&◌, ◌||◌, List, [], ◌∷◌, ◌++◌, Option,
  none, some, length, Bytes, str_eq, is_empty, ltb, if◌then◌else◌,
}

-- `VPCRef`: a VPC by the namespace that owns it and its name.
pub record VpcRef : Type 0 where
  pub namespace : Bytes
  pub name : Bytes

-- `VPCBinding`; `deleting` is `!DeletionTimestamp.IsZero()`.
pub record VpcBinding : Type 0 where
  pub namespace : Bytes
  pub deleting : Bool
  pub vpc_ref : VpcRef
  pub allow_forwarding : Bool
  pub forwarding_cidrs : List Bytes

abbrev pub max_forwarding_prefixes : ℕ
max_forwarding_prefixes = 4096

abbrev pub max_forwarding_prefix_bytes : ℕ
max_forwarding_prefix_bytes = 64

pub data GrantError : Type 0 where
  too_many_prefixes : GrantError
  prefix_too_long : ℕ → GrantError
  prefix_not_cidr : ℕ → GrantError

-- `BindingAuthorizesAttachment`.
unfoldable pub binding_authorizes_attachment : Option VpcBinding → Bytes → Bytes → Bytes → Bool
binding_authorizes_attachment none consumer_ns vpc_ns vpc_name = false
binding_authorizes_attachment (some b) consumer_ns vpc_ns vpc_name =
    let ref_namespace = if is_empty b.vpc_ref.namespace then b.namespace else b.vpc_ref.namespace in
    if not (str_eq b.namespace consumer_ns) || b.deleting
    then false
    else str_eq ref_namespace vpc_ns && str_eq b.vpc_ref.name vpc_name

-- `BindingGrantAccumulator`.
pub record BindingGrantAccumulator : Type 0 where
  pub consumer_ns : Bytes
  pub vpc_ns : Bytes
  pub vpc_name : Bytes
  pub attached : Bool
  pub forwarding : Bool
  pub blanket : Bool
  pub cidrs : List Bytes
  pub err : Option GrantError

-- The four results of `Result` and of `BindingGrantsWithBudget`.
pub record Granted : Type 0 where
  pub attached : Bool
  pub forwarding : Bool
  pub cidrs : List Bytes
  pub err : Option GrantError

-- `NewBindingGrantAccumulator`.
unfoldable pub new_binding_grant_accumulator : Bytes → Bytes → Bytes → BindingGrantAccumulator
new_binding_grant_accumulator consumer_ns vpc_ns vpc_name = record {
  consumer_ns = consumer_ns;
  vpc_ns = vpc_ns;
  vpc_name = vpc_name;
  attached = false;
  forwarding = false;
  blanket = false;
  cidrs = [];
  err = none;
}

-- `Result`.
unfoldable pub result_of : BindingGrantAccumulator → Granted
result_of g = elim g.err [
  | none ↦ record { attached = g.attached; forwarding = g.forwarding; cidrs = g.cidrs; err = none }
  | some e ↦ record { attached = g.attached; forwarding = false; cidrs = []; err = some e }
]

abbrev pub is_none {ℓ} : {A : Type ℓ} → Option A → Bool
is_none none = true
is_none (some a) = false

abbrev pub is_nil {ℓ} : {A : Type ℓ} → List A → Bool
is_nil [] = true
is_nil (x ∷ xs) = false

-- An unrestricted forwarding grant, which the first loop looks for.
unfoldable pub is_unrestricted : Option VpcBinding → Bytes → Bytes → Bytes → Bool
is_unrestricted none consumer_ns vpc_ns vpc_name = false
is_unrestricted (some b) consumer_ns vpc_ns vpc_name =
    binding_authorizes_attachment (some b) consumer_ns vpc_ns vpc_name
    && b.allow_forwarding
    && is_nil b.forwarding_cidrs

module _ (cidr_ok : Bytes → Bool) where
  -- The loop of `ValidateForwardingPrefixes`, at index i.
  unfoldable pub validate_from : ℕ → List Bytes → Option GrantError
  validate_from i [] = none
  validate_from i (cidr ∷ cidrs) =
      if ltb max_forwarding_prefix_bytes (length cidr)
      then some (prefix_too_long i)
      else if cidr_ok cidr
      then validate_from (i + 1) cidrs
      else some (prefix_not_cidr i)

  -- `ValidateForwardingPrefixes`.
  unfoldable pub validate_forwarding_prefixes : List Bytes → Option GrantError
  validate_forwarding_prefixes cidrs =
      if ltb max_forwarding_prefixes (length cidrs)
      then some too_many_prefixes
      else validate_from 0 cidrs

  -- The end of `Add`, once the error of this binding is known.
  unfoldable pub add_checked :
      BindingGrantAccumulator → List Bytes → Option GrantError → BindingGrantAccumulator
  add_checked g more (some e) = record g { err = some e; cidrs = [] }
  add_checked g more none = record g { err = none; cidrs = g.cidrs ++ more }

  -- `Add` of a binding that authorizes forwarding through the given prefixes.
  unfoldable pub add_forwarding : BindingGrantAccumulator → List Bytes → BindingGrantAccumulator
  unfolding add_checked
  add_forwarding g more =
      if is_nil more
      then record g { blanket = true; cidrs = []; err = none }
      else if g.blanket || not (is_none g.err)
      then g
      else add_checked g more (
          if ltb (max_forwarding_prefixes - length g.cidrs) (length more)
          then some too_many_prefixes
          else validate_forwarding_prefixes more)

  -- `Add`.
  unfoldable pub add : BindingGrantAccumulator → Option VpcBinding → BindingGrantAccumulator
  unfolding add_forwarding
  add g none = g
  add g (some b) =
      let g' = record g { attached = true } in
      if not (binding_authorizes_attachment (some b) g.consumer_ns g.vpc_ns g.vpc_name)
      then g
      else if not b.allow_forwarding
      then g'
      else add_forwarding (record g' { forwarding = true }) b.forwarding_cidrs

  -- The second loop of `BindingGrantsWithBudget`.
  unfoldable pub add_all :
      BindingGrantAccumulator → List (Option VpcBinding) → BindingGrantAccumulator
  add_all g [] = g
  add_all g (b ∷ bs) = add_all (add g b) bs

  -- `BindingGrantsWithBudget`: both loops, the first with its early return.
  unfoldable pub binding_grants_from :
      List (Option VpcBinding) → List (Option VpcBinding) → Bytes → Bytes → Bytes → Granted
  binding_grants_from all [] consumer_ns vpc_ns vpc_name =
      result_of (add_all (new_binding_grant_accumulator consumer_ns vpc_ns vpc_name) all)
  binding_grants_from all (b ∷ bs) consumer_ns vpc_ns vpc_name =
      if is_unrestricted b consumer_ns vpc_ns vpc_name
      then record { attached = true; forwarding = true; cidrs = []; err = none }
      else binding_grants_from all bs consumer_ns vpc_ns vpc_name

  unfoldable pub binding_grants_with_budget :
      List (Option VpcBinding) → Bytes → Bytes → Bytes → Granted
  unfolding binding_grants_from
  binding_grants_with_budget bs = binding_grants_from bs bs
