-- ===== src/Grants/Examples.antt =====
-- The theorems about grants at two bindings, one of them scoped.
use cozyplane.Base.{
  ◌≡◌, Bool, true, false, not, ◌&&◌, ◌||◌, List, [], ◌∷◌, Option, none, some, Bytes, codes,
  if◌then◌else◌,
}
use cozyplane.Grants.{
  VpcBinding, is_none, binding_grants_with_budget, result_of, add_all,
  new_binding_grant_accumulator,
}
use cozyplane.Grants.Validate.{fits}
use cozyplane.Grants.Exact.{
  some_attached, some_forwarding, some_blanket, scoped, early_return_exact, grants_exact,
}

abbrev binding : Bool → List Bytes → Option VpcBinding
binding forwarding cidrs = some (record {
  namespace = codes "team";
  deleting = false;
  vpc_ref = record { namespace = codes "owner"; name = codes "net" };
  allow_forwarding = forwarding;
  forwarding_cidrs = cidrs;
})

abbrev bindings : List (Option VpcBinding)
bindings = binding false [] ∷ none ∷ binding true (codes "10.1.0.0/16" ∷ []) ∷ []

abbrev any_cidr : Bytes → Bool
any_cidr s = true

early_return_exact_example :
    binding_grants_with_budget any_cidr bindings (codes "team") (codes "owner") (codes "net")
    ≡ result_of (
        add_all any_cidr
          (new_binding_grant_accumulator (codes "team") (codes "owner") (codes "net"))
          bindings)
early_return_exact_example =
    early_return_exact any_cidr (codes "team") (codes "owner") (codes "net") bindings

grants_exact_example :
    let r =
      binding_grants_with_budget any_cidr bindings (codes "team") (codes "owner") (codes "net") in
    let blanket = some_blanket any_cidr (codes "team") (codes "owner") (codes "net") bindings in
    let union = scoped any_cidr (codes "team") (codes "owner") (codes "net") bindings in
    (r.attached ≡ some_attached any_cidr (codes "team") (codes "owner") (codes "net") bindings)
    × (r.forwarding ≡ (
        blanket
        || some_forwarding any_cidr (codes "team") (codes "owner") (codes "net") bindings
          && fits any_cidr union))
    × (r.cidrs ≡ (if not blanket && fits any_cidr union then union else []))
    × (is_none r.err ≡ (blanket || fits any_cidr union))
grants_exact_example = grants_exact any_cidr (codes "team") (codes "owner") (codes "net") bindings
