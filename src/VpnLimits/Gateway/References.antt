-- ===== src/VpnLimits/Gateway/References.antt =====
-- What holds of a gateway that passes.
use cozyplane.Base.{
  ◌≤◌, ◌≡◌, ◌≢◌, Bool, true, false, List, [], ◌∷◌, ◌++◌, ◌⊎◌, inl, inr, refl, Option, some, none,
  is_empty, Bytes, arith, length, All,
}
use cozyplane.VpnLimits.{Library, Problem, object_name, check_all, bad_claim, bad_reference}
use cozyplane.VpnLimits.Pools.{has_name}
use cozyplane.VpnLimits.Client.Exact.{Distinct, All-absent}
use cozyplane.VpnLimits.Gateway.{
  VpnGateway, IpsecSpec, HaSpec, VirtualMachine, additional_vpcs, gateway_refs, reference_ok,
  vpn_gateway_input_problem,
}

check_all_sound :
    (ok : Bytes → Bool) (p : Problem) (xs : List Bytes)
    → check_all ok p xs ≡ none
    → All (λ x. ok x ≡ true) xs
check_all_sound ok p [] h = tt
check_all_sound ok p (x ∷ xs) h = (ground arith, check_all_sound ok p xs (ground arith))

module _ (lib : Library) where
  -- A reference is absent, or the name of an object.
  abbrev pub IsReference : Bytes → Type 0
  IsReference ref = (ref ≡ []) ⊎ (object_name lib ref ≡ true)

  -- The secrets of IPsec, and the claim and the secret of a virtual machine.
  abbrev pub IpsecReferences : Option IpsecSpec → Type 0
  IpsecReferences none = Unit
  IpsecReferences (some ipsec) =
      IsReference ipsec.credential_secret_ref × IsReference ipsec.trusted_ca_secret_ref

  abbrev pub MachineReferences : Option VirtualMachine → Type 0
  MachineReferences none = Unit
  MachineReferences (some vm) =
      IsReference vm.state_claim_name × IsReference vm.cloud_init_secret_ref

  abbrev pub HaReferences : Option HaSpec → Type 0
  HaReferences none = Unit
  HaReferences (some ha) = MachineReferences ha.virtual_machine

  reference_ok-IsReference : (ref : Bytes) → reference_ok lib ref ≡ true → IsReference ref
  reference_ok-IsReference [] h = inl refl
  reference_ok-IsReference (c ∷ ref) h = inr (unfold is_empty in ground arith)

  check_refs :
      (refs : List Bytes)
      → check_all (reference_ok lib) bad_reference refs ≡ none
      → All IsReference refs
  check_refs [] h = tt
  check_refs (ref ∷ refs) h =
      (reference_ok-IsReference ref (ground arith), check_refs refs (ground arith))

  All-back : (xs ys : List Bytes) → All IsReference (xs ++ ys) → All IsReference ys
  All-back [] ys h = h
  All-back (x ∷ xs) ys (p, ps) = All-back xs ys ps

  machine_at :
      (vm : Option VirtualMachine)
      → All IsReference
          (elim vm [ none ↦ [] | some v ↦ v.state_claim_name ∷ v.cloud_init_secret_ref ∷ [] ])
      → MachineReferences vm
  machine_at none h = tt
  machine_at (some vm) h = (h.0, h.1.0)

  machine_refs :
      (ha : Option HaSpec)
      → All IsReference (elim ha [
        | none ↦ []
        | some h ↦ elim h.virtual_machine [
          | none ↦ []
          | some vm ↦ vm.state_claim_name ∷ vm.cloud_init_secret_ref ∷ []
        ]
      ])
      → HaReferences ha
  machine_refs none h = tt
  machine_refs (some ha) h = machine_at ha.virtual_machine h

  ipsec_refs :
      (ipsec : Option IpsecSpec) (ys : List Bytes)
      → All IsReference (
          elim ipsec [ none ↦ [] | some i ↦ i.credential_secret_ref ∷ i.trusted_ca_secret_ref ∷ [] ]
          ++ ys)
      → IpsecReferences ipsec × All IsReference ys
  ipsec_refs none ys h = (tt, h)
  ipsec_refs (some i) ys h = ((h.0, h.1.0), h.1.1)

  gateway_refs-checked :
      (gw : VpnGateway)
      → check_all (reference_ok lib) bad_reference (gateway_refs lib gw) ≡ none
      → IsReference gw.vpc_ref
        × IsReference gw.address_claim_name
        × IpsecReferences gw.ipsec
        × HaReferences gw.ha
  unfolding gateway_refs
  gateway_refs-checked gw h =
      let all = check_refs (gateway_refs lib gw) h in
      let split = ipsec_refs gw.ipsec _ (All-back gw.address_claim_names _ all.1.1) in
      (all.0, all.1.0, split.0, machine_refs gw.ha split.1)

  additional_sound :
      (seen ns : List Bytes)
      → additional_vpcs lib seen ns ≡ none
      → All (λ m. has_name seen m ≡ false) ns × Distinct lib ns
  unfolding additional_vpcs
  additional_sound seen [] h = (tt, tt)
  additional_sound seen (n ∷ ns) h =
      let (absent, distinct) = additional_sound (n ∷ seen) ns (ground arith) in
      let (old, new) = All-absent n seen ns absent in
      ((ground arith, old), (ground arith, new, distinct))

  -- A gateway that passes has at most nine additional VPCs, by names of objects that differ from each
  -- other and from its own VPC's; at most two listed address claims, by names of objects; and its own
  -- VPC, its single address claim, the credential and trusted CA secrets of IPsec, and the state claim
  -- and cloud-init secret of a virtual machine each by the name of an object or not at all.
  pub vpn_gateway_sound :
      (gw : VpnGateway)
      → vpn_gateway_input_problem lib gw ≡ none
      → (length gw.additional_vpc_refs ≤ 9)
        × Distinct lib gw.additional_vpc_refs
        × All (λ m. gw.vpc_ref ≢ m) gw.additional_vpc_refs
        × (length gw.address_claim_names ≤ 2)
        × All (λ m. object_name lib m ≡ true) gw.address_claim_names
        × (IsReference gw.vpc_ref
            × IsReference gw.address_claim_name
            × IpsecReferences gw.ipsec
            × HaReferences gw.ha)
  unfolding vpn_gateway_input_problem
  vpn_gateway_sound gw h =
      let (absent, distinct) =
        additional_sound (gw.vpc_ref ∷ []) gw.additional_vpc_refs (ground arith) in
      let (_, other) = All-absent gw.vpc_ref [] gw.additional_vpc_refs absent in
      (
        ground arith,
        distinct,
        other,
        ground arith,
        check_all_sound (object_name lib) bad_claim gw.address_claim_names (ground arith),
        gateway_refs-checked gw (ground arith),
      )
