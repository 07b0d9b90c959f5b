-- ===== src/VniAllocator/Duplicates.antt =====
-- VPCs that hold the same VNI: which one keeps it.
use cozyplane.Base.{
  ℕ, ◌≤◌, ◌≡◌, Bool, true, false, ◌&&◌, ◌||◌, List, [], ◌∷◌, ◌∙◌, ap, sym, some, cut, cut-append,
  Lacks, str_eq_iff, ◌⊎◌, inl, inr, Bytes, str_eq, Any, All, Bool-cases, arith, length, ℤ,
}
use cozyplane.Base.StringOrder.{str_ltb_irrefl, str_ltb_total, str_ltb_trans, str_eq_sym}
use mathlib.Core.Path.{subst}
use cozyplane.Ipam.{Lister, finished}
use cozyplane.Ipam.Walk.{Pages}
use cozyplane.Ipam.Repair.{Tiebreak, rival, one_keeps}
use cozyplane.VniAllocator.{
  VpcClaim, vpc_claim_older, Vpc, vpc_claim_key, same_vni, visit_duplicate, lost_vni_to_duplicate,
}

vpc_claim_older_irrefl : (a : VpcClaim) → vpc_claim_older a a ≡ false
unfolding vpc_claim_older
vpc_claim_older_irrefl a = ground (arith, str_ltb_irrefl a.name)

vpc_claim_older_trans :
    (a b c : VpcClaim)
    → vpc_claim_older a b ≡ true
    → vpc_claim_older b c ≡ true
    → vpc_claim_older a c ≡ true
unfolding vpc_claim_older
vpc_claim_older_trans a b c h k = ground (arith, str_ltb_trans a.name b.name c.name)

vpc_claim_older_total :
    (a b : VpcClaim)
    → str_eq a.name b.name ≡ false
    → vpc_claim_older a b ≡ false
    → vpc_claim_older b a ≡ true
unfolding vpc_claim_older
vpc_claim_older_total a b h k = ground (arith, str_ltb_total a.name b.name)

abbrev same_vpc : Vpc → Vpc → Bool
same_vpc a b = str_eq a.namespace b.namespace && str_eq a.name b.name

abbrev shares_vni : Vpc → Vpc → Bool
shares_vni a b = same_vni a.vni b.vni

abbrev is_older : Vpc → Vpc → Bool
is_older a b = vpc_claim_older (vpc_claim_key a) (vpc_claim_key b)

same_vni_trans : (a b c : ℤ) → same_vni a b ≡ true → same_vni b c ≡ true → same_vni a c ≡ true
same_vni_trans a b c h k = ground arith

same_vpc_sym : (a b : Vpc) → same_vpc a b ≡ same_vpc b a
same_vpc_sym a b = ground (arith, str_eq_sym a.namespace b.namespace, str_eq_sym a.name b.name)

vpc_Tiebreak : Tiebreak same_vpc shares_vni is_older
vpc_Tiebreak = record {
  same_sym = same_vpc_sym;
  shares_sym = λ a b h. ground arith;
  shares_trans = λ a b c h k. same_vni_trans a.vni b.vni c.vni h k;
  older_irrefl = λ a. vpc_claim_older_irrefl (vpc_claim_key a);
  older_trans =
      λ a b c h k. vpc_claim_older_trans (vpc_claim_key a) (vpc_claim_key b) (vpc_claim_key c) h k;
}

visit_duplicate-rival :
    (self o : Vpc) (lost : Bool)
    → visit_duplicate self lost o ≡ (lost || rival same_vpc shares_vni is_older vpc_Tiebreak self o)
unfolding visit_duplicate
visit_duplicate-rival self o lost = ground arith

-- Different VPCs have different keys, since a namespace has no slash.
key_differs :
    (a b : Vpc)
    → Lacks b'/' a.namespace
    → Lacks b'/' b.namespace
    → same_vpc a b ≡ false
    → str_eq (vpc_claim_key a).name (vpc_claim_key b).name ≡ false
key_differs a b l k ne = elim (Bool-cases (str_eq (vpc_claim_key a).name (vpc_claim_key b).name)) [
  | inr q ↦ q
  | inl q ↦
      let same = (str_eq_iff (vpc_claim_key a).name (vpc_claim_key b).name).0 q in
      let pair_a : Bytes × Bytes = (a.namespace, a.name) in
      let pair_b : Bytes × Bytes = (b.namespace, b.name) in
      let parts : some pair_a ≡ some pair_b =
        sym (cut-append a.namespace a.name b'/' l)
        ∙ (ap (λ x. cut x b'/') same ∙ cut-append b.namespace b.name b'/' k) in
      ground (arith, str_eq_iff a.namespace b.namespace, str_eq_iff a.name b.name)
]

All-Any : (P : Vpc → Type 0) (xs : List Vpc) (a : Vpc) → All P xs → Any (λ o. o ≡ a) xs → P a
All-Any P [] a h m = elim m [ ]
All-Any P (x ∷ xs) a (h, hs) (inl e) = subst P e h
All-Any P (x ∷ xs) a (h, hs) (inr m) = All-Any P xs a hs m

module _ (lister : Lister Vpc) (live : (n : ℕ) → lister.is_done n ≡ false) (items : List Vpc)
    (pages : Pages lister 512 0 [] items) (few : length items ≤ 65536)
    (named : All (λ v. Lacks b'/' v.namespace) items) where
  differ :
      (a b : Vpc)
      → Any (λ o. o ≡ a) items
      → Any (λ o. o ≡ b) items
      → same_vpc a b ≡ false
      → is_older a b ≡ false
      → is_older b a ≡ true
  differ a b ma mb ne q =
      let la = All-Any (λ v. Lacks b'/' v.namespace) items a named ma in
      let lb = All-Any (λ v. Lacks b'/' v.namespace) items b named mb in
      vpc_claim_older_total (vpc_claim_key a) (vpc_claim_key b) (key_differs a b la lb ne) q

  -- What becomes of the VPC b where r keeps the VNI: it has another VNI, or is r by its namespace and
  -- name, or yields.
  abbrev pub SettledVni : Vpc → Vpc → Type 0
  SettledVni r b =
      (same_vni r.vni b.vni ≡ false)
      ⊎ (same_vpc r b ≡ true)
      ⊎ (lost_vni_to_duplicate lister b ≡ finished true)

  -- In a complete scan of at most 65536 VPCs in a live context, the VNI of each listed VPC is kept by a
  -- listed VPC, and every listed VPC with that VNI, of another namespace or name, yields. No namespace
  -- has a slash.
  pub vni_one_keeps :
      (k : Vpc)
      → Any (λ o. o ≡ k) items
      → (r : Vpc) × (same_vni r.vni k.vni ≡ true)
        × Any (λ o. o ≡ r) items
        × (lost_vni_to_duplicate lister r ≡ finished false)
        × All (SettledVni r) items
  unfolding lost_vni_to_duplicate
  vni_one_keeps k m =
      one_keeps same_vpc shares_vni is_older vpc_Tiebreak visit_duplicate visit_duplicate-rival
        lister live items pages few differ k (ground arith) m
