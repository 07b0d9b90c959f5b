-- ===== src/GroupIds/Duplicates.antt =====
-- SecurityGroups of one VPC that hold the same identifier: which one keeps it.
use cozyplane.Base.{
  ℕ, ◌≤◌, ◌≡◌, Bool, true, false, ◌&&◌, ◌||◌, List, [], ◌⊎◌, Bytes, str_eq, str_eq_refl, str_eq_iff,
  Any, All, arith, length,
}
use cozyplane.Base.StringOrder.{str_ltb_irrefl, str_ltb_total, str_ltb_trans, str_eq_sym}
use cozyplane.SgIdentity.{same_id}
use cozyplane.Ipam.{Lister, finished}
use cozyplane.Ipam.Walk.{Pages}
use cozyplane.Ipam.Repair.{Tiebreak, rival, one_keeps}
use cozyplane.GroupIds.{GroupClaim, sg_claim_older, visit_lost, lost_id_to_duplicate}

abbrev same_name : GroupClaim → GroupClaim → Bool
same_name a b = str_eq a.name b.name

abbrev shares_id : GroupClaim → GroupClaim → Bool
shares_id a b = str_eq a.vpc_name b.vpc_name && same_id a.id b.id

shares_id_sym : (a b : GroupClaim) → shares_id a b ≡ true → shares_id b a ≡ true
shares_id_sym a b h = ground (arith, str_eq_sym a.vpc_name b.vpc_name)

str_eq_trans : (s t u : Bytes) → str_eq s t ≡ true → str_eq t u ≡ true → str_eq s u ≡ true
str_eq_trans s t u h k =
    ground (arith, str_eq_iff s t, str_eq_iff t u, str_eq_iff s u, str_eq_refl s)

shares_id_trans :
    (a b c : GroupClaim) → shares_id a b ≡ true → shares_id b c ≡ true → shares_id a c ≡ true
shares_id_trans a b c h k = ground (arith, str_eq_trans a.vpc_name b.vpc_name c.vpc_name)

sg_claim_older_irrefl : (a : GroupClaim) → sg_claim_older a a ≡ false
unfolding sg_claim_older
sg_claim_older_irrefl a = ground (arith, str_ltb_irrefl a.name)

sg_claim_older_trans :
    (a b c : GroupClaim)
    → sg_claim_older a b ≡ true
    → sg_claim_older b c ≡ true
    → sg_claim_older a c ≡ true
unfolding sg_claim_older
sg_claim_older_trans a b c h k = ground (arith, str_ltb_trans a.name b.name c.name)

sg_claim_older_total :
    (a b : GroupClaim)
    → same_name a b ≡ false
    → sg_claim_older a b ≡ false
    → sg_claim_older b a ≡ true
unfolding sg_claim_older
sg_claim_older_total a b h k = ground (arith, str_ltb_total a.name b.name)

group_Tiebreak : Tiebreak same_name shares_id sg_claim_older
group_Tiebreak = record {
  same_sym = λ a b. str_eq_sym a.name b.name;
  shares_sym = shares_id_sym;
  shares_trans = shares_id_trans;
  older_irrefl = sg_claim_older_irrefl;
  older_trans = sg_claim_older_trans;
}

visit_lost-rival :
    (self o : GroupClaim) (lost : Bool)
    → visit_lost self lost o
      ≡ (lost || rival same_name shares_id sg_claim_older group_Tiebreak self o)
unfolding visit_lost
visit_lost-rival self o lost = ground arith

module _ (lister : Lister GroupClaim) (live : (n : ℕ) → lister.is_done n ≡ false)
    (items : List GroupClaim) (pages : Pages lister 512 0 [] items)
    (few : length items ≤ 65536) where
  -- What becomes of the group b where r keeps the identifier: it is of another VPC or has another
  -- identifier, or has the name of r, or yields.
  abbrev SettledId : GroupClaim → GroupClaim → Type 0
  SettledId r b =
      (shares_id r b ≡ false)
      ⊎ (str_eq r.name b.name ≡ true)
      ⊎ (lost_id_to_duplicate lister b ≡ finished true)

  -- In a complete scan of at most 65536 SecurityGroups in a live context, the identifier of each listed
  -- group is kept in its VPC by a listed group, and every listed group of that VPC with that identifier
  -- and another name yields.
  id_one_keeps :
      (k : GroupClaim)
      → Any (λ o. o ≡ k) items
      → (r : GroupClaim) × (shares_id r k ≡ true)
        × Any (λ o. o ≡ r) items
        × (lost_id_to_duplicate lister r ≡ finished false)
        × All (SettledId r) items
  unfolding lost_id_to_duplicate
  id_one_keeps k m =
      one_keeps same_name shares_id sg_claim_older group_Tiebreak visit_lost visit_lost-rival lister
        live items pages few (λ a b ma mb ne q. sg_claim_older_total a b ne q) k
        (ground (arith, str_eq_refl k.vpc_name)) m
