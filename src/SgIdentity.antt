-- ===== src/SgIdentity.antt =====
-- internal/sgidentity/membership.go: which memberships in SecurityGroups a Port proves on the wire.
pub mod Proven
pub mod Examples
use cozyplane.Base.{
  ℕ, Bool, true, false, ◌&&◌, ◌||◌, not, List, [], ◌∷◌, Option, none, some, Bytes, is_empty, str_eq,
  leb, ltb, ◌==◌, length, if◌then◌else◌, ℤ, pos, leb_ℤ, to_ℕ,
}
use cozyplane.Grants.{VpcRef}
use cozyplane.Claim.Guard.{ref_eq}
use cozyplane.VpnLimits.{Library, object_name, namespace_name}

-- A 64-bit word by its bits.
abbrev pub Word : Type 0
Word = ℕ → Bool

abbrev pub zero_word : Word
zero_word = λ i. false

abbrev pub set_bit : ℕ → Word → Word
set_bit n w = λ i. if i == n then true else w i

abbrev pub clear_bit : ℕ → Word → Word
clear_bit n w = λ i. if i == n then false else w i

-- `id > 0 && id < MaxSecurityGroupsPerVPC`.
abbrev pub max_security_groups_per_vpc : ℕ
max_security_groups_per_vpc = 63

abbrev pub in_range : ℤ → Bool
in_range id = leb_ℤ (pos 1) id && leb_ℤ id (pos 62)

-- The fields of a SecurityGroup that are read.
pub record SecurityGroup : Type 0 where
  pub is_deleted : Bool
  pub id : ℤ
  pub namespace : Bytes
  pub vpc_name : Bytes
  pub uid : Bytes

-- `Index`, as the list of its entries.
pub record Known : Type 0 where
  pub vpc : VpcRef
  pub id : ℤ
  pub uid : Bytes

abbrev pub Index : Type 0
Index = List Known

abbrev pub same_id : ℤ → ℤ → Bool
same_id a b = leb_ℤ a b && leb_ℤ b a

abbrev pub is_at : Known → VpcRef → ℤ → Bool
is_at k v id = ref_eq k.vpc v && same_id k.id id

-- `index[ref][id]`; a missing key is `none`.
unfoldable pub find : Index → VpcRef → ℤ → Option Bytes
find [] v id = none
find (k ∷ ks) v id = if is_at k v id then some k.uid else find ks v id

unfoldable pub blank : Index → VpcRef → ℤ → Index
blank [] v id = []
blank (k ∷ ks) v id = (if is_at k v id then record k { uid = [] } else k) ∷ blank ks v id

module _ (lib : Library) where
  -- `Index.Add`; a nil group is `none`, and a second group under an identifier blanks it.
  unfoldable pub add : Index → Option SecurityGroup → Index
  add index none = index
  add index (some g) =
      let ref : VpcRef = record { namespace = g.namespace; name = g.vpc_name } in
      if g.is_deleted || not (in_range g.id)
      then index
      else if not (namespace_name lib g.namespace) || not (object_name lib g.vpc_name)
      then index
      else elim (find index ref g.id) [
        | some uid ↦ blank index ref g.id
        | none ↦ record { vpc = ref; id = g.id; uid = g.uid } ∷ index
      ]

  -- `NewIndex`.
  unfoldable pub add_groups : Index → List (Option SecurityGroup) → Index
  add_groups index [] = index
  add_groups index (g ∷ groups) = add_groups (add index g) groups

  unfoldable pub new_index : List (Option SecurityGroup) → Index
  new_index groups = add_groups [] groups

pub record GroupRef : Type 0 where
  pub id : ℤ
  pub uid : Bytes

-- The fields of a Port that are read; `pod_uid` is the value of its label.
pub record Port : Type 0 where
  pub vpc : VpcRef
  pub group_pod_uid : Bytes
  pub pod_uid : Bytes
  pub groups : List ℤ
  pub group_refs : List GroupRef

-- `index[vpc][id] == uid`; a missing key reads the empty string.
abbrev pub is_current : Index → VpcRef → GroupRef → Bool
is_current index v r =
    not (is_empty r.uid)
    && elim (find index v r.id) [ none ↦ is_empty r.uid | some uid ↦ str_eq uid r.uid ]

-- The loop over the references, with `proven` and `seen`.
unfoldable pub proven_from : Index → VpcRef → Word → Word → List GroupRef → Word
proven_from index v proven seen [] = proven
proven_from index v proven seen (r ∷ refs) =
    let n = to_ℕ r.id in
    let skipped = proven_from index v proven seen refs in
    let repeated = proven_from index v (clear_bit n proven) seen refs in
    let fresh =
      proven_from index v (if is_current index v r then set_bit n proven else proven)
        (set_bit n seen) refs in
    if not (in_range r.id) then skipped else if seen n then repeated else fresh

-- The loop over the groups, with `bitmap`.
unfoldable pub bits_from : Word → Word → List ℤ → Word
bits_from proven bitmap [] = bitmap
bits_from proven bitmap (id ∷ ids) =
    bits_from proven
      (if in_range id && proven (to_ℕ id) then set_bit (to_ℕ id) bitmap else set_bit 0 bitmap) ids

-- `Index.Bitmap`.
unfoldable pub bitmap : Index → Port → Word
bitmap index p =
    if not (str_eq p.group_pod_uid p.pod_uid)
    then set_bit 0 zero_word
    else if length p.groups == 0
    then zero_word
    else if ltb max_security_groups_per_vpc (length p.groups)
        || leb max_security_groups_per_vpc (length p.group_refs)
    then set_bit 0 zero_word
    else bits_from (proven_from index p.vpc zero_word zero_word p.group_refs) zero_word p.groups
