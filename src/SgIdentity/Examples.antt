-- ===== src/SgIdentity/Examples.antt =====
-- A Port in one group, and the index that knows it.
use cozyplane.Base.{◌≡◌, ◌≤◌, refl, true, [], ◌∷◌, codes, str_eq, is_empty, arith, Any, pos}
use cozyplane.Grants.{VpcRef}
use cozyplane.SgIdentity.{Index, Port, find, proven_from, bits_from, bitmap}
use cozyplane.SgIdentity.Proven.{Proves, bitmap_sound}

abbrev net : VpcRef
net = record { namespace = codes "red"; name = codes "net" }

abbrev index : Index
index = record { vpc = net; id = pos 3; uid = codes "g3" } ∷ []

abbrev member : Port
member = record {
  vpc = net;
  group_pod_uid = codes "p1";
  pod_uid = codes "p1";
  groups = pos 3 ∷ pos 4 ∷ [];
  group_refs =
      record { id = pos 3; uid = codes "g3" } ∷ record { id = pos 4; uid = codes "g4" } ∷ [];
}

member_bit : bitmap index member 3 ≡ true
unfolding bitmap bits_from proven_from find str_eq is_empty
member_bit = refl

bitmap_sound_example :
    (member.group_pod_uid ≡ member.pod_uid)
    × (3 ≤ 62)
    × Any (λ id. id ≡ pos 3) member.groups
    × Any (Proves index member.vpc 3) member.group_refs
bitmap_sound_example = bitmap_sound index member 3 (ground arith) member_bit
