-- ===== src/GroupIds/Examples.antt =====
-- Groups of a VPC that hold identifiers.
use cozyplane.Base.{
  ℕ, some, ◌≡◌, ◌≤◌, ◌<◌, refl, false, true, List, [], ◌∷◌, ◌⊎◌, arith, codes, str_eq, is_empty,
  pos,
}
use cozyplane.Ipam.{Lister, finished, visit_items, walk_pages, walk_claims}
use cozyplane.Ipam.Walk.{Pages}
use cozyplane.GroupIds.{GroupClaim, pending, ready, visit_used, is_used, lowest_from, allocate_id}
use cozyplane.GroupIds.Least.{is_held, allocate_id-least}

abbrev web : GroupClaim
web = record {
  name = codes "web";
  vpc_name = codes "net";
  is_deleted = false;
  created = pos 7;
  id = pos 1;
  phase = ready;
}

abbrev app : GroupClaim
app = record {
  name = codes "app";
  vpc_name = codes "net";
  is_deleted = false;
  created = pos 5;
  id = pos 1;
  phase = ready;
}

abbrev newest : GroupClaim
newest = record {
  name = codes "db";
  vpc_name = codes "net";
  is_deleted = false;
  created = pos 9;
  id = pos 0;
  phase = pending;
}

abbrev claims : List GroupClaim
claims = web ∷ app ∷ newest ∷ []

abbrev lister : Lister GroupClaim
lister = record { is_done = λ n. false; list = λ page token. some (claims, []) }

allocate_newest : allocate_id lister newest ≡ finished 2
unfolding allocate_id walk_claims walk_pages visit_items is_empty visit_used str_eq lowest_from
    is_used
allocate_newest = refl

allocate_id-least_example :
    (items : List GroupClaim) × Pages lister 512 0 [] items
    × ((◌≡◌ {A = ℕ} 2 0) ⊎ ((1 ≤ 2) × (2 < 63) × (is_held newest 2 items ≡ false)))
    × ((is_held newest 5 items ≡ true) ⊎ ((1 ≤ 2) × (2 ≤ 5)))
allocate_id-least_example =
    allocate_id-least lister newest 2 5 (omega arith) (omega arith) allocate_newest
