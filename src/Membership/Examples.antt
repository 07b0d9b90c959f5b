-- ===== src/Membership/Examples.antt =====
-- A Port that one of two groups selects.
use cozyplane.Base.{
  ◌≡◌, refl, true, false, [], ◌∷◌, none, some, codes, cut, str_eq, is_empty, All, pos,
}
use cozyplane.Base.Api.{found, wrote}
use cozyplane.Grants.{VpcRef}
use cozyplane.VpnLimits.{Library, object_name, namespace_name}
use cozyplane.SgIdentity.{find, add, blank, bitmap}
use cozyplane.Membership.{
  Group, MemberPort, Status, Inputs, updated, add_values, input_work_from, membership_input_work,
  pod_labels_for, index_from, select_from, ids_from, insert_ref, sort_refs, status_of,
  guarded_selection, same_ids, same_refs, update_status, publish, is_keyed, reconcile_port,
  reconcile,
}
use cozyplane.Membership.Published.{as_port}
use cozyplane.Membership.Refined.{meant, reconcile-bitmap}

-- A stand-in of the libraries: every name is one of an object.
abbrev names : Library
names = record {
  is_subdomain = λ s. true;
  is_label = λ s. true;
  decode = λ s. none;
  split_host_port = λ s. cut s b':';
  parse_prefix = λ s. none;
  masked = λ p. p;
  overlaps = λ p q. str_eq p.address q.address;
  parse_addr = λ s. none;
}

abbrev net : VpcRef
net = record { namespace = codes "red"; name = codes "net" }

abbrev front : Group
front = record {
  identity = record {
    is_deleted = false;
    id = pos 3;
    namespace = codes "red";
    vpc_name = codes "net";
    uid = codes "g3";
  };
  selector = some (λ labels. true);
  match_labels = 1;
  values = [];
}

abbrev back : Group
back = record {
  identity = record {
    is_deleted = false;
    id = pos 4;
    namespace = codes "red";
    vpc_name = codes "net";
    uid = codes "g4";
  };
  selector = some (λ labels. false);
  match_labels = 1;
  values = 2 ∷ [];
}

abbrev fresh_port : MemberPort
fresh_port = record {
  is_deleted = false;
  vpc = net;
  pod_namespace = codes "red";
  pod_name = codes "web";
  pod_uid = codes "p1";
  pod_labels = [];
  status = record { groups = []; group_refs = []; group_pod_uid = [] };
}

abbrev seen_inputs : Inputs
seen_inputs = record {
  port = found fresh_port;
  pod = found (record { is_deleted = false; uid = codes "p1"; labels = [] });
  decode = λ s. [];
  groups = some (front ∷ back ∷ []);
  is_done_input = λ n. false;
  is_done = false;
  is_done_select = λ n. false;
  answer = wrote;
}

abbrev in_front : Status
in_front = record {
  groups = pos 3 ∷ [];
  group_refs = record { id = pos 3; uid = codes "g3" } ∷ [];
  group_pod_uid = codes "p1";
}

seen_inputs-updated : reconcile names seen_inputs ≡ updated in_front
unfolding reconcile reconcile_port publish guarded_selection update_status same_ids same_refs
    status_of sort_refs insert_ref ids_from select_from index_from pod_labels_for
    membership_input_work input_work_from add_values add blank find namespace_name object_name
    str_eq is_empty
seen_inputs-updated = refl

names-net : is_keyed names net ≡ true
unfolding namespace_name object_name is_empty
names-net = refl

both_local : All (λ g. g.identity.namespace ≡ net.namespace) (front ∷ back ∷ [])
both_local = (refl, (refl, tt))

reconcile-bitmap_example :
    bitmap (index_from names net [] (front ∷ back ∷ [])) (as_port fresh_port in_front) 3
    ≡ meant names seen_inputs fresh_port (front ∷ back ∷ []) 3
reconcile-bitmap_example =
    reconcile-bitmap names seen_inputs fresh_port (front ∷ back ∷ [])
      (index_from names net [] (front ∷ back ∷ [])) names-net both_local (λ id. refl) in_front refl
      refl seen_inputs-updated 3
