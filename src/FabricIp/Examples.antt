-- ===== src/FabricIp/Examples.antt =====
-- A claim whose Pod is gone.
use cozyplane.Base.{◌≡◌, ◌↔◌, false, some, codes, str_eq, pos}
use cozyplane.Base.Api.{not_found}
use cozyplane.FabricIp.{FabricIp, Env, reclaim, deleted, decide}
use cozyplane.FabricIp.Exact.{Judged, Released, decide_exact}

abbrev env : Env
env = record {
  parse_ip = λ s. some s;
  equal = str_eq;
  pod = λ ns name. not_found;
  now = pos 100;
  grace_period = pos 0;
  delete = λ uid rv. deleted;
}

abbrev claim : FabricIp
claim = record {
  is_deleted = false;
  pod_namespace = codes "red";
  pod_name = codes "web-0";
  pod_uid = codes "u1";
  address = codes "100.64.0.9";
  created = some (pos 5);
  uid = codes "c1";
  resource_version = codes "7";
}

decide_exact_example : (decide env claim ≡ reclaim) ↔ (Judged claim × Released env claim)
decide_exact_example = decide_exact env claim
