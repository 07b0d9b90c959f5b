-- ===== src/FabricIp.antt =====
-- internal/controller/localsdn/fabricip_controller.go: when a node's claim of a fabric address is
-- taken back from a pod.
pub mod Exact
pub mod Examples
use cozyplane.Base.{
  ℕ, Bool, true, false, ◌&&◌, ◌||◌, not, List, [], ◌∷◌, Option, none, some, Bytes, is_empty, str_eq,
  ◌==◌, length, if◌then◌else◌, ℤ, pos, leb_ℤ, ltb_ℤ, ◌-ℤ◌,
}
use cozyplane.Base.Api.{Read, found, not_found, read_error}

-- The claim's fields that are read; `created` is the time of its creation, `none` where it is zero.
pub record FabricIp : Type 0 where
  pub is_deleted : Bool
  pub pod_namespace : Bytes
  pub pod_name : Bytes
  pub pod_uid : Bytes
  pub address : Bytes
  pub created : Option ℤ
  pub uid : Bytes
  pub resource_version : Bytes

pub data Phase : Type 0 where
  pending running succeeded failed unknown : Phase

pub record Pod : Type 0 where
  pub uid : Bytes
  pub phase : Phase
  pub pod_ips : List Bytes

-- The answer of a delete with preconditions.
pub data Deleted : Type 0 where
  deleted gone delete_error : Deleted

-- `net.ParseIP` and `IP.Equal`, the reader, the clock, and the grace period, which is as configured.
pub record Env : Type 0 where
  pub parse_ip : Bytes → Option Bytes
  pub equal : Bytes → Bytes → Bool
  pub pod : Bytes → Bytes → Read Pod
  pub now : ℤ
  pub grace_period : ℤ
  pub delete : Bytes → Bytes → Deleted

-- What `Reconcile` decides before its call of `Delete`.
pub data Decision : Type 0 where
  keep : Decision
  requeue_after : ℤ → Decision
  pod_error : Decision
  reclaim : Decision

-- What it returns: `ctrl.Result{}`, with the claim deleted or not, a requeue, or an error.
pub data Result : Type 0 where
  kept reclaimed get_failed reclaim_failed : Result
  requeued : ℤ → Result

abbrev pub is_running : Phase → Bool
is_running running = true
is_running p = false

abbrev pub is_completed : Phase → Bool
is_completed succeeded = true
is_completed failed = true
is_completed p = false

-- `fabricIPGracePeriod`, five minutes in nanoseconds.
abbrev pub fabric_ip_grace_period : ℤ
fabric_ip_grace_period = pos 300000000000

module _ (env : Env) where
  abbrev pub grace : ℤ
  grace = if leb_ℤ env.grace_period (pos 0) then fabric_ip_grace_period else env.grace_period

  -- One of the Pod's addresses is the claim's.
  unfoldable pub reports : Bytes → List Bytes → Bool
  reports ip [] = false
  reports ip (current ∷ rest) =
      elim (env.parse_ip current) [ none ↦ false | some p ↦ env.equal ip p ] || reports ip rest

  -- A running Pod that holds the claim, which was created at a known time.
  unfoldable pub decide_stale : FabricIp → Pod → ℤ → Decision
  decide_stale fip pod created = elim (env.parse_ip fip.address) [
    | none ↦ keep
    | some ip ↦
        let remaining = grace -ℤ (env.now -ℤ created) in
        if reports ip pod.pod_ips
        then keep
        else if ltb_ℤ (pos 0) remaining
        then requeue_after remaining
        else reclaim
  ]

  unfoldable pub decide_same_pod : FabricIp → Pod → Decision
  decide_same_pod fip pod =
      if is_completed pod.phase
      then reclaim
      else if not (is_running pod.phase) || length pod.pod_ips == 0
      then keep
      else elim fip.created [ none ↦ keep | some created ↦ decide_stale fip pod created ]

  unfoldable pub decide_pod : FabricIp → Read Pod → Decision
  decide_pod fip not_found = reclaim
  decide_pod fip read_error = pod_error
  decide_pod fip (found pod) =
      if is_empty fip.pod_uid
      then keep
      else if str_eq pod.uid fip.pod_uid
      then decide_same_pod fip pod
      else reclaim

  unfoldable pub decide : FabricIp → Decision
  decide fip =
      if fip.is_deleted || (is_empty fip.pod_namespace || is_empty fip.pod_name)
      then keep
      else decide_pod fip (env.pod fip.pod_namespace fip.pod_name)

  -- `r.Delete` and its error; a claim that is gone is no error.
  unfoldable pub delete_result : Deleted → Result
  delete_result deleted = reclaimed
  delete_result gone = reclaimed
  delete_result delete_error = reclaim_failed

  unfoldable pub perform : FabricIp → Decision → Result
  perform fip keep = kept
  perform fip (requeue_after d) = requeued d
  perform fip pod_error = get_failed
  perform fip reclaim = delete_result (env.delete fip.uid fip.resource_version)

  -- `Reconcile`, from the answer of its read of the claim.
  unfoldable pub reconcile : Read FabricIp → Result
  reconcile not_found = kept
  reconcile read_error = get_failed
  reconcile (found fip) = perform fip (decide fip)
