-- ===== src/FabricIp/Exact.antt =====
-- When a claim is reclaimed.
use cozyplane.Base.{
  ◌≤◌, ◌≡◌, ◌↔◌, ◌⊎◌, true, false, some, inl, inr, Bytes, is_empty, Option-cases, Bool-cases, arith,
  length, str_eq, ℤ, pos, ◌-ℤ◌, ◌≤ℤ◌,
}
use cozyplane.Base.Api.{found, not_found, Read-cases}
use cozyplane.FabricIp.{
  FabricIp, Pod, Env, reclaim, is_running, is_completed, grace, reports, decide_stale,
  decide_same_pod, decide_pod, decide,
}

-- The Pod runs under addresses that are not the claim's, and the claim is older than the grace period.
abbrev pub Stale : Env → FabricIp → Pod → Type 0
Stale env fip pod =
    (is_running pod.phase ≡ true)
    × (1 ≤ length pod.pod_ips)
    × ((ip : Bytes) × (t : ℤ) × (env.parse_ip fip.address ≡ some ip)
        × (fip.created ≡ some t)
        × (reports env ip pod.pod_ips ≡ false)
        × (grace env -ℤ (env.now -ℤ t) ≤ℤ pos 0))

-- The Pod that the claim names is gone, or is another one of that name, or has completed, or is
-- stale.
abbrev pub Released : Env → FabricIp → Type 0
Released env fip =
    (env.pod fip.pod_namespace fip.pod_name ≡ not_found)
    ⊎ ((pod : Pod) × (env.pod fip.pod_namespace fip.pod_name ≡ found pod)
        × (is_empty fip.pod_uid ≡ false)
        × ((str_eq pod.uid fip.pod_uid ≡ false)
            ⊎ ((str_eq pod.uid fip.pod_uid ≡ true)
                × ((is_completed pod.phase ≡ true) ⊎ Stale env fip pod))))

abbrev pub Judged : FabricIp → Type 0
Judged fip =
    (fip.is_deleted ≡ false)
    × (is_empty fip.pod_namespace ≡ false)
    × (is_empty fip.pod_name ≡ false)

module _ (env : Env) where
  same_pod_outdated :
      (fip : FabricIp) (pod : Pod)
      → is_completed pod.phase ≡ false
      → decide_same_pod env fip pod ≡ reclaim
      → Stale env fip pod
  unfolding decide_same_pod decide_stale
  same_pod_outdated fip pod c h = elim (Option-cases fip.created) [
    | inl e ↦ absurd (ground arith)
    | inr (t, e) ↦ elim (Option-cases (env.parse_ip fip.address)) [
      | inl f ↦ absurd (ground arith)
      | inr (ip, f) ↦ (ground arith, ground arith, (ip, t, f, e, ground arith, ground arith))
    ]
  ]

  same_pod_sound :
      (fip : FabricIp) (pod : Pod)
      → decide_same_pod env fip pod ≡ reclaim
      → (is_completed pod.phase ≡ true) ⊎ Stale env fip pod
  same_pod_sound fip pod h = elim (Bool-cases (is_completed pod.phase)) [
    | inl e ↦ inl e
    | inr e ↦ inr (same_pod_outdated fip pod e h)
  ]

  same_pod_complete :
      (fip : FabricIp) (pod : Pod)
      → (is_completed pod.phase ≡ true) ⊎ Stale env fip pod
      → decide_same_pod env fip pod ≡ reclaim
  unfolding decide_same_pod decide_stale
  same_pod_complete fip pod (inl e) = ground arith
  same_pod_complete fip pod (inr (a, b, (ip, t, c, d, e, f))) =
      elim (Bool-cases (is_completed pod.phase)) [ inl g ↦ ground arith | inr g ↦ ground arith ]

  decide_sound : (fip : FabricIp) → decide env fip ≡ reclaim → Judged fip × Released env fip
  unfolding decide decide_pod
  decide_sound fip h = (
    (ground arith, ground arith, ground arith),
    elim (Read-cases (env.pod fip.pod_namespace fip.pod_name)) [
      | inl e ↦ inl e
      | inr (inl e) ↦ absurd (ground arith)
      | inr (inr (pod, e)) ↦ elim (Bool-cases (str_eq pod.uid fip.pod_uid)) [
        | inl f ↦ inr (pod, e, ground arith, inr (f, same_pod_sound fip pod (ground arith)))
        | inr f ↦ inr (pod, e, ground arith, inl f)
      ]
    ],
  )

  decide_complete : (fip : FabricIp) → Judged fip → Released env fip → decide env fip ≡ reclaim
  unfolding decide decide_pod
  decide_complete fip (a, b, c) (inl e) = ground arith
  decide_complete fip (a, b, c) (inr (pod, e, u, inl f)) = ground arith
  decide_complete fip (a, b, c) (inr (pod, e, u, inr (f, g))) =
      ground (arith, same_pod_complete fip pod g)

  -- A claim is reclaimed exactly if it is not being deleted and has a Pod's namespace and name, and
  -- that Pod is not found, or the claim has a Pod's UID and the Pod that is found has another UID, or
  -- has this UID and has completed, or has this UID and runs with at least one address, where the
  -- claim's address parses and is none of the Pod's, the time of the claim's creation is known, and
  -- the grace period since then is over.
  pub decide_exact : (fip : FabricIp) → (decide env fip ≡ reclaim) ↔ (Judged fip × Released env fip)
  decide_exact fip = (λ h. decide_sound fip h, λ (j, r). decide_complete fip j r)
