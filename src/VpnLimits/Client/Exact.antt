-- ===== src/VpnLimits/Client/Exact.antt =====
-- Which clients pass.
use cozyplane.Base.{
  ◌≤◌, ◌≡◌, ◌≢◌, ◌↔◌, refl, true, false, List, [], ◌∷◌, none, inl, inr, Bytes, is_empty, Bool-cases,
  arith, length, ◌==◌, All, str_eq, str_eq_iff,
}
use cozyplane.VpnLimits.{Library, object_name}
use cozyplane.VpnLimits.Peer.{WireGuardPeer, wire_guard_peer_problem}
use cozyplane.VpnLimits.Pools.{has_name}
use cozyplane.VpnLimits.Client.{client_pools, client_vpcs, wire_guard_client_problem}

-- Names of objects, no two alike.
abbrev pub Distinct : Library → List Bytes → Type 0
Distinct lib [] = Unit
Distinct lib (n ∷ ns) = (object_name lib n ≡ true) × All (λ m. n ≢ m) ns × Distinct lib ns

pub All-absent :
    (n : Bytes) (seen : List Bytes) (ns : List Bytes)
    → All (λ m. has_name (n ∷ seen) m ≡ false) ns
    → All (λ m. has_name seen m ≡ false) ns × All (λ m. n ≢ m) ns
unfolding has_name
All-absent n seen [] h = (tt, tt)
All-absent n seen (m ∷ ms) (h, hs) =
    let (a, b) = All-absent n seen ms hs in
    ((ground arith, a), ((λ e. ground (arith, str_eq_iff n m)), b))

All-present :
    (n : Bytes) (seen : List Bytes) (ns : List Bytes)
    → All (λ m. has_name seen m ≡ false) ns
    → All (λ m. n ≢ m) ns
    → All (λ m. has_name (n ∷ seen) m ≡ false) ns
unfolding has_name
All-present n seen [] h k = tt
All-present n seen (m ∷ ms) (h, hs) (k, ks) = (
  elim (Bool-cases (str_eq n m)) [
    | inl e ↦ absurd (k (ground (arith, str_eq_iff n m)))
    | inr e ↦ ground arith
  ],
  All-present n seen ms hs ks,
)

module _ (lib : Library) where
  vpcs_sound :
      (seen ns : List Bytes)
      → client_vpcs lib seen ns ≡ none
      → All (λ m. has_name seen m ≡ false) ns × Distinct lib ns
  unfolding client_vpcs
  vpcs_sound seen [] h = (tt, tt)
  vpcs_sound seen (n ∷ ns) h =
      let (absent, distinct) = vpcs_sound (n ∷ seen) ns (ground arith) in
      let (old, new) = All-absent n seen ns absent in
      ((ground arith, old), (ground arith, new, distinct))

  vpcs_complete :
      (seen ns : List Bytes)
      → All (λ m. has_name seen m ≡ false) ns
      → Distinct lib ns
      → client_vpcs lib seen ns ≡ none
  unfolding client_vpcs
  vpcs_complete seen [] h k = refl
  vpcs_complete seen (n ∷ ns) (h, hs) (k, d, ds) =
      let rest = vpcs_complete (n ∷ seen) ns (All-present n seen ns hs d) ds in ground arith

  nothing_seen : (ns : List Bytes) → All (λ m. has_name [] m ≡ false) ns
  unfolding has_name
  nothing_seen [] = tt
  nothing_seen (n ∷ ns) = (refl, nothing_seen ns)

  abbrev pub Permitted : WireGuardPeer → List Bytes → List Bytes → List Bytes → Type 0
  Permitted peer pools vpcs remote_cidrs =
      (remote_cidrs ≡ [])
      × (is_empty peer.endpoint ≡ true)
      × (peer.endpoints ≡ [])
      × (peer.public_keys ≡ [])
      × (wire_guard_peer_problem lib peer ≡ none)
      × (1 ≤ length pools)
      × (length pools ≤ 2)
      × Distinct lib pools
      × (1 ≤ length vpcs)
      × (length vpcs ≤ 10)
      × Distinct lib vpcs

  length_zero : (ns : List Bytes) → (length ns == 0) ≡ true → ns ≡ []
  length_zero [] h = refl
  length_zero (n ∷ ns) h = absurd (ground arith)

  pools_sound_lem :
      (ns : List Bytes)
      → length ns ≤ 2
      → client_pools lib 0 (elim ns [ [] ↦ [] | ◌∷◌ p ps ↦ p ]) ns ≡ none
      → Distinct lib ns
  unfolding client_pools
  pools_sound_lem [] l h = tt
  pools_sound_lem (n ∷ []) l h = (ground arith, tt, tt)
  pools_sound_lem (n ∷ m ∷ []) l h =
      (ground arith, ((λ e. ground (arith, str_eq_iff m n)), tt), (ground arith, tt, tt))
  pools_sound_lem (n ∷ m ∷ o ∷ ns) l h = absurd (ground arith)

  pools_complete_lem :
      (ns : List Bytes)
      → length ns ≤ 2
      → Distinct lib ns
      → client_pools lib 0 (elim ns [ [] ↦ [] | ◌∷◌ p ps ↦ p ]) ns ≡ none
  unfolding client_pools
  pools_complete_lem [] l h = refl
  pools_complete_lem (n ∷ []) l (a, _, _) = ground arith
  pools_complete_lem (n ∷ m ∷ []) l (a, (d, _), (b, _, _)) = elim (Bool-cases (str_eq m n)) [
    | inl e ↦ absurd (d (ground (arith, str_eq_iff m n)))
    | inr e ↦ ground arith
  ]
  pools_complete_lem (n ∷ m ∷ o ∷ ns) l h = absurd (ground arith)

  accepted_sound :
      (peer : WireGuardPeer) (pools vpcs cidrs : List Bytes)
      → wire_guard_client_problem lib peer pools vpcs cidrs ≡ none
      → Permitted peer pools vpcs cidrs
  unfolding wire_guard_client_problem
  accepted_sound peer pools vpcs cidrs h =
      let few : length pools ≤ 2 = ground arith in
      let (_, vs) = vpcs_sound [] vpcs (ground arith) in
      (
        length_zero cidrs (ground arith),
        ground arith,
        length_zero peer.endpoints (ground arith),
        length_zero peer.public_keys (ground arith),
        ground arith,
        ground arith,
        few,
        pools_sound_lem pools few (ground arith),
        ground arith,
        ground arith,
        vs,
      )

  accepted_complete :
      (peer : WireGuardPeer) (pools vpcs cidrs : List Bytes)
      → Permitted peer pools vpcs cidrs
      → wire_guard_client_problem lib peer pools vpcs cidrs ≡ none
  unfolding wire_guard_client_problem
  accepted_complete peer pools vpcs cidrs (a, b, c, d, e, f, g, h, i, j, k) =
      let p = pools_complete_lem pools g h in
      let v = vpcs_complete [] vpcs (nothing_seen vpcs) k in rw (a, c, d) (ground arith)

  -- A client passes exactly if it declares no remote ranges and no endpoints, its peer passes with one
  -- key, and it names one or two pools and one to ten VPCs, by names of objects with no two alike.
  pub wire_guard_client_exact :
      (peer : WireGuardPeer) (pools vpcs cidrs : List Bytes)
      → (wire_guard_client_problem lib peer pools vpcs cidrs ≡ none)
        ↔ Permitted peer pools vpcs cidrs
  wire_guard_client_exact peer pools vpcs cidrs =
      (λ h. accepted_sound peer pools vpcs cidrs h, λ h. accepted_complete peer pools vpcs cidrs h)
