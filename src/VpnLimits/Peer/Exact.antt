-- ===== src/VpnLimits/Peer/Exact.antt =====
-- Which peers `WireGuardPeerProblem` lets pass.
use cozyplane.Base.{
  ◌≡◌, ◌↔◌, ◌⊎◌, refl, true, false, List, [], ◌∷◌, none, inl, inr, Bytes, is_empty, arith, ℤ, pos,
  ◌≤ℤ◌,
}
use cozyplane.VpnLimits.{Library}
use cozyplane.VpnLimits.Peer.{
  WireGuardPeer, wire_guard_key, wire_guard_endpoint, wire_guard_peer_problem,
}

-- One key with one endpoint, which may be empty; or two keys, with no endpoints or with two.
abbrev pub OneKey : Library → WireGuardPeer → Type 0
OneKey lib p =
    (wire_guard_key lib p.public_key ≡ true)
    × (is_empty p.public_key ≡ false)
    × (p.public_keys ≡ [])
    × (wire_guard_endpoint lib p.endpoint ≡ true)
    × (p.endpoints ≡ [])

abbrev pub TwoKeys : Library → WireGuardPeer → Type 0
TwoKeys lib p =
    (is_empty p.public_key ≡ true)
    × (is_empty p.endpoint ≡ true)
    × ((k l : Bytes) × (p.public_keys ≡ k ∷ l ∷ [])
        × (wire_guard_key lib k ≡ true)
        × (wire_guard_key lib l ≡ true))
    × ((p.endpoints ≡ [])
        ⊎ ((e f : Bytes) × (p.endpoints ≡ e ∷ f ∷ [])
            × (wire_guard_endpoint lib e ≡ true)
            × (wire_guard_endpoint lib f ≡ true)))

abbrev pub Keepalive : WireGuardPeer → Type 0
Keepalive p = (pos 0 ≤ℤ p.keepalive) × (p.keepalive ≤ℤ pos 65535)

abbrev peer : Bytes → List Bytes → Bytes → List Bytes → ℤ → WireGuardPeer
peer key keys endpoint endpoints k = record {
  public_key = key;
  public_keys = keys;
  endpoint = endpoint;
  endpoints = endpoints;
  keepalive = k;
}

abbrev Accepted : Library → WireGuardPeer → Type 0
Accepted lib p = (OneKey lib p ⊎ TwoKeys lib p) × Keepalive p

accepted :
    (lib : Library) (key : Bytes) (keys : List Bytes) (endpoint : Bytes) (endpoints : List Bytes)
    (k : ℤ)
    → wire_guard_peer_problem lib (peer key keys endpoint endpoints k) ≡ none
    → Accepted lib (peer key keys endpoint endpoints k)
unfolding wire_guard_peer_problem
accepted lib key [] endpoint [] k h =
    (inl (ground arith, ground arith, refl, ground arith, refl), ground arith)
accepted lib key [] endpoint (e ∷ es) k h = absurd (ground arith)
accepted lib key (l ∷ []) endpoint es k h = absurd (ground arith)
accepted lib key (l ∷ l' ∷ []) endpoint [] k h = (
  inr (ground arith, ground arith, (l, l', refl, ground arith, ground arith), inl refl),
  ground arith,
)
accepted lib key (l ∷ l' ∷ []) endpoint (e ∷ []) k h = absurd (ground arith)
accepted lib key (l ∷ l' ∷ []) endpoint (e ∷ f ∷ []) k h = (
  inr (
    ground arith,
    ground arith,
    (l, l', refl, ground arith, ground arith),
    inr (e, f, refl, ground arith, ground arith),
  ),
  ground arith,
)
accepted lib key (l ∷ l' ∷ []) endpoint (e ∷ f ∷ g ∷ es) k h = absurd (ground arith)
accepted lib key (l ∷ l' ∷ l'' ∷ ls) endpoint es k h = absurd (ground arith)

endpoint-is_empty :
    (lib : Library) (e : Bytes) → is_empty e ≡ true → wire_guard_endpoint lib e ≡ true
unfolding wire_guard_endpoint
endpoint-is_empty lib e h = ground arith

passes : (lib : Library) (p : WireGuardPeer) → Accepted lib p → wire_guard_peer_problem lib p ≡ none
unfolding wire_guard_peer_problem
passes lib p (inl (a, b, c, d, e), k) = rw (c, e) (ground arith)
passes lib p (inr (a, b, (l, l', c, d, e), inl f), k) =
    rw (c, f) (ground (arith, endpoint-is_empty lib p.endpoint b))
passes lib p (inr (a, b, (l, l', c, d, e), inr (x, y, f, g, h)), k) =
    rw (c, f) (ground (arith, endpoint-is_empty lib p.endpoint b))

-- A peer passes exactly if it has one form of the two whole: one good key and at most one good
-- endpoint, or two good keys and no endpoints or two good ones; and a keepalive of 0 to 65535 seconds.
pub wire_guard_peer_exact :
    (lib : Library) (p : WireGuardPeer)
    → (wire_guard_peer_problem lib p ≡ none) ↔ ((OneKey lib p ⊎ TwoKeys lib p) × Keepalive p)
wire_guard_peer_exact lib p = (
  λ h. accepted lib p.public_key p.public_keys p.endpoint p.endpoints p.keepalive h,
  λ h. passes lib p h,
)
