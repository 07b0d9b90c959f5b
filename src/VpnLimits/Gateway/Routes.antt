-- ===== src/VpnLimits/Gateway/Routes.antt =====
-- The routes that are kept while authorization is drained lose no prefix.
use mathlib.Core.Path.{subst}
use cozyplane.Base.{
  ℕ, ◌+◌, ◌≤◌, ◌≡◌, refl, sym, ap, ◌∙◌, true, List, [], ◌∷◌, ◌++◌, some, inl, inr, Bytes,
  Bool-cases, arith, length, length-append, ◌==◌, All,
}
use cozyplane.VpnLimits.Gateway.{RouteStatus, routes_bounded, retained, short, blackhole_vpn_routes}

-- A VPC's prefixes, each with the VPC, and those of a list of routes.
-- A route with a prefix and with no next hop.
abbrev pub Blackholed : RouteStatus → Type 0
Blackholed r = (1 ≤ length r.cidrs) × (r.port ≡ []) × (r.ports ≡ [])

unfoldable pub routed : Bytes → List Bytes → List (Bytes × Bytes)
routed v [] = []
routed v (c ∷ cs) = (v, c) ∷ routed v cs

unfoldable pub prefixes_of : List RouteStatus → List (Bytes × Bytes)
prefixes_of [] = []
prefixes_of (r ∷ rs) = routed r.vpc_ref r.cidrs ++ prefixes_of rs

length-routed : (v : Bytes) (cs : List Bytes) → length (routed v cs) ≡ length cs
unfolding routed
length-routed v [] = refl
length-routed v (c ∷ cs) = omega (arith, length-routed v cs)

short_sound : (cs : List Bytes) → short cs ≡ true → All (λ c. length c ≤ 64) cs
short_sound [] h = tt
short_sound (c ∷ cs) h = (ground arith, short_sound cs (ground arith))

bounded_sound :
    (n : ℕ) (rs : List RouteStatus)
    → n ≤ 4096
    → routes_bounded n rs ≡ true
    → (n + length (prefixes_of rs) ≤ 4096) × All (λ r. All (λ c. length c ≤ 64) r.cidrs) rs
unfolding routes_bounded prefixes_of
bounded_sound n [] l h = (ground arith, tt)
bounded_sound n (r ∷ rs) l h =
    let (fits, small) = bounded_sound (n + length r.cidrs) rs (ground arith) (ground arith) in
    (
      ground (
        arith,
        length-append (routed r.vpc_ref r.cidrs) (prefixes_of rs),
        length-routed r.vpc_ref r.cidrs,
      ),
      (short_sound r.cidrs (ground arith), small),
    )

routed-empty : (v : Bytes) (cs : List Bytes) → (length cs == 0) ≡ true → routed v cs ≡ []
unfolding routed
routed-empty v [] h = refl
routed-empty v (c ∷ cs) h = absurd (ground arith)

retained-prefixes : (rs : List RouteStatus) → prefixes_of (retained rs) ≡ prefixes_of rs
unfolding retained prefixes_of
retained-prefixes [] = refl
retained-prefixes (r ∷ rs) = elim (Bool-cases (length r.cidrs == 0)) [
  | inl e ↦ rw (e, retained, routed-empty r.vpc_ref r.cidrs e) (retained-prefixes rs)
  | inr e ↦ rw (e, retained) (ap (λ t. routed r.vpc_ref r.cidrs ++ t) (retained-prefixes rs))
]

retained-Blackholed : (rs : List RouteStatus) → All Blackholed (retained rs)
unfolding retained
retained-Blackholed [] = tt
retained-Blackholed (r ∷ rs) = elim (Bool-cases (length r.cidrs == 0)) [
  | inl e ↦ rw (e, retained) (retained-Blackholed rs)
  | inr e ↦ rw (e, retained) ((ground arith, refl, refl), retained-Blackholed rs)
]

retained_of : (rs out : List RouteStatus) → blackhole_vpn_routes rs ≡ some out → out ≡ retained rs
unfolding blackhole_vpn_routes
retained_of rs out h = ground arith

-- The routes that are kept hold the prefixes of the routes that were given, each for its VPC and in
-- the same order; there are at most 4096, of at most 64 bytes each. Every route that is kept has a
-- prefix and names no next hop.
pub blackhole_sound :
    (rs out : List RouteStatus)
    → blackhole_vpn_routes rs ≡ some out
    → (prefixes_of out ≡ prefixes_of rs)
      × (length (prefixes_of rs) ≤ 4096)
      × All (λ r. All (λ c. length c ≤ 64) r.cidrs) rs
      × All Blackholed out
unfolding blackhole_vpn_routes
blackhole_sound rs out h =
    let (fits, small) = bounded_sound 0 rs (ground arith) (ground arith) in
    let same = retained_of rs out h in
    (
      ap prefixes_of same ∙ retained-prefixes rs,
      ground arith,
      small,
      subst (λ t. All Blackholed t) (sym same) (retained-Blackholed rs),
    )
