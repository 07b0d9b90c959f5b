-- ===== src/Responder/Query/Slots.antt =====
-- The slots of the queries in flight: the counters of `acquireQuery` and `releaseQuery`, over any
-- interleaving of arrivals and returns.
use cozyplane.Base.{
  ℕ, ◌+◌, ◌-◌, ◌≤◌, ◌<◌, ◌≡◌, refl, sym, ap, true, List, [], ◌∷◌, Option, none, some, inl, inr,
  Bool-cases, arith, if◌then◌else◌, ◌==◌, length, str_eq_refl, str_eq_iff,
}
use cozyplane.Grants.{VpcRef}
use cozyplane.Claim.Guard.{ref_eq}
use cozyplane.Responder.Query.{Queries, at, set, acquire_query, release_query}

-- How many queries of a VPC a list holds, and the list without one of them.
unfoldable pub tally : VpcRef → List VpcRef → ℕ
tally v [] = 0
tally v (w ∷ ws) = if ref_eq w v then tally v ws + 1 else tally v ws

unfoldable pub leave : VpcRef → List VpcRef → List VpcRef
leave v [] = []
leave v (w ∷ ws) = if ref_eq w v then ws else w ∷ leave v ws

-- The queries in flight, each by its VPC, and the counters: a query arrives, or one returns.
pub data Flight : List VpcRef → Queries → Type 0 where
  idle : Flight [] (record { total = 0; vpcs = λ v. none })
  arrives :
      {ws : List VpcRef} {s s' : Queries}
      → (v : VpcRef) → Flight ws s
      → acquire_query v s ≡ some s'
      → Flight (v ∷ ws) s'
  returns :
      {ws : List VpcRef} {s : Queries}
      → (v : VpcRef) → Flight ws s
      → 1 ≤ tally v ws
      → Flight (leave v ws) (release_query v s)

abbrev entry : ℕ → Option ℕ
entry n = if n == 0 then none else some n

ref_eq_refl : (v : VpcRef) → ref_eq v v ≡ true
ref_eq_refl v = ground (arith, str_eq_refl v.namespace, str_eq_refl v.name)

ref_eq_eq : (a b : VpcRef) → ref_eq a b ≡ true → a ≡ b
ref_eq_eq a b h = ground (arith, str_eq_iff a.namespace b.namespace, str_eq_iff a.name b.name)

-- The counters are those of the list.
abbrev pub Counts : List VpcRef → Queries → Type 0
Counts ws s = (s.total ≡ length ws) × ((v : VpcRef) → s.vpcs v ≡ entry (tally v ws))

abbrev pub Within : List VpcRef → Type 0
Within ws = (length ws ≤ 256) × ((v : VpcRef) → tally v ws ≤ 16)

at-tally : (ws : List VpcRef) (s : Queries) → Counts ws s → (v : VpcRef) → at s v ≡ tally v ws
at-tally ws s (_, h) v = ground (arith, h v)

length-leave :
    (v : VpcRef) (ws : List VpcRef) → 1 ≤ tally v ws → length (leave v ws) + 1 ≡ length ws
unfolding tally leave
length-leave v [] h = ground arith
length-leave v (w ∷ ws) h = elim (Bool-cases (ref_eq w v)) [
  | inl e ↦ ground arith
  | inr e ↦ let ih = length-leave v ws (ground arith) in ground arith
]

tally-leave :
    (v u : VpcRef) (ws : List VpcRef)
    → 1 ≤ tally v ws
    → tally u (leave v ws) ≡ (if ref_eq v u then tally u ws - 1 else tally u ws)
unfolding tally leave
tally-leave v u [] h = ground arith
tally-leave v u (w ∷ ws) h = elim (Bool-cases (ref_eq w v)) [
  | inl e ↦
      let same : ref_eq w u ≡ ref_eq v u = ap (λ t. ref_eq t u) (ref_eq_eq w v e) in ground arith
  | inr e ↦
      let ih = tally-leave v u ws (ground arith) in
      elim (Bool-cases (ref_eq v u)) [
        | inl p ↦
            let same : ref_eq w u ≡ ref_eq w v = ap (λ t. ref_eq w t) (sym (ref_eq_eq v u p)) in
            let there : tally v ws ≡ tally u ws = ap (λ t. tally t ws) (ref_eq_eq v u p) in
            ground arith
        | inr p ↦ ground arith
      ]
]

acquired :
    (v u : VpcRef) (s s' : Queries)
    → acquire_query v s ≡ some s'
    → (at s v < 16) × (s'.vpcs u ≡ (if ref_eq v u then some (at s v + 1) else s.vpcs u))
unfolding acquire_query
acquired v u s s' h =
    let f : some s'
        ≡ some (record { total = s.total + 1; vpcs = set s.vpcs v (some (at s v + 1)) }) =
      ground arith in
    (ground arith, ap (λ o. elim o [ none ↦ s.vpcs u | some t ↦ t.vpcs u ]) f)

Counts-acquire :
    (v : VpcRef) (ws : List VpcRef) (s s' : Queries)
    → Counts ws s
    → acquire_query v s ≡ some s'
    → Counts (v ∷ ws) s'
unfolding acquire_query tally
Counts-acquire v ws s s' (ht, hm) h = (
  ground arith,
  λ u.
      let (_, step) = acquired v u s s' h in
      let there = hm u in
      let here = at-tally ws s (ht, hm) v in
      elim (Bool-cases (ref_eq v u)) [
        | inl p ↦
            let same : tally v ws ≡ tally u ws = ap (λ t. tally t ws) (ref_eq_eq v u p) in
            ground arith
        | inr p ↦ ground arith
      ],
)

Counts-release :
    (v : VpcRef) (ws : List VpcRef) (s : Queries)
    → 1 ≤ tally v ws
    → Counts ws s
    → Counts (leave v ws) (release_query v s)
unfolding release_query
Counts-release v ws s h (ht, hm) = (
  ground (arith, length-leave v ws h),
  λ u.
      let left = tally-leave v u ws h in
      let there = hm u in
      let here = at-tally ws s (ht, hm) v in
      elim (Bool-cases (ref_eq v u)) [
        | inl p ↦
            let same : tally v ws ≡ tally u ws = ap (λ t. tally t ws) (ref_eq_eq v u p) in
            ground arith
        | inr p ↦ ground arith
      ],
)

Within-acquire :
    (v : VpcRef) (ws : List VpcRef) (s s' : Queries)
    → Counts ws s
    → acquire_query v s ≡ some s'
    → Within ws
    → Within (v ∷ ws)
unfolding acquire_query tally
Within-acquire v ws s s' c h (hl, hw) = (
  (let (ht, _) = c in ground arith),
  λ u.
      let (low, _) = acquired v u s s' h in
      let here = at-tally ws s c v in
      let old = hw u in
      elim (Bool-cases (ref_eq v u)) [
        | inl p ↦
            let same : tally v ws ≡ tally u ws = ap (λ t. tally t ws) (ref_eq_eq v u p) in
            ground arith
        | inr p ↦ ground arith
      ],
)

Within-leave : (v : VpcRef) (ws : List VpcRef) → 1 ≤ tally v ws → Within ws → Within (leave v ws)
Within-leave v ws h (hl, hw) = (
  ground (arith, length-leave v ws h),
  λ u. let old = hw u in ground (arith, tally-leave v u ws h),
)

-- Whatever queries arrive and return, in whatever order, the counters are those of the queries in
-- flight, with no key of the map for a VPC that has none; so there are at most 256 queries in flight,
-- and at most 16 of one VPC.
pub slots_exact : (ws : List VpcRef) (s : Queries) → Flight ws s → Counts ws s × Within ws
unfolding tally
slots_exact _ _ idle = ((refl, λ v. refl), (omega arith, λ v. omega arith))
slots_exact _ _ (arrives {ws} {s} {s'} v f h) =
    let (c, w) = slots_exact ws s f in
    (Counts-acquire v ws s s' c h, Within-acquire v ws s s' c h w)
slots_exact _ _ (returns {ws} {s} v f h) =
    let (c, w) = slots_exact ws s f in (Counts-release v ws s h c, Within-leave v ws h w)
