-- ===== src/VniAllocator/Fresh.antt =====
-- The first VNI that a new counter gives lies above every one that a stored object bears.
use cozyplane.Base.{
  ◌≡◌, List, [], ◌∷◌, Option, none, some, Bytes, inl, inr, All, Bool-cases, arith, if◌then◌else◌, ℤ,
  pos, ◌≤ℤ◌, leb_ℤ, ◌+ℤ◌, max_ℤ,
}
use cozyplane.Base.Api.{not_found}
use cozyplane.NetId.{last_vni, valid_vni}
use cozyplane.Claim.Name.{parse_claim, claim_prefix_port, claim_prefix_service_vip}
use cozyplane.Ipam.{Lister, finished, walk_claims}
use cozyplane.Ipam.Walk.{Pages, fold, Walked-cases, walk_claims-Pages}
use cozyplane.VniAllocator.{
  Claims, visit_vpc, visit_claim, initial_vni_high_water, create_counter, decide, decide_bootstrap,
}

le_trans_ℤ : (a b c : ℤ) → a ≤ℤ b → b ≤ℤ c → a ≤ℤ c
le_trans_ℤ a b c h k = omega arith

-- What an object bears, if anything, is at most the bound.
abbrev pub AtMost : ℤ → Option ℤ → Type 0
AtMost high none = Unit
AtMost high (some v) = v ≤ℤ high

AtMost-le : (o : Option ℤ) (a b : ℤ) → a ≤ℤ b → AtMost a o → AtMost b o
AtMost-le none a b h k = tt
AtMost-le (some v) a b h k = le_trans_ℤ v a b k h

-- The VNI of a VPC's status and of a claim's name.
abbrev pub vpc_vni : ℤ → Option ℤ
vpc_vni v = if valid_vni v then some v else none

abbrev pub claim_vni : Bytes → Bytes → Option ℤ
claim_vni prefix name = elim (parse_claim prefix name) [ none ↦ none | some (vni, esc) ↦ some vni ]

-- A visitor that keeps the maximum of what the objects bear.
module _ {A : Type 0} (bears : A → Option ℤ) (visit : ℤ → A → ℤ)
    (grows : (s : ℤ) (x : A) → s ≤ℤ visit s x)
    (covers : (s : ℤ) (x : A) → AtMost (visit s x) (bears x)) where
  fold-ge : (s : ℤ) (items : List A) → s ≤ℤ fold visit s items
  fold-ge s [] = omega arith
  fold-ge s (x ∷ xs) =
      le_trans_ℤ s (visit s x) (fold visit (visit s x) xs) (grows s x) (fold-ge (visit s x) xs)

  fold-AtMost : (s : ℤ) (items : List A) → All (λ x. AtMost (fold visit s items) (bears x)) items
  fold-AtMost s [] = tt
  fold-AtMost s (x ∷ xs) = (
    AtMost-le (bears x) (visit s x) (fold visit (visit s x) xs) (fold-ge (visit s x) xs)
        (covers s x),
    fold-AtMost (visit s x) xs,
  )

visit_vpc_grows : (s v : ℤ) → s ≤ℤ visit_vpc s v
unfolding visit_vpc
visit_vpc_grows s v = ground arith

visit_vpc_covers : (s v : ℤ) → AtMost (visit_vpc s v) (vpc_vni v)
unfolding visit_vpc
visit_vpc_covers s v = elim (Bool-cases (valid_vni v)) [
  | inl e ↦ rw e (ground arith)
  | inr e ↦ rw e tt
]

visit_claim_grows : (prefix : Bytes) (s : ℤ) (name : Bytes) → s ≤ℤ visit_claim prefix s name
unfolding visit_claim
visit_claim_grows prefix s name = ground arith

visit_claim_covers :
    (prefix : Bytes) (s : ℤ) (name : Bytes)
    → AtMost (visit_claim prefix s name) (claim_vni prefix name)
unfolding visit_claim
visit_claim_covers prefix s name =
    elim (parse_claim prefix name)
      as (λ o.
        AtMost (elim o [ none ↦ s | some (vni, esc) ↦ max_ℤ s vni ])
          (elim o [ none ↦ none | some (vni, esc) ↦ some vni ])) [
            | none ↦ tt
            | some (v, esc) ↦ ground arith
          ]

-- Every object of a whole scan bears at most that VNI.
abbrev pub Scanned : {A : Type 0} → Lister A → (A → Option ℤ) → ℤ → Type 0
Scanned {A} lister bears high =
    (items : List A) × Pages lister 512 0 [] items × All (λ x. AtMost high (bears x)) items

All-AtMost-le :
    {A : Type 0} (bears : A → Option ℤ) (a b : ℤ)
    → a ≤ℤ b
    → (items : List A) → All (λ x. AtMost a (bears x)) items
    → All (λ x. AtMost b (bears x)) items
All-AtMost-le bears a b h [] l = tt
All-AtMost-le bears a b h (x ∷ xs) (p, l) =
    (AtMost-le (bears x) a b h p, All-AtMost-le bears a b h xs l)

-- The stored objects that bear a VNI, each at most the high water.
abbrev pub Covered : Claims → ℤ → Type 0
Covered c high =
    Scanned c.vpcs vpc_vni high
    × Scanned c.ports (claim_vni claim_prefix_port) high
    × Scanned c.service_vips (claim_vni claim_prefix_service_vip) high

walk_covers :
    {A : Type 0} (bears : A → Option ℤ) (visit : ℤ → A → ℤ)
    (grows : (s : ℤ) (x : A) → s ≤ℤ visit s x)
    (covers : (s : ℤ) (x : A) → AtMost (visit s x) (bears x)) (lister : Lister A) (s high : ℤ)
    → walk_claims lister visit s ≡ finished high
    → s ≤ℤ high × ((top : ℤ) → high ≤ℤ top → Scanned lister bears top)
walk_covers bears visit grows covers lister s high h =
    let (items, pages, same, fits) = walk_claims-Pages lister visit s high h in
    let up : s ≤ℤ high = rw same (fold-ge bears visit grows covers s items) in
    let all : All (λ x. AtMost high (bears x)) items =
      rw same (fold-AtMost bears visit grows covers s items) in
    (up, λ top k. (items, pages, All-AtMost-le bears high top k items all))

high_water-Covered :
    (c : Claims) (high : ℤ)
    → initial_vni_high_water c ≡ finished high
    → pos 99 ≤ℤ high × Covered c high
unfolding initial_vni_high_water
high_water-Covered c high h = elim (Walked-cases (walk_claims c.vpcs visit_vpc (pos 99))) [
  | inr (e, f) ↦ absurd (ground arith)
  | inl (a, f) ↦ elim (Walked-cases (walk_claims c.ports (visit_claim claim_prefix_port) a)) [
    | inr (e, g) ↦ absurd (ground arith)
    | inl (b, g) ↦
        let (l1, s1) =
          walk_covers vpc_vni visit_vpc visit_vpc_grows visit_vpc_covers c.vpcs (pos 99) a f in
        let (l2, s2) =
          walk_covers (claim_vni claim_prefix_port) (visit_claim claim_prefix_port)
            (visit_claim_grows claim_prefix_port) (visit_claim_covers claim_prefix_port) c.ports a b
            g in
        let (l3, s3) =
          walk_covers (claim_vni claim_prefix_service_vip) (visit_claim claim_prefix_service_vip)
            (visit_claim_grows claim_prefix_service_vip)
            (visit_claim_covers claim_prefix_service_vip) c.service_vips b high (ground arith) in
        (omega arith, (s1 high (omega arith), s2 high (omega arith), s3 high (omega arith)))
  ]
]

-- The VNI that a new counter would hold is one above a high water of at least 99, is at most 4194303, and the
-- high water covers what three whole scans found.
pub decide-Covered :
    (c : Claims) (v : ℤ)
    → decide not_found c ≡ create_counter v
    → (high : ℤ) × (v ≡ high +ℤ pos 1) × (pos 99 ≤ℤ high) × (v ≤ℤ last_vni) × Covered c high
unfolding decide decide_bootstrap
decide-Covered c v h = elim (Walked-cases (initial_vni_high_water c)) [
  | inr (e, f) ↦ absurd (ground arith)
  | inl (high, f) ↦
      let (low, cover) = high_water-Covered c high f in
      elim (Bool-cases (leb_ℤ last_vni high)) [
        | inl q ↦ absurd (ground arith)
        | inr q ↦
            let same : v ≡ high +ℤ pos 1 = ground arith in (high, same, low, ground arith, cover)
      ]
]
