-- ===== src/Membership/Distinct.antt =====
-- No two chosen groups of a VPC give a reference with the same identifier: the index forgets an
-- identifier that two groups have.
use cozyplane.Base.{
  ℕ, ◌≡◌, ◌≢◌, refl, ap, ◌∙◌, Bool, true, false, ◌&&◌, ◌||◌, not, List, [], ◌∷◌, Option, none, some,
  ◌⊎◌, inl, inr, Bytes, is_empty, str_eq, str_eq_iff, str_eq_refl, All, Bool-cases, Option-cases,
  arith, ◌==◌, if◌then◌else◌, ℤ, to_ℕ,
}
use cozyplane.Grants.{VpcRef}
use cozyplane.Claim.Guard.{ref_eq}
use cozyplane.VpnLimits.{Library, object_name, namespace_name}
use cozyplane.SgIdentity.{in_range, Index, find, add, blank, is_at, same_id, GroupRef}
use cozyplane.Membership.{Labels, Group, is_other, is_resolved, index_from, is_keyed}
use cozyplane.Membership.Selected.{chosen, picks}

-- Whether a reference has that identifier.
abbrev pub has_id : ℕ → List GroupRef → Bool
has_id n [] = false
has_id n (r ∷ refs) = n == to_ℕ r.id || has_id n refs

-- The identifiers of the references differ.
abbrev pub Apart : List GroupRef → Type 0
Apart [] = Unit
Apart (r ∷ refs) = (has_id (to_ℕ r.id) refs ≡ false) × Apart refs

-- An identifier that is found a second time.
abbrev twice : Option Bytes → Option Bytes
twice none = none
twice (some uid) = some []

find-blank :
    (index : Index) (v : VpcRef) (a b : ℤ)
    → find (blank index v a) v b ≡ (if same_id a b then twice (find index v b) else find index v b)
unfolding find blank
find-blank [] v a b = ground arith
find-blank (k ∷ ks) v a b = elim (Bool-cases (is_at k v a)) [
  | inl p ↦ elim (Bool-cases (is_at k v b)) [
    | inl q ↦ ground (arith, find-blank ks v a b)
    | inr q ↦ ground (arith, find-blank ks v a b)
  ]
  | inr p ↦ elim (Bool-cases (is_at k v b)) [
    | inl q ↦ ground (arith, find-blank ks v a b)
    | inr q ↦ ground (arith, find-blank ks v a b)
  ]
]

find_same :
    (index : Index) (v : VpcRef) (a b : ℤ) → same_id a b ≡ true → find index v a ≡ find index v b
unfolding find
find_same [] v a b h = refl
find_same (k ∷ ks) v a b h = elim (Bool-cases (is_at k v a)) [
  | inl p ↦ ground (arith, find_same ks v a b h)
  | inr p ↦ ground (arith, find_same ks v a b h)
]

abbrev vpc_of : Group → VpcRef
vpc_of g = record { namespace = g.identity.namespace; name = g.identity.vpc_name }

Bytes-cases : (s : Bytes) → (s ≡ []) ⊎ ((c : ℕ) × (t : Bytes) × (s ≡ c ∷ t))
Bytes-cases [] = inl refl
Bytes-cases (c ∷ t) = inr (c, t, refl)

module _ (lib : Library) (v : VpcRef) (keyed : is_keyed lib v ≡ true) where
  -- The group takes that identifier in the VPC.
  abbrev takes : ℤ → Group → Bool
  takes id g =
      not (is_other v g)
      && not g.identity.is_deleted
      && in_range g.identity.id
      && same_id g.identity.id id

  -- What a group that takes the identifier leaves of it.
  abbrev taken : Bytes → Option Bytes → Option Bytes
  taken uid none = some uid
  taken uid (some u) = some []

  ref_eq_refl : (r : VpcRef) → ref_eq r r ≡ true
  ref_eq_refl r = ground (arith, str_eq_refl r.namespace, str_eq_refl r.name)

  -- The VPC that the group names is that one.
  find-add_at :
      (index : Index) (g : Group) (id : ℤ)
      → vpc_of g ≡ v
      → is_other v g ≡ false
      → find (add lib index (some g.identity)) v id
        ≡ (if takes id g then taken g.identity.uid (find index v id) else find index v id)
  unfolding add find
  find-add_at index g id e o =
      let ns : namespace_name lib g.identity.namespace ≡ namespace_name lib v.namespace =
        ap (λ r. namespace_name lib r.namespace) e in
      let nm : object_name lib g.identity.vpc_name ≡ object_name lib v.name =
        ap (λ r. object_name lib r.name) e in
      let own = ref_eq_refl v in
      rw e (elim (Bool-cases (g.identity.is_deleted || not (in_range g.identity.id))) [
        | inl d ↦ ground arith
        | inr d ↦ elim (Option-cases (find index v g.identity.id)) [
          | inl f ↦ elim (Bool-cases (same_id g.identity.id id)) [
            | inl s ↦ ground (arith, find_same index v g.identity.id id)
            | inr s ↦ ground arith
          ]
          | inr (u, f) ↦ elim (Bool-cases (same_id g.identity.id id)) [
            | inl s ↦
                ground
                  (arith, find_same index v g.identity.id id, find-blank index v g.identity.id id)
            | inr s ↦ ground (arith, find-blank index v g.identity.id id)
          ]
        ]
      ])

  find-add :
      (index : Index) (g : Group) (id : ℤ)
      → g.identity.namespace ≡ v.namespace
      → is_other v g ≡ false
      → find (add lib index (some g.identity)) v id
        ≡ (if takes id g then taken g.identity.uid (find index v id) else find index v id)
  find-add index g id e o =
      let nm : g.identity.vpc_name ≡ v.name =
        (str_eq_iff g.identity.vpc_name v.name).0 (ground arith) in
      find-add_at index g id (λ i. record { namespace = e i; name = nm i }) o

  -- Some group takes the identifier.
  unfoldable takes_any : ℤ → List Group → Bool
  takes_any id [] = false
  takes_any id (g ∷ groups) = takes id g || takes_any id groups

  -- The groups are of the VPC's namespace.
  abbrev pub Local : List Group → Type 0
  Local = All (λ g. g.identity.namespace ≡ v.namespace)

  find-step :
      (index : Index) (g : Group) (id : ℤ)
      → g.identity.namespace ≡ v.namespace
      → find (if is_other v g then index else add lib index (some g.identity)) v id
        ≡ (if takes id g then taken g.identity.uid (find index v id) else find index v id)
  find-step index g id e = elim (Bool-cases (is_other v g)) [
    | inl o ↦ ground arith
    | inr o ↦ ground (arith, find-add index g id e o)
  ]

  find-forgotten :
      (index : Index) (id : ℤ) (groups : List Group)
      → Local groups
      → find index v id ≡ some []
      → find (index_from lib v index groups) v id ≡ some []
  unfolding index_from
  find-forgotten index id [] l h = h
  find-forgotten index id (g ∷ groups) (e, l) h =
      let index' = if is_other v g then index else add lib index (some g.identity) in
      find-forgotten index' id groups l (elim (Bool-cases (takes id g)) [
        | inl t ↦ ground (arith, find-step index g id e)
        | inr t ↦ ground (arith, find-step index g id e)
      ])

  find-twice :
      (index : Index) (id : ℤ) (u : Bytes) (groups : List Group)
      → Local groups
      → find index v id ≡ some u
      → takes_any id groups ≡ true
      → find (index_from lib v index groups) v id ≡ some []
  unfolding index_from takes_any
  find-twice index id u [] l h t = absurd (ground arith)
  find-twice index id u (g ∷ groups) (e, l) h t =
      let index' = if is_other v g then index else add lib index (some g.identity) in
      elim (Bool-cases (takes id g)) [
        | inl q ↦ find-forgotten index' id groups l (ground (arith, find-step index g id e))
        | inr q ↦
            find-twice index' id u groups l (ground (arith, find-step index g id e)) (ground arith)
      ]

  has_id-picks :
      (index : Index) (labels : Labels) (id : ℤ) (groups : List Group)
      → in_range id ≡ true
      → has_id (to_ℕ id) (picks index v labels groups) ≡ true
      → takes_any id groups ≡ true
  unfolding picks takes_any
  has_id-picks index labels id [] r h = absurd (ground arith)
  has_id-picks index labels id (g ∷ groups) r h =
      elim (Bool-cases (chosen v labels g && is_resolved index v g.identity)) [
        | inr q ↦ ground (arith, has_id-picks index labels id groups r)
        | inl q ↦ elim (Bool-cases (to_ℕ id == to_ℕ g.identity.id)) [
          | inl s ↦ let same : same_id g.identity.id id ≡ true = ground arith in ground arith
          | inr s ↦ ground (arith, has_id-picks index labels id groups r)
        ]
      ]

  not_forgotten :
      (index : Index) (g : Group)
      → is_resolved index v g.identity ≡ true
      → find index v g.identity.id ≢ some []
  unfolding is_empty str_eq
  not_forgotten index g r h = elim (Bytes-cases g.identity.uid) [
    | inl e ↦ absurd (ground arith)
    | inr (c, s, e) ↦ absurd (ground arith)
  ]

  first_taken :
      (index : Index) (g : Group)
      → g.identity.namespace ≡ v.namespace
      → takes g.identity.id g ≡ true
      → (u : Bytes) × (find
            (if is_other v g then index else add lib index (some g.identity))
            v
            g.identity.id
          ≡ some u)
  first_taken index g e t = elim (Option-cases (find index v g.identity.id)) [
    | inl f ↦ (g.identity.uid, ground (arith, find-step index g g.identity.id e))
    | inr (u, f) ↦ ([], ground (arith, find-step index g g.identity.id e))
  ]

  pub picks-Apart :
      (final index : Index) (labels : Labels) (groups : List Group)
      → Local groups
      → final ≡ index_from lib v index groups
      → Apart (picks final v labels groups)
  unfolding picks index_from
  picks-Apart final index labels [] l h = tt
  picks-Apart final index labels (g ∷ groups) (e, l) h =
      let index' = if is_other v g then index else add lib index (some g.identity) in
      let rest = picks-Apart final index' labels groups l h in
      elim (Bool-cases (chosen v labels g && is_resolved final v g.identity)) [
        | inr q ↦ rw q rest
        | inl q ↦ rw q (
          elim (Bool-cases (has_id (to_ℕ g.identity.id) (picks final v labels groups))) [
            | inr n ↦ n
            | inl y ↦
                let again = has_id-picks final labels g.identity.id groups (ground arith) y in
                let (u, f) = first_taken index g e (ground arith) in
                let gone = find-twice index' g.identity.id u groups l f again in
                absurd
                  (not_forgotten final g (ground arith) (ap (λ x. find x v g.identity.id) h ∙ gone))
          ],
          rest,
        )
      ]
