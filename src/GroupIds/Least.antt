-- ===== src/GroupIds/Least.antt =====
-- The identifier that is allocated is the lowest one that is free.
use cozyplane.Base.{
  ℕ, zero, suc, ◌+◌, ◌≤◌, ◌<◌, ◌≡◌, refl, sym, ap, ◌∙◌, Bool, true, false, ◌&&◌, ◌||◌, not, List,
  [], ◌∷◌, ◌⊎◌, inl, inr, str_eq, Bool-cases, arith, ◌==◌, pos,
}
use cozyplane.SgIdentity.{same_id}
use cozyplane.Ipam.{Lister, finished, walk_claims}
use cozyplane.Ipam.Walk.{Pages, fold, Walked-cases, walk_claims-Pages}
use cozyplane.GroupIds.{GroupClaim, visit_used, is_used, lowest_from, allocate_id}

-- Another group of the VPC has that identifier.
unfoldable pub is_held : GroupClaim → ℕ → List GroupClaim → Bool
is_held self n [] = false
is_held self n (o ∷ items) =
    not (str_eq o.name self.name) && str_eq o.vpc_name self.vpc_name && same_id o.id (pos n)
    || is_held self n items

is_used-visit_used :
    (self : GroupClaim) (n : ℕ) (used : List ℕ) (o : GroupClaim)
    → 1 ≤ n
    → n < 63
    → is_used n (visit_used self used o) ≡ (
        is_used n used
        || not (str_eq o.name self.name) && str_eq o.vpc_name self.vpc_name && same_id o.id (pos n))
unfolding visit_used is_used
is_used-visit_used self n used o l h = ground arith

is_used-fold :
    (self : GroupClaim) (n : ℕ) (used : List ℕ) (items : List GroupClaim)
    → 1 ≤ n
    → n < 63
    → is_used n (fold (visit_used self) used items) ≡ (is_used n used || is_held self n items)
unfolding is_held
is_used-fold self n used [] l h = ground arith
is_used-fold self n used (o ∷ items) l h =
    let ih = is_used-fold self n (visit_used self used o) items l h in
    ih ∙ ground (arith, is_used-visit_used self n used o l h)

held :
    (self : GroupClaim) (n : ℕ) (used : List ℕ) (items : List GroupClaim)
    → 1 ≤ n
    → n < 63
    → used ≡ fold (visit_used self) [] items
    → is_used n used ≡ is_held self n items
unfolding is_used
held self n used items l h e = ap (is_used n) e ∙ is_used-fold self n [] items l h

lowest_from-free :
    (left id : ℕ) (used : List ℕ)
    → 1 ≤ id
    → (lowest_from left id used ≡ 0)
      ⊎ ((id ≤ lowest_from left id used)
          × (lowest_from left id used < id + left)
          × (is_used (lowest_from left id used) used ≡ false))
unfolding lowest_from
lowest_from-free zero id used l = inl refl
lowest_from-free (suc left) id used l = elim (Bool-cases (is_used id used)) [
  | inr q ↦ rw q (inr (omega arith, omega arith, q))
  | inl q ↦ rw q (elim (lowest_from-free left (id + 1) used (omega arith)) [
    | inl e ↦ inl e
    | inr (a, b, c) ↦ inr (omega arith, omega arith, c)
  ])
]

lowest_from-least :
    (left id m : ℕ) (used : List ℕ)
    → 1 ≤ id
    → id ≤ m
    → m < id + left
    → is_used m used ≡ false
    → (id ≤ lowest_from left id used) × (lowest_from left id used ≤ m)
unfolding lowest_from
lowest_from-least zero id m used l a b h = absurd (omega arith)
lowest_from-least (suc left) id m used l a b h = elim (Bool-cases (is_used id used)) [
  | inr q ↦ rw q (omega arith, omega arith)
  | inl q ↦ rw q (elim (Bool-cases (id == m)) [
    | inl e ↦ absurd (ground arith)
    | inr e ↦
        let (c, d) =
          lowest_from-least left (id + 1) m used (omega arith) (ground arith) (omega arith) h in
        (omega arith, omega arith)
  ])
]

-- An allocation answers with zero, or with an identifier from 1 to 62 that no other group of the VPC in
-- the whole scan holds; and each identifier m in that range is held, or the answer is at most m and not
-- zero.
pub allocate_id-least :
    (lister : Lister GroupClaim) (self : GroupClaim) (n m : ℕ)
    → 1 ≤ m
    → m < 63
    → allocate_id lister self ≡ finished n
    → (items : List GroupClaim) × Pages lister 512 0 [] items
      × ((n ≡ 0) ⊎ ((1 ≤ n) × (n < 63) × (is_held self n items ≡ false)))
      × ((is_held self m items ≡ true) ⊎ ((1 ≤ n) × (n ≤ m)))
unfolding allocate_id
allocate_id-least lister self n m l b h =
    elim (Walked-cases (walk_claims lister (visit_used self) [])) [
      | inr (e, f) ↦ absurd (ground arith)
      | inl (used, f) ↦
          let (items, pages, same, fits) = walk_claims-Pages lister (visit_used self) [] used f in
          let is_n : lowest_from 62 1 used ≡ n = ground arith in
          (
            items,
            pages,
            elim (lowest_from-free 62 1 used (omega arith)) [
              | inl z ↦ inl (omega arith)
              | inr (x, y, z) ↦ inr (
                omega arith,
                omega arith,
                sym (held self n used items (omega arith) (omega arith) same)
                    ∙ (ap (λ k. is_used k used) (sym is_n) ∙ z),
              )
            ],
            elim (Bool-cases (is_held self m items)) [
              | inl q ↦ inl q
              | inr q ↦
                  let (x, y) =
                    lowest_from-least 62 1 m used (omega arith) l (omega arith)
                      (held self m used items l b same ∙ q) in
                  inr (omega arith, omega arith)
            ],
          )
    ]
