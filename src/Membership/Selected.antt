-- ===== src/Membership/Selected.antt =====
-- What the loop over the groups selects, by a description with no state.
use cozyplane.Base.{
  ℕ, ◌+◌, ◌≡◌, refl, Bool, true, false, ◌&&◌, ◌||◌, not, List, [], ◌∷◌, ◌++◌, append_assoc,
  append-nil, none, some, inl, inr, Bool-cases, Option-cases, arith, ◌==◌, if◌then◌else◌, to_ℕ,
}
use cozyplane.Grants.{VpcRef}
use cozyplane.SgIdentity.{Word, set_bit, Index, GroupRef}
use cozyplane.Membership.{Labels, Group, is_other, is_resolved, invalid, selection, select_from}

-- The labels choose the group: it is of the VPC, not being deleted, and its selector matches.
abbrev pub chosen : VpcRef → Labels → Group → Bool
chosen v labels g =
    not (is_other v g)
    && not g.identity.is_deleted
    && elim g.selector [ none ↦ false | some matches ↦ matches labels ]

abbrev pub ref_of : Group → GroupRef
ref_of g = record { id = g.identity.id; uid = g.identity.uid }

-- The references of the chosen groups with an identifier.
unfoldable pub picks : Index → VpcRef → Labels → List Group → List GroupRef
picks index v labels [] = []
picks index v labels (g ∷ groups) =
    let rest = picks index v labels groups in
    if chosen v labels g && is_resolved index v g.identity then ref_of g ∷ rest else rest

-- Some chosen group has that bit: its own identifier's, or bit zero if it has none.
unfoldable pub wanted : Index → VpcRef → Labels → List Group → ℕ → Bool
wanted index v labels [] n = false
wanted index v labels (g ∷ groups) n =
    chosen v labels g
      && (if is_resolved index v g.identity then n == to_ℕ g.identity.id else n == 0)
    || wanted index v labels groups n

-- Some group of the VPC that is not being deleted has an invalid selector.
unfoldable pub has_invalid : VpcRef → List Group → Bool
has_invalid v [] = false
has_invalid v (g ∷ groups) =
    not (is_other v g)
      && not g.identity.is_deleted
      && elim g.selector [ none ↦ true | some matches ↦ false ]
    || has_invalid v groups

module _ (is_done : ℕ → Bool) (index : Index) (v : VpcRef) (labels : Labels) where
  pub select_from-selection :
      (b k : ℕ) (word w : Word) (refs r : List GroupRef) (groups : List Group)
      → select_from is_done index v labels k word refs groups ≡ selection w r
      → (w b ≡ (word b || wanted index v labels groups b))
        × (r ≡ refs ++ picks index v labels groups)
        × (has_invalid v groups ≡ false)
  unfolding select_from wanted picks has_invalid
  select_from-selection b k word w refs r [] h =
      (ground arith, ground (arith, append-nil refs), refl)
  select_from-selection b k word w refs r (g ∷ groups) h =
      elim (Bool-cases (is_other v g || g.identity.is_deleted)) [
        | inl q ↦
            let (x, y, z) = select_from-selection b (k + 1) word w refs r groups (ground arith) in
            (ground arith, ground arith, ground arith)
        | inr q ↦ elim (Option-cases g.selector) [
          | inl e ↦ absurd (ground arith)
          | inr (matches, e) ↦ elim (Bool-cases (matches labels)) [
            | inr m ↦
                let (x, y, z) =
                  select_from-selection b (k + 1) word w refs r groups (ground arith) in
                (ground arith, ground arith, ground arith)
            | inl m ↦ elim (Bool-cases (is_resolved index v g.identity)) [
              | inl s ↦
                  let (x, y, z) =
                    select_from-selection b (k + 1) (set_bit (to_ℕ g.identity.id) word) w
                      (refs ++ ref_of g ∷ []) r groups (ground arith) in
                  (
                    ground arith,
                    ground (arith, append_assoc refs (ref_of g ∷ []) (picks index v labels groups)),
                    ground arith,
                  )
              | inr s ↦
                  let (x, y, z) =
                    select_from-selection b (k + 1) (set_bit 0 word) w refs r groups
                      (ground arith) in
                  (ground arith, ground arith, ground arith)
            ]
          ]
        ]
      ]

  pub select_from-invalid :
      (k : ℕ) (word : Word) (refs : List GroupRef) (groups : List Group)
      → select_from is_done index v labels k word refs groups ≡ invalid
      → has_invalid v groups ≡ true
  unfolding select_from has_invalid
  select_from-invalid k word refs [] h = absurd (ground arith)
  select_from-invalid k word refs (g ∷ groups) h =
      elim (Bool-cases (is_other v g || g.identity.is_deleted)) [
        | inl q ↦
            let x = select_from-invalid (k + 1) word refs groups (ground arith) in ground arith
        | inr q ↦ elim (Option-cases g.selector) [
          | inl e ↦ ground arith
          | inr (matches, e) ↦ elim (Bool-cases (matches labels)) [
            | inr m ↦
                let x = select_from-invalid (k + 1) word refs groups (ground arith) in ground arith
            | inl m ↦ elim (Bool-cases (is_resolved index v g.identity)) [
              | inl s ↦
                  let x =
                    select_from-invalid (k + 1) (set_bit (to_ℕ g.identity.id) word)
                      (refs ++ ref_of g ∷ []) groups (ground arith) in
                  ground arith
              | inr s ↦
                  let x = select_from-invalid (k + 1) (set_bit 0 word) refs groups (ground arith) in
                  ground arith
            ]
          ]
        ]
      ]
