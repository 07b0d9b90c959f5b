-- ===== src/SgIdentity/Proven.antt =====
-- A bit of a Port's word stands for a membership that is proved.
use cozyplane.Base.{
  ℕ, ◌≤◌, ◌≡◌, ◌⊎◌, sym, ap, ◌∙◌, true, ◌&&◌, List, [], ◌∷◌, inl, inr, Any, Bool-cases, arith, ◌==◌,
  str_eq_iff, is_empty, ℤ, pos, negsuc, to_ℕ, false, Option-cases, some,
}
use cozyplane.Grants.{VpcRef}
use cozyplane.SgIdentity.{
  Word, zero_word, set_bit, clear_bit, in_range, Index, GroupRef, Port, is_current, proven_from,
  bits_from, bitmap, find,
}

-- A reference with that identifier, whose UID is not empty and the one that the index has.
abbrev pub Proves : Index → VpcRef → ℕ → GroupRef → Type 0
Proves index v n r = (r.id ≡ pos n) × (is_empty r.uid ≡ false) × (find index v r.id ≡ some r.uid)

-- The same by the tests of the loop.
abbrev Passes : Index → VpcRef → ℕ → GroupRef → Type 0
Passes index v n r = (to_ℕ r.id ≡ n) × (in_range r.id ≡ true) × (is_current index v r ≡ true)

proven_sound :
    (index : Index) (v : VpcRef) (n : ℕ) (proven seen : Word) (refs : List GroupRef)
    → proven_from index v proven seen refs n ≡ true
    → (proven n ≡ true) ⊎ Any (Passes index v n) refs
unfolding proven_from
proven_sound index v n proven seen [] h = inl h
proven_sound index v n proven seen (r ∷ refs) h = elim (Bool-cases (in_range r.id)) [
  | inr e ↦ elim (proven_sound index v n proven seen refs (ground arith)) [
    | inl p ↦ inl p
    | inr a ↦ inr (inr a)
  ]
  | inl e ↦ elim (Bool-cases (seen (to_ℕ r.id))) [
    | inl s ↦
        elim (proven_sound index v n (clear_bit (to_ℕ r.id) proven) seen refs (ground arith)) [
          | inl p ↦ inl (ground arith)
          | inr a ↦ inr (inr a)
        ]
    | inr s ↦ elim (Bool-cases (is_current index v r)) [
      | inl c ↦
          elim (proven_sound index v n (set_bit (to_ℕ r.id) proven) (set_bit (to_ℕ r.id) seen) refs
            (ground arith)) [
              | inl p ↦ elim (Bool-cases (n == to_ℕ r.id)) [
                | inl q ↦ inr (inl (ground arith, e, c))
                | inr q ↦ inl (ground arith)
              ]
              | inr a ↦ inr (inr a)
            ]
      | inr c ↦
          elim (proven_sound index v n proven (set_bit (to_ℕ r.id) seen) refs (ground arith)) [
            | inl p ↦ inl p
            | inr a ↦ inr (inr a)
          ]
    ]
  ]
]

bits_sound :
    (proven word : Word) (n : ℕ) (ids : List ℤ)
    → 1 ≤ n
    → bits_from proven word ids n ≡ true
    → (word n ≡ true) ⊎ (Any (λ id. (to_ℕ id ≡ n) × (in_range id ≡ true)) ids × (proven n ≡ true))
unfolding bits_from
bits_sound proven word n [] l h = inl h
bits_sound proven word n (id ∷ ids) l h = elim (Bool-cases (in_range id && proven (to_ℕ id))) [
  | inl e ↦ elim (bits_sound proven (set_bit (to_ℕ id) word) n ids l (ground arith)) [
    | inl p ↦ elim (Bool-cases (n == to_ℕ id)) [
      | inl q ↦
          let same : to_ℕ id ≡ n = ground arith in
          inr (inl (same, ground arith), ap proven (sym same) ∙ ground arith)
      | inr q ↦ inl (ground arith)
    ]
    | inr (a, p) ↦ inr (inr a, p)
  ]
  | inr e ↦ elim (bits_sound proven (set_bit 0 word) n ids l (ground arith)) [
    | inl p ↦ inl (ground arith)
    | inr (a, p) ↦ inr (inr a, p)
  ]
]

in_range-pos : (id : ℤ) (n : ℕ) → to_ℕ id ≡ n → in_range id ≡ true → (id ≡ pos n) × (n ≤ 62)
in_range-pos (pos m) n e h = (ap pos e, ground arith)
in_range-pos (negsuc m) n e h = absurd (ground arith)

Passes-Proves :
    (index : Index) (v : VpcRef) (n : ℕ) (r : GroupRef) → Passes index v n r → Proves index v n r
Passes-Proves index v n r (e, i, c) = elim (Option-cases (find index v r.id)) [
  | inl f ↦ absurd (ground arith)
  | inr (uid, f) ↦
      let same : uid ≡ r.uid = (str_eq_iff uid r.uid).0 (ground arith) in
      ((in_range-pos r.id n e i).0, ground arith, f ∙ ap some same)
]

Any-map :
    {A : Type 0} (P Q : A → Type 0) (xs : List A) → ((x : A) → P x → Q x) → Any P xs → Any Q xs
Any-map P Q [] f a = elim a [ ]
Any-map P Q (x ∷ xs) f (inl p) = inl (f x p)
Any-map P Q (x ∷ xs) f (inr a) = inr (Any-map P Q xs f a)

Any-some : {A : Type 0} (P : A → Type 0) (xs : List A) → Any P xs → (x : A) × P x
Any-some P [] a = elim a [ ]
Any-some P (x ∷ xs) (inl p) = (x, p)
Any-some P (x ∷ xs) (inr a) = Any-some P xs a

-- A bit of a Port's word other than bit zero stands for a proved membership: it is at most bit 62, the
-- memberships were written for the Pod that the Port is labelled with, one of them has that number,
-- and a reference of that number names a UID, not empty, that the index has for the Port's VPC.
pub bitmap_sound :
    (index : Index) (p : Port) (n : ℕ)
    → 1 ≤ n
    → bitmap index p n ≡ true
    → (p.group_pod_uid ≡ p.pod_uid)
      × (n ≤ 62)
      × Any (λ id. id ≡ pos n) p.groups
      × Any (Proves index p.vpc n) p.group_refs
unfolding bitmap
bitmap_sound index p n l h =
    let proven = proven_from index p.vpc zero_word zero_word p.group_refs in
    let run : bits_from proven zero_word p.groups n ≡ true = ground arith in
    elim (bits_sound proven zero_word n p.groups l run) [
      | inl e ↦ absurd (ground arith)
      | inr (a, q) ↦ elim (proven_sound index p.vpc n zero_word zero_word p.group_refs q) [
        | inl e ↦ absurd (ground arith)
        | inr b ↦
            let (id, (named, ranged)) = Any-some _ p.groups a in
            (
              (str_eq_iff p.group_pod_uid p.pod_uid).0 (ground arith),
              (in_range-pos id n named ranged).1,
              Any-map _ _ p.groups (λ x (e, i). (in_range-pos x n e i).0) a,
              Any-map _ _ p.group_refs (Passes-Proves index p.vpc n) b,
            )
      ]
    ]
