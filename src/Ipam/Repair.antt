-- ===== src/Ipam/Repair.antt =====
-- The repair of an identifier that several objects claim: each scans the others and yields to an older
-- claim. The section's parameters are the order of their claims, which of them share an identifier and which
-- are the same object.
use cozyplane.Base.{
  ℕ, ◌≤◌, ◌≡◌, refl, sym, ap, ◌∙◌, Bool, true, false, ◌&&◌, ◌||◌, not, List, [], ◌∷◌, ◌⊎◌, inl, inr,
  All, Any, Bool-cases, arith, if◌then◌else◌, length,
}
use mathlib.Core.Path.{subst}
use cozyplane.Ipam.{Lister, finished, walk_claims}
use cozyplane.Ipam.Walk.{Pages, fold, walk_claims-live}

-- What the repair needs of the order of claims and of the sharing of an identifier.
pub record Tiebreak {A : Type 0} (same shares older : A → A → Bool) : Type 0 where
  pub same_sym : (a b : A) → same a b ≡ same b a
  pub shares_sym : (a b : A) → shares a b ≡ true → shares b a ≡ true
  pub shares_trans : (a b c : A) → shares a b ≡ true → shares b c ≡ true → shares a c ≡ true
  pub older_irrefl : (a : A) → older a a ≡ false
  pub older_trans : (a b c : A) → older a b ≡ true → older b c ≡ true → older a c ≡ true

-- Every element of a list stands in it.
All-Any_suc :
    {A : Type 0} (x : A) (xs ys : List A)
    → All (λ b. Any (λ o. o ≡ b) xs) ys
    → All (λ b. Any (λ o. o ≡ b) (x ∷ xs)) ys
All-Any_suc x xs [] h = tt
All-Any_suc x xs (y ∷ ys) (h, hs) = (inr h, All-Any_suc x xs ys hs)

All-listed : {A : Type 0} (xs : List A) → All (λ b. Any (λ o. o ≡ b) xs) xs
All-listed [] = tt
All-listed (x ∷ xs) = (inl refl, All-Any_suc x xs xs (All-listed xs))

module _ {A : Type 0} (same shares older : A → A → Bool) (t : Tiebreak same shares older) where
  -- The other claim beats the one of self.
  abbrev pub rival : A → A → Bool
  rival self o = shares o self && not (same o self) && older o self

  abbrev beats : A → A → Bool
  beats o k = shares o k && older o k

  -- The oldest of the claims that share an identifier with the first one.
  unfoldable oldest : A → List A → A
  oldest k [] = k
  oldest k (x ∷ xs) = oldest (if beats x k then x else k) xs

  oldest-nil : (k : A) → oldest k [] ≡ k
  unfolding oldest
  oldest-nil k = refl

  oldest-newer : (k x : A) (xs : List A) → beats x k ≡ false → oldest k (x ∷ xs) ≡ oldest k xs
  unfolding oldest
  oldest-newer k x xs q = rw q refl

  oldest-older : (k x : A) (xs : List A) → beats x k ≡ true → oldest k (x ∷ xs) ≡ oldest x xs
  unfolding oldest
  oldest-older k x xs q = rw q refl

  beats_trans : (a b c : A) → beats a b ≡ true → beats b c ≡ true → beats a c ≡ true
  beats_trans a b c h k = ground (arith, t.shares_trans a b c, t.older_trans a b c)

  beats_irrefl : (a : A) → beats a a ≡ false
  beats_irrefl a = ground (arith, t.older_irrefl a)

  oldest-beats : (k : A) (xs : List A) → (oldest k xs ≡ k) ⊎ (beats (oldest k xs) k ≡ true)
  oldest-beats k [] = inl (oldest-nil k)
  oldest-beats k (x ∷ xs) = elim (Bool-cases (beats x k)) [
    | inr q ↦ rw (oldest-newer k x xs q) (oldest-beats k xs)
    | inl q ↦ rw (oldest-older k x xs q) (elim (oldest-beats x xs) [
      | inl e ↦ inr (rw e q)
      | inr b ↦ inr (beats_trans (oldest x xs) x k b q)
    ])
  ]

  oldest-Any : (k : A) (xs : List A) → (oldest k xs ≡ k) ⊎ Any (λ o. o ≡ oldest k xs) xs
  oldest-Any k [] = inl (oldest-nil k)
  oldest-Any k (x ∷ xs) = elim (Bool-cases (beats x k)) [
    | inr q ↦
        subst (λ y. (y ≡ k) ⊎ Any (λ o. o ≡ y) (x ∷ xs)) (sym (oldest-newer k x xs q))
          (elim (oldest-Any k xs) [ inl e ↦ inl e | inr m ↦ inr (inr m) ])
    | inl q ↦
        subst (λ y. (y ≡ k) ⊎ Any (λ o. o ≡ y) (x ∷ xs)) (sym (oldest-older k x xs q))
          (elim (oldest-Any x xs) [ inl e ↦ inr (inl (sym e)) | inr m ↦ inr (inr m) ])
  ]

  -- A claim that does not beat k, or is the new k, does not beat what is left at the end.
  stays_beaten : (x k r : A) → (r ≡ k) ⊎ (beats r k ≡ true) → beats x k ≡ false → beats x r ≡ false
  stays_beaten x k r (inl e) h = rw e h
  stays_beaten x k r (inr b) h = elim (Bool-cases (beats x r)) [
    | inr q ↦ q
    | inl q ↦ ground (arith, beats_trans x r k q b)
  ]

  oldest-All : (k : A) (xs : List A) → All (λ o. beats o (oldest k xs) ≡ false) xs
  oldest-All k [] = tt
  oldest-All k (x ∷ xs) = elim (Bool-cases (beats x k)) [
    | inr q ↦
        subst (λ y. All (λ o. beats o y ≡ false) (x ∷ xs)) (sym (oldest-newer k x xs q))
          (stays_beaten x k (oldest k xs) (oldest-beats k xs) q, oldest-All k xs)
    | inl q ↦
        subst (λ y. All (λ o. beats o y ≡ false) (x ∷ xs)) (sym (oldest-older k x xs q))
          (stays_beaten x x (oldest x xs) (oldest-beats x xs) (beats_irrefl x), oldest-All x xs)
  ]

  module _ (visit : A → Bool → A → Bool)
      (visits : (self o : A) (lost : Bool) → visit self lost o ≡ (lost || rival self o)) where
    fold-true : (self : A) (xs : List A) → fold (visit self) true xs ≡ true
    fold-true self [] = refl
    fold-true self (x ∷ xs) = rw (visits self x true) (fold-true self xs)

    fold-beaten :
        (self : A) (lost : Bool) (xs : List A)
        → Any (λ o. rival self o ≡ true) xs
        → fold (visit self) lost xs ≡ true
    fold-beaten self lost [] h = elim h [ ]
    fold-beaten self lost (x ∷ xs) (inl e) =
        let up : visit self lost x ≡ true = ground (arith, visits self x lost) in
        rw up (fold-true self xs)
    fold-beaten self lost (x ∷ xs) (inr h) = fold-beaten self (visit self lost x) xs h

    fold-kept :
        (self : A) (xs : List A)
        → All (λ o. beats o self ≡ false) xs
        → fold (visit self) false xs ≡ false
    fold-kept self [] h = refl
    fold-kept self (x ∷ xs) (h, hs) =
        let stay : visit self false x ≡ false = ground (arith, visits self x false) in
        rw stay (fold-kept self xs hs)

    module _ (lister : Lister A) (live : (n : ℕ) → lister.is_done n ≡ false) (items : List A)
        (pages : Pages lister 512 0 [] items) (few : length items ≤ 65536)
        (total : (a b : A)
          → Any (λ o. o ≡ a) items
          → Any (λ o. o ≡ b) items
          → same a b ≡ false
          → older a b ≡ false
          → older b a ≡ true) where
      Any-rival :
          (a b : A) (xs : List A)
          → Any (λ o. o ≡ b) xs
          → rival a b ≡ true
          → Any (λ o. rival a o ≡ true) xs
      Any-rival a b [] m h = elim m [ ]
      Any-rival a b (x ∷ xs) (inl e) h = inl (rw e h)
      Any-rival a b (x ∷ xs) (inr m) h = inr (Any-rival a b xs m h)

      yields :
          (a b : A)
          → Any (λ o. o ≡ b) items
          → rival a b ≡ true
          → walk_claims lister (visit a) false ≡ finished true
      yields a b m h =
          walk_claims-live lister (visit a) live false items pages few
          ∙ ap finished (fold-beaten a false items (Any-rival a b items m h))

      one_yields :
          (a b : A)
          → Any (λ o. o ≡ a) items
          → Any (λ o. o ≡ b) items
          → shares a b ≡ true
          → same a b ≡ false
          → (walk_claims lister (visit a) false ≡ finished true)
            ⊎ (walk_claims lister (visit b) false ≡ finished true)
      one_yields a b ma mb s ne = elim (Bool-cases (older a b)) [
        | inl q ↦ inr (yields b a ma (ground (arith, t.same_sym a b)))
        | inr q ↦ inl (
            yields a b mb
              (ground (arith, total a b ma mb ne q, t.shares_sym a b s, t.same_sym a b)))
      ]

      -- What becomes of the object b where r keeps the identifier: it has another one, or is r, or yields.
      abbrev pub Settled : A → A → Type 0
      Settled r b =
          (shares r b ≡ false)
          ⊎ (same r b ≡ true)
          ⊎ (walk_claims lister (visit b) false ≡ finished true)

      settles :
          (r b : A)
          → Any (λ o. o ≡ r) items
          → Any (λ o. o ≡ b) items
          → walk_claims lister (visit r) false ≡ finished false
          → Settled r b
      settles r b mr mb keeps = elim (Bool-cases (shares r b)) [
        | inr q ↦ inl q
        | inl q ↦ elim (Bool-cases (same r b)) [
          | inl e ↦ inr (inl e)
          | inr e ↦ elim (one_yields r b mr mb q e) [
            | inl lost ↦ absurd (ground arith)
            | inr lost ↦ inr (inr lost)
          ]
        ]
      ]

      settles_all :
          (r : A)
          → Any (λ o. o ≡ r) items
          → walk_claims lister (visit r) false ≡ finished false
          → (xs : List A) → All (λ b. Any (λ o. o ≡ b) items) xs
          → All (Settled r) xs
      settles_all r mr keeps [] h = tt
      settles_all r mr keeps (x ∷ xs) (h, hs) =
          (settles r x mr h keeps, settles_all r mr keeps xs hs)

      -- Of the listed objects that share an identifier one keeps it, and the others yield.
      pub one_keeps :
          (k : A)
          → shares k k ≡ true
          → Any (λ o. o ≡ k) items
          → (r : A) × (shares r k ≡ true)
            × Any (λ o. o ≡ r) items
            × (walk_claims lister (visit r) false ≡ finished false)
            × All (Settled r) items
      one_keeps k own m =
          let r = oldest k items in
          let mr : Any (λ o. o ≡ r) items = elim (oldest-Any k items) [
            | inl e ↦ rw e m
            | inr m' ↦ m'
          ] in
          let keeps : walk_claims lister (visit r) false ≡ finished false =
            walk_claims-live lister (visit r) live false items pages few
            ∙ ap finished (fold-kept r items (oldest-All k items)) in
          (
            r,
            elim (oldest-beats k items) [ inl e ↦ rw e own | inr b ↦ ground arith ],
            mr,
            keeps,
            settles_all r mr keeps items (All-listed items),
          )
