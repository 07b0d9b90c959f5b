-- ===== src/Membership/Bits.antt =====
-- The word that an agent reads from references with different identifiers.
use cozyplane.Base.{
  ℕ, zero, suc, ◌+◌, ◌≤◌, ◌≡◌, refl, ◌∙◌, true, false, ◌&&◌, ◌||◌, List, [], ◌∷◌, inl, inr, All,
  Bool-cases, arith, ◌==◌, ltb, leb, length, ℤ, pos, to_ℕ, ltb_ℤ,
}
use cozyplane.Grants.{VpcRef}
use cozyplane.SgIdentity.{
  Word, set_bit, in_range, Index, GroupRef, is_current, proven_from, bits_from,
}
use cozyplane.Membership.{ids_from, insert_ref, sort_refs}
use cozyplane.Membership.Distinct.{has_id, Apart}

-- A reference with an identifier's group in the index.
abbrev pub Current : Index → VpcRef → GroupRef → Type 0
Current index v r = (in_range r.id ≡ true) × (is_current index v r ≡ true)

-- The loop has not seen the identifiers.
abbrev Unseen : Word → List GroupRef → Type 0
Unseen seen refs = All (λ r. seen (to_ℕ r.id) ≡ false) refs

Unseen-set_bit :
    (seen : Word) (n : ℕ) (refs : List GroupRef)
    → Unseen seen refs
    → has_id n refs ≡ false
    → Unseen (set_bit n seen) refs
Unseen-set_bit seen n [] u h = tt
Unseen-set_bit seen n (r ∷ refs) (e, u) h =
    (ground arith, Unseen-set_bit seen n refs u (ground arith))

pub proven_from-has_id :
    (index : Index) (v : VpcRef) (n : ℕ) (proven seen : Word) (refs : List GroupRef)
    → All (Current index v) refs
    → Apart refs
    → Unseen seen refs
    → proven_from index v proven seen refs n ≡ (proven n || has_id n refs)
unfolding proven_from
proven_from-has_id index v n proven seen [] c a u = ground arith
proven_from-has_id index v n proven seen (r ∷ refs) ((i, k), c) (h, a) (e, u) =
    let ih =
      proven_from-has_id index v n (set_bit (to_ℕ r.id) proven) (set_bit (to_ℕ r.id) seen) refs c a
        (Unseen-set_bit seen (to_ℕ r.id) refs u h) in
    rw (i, e, k) (ih ∙ ground arith)

bits_from-proven :
    (proven acc : Word) (n : ℕ) (id : ℤ) (ids : List ℤ)
    → in_range id ≡ true
    → proven (to_ℕ id) ≡ true
    → bits_from proven acc (id ∷ ids) n ≡ bits_from proven (set_bit (to_ℕ id) acc) ids n
unfolding bits_from
bits_from-proven proven acc n id ids r p = rw (p, r) refl

-- The bits of the identifiers from k on, which are proved, and bit zero.
pub bits_from-ids_from :
    (proven acc w : Word) (n left k : ℕ)
    → ((m : ℕ) → 1 ≤ m → w m ≡ true → proven m ≡ true)
    → k + left ≤ 63
    → bits_from proven acc (ids_from left k w) n ≡ (acc n || w n && leb k n && ltb n (k + left))
unfolding bits_from ids_from
bits_from-ids_from proven acc w n zero k p l = ground arith
bits_from-ids_from proven acc w n (suc left) zero p l = elim (Bool-cases (w 0)) [
  | inr q ↦ rw q (bits_from-ids_from proven acc w n left 1 p (omega arith) ∙ ground arith)
  | inl q ↦
      rw q (bits_from-ids_from proven (set_bit 0 acc) w n left 1 p (omega arith) ∙ ground arith)
]
bits_from-ids_from proven acc w n (suc left) (suc k) p l = elim (Bool-cases (w (suc k))) [
  | inr q ↦ rw q (bits_from-ids_from proven acc w n left (suc k + 1) p (omega arith) ∙ ground arith)
  | inl q ↦
      let own = p (suc k) (omega arith) q in
      let range : in_range (pos (suc k)) ≡ true = ground arith in
      let step =
        bits_from-proven proven acc n (pos (suc k)) (ids_from left (suc k + 1) w) range own in
      rw q (
        step
        ∙ (bits_from-ids_from proven (set_bit (suc k) acc) w n left (suc k + 1) p (omega arith)
            ∙ ground arith))
]

pub length-ids_from : (left k : ℕ) (w : Word) → length (ids_from left k w) ≤ left
unfolding ids_from
length-ids_from zero k w = omega arith
length-ids_from (suc left) k w = elim (Bool-cases (w k)) [
  | inl q ↦ rw q (omega (arith, length-ids_from left (k + 1) w))
  | inr q ↦ rw q (omega (arith, length-ids_from left (k + 1) w))
]

-- Sorting keeps what the references are.
has_id-insert_ref :
    (n : ℕ) (r : GroupRef) (refs : List GroupRef)
    → has_id n (insert_ref r refs) ≡ (n == to_ℕ r.id || has_id n refs)
unfolding insert_ref
has_id-insert_ref n r [] = refl
has_id-insert_ref n r (s ∷ refs) = elim (Bool-cases (ltb_ℤ s.id r.id)) [
  | inl q ↦ rw q (ground (arith, has_id-insert_ref n r refs))
  | inr q ↦ rw q refl
]

All-insert_ref :
    (P : GroupRef → Type 0) (r : GroupRef) (refs : List GroupRef)
    → P r
    → All P refs
    → All P (insert_ref r refs)
unfolding insert_ref
All-insert_ref P r [] p h = (p, tt)
All-insert_ref P r (s ∷ refs) p (h, hs) = elim (Bool-cases (ltb_ℤ s.id r.id)) [
  | inl q ↦ rw q (h, All-insert_ref P r refs p hs)
  | inr q ↦ rw q (p, (h, hs))
]

Apart-insert_ref :
    (r : GroupRef) (refs : List GroupRef)
    → has_id (to_ℕ r.id) refs ≡ false
    → Apart refs
    → Apart (insert_ref r refs)
unfolding insert_ref
Apart-insert_ref r [] h a = (refl, tt)
Apart-insert_ref r (s ∷ refs) h (k, a) = elim (Bool-cases (ltb_ℤ s.id r.id)) [
  | inl q ↦ rw q (
    has_id-insert_ref (to_ℕ s.id) r refs ∙ ground arith,
    Apart-insert_ref r refs (ground arith) a,
  )
  | inr q ↦ rw q (h, (k, a))
]

pub has_id-sort_refs : (n : ℕ) (refs : List GroupRef) → has_id n (sort_refs refs) ≡ has_id n refs
unfolding sort_refs
has_id-sort_refs n [] = refl
has_id-sort_refs n (r ∷ refs) =
    has_id-insert_ref n r (sort_refs refs) ∙ ground (arith, has_id-sort_refs n refs)

pub All-sort_refs :
    (P : GroupRef → Type 0) (refs : List GroupRef) → All P refs → All P (sort_refs refs)
unfolding sort_refs
All-sort_refs P [] h = tt
All-sort_refs P (r ∷ refs) (p, h) = All-insert_ref P r (sort_refs refs) p (All-sort_refs P refs h)

pub Apart-sort_refs : (refs : List GroupRef) → Apart refs → Apart (sort_refs refs)
unfolding sort_refs
Apart-sort_refs [] a = tt
Apart-sort_refs (r ∷ refs) (h, a) =
    Apart-insert_ref r (sort_refs refs) (has_id-sort_refs (to_ℕ r.id) refs ∙ h)
      (Apart-sort_refs refs a)
