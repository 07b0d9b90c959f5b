-- ===== src/Membership/Pigeonhole.antt =====
-- At most so many references have different identifiers within a bound.
use cozyplane.Base.{
  ℕ, zero, suc, ◌+◌, ◌≤◌, ◌≡◌, refl, false, List, [], ◌∷◌, inl, inr, All, Bool-cases, arith, ◌==◌,
  if◌then◌else◌, length, to_ℕ,
}
use cozyplane.SgIdentity.{GroupRef}
use cozyplane.Membership.Distinct.{has_id, Apart}

-- The references with another identifier.
unfoldable without : ℕ → List GroupRef → List GroupRef
without m [] = []
without m (r ∷ refs) = if m == to_ℕ r.id then without m refs else r ∷ without m refs

abbrev UpTo : ℕ → List GroupRef → Type 0
UpTo m refs = All (λ r. (1 ≤ to_ℕ r.id) × (to_ℕ r.id ≤ m)) refs

without-has_id :
    (m n : ℕ) (refs : List GroupRef) → has_id n refs ≡ false → has_id n (without m refs) ≡ false
unfolding without
without-has_id m n [] h = refl
without-has_id m n (r ∷ refs) h = elim (Bool-cases (m == to_ℕ r.id)) [
  | inl q ↦ rw q (without-has_id m n refs (ground arith))
  | inr q ↦ rw q (ground (arith, without-has_id m n refs))
]

without-Apart : (m : ℕ) (refs : List GroupRef) → Apart refs → Apart (without m refs)
unfolding without
without-Apart m [] a = tt
without-Apart m (r ∷ refs) (h, a) = elim (Bool-cases (m == to_ℕ r.id)) [
  | inl q ↦ rw q (without-Apart m refs a)
  | inr q ↦ rw q (without-has_id m (to_ℕ r.id) refs h, without-Apart m refs a)
]

without-UpTo : (m : ℕ) (refs : List GroupRef) → UpTo (suc m) refs → UpTo m (without (suc m) refs)
unfolding without
without-UpTo m [] u = tt
without-UpTo m (r ∷ refs) ((l, h), u) = elim (Bool-cases (suc m == to_ℕ r.id)) [
  | inl q ↦ rw q (without-UpTo m refs u)
  | inr q ↦ rw q ((l, ground arith), without-UpTo m refs u)
]

without_none :
    (m : ℕ) (refs : List GroupRef) → has_id m refs ≡ false → length (without m refs) ≡ length refs
unfolding without
without_none m [] h = refl
without_none m (r ∷ refs) h = elim (Bool-cases (m == to_ℕ r.id)) [
  | inl q ↦ absurd (ground arith)
  | inr q ↦ rw q (ground (arith, without_none m refs))
]

length-without :
    (m : ℕ) (refs : List GroupRef) → Apart refs → length refs ≤ length (without m refs) + 1
unfolding without
length-without m [] a = omega arith
length-without m (r ∷ refs) (h, a) = elim (Bool-cases (m == to_ℕ r.id)) [
  | inl q ↦ rw q (ground (arith, without_none m refs))
  | inr q ↦ rw q (ground (arith, length-without m refs a))
]

pub length-Apart : (m : ℕ) (refs : List GroupRef) → Apart refs → UpTo m refs → length refs ≤ m
length-Apart zero [] a u = omega arith
length-Apart zero (r ∷ refs) a ((l, h), u) = absurd (omega arith)
length-Apart (suc m) refs a u =
    let fewer =
      length-Apart m (without (suc m) refs) (without-Apart (suc m) refs a)
        (without-UpTo m refs u) in
    omega (arith, length-without (suc m) refs a)
