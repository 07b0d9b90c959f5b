-- ===== src/VniAllocator/Decisions.antt =====
-- What an attempt may decide.
use cozyplane.Base.{
  ◌≡◌, refl, ap, ◌∙◌, Bool, true, ◌||◌, some, inl, inr, ◌⊎◌, Bool-cases, Option-cases, arith, ℤ,
  pos, ◌≤ℤ◌, leb_ℤ, ltb_ℤ, ◌+ℤ◌,
}
use cozyplane.Base.Api.{Read, found, not_found, read_error}
use cozyplane.NetId.{last_vni, valid_vni}
use cozyplane.Claim.Decimal.{parse_int}
use cozyplane.VniAllocator.{
  Lease, Claims, VniError, being_deleted, invalid_counter, exhausted, list_failed,
  initial_vni_high_water, Decision, create_counter, update_counter, refuse, decide,
  decide_bootstrap, decide_counter,
}
use cozyplane.Ipam.Walk.{Walked-cases}
use cozyplane.VniAllocator.Fresh.{decide-Covered}

-- A decision on a counter that was read.
pub decide_counter-cases :
    (l : Lease)
    → ((e : VniError) × (decide_counter l ≡ refuse e))
      ⊎ ((h : ℤ) × (parse_int l.annotation ≡ some h)
          × (pos 99 ≤ℤ h)
          × (ltb_ℤ h last_vni ≡ true)
          × (decide_counter l ≡ update_counter l (h +ℤ pos 1)))
unfolding decide_counter
decide_counter-cases l = elim (Bool-cases l.is_deleting) [
  | inl q ↦ inl (being_deleted, ground arith)
  | inr q ↦ elim (Option-cases (parse_int l.annotation)) [
    | inl e ↦ inl (invalid_counter, ground arith)
    | inr (h, e) ↦ elim (Bool-cases (ltb_ℤ h (pos 99) || ltb_ℤ last_vni h)) [
      | inl f ↦ inl (invalid_counter, ground arith)
      | inr f ↦ elim (Bool-cases (leb_ℤ last_vni h)) [
        | inl g ↦ inl (exhausted, ground arith)
        | inr g ↦ inr (h, e, ground arith, ground arith, ground arith)
      ]
    ]
  ]
]

-- A decision on a counter that was not found.
pub decide_bootstrap-cases :
    (claims : Claims)
    → ((e : VniError) × (decide not_found claims ≡ refuse e))
      ⊎ ((v : ℤ) × (decide not_found claims ≡ create_counter v))
unfolding decide decide_bootstrap
decide_bootstrap-cases claims = elim (Walked-cases (initial_vni_high_water claims)) [
  | inr (e, f) ↦ inl (list_failed e, ground arith)
  | inl (h, f) ↦ elim (Bool-cases (leb_ℤ last_vni h)) [
    | inl g ↦ inl (exhausted, ground arith)
    | inr g ↦ inr (h +ℤ pos 1, ground arith)
  ]
]

-- What a decision asks to write, if anything, is a valid VNI.
abbrev pub asks_valid : Decision → Bool
asks_valid (create_counter v) = valid_vni v
asks_valid (update_counter l v) = valid_vni v
asks_valid (refuse e) = true

suc-valid :
    (high : ℤ) → pos 99 ≤ℤ high → ltb_ℤ high last_vni ≡ true → valid_vni (high +ℤ pos 1) ≡ true
unfolding valid_vni
suc-valid high l h = ground arith

bounded-valid :
    (high v : ℤ) → v ≡ high +ℤ pos 1 → pos 99 ≤ℤ high → v ≤ℤ last_vni → valid_vni v ≡ true
unfolding valid_vni
bounded-valid high v e l h = ground arith

pub decide-valid : (r : Read Lease) (claims : Claims) → asks_valid (decide r claims) ≡ true
unfolding decide
decide-valid read_error claims = refl
decide-valid not_found claims = elim (decide_bootstrap-cases claims) [
  | inl (e, q) ↦ ap asks_valid q
  | inr (v, q) ↦
      let (high, same, low, top, cover) = decide-Covered claims v q in
      ap asks_valid q ∙ bounded-valid high v same low top
]
decide-valid (found l) claims = elim (decide_counter-cases l) [
  | inl (e, q) ↦ ap asks_valid q
  | inr (h, t, low, b, q) ↦ ap asks_valid q ∙ suc-valid h low b
]
