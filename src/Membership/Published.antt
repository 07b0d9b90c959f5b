-- ===== src/Membership/Published.antt =====
-- What an agent reads from the memberships that the controller writes.
use cozyplane.Base.{
  ℕ, ◌≤◌, ◌<◌, ◌≡◌, refl, ◌∙◌, true, false, ◌&&◌, ◌||◌, List, [], ◌∷◌, inl, inr, str_eq_refl, All,
  Bool-cases, arith, ◌==◌, ltb, leb, length, ℤ, to_ℕ,
}
use cozyplane.Grants.{VpcRef}
use cozyplane.SgIdentity.{
  Word, zero_word, Index, find, GroupRef, Port, proven_from, bits_from, bitmap,
}
use cozyplane.Membership.{
  Labels, Group, MemberPort, Status, is_resolved, ids_from, sort_refs, status_of,
}
use cozyplane.Membership.Selected.{chosen, picks, wanted}
use cozyplane.Membership.Distinct.{has_id, Apart}
use cozyplane.Membership.Pigeonhole.{length-Apart}
use cozyplane.Membership.Bits.{
  Current, proven_from-has_id, bits_from-ids_from, length-ids_from, has_id-sort_refs, All-sort_refs,
  Apart-sort_refs,
}

-- The Port as an agent reads it with that status.
abbrev pub as_port : MemberPort → Status → Port
as_port port s = record {
  vpc = port.vpc;
  group_pod_uid = s.group_pod_uid;
  pod_uid = port.pod_uid;
  groups = s.groups;
  group_refs = s.group_refs;
}

Unseen-zero : (refs : List GroupRef) → All (λ r. zero_word (to_ℕ r.id) ≡ false) refs
Unseen-zero [] = tt
Unseen-zero (r ∷ refs) = (refl, Unseen-zero refs)

Current-UpTo :
    (index : Index) (v : VpcRef) (refs : List GroupRef)
    → All (Current index v) refs
    → All (λ r. (1 ≤ to_ℕ r.id) × (to_ℕ r.id ≤ 62)) refs
Current-UpTo index v [] h = tt
Current-UpTo index v (r ∷ refs) ((i, c), h) =
    ((ground arith, ground arith), Current-UpTo index v refs h)

no_ids :
    (proven : Word) (ids : List ℤ) (n : ℕ)
    → length ids ≡ 0
    → zero_word n ≡ bits_from proven zero_word ids n
unfolding bits_from
no_ids proven [] n h = refl
no_ids proven (id ∷ ids) n h = absurd (omega arith)

-- An agent reads back the word whose memberships are proved.
pub bitmap-status_of :
    (agent : Index) (port : MemberPort) (word : Word) (refs : List GroupRef)
    → All (Current agent port.vpc) refs
    → Apart refs
    → ((m : ℕ) → 1 ≤ m → word m ≡ true → has_id m refs ≡ true)
    → (n : ℕ) → bitmap agent (as_port port (status_of port word refs)) n ≡ (word n && ltb n 63)
unfolding bitmap status_of
bitmap-status_of agent port word refs c a p n =
    let sorted = sort_refs refs in
    let c' = All-sort_refs (Current agent port.vpc) refs c in
    let a' = Apart-sort_refs refs a in
    let few : length sorted ≤ 62 =
      length-Apart 62 sorted a' (Current-UpTo agent port.vpc sorted c') in
    let ids = ids_from 63 0 word in
    let some_ids = length-ids_from 63 0 word in
    let proven = proven_from agent port.vpc zero_word zero_word sorted in
    let proves : (m : ℕ) → 1 ≤ m → word m ≡ true → proven m ≡ true = λ m l h.
      proven_from-has_id agent port.vpc m zero_word zero_word sorted c' a' (Unseen-zero sorted)
      ∙ (has_id-sort_refs m refs ∙ p m l h) in
    let run : bits_from proven zero_word ids n ≡ (word n && ltb n 63) =
      bits_from-ids_from proven zero_word word n 63 0 proves (omega arith) ∙ ground arith in
    rw (str_eq_refl port.pod_uid) (elim (Bool-cases (length ids == 0)) [
      | inl q ↦ rw q (no_ids proven ids n (ground arith) ∙ run)
      | inr q ↦
          let fits : (ltb 63 (length ids) || leb 63 (length sorted)) ≡ false = ground arith in
          rw (q, fits) run
    ])

pub picks-Current :
    (index agent : Index) (v : VpcRef) (labels : Labels) (groups : List Group)
    → ((id : ℤ) → find agent v id ≡ find index v id)
    → All (Current agent v) (picks index v labels groups)
unfolding picks
picks-Current index agent v labels [] same = tt
picks-Current index agent v labels (g ∷ groups) same =
    let rest = picks-Current index agent v labels groups same in
    elim (Bool-cases (chosen v labels g && is_resolved index v g.identity)) [
      | inr q ↦ rw q rest
      | inl q ↦ rw q ((ground arith, ground (arith, same g.identity.id)), rest)
    ]

pub has_id-wanted :
    (index : Index) (v : VpcRef) (labels : Labels) (groups : List Group) (n : ℕ)
    → 1 ≤ n
    → wanted index v labels groups n ≡ true
    → has_id n (picks index v labels groups) ≡ true
unfolding picks wanted
has_id-wanted index v labels [] n l h = absurd (ground arith)
has_id-wanted index v labels (g ∷ groups) n l h =
    ground (arith, has_id-wanted index v labels groups n l)

pub wanted-small :
    (index : Index) (v : VpcRef) (labels : Labels) (groups : List Group) (n : ℕ)
    → wanted index v labels groups n ≡ true
    → n < 63
unfolding wanted
wanted-small index v labels [] n h = absurd (ground arith)
wanted-small index v labels (g ∷ groups) n h = elim (Bool-cases (wanted index v labels groups n)) [
  | inl q ↦ wanted-small index v labels groups n q
  | inr q ↦ ground arith
]
