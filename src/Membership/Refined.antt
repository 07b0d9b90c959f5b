-- ===== src/Membership/Refined.antt =====
-- From the groups and labels that the controller reads to the word that an agent enforces.
use cozyplane.Base.{
  ℕ, ◌≤◌, ◌≡◌, refl, sym, ap, ◌∙◌, Bool, true, false, List, [], Option, none, some, ◌⊎◌, inl, inr,
  All, Bool-cases, Option-cases, arith, ◌==◌, if◌then◌else◌, ℤ,
}
use mathlib.Core.Path.{subst}
use cozyplane.Base.Api.{found, Written, wrote, conflict, already_exists, write_error}
use cozyplane.VpnLimits.{Library}
use cozyplane.SgIdentity.{Word, zero_word, set_bit, Index, find, GroupRef, bitmap}
use cozyplane.Membership.{
  Labels, Group, MemberPort, Status, InputError, membership_input_work, pod_labels_for, index_from,
  is_keyed, Selection, interrupted, invalid, selection, select_from, status_of, same_status, Inputs,
  updated, update_status, guarded_selection, publish, reconcile_port, reconcile,
}
use cozyplane.Membership.Selected.{wanted, has_invalid, select_from-selection, select_from-invalid}
use cozyplane.Membership.Distinct.{has_id, Apart, picks-Apart}
use cozyplane.Membership.Bits.{Current}
use cozyplane.Membership.Published.{
  as_port, bitmap-status_of, picks-Current, has_id-wanted, wanted-small,
}

-- The input is refused, or a group's selector is invalid.
abbrev pub in_error : Inputs → MemberPort → List Group → Bool
in_error inputs port groups = elim (membership_input_work inputs.is_done_input groups) [
  | some e ↦ true
  | none ↦ has_invalid port.vpc groups
]

-- The word that the Port's memberships mean: bit zero alone on an error, and else the bits of the groups
-- that the labels choose.
abbrev pub meant : Library → Inputs → MemberPort → List Group → Word
meant lib inputs port groups n =
    let index = index_from lib port.vpc [] groups in
    let labels = pod_labels_for inputs.decode inputs.pod port in
    if in_error inputs port groups then n == 0 else wanted index port.vpc labels groups n

update_status-updated : (w : Written) (s t : Status) → update_status w s ≡ updated t → s ≡ t
unfolding update_status
update_status-updated wrote s t h = ground arith
update_status-updated conflict s t h = absurd (ground arith)
update_status-updated already_exists s t h = absurd (ground arith)
update_status-updated write_error s t h = absurd (ground arith)

publish-updated :
    (inputs : Inputs) (port : MemberPort) (r : Option (Word × List GroupRef)) (status : Status)
    → publish inputs port r ≡ updated status
    → (word : Word) × (refs : List GroupRef) × (r ≡ some (word, refs))
      × (status ≡ status_of port word refs)
unfolding publish
publish-updated inputs port none status h = absurd (ground arith)
publish-updated inputs port (some (word, refs)) status h =
    elim (Bool-cases (same_status port.status (status_of port word refs))) [
      | inl q ↦ absurd (ground arith)
      | inr q ↦ (
        word,
        refs,
        refl,
        sym (update_status-updated inputs.answer (status_of port word refs) status (ground arith)),
      )
    ]

reconcile-updated :
    (lib : Library) (inputs : Inputs) (port : MemberPort) (groups : List Group) (status : Status)
    → inputs.port ≡ found port
    → inputs.groups ≡ some groups
    → is_keyed lib port.vpc ≡ true
    → reconcile lib inputs ≡ updated status
    → (word : Word) × (refs : List GroupRef) × (guarded_selection lib inputs port groups
          (membership_input_work inputs.is_done_input groups)
        ≡ some (word, refs))
      × (status ≡ status_of port word refs)
unfolding reconcile reconcile_port
reconcile-updated lib inputs port groups status p g k h =
    publish-updated inputs port
      (guarded_selection lib inputs port groups (membership_input_work inputs.is_done_input groups))
      status (ground arith)

-- Selected words mean what they should, and their references prove them.
guard_published :
    (agent : Index) (port : MemberPort) (n : ℕ)
    → bitmap agent (as_port port (status_of port (set_bit 0 zero_word) [])) n ≡ (n == 0)
guard_published agent port n =
    bitmap-status_of agent port (set_bit 0 zero_word) [] tt tt (λ m l h. absurd (ground arith)) n
    ∙ ground arith

Selection-cases :
    (s : Selection)
    → (s ≡ interrupted) ⊎ (s ≡ invalid) ⊎ ((w : Word) × (r : List GroupRef) × (s ≡ selection w r))
Selection-cases interrupted = inl refl
Selection-cases invalid = inr (inl refl)
Selection-cases (selection w r) = inr (inr (w, r, refl))

-- A bit that an agent reads from what the controller selected.
abbrev read_bit : Index → MemberPort → ℕ → Option (Word × List GroupRef) → Bool
read_bit agent port n none = false
read_bit agent port n (some (word, refs)) = bitmap agent (as_port port (status_of port word refs)) n

module _ (lib : Library) (inputs : Inputs) (port : MemberPort) (groups : List Group) (agent : Index)
    (k : is_keyed lib port.vpc ≡ true)
    (local : All (λ g. g.identity.namespace ≡ port.vpc.namespace) groups)
    (agrees : (id : ℤ)
      → find agent port.vpc id ≡ find (index_from lib port.vpc [] groups) port.vpc id) where
  abbrev index : Index
  index = index_from lib port.vpc [] groups

  abbrev labels : Labels
  labels = pod_labels_for inputs.decode inputs.pod port

  -- What the loop selects is read back.
  selection_bit :
      (w : Word) (r : List GroupRef) (n : ℕ)
      → select_from inputs.is_done_select index port.vpc labels 0 zero_word [] groups
        ≡ selection w r
      → (has_invalid port.vpc groups ≡ false)
        × (read_bit agent port n (some (w, r)) ≡ wanted index port.vpc labels groups n)
  selection_bit w r n h =
      let lem = λ (m : ℕ).
        select_from-selection inputs.is_done_select index port.vpc labels m 0 zero_word w [] r
          groups h in
      let (bit, is_picks, fine) = lem n in
      let current : All (Current agent port.vpc) r =
        subst (All (Current agent port.vpc)) (sym is_picks)
          (picks-Current index agent port.vpc labels groups agrees) in
      let apart : Apart r =
        subst Apart (sym is_picks) (picks-Apart lib port.vpc k index [] labels groups local refl) in
      let proves : (m : ℕ) → 1 ≤ m → w m ≡ true → has_id m r ≡ true = λ m l e.
        ap (has_id m) is_picks
        ∙ has_id-wanted index port.vpc labels groups m l (sym (lem m).0 ∙ e) in
      (
        fine,
        bitmap-status_of agent port w r current apart proves n
            ∙ ground (arith, wanted-small index port.vpc labels groups n),
      )

  abbrev select : Selection
  select = select_from inputs.is_done_select index port.vpc labels 0 zero_word [] groups

  guarded-interrupted : select ≡ interrupted → guarded_selection lib inputs port groups none ≡ none
  unfolding guarded_selection
  guarded-interrupted h = rw (h, guarded_selection) refl

  guarded-invalid :
      select ≡ invalid
      → guarded_selection lib inputs port groups none ≡ some (set_bit 0 zero_word, [])
  unfolding guarded_selection
  guarded-invalid h = rw (h, guarded_selection) refl

  guarded-selection :
      (w : Word) (r : List GroupRef)
      → select ≡ selection w r
      → guarded_selection lib inputs port groups none ≡ some (w, r)
  unfolding guarded_selection
  guarded-selection w r h = rw (h, guarded_selection) refl

  meant_invalid :
      (n : ℕ)
      → membership_input_work inputs.is_done_input groups ≡ none
      → has_invalid port.vpc groups ≡ true
      → meant lib inputs port groups n ≡ (n == 0)
  meant_invalid n q bad = ground arith

  meant_refused :
      (e : InputError) (n : ℕ)
      → membership_input_work inputs.is_done_input groups ≡ some e
      → meant lib inputs port groups n ≡ (n == 0)
  meant_refused e n q = ground arith

  meant-wanted :
      (n : ℕ)
      → membership_input_work inputs.is_done_input groups ≡ none
      → has_invalid port.vpc groups ≡ false
      → meant lib inputs port groups n ≡ wanted index port.vpc labels groups n
  meant-wanted n q fine = ground arith

  guarded_bit :
      (n : ℕ) (made : Word × List GroupRef)
      → guarded_selection lib inputs port groups (membership_input_work inputs.is_done_input groups)
        ≡ some made
      → read_bit agent port n (
          guarded_selection lib inputs port groups
            (membership_input_work inputs.is_done_input groups))
        ≡ meant lib inputs port groups n
  unfolding guarded_selection
  guarded_bit n made h = elim (Option-cases (membership_input_work inputs.is_done_input groups)) [
    | inr (e, q) ↦
        ap (λ o. read_bit agent port n (guarded_selection lib inputs port groups o)) q
        ∙ (guard_published agent port n ∙ sym (meant_refused e n q))
    | inl q ↦ elim (Selection-cases select) [
      | inl e ↦ absurd (ground (arith, guarded-interrupted e))
      | inr (inl e) ↦
          let bad =
            select_from-invalid inputs.is_done_select index port.vpc labels 0 zero_word [] groups
              e in
          rw q (ap (read_bit agent port n) (guarded-invalid e))
          ∙ (guard_published agent port n ∙ sym (meant_invalid n q bad))
      | inr (inr (w, r, e)) ↦
          let (fine, bit) = selection_bit w r n e in
          rw q (ap (read_bit agent port n) (guarded-selection w r e))
          ∙ (bit ∙ sym (meant-wanted n q fine))
    ]
  ]

  -- If a status is written for a Port with a valid reference to its VPC, each agent whose index agrees
  -- with the listed groups on that VPC reads from it the word that is meant. The listed groups are of the
  -- VPC's namespace, as the cache's index by VPC has them.
  pub reconcile-bitmap :
      (status : Status)
      → inputs.port ≡ found port
      → inputs.groups ≡ some groups
      → reconcile lib inputs ≡ updated status
      → (n : ℕ) → bitmap agent (as_port port status) n ≡ meant lib inputs port groups n
  reconcile-bitmap status p g h n =
      let (word, refs, made, is_status) = reconcile-updated lib inputs port groups status p g k h in
      ap (λ s. bitmap agent (as_port port s) n) is_status
      ∙ (sym (ap (read_bit agent port n) made) ∙ guarded_bit n (word, refs) made)
