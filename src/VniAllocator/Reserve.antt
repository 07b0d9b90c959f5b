-- ===== src/VniAllocator/Reserve.antt =====
-- What an allocation's answer means.
use cozyplane.Base.{
  ℕ, ◌≡◌, refl, ap, sym, ◌∙◌, ◌++◌, ◌∷◌, Bool, true, false, List, [], ◌⊎◌, inl, inr, Any, All,
  Bool-cases, arith, take, ℤ,
}
use cozyplane.Base.Api.{Written, wrote, conflict, already_exists, write_error}
use cozyplane.NetId.{valid_vni}
use cozyplane.VniAllocator.Decisions.{asks_valid, decide-valid}
use cozyplane.VniAllocator.{
  Lease, VniError, context_done, list_failed, read_failed, exhausted, being_deleted,
  invalid_counter, refused_write, unconfirmed, no_attempt, Decision, create_counter, update_counter,
  refuse, decide, Attempt, Reservation, reserved, failed, confirm, run_decision, run_attempt,
  is_retried, attempts_from, allocate_vni,
}

-- The attempt was made in time, asked the API server to write v, and the server wrote it.
abbrev pub Confirmed : ℤ → Attempt → Type 0
Confirmed v a =
    (a.is_done ≡ false)
    × (a.answer ≡ wrote)
    × ((decide a.counter a.claims ≡ create_counter v)
        ⊎ ((l : Lease) × (decide a.counter a.claims ≡ update_counter l v)))

-- The attempt lost to another writer.
abbrev pub Outrun : Attempt → Type 0
Outrun a =
    (run_attempt a ≡ failed (refused_write conflict))
    ⊎ (run_attempt a ≡ failed (refused_write already_exists))

confirm-reserved : (w : Written) (u v : ℤ) → confirm w u ≡ reserved v → (w ≡ wrote) × (u ≡ v)
confirm-reserved wrote u v h = (refl, ground arith)
confirm-reserved conflict u v h = absurd (ground arith)
confirm-reserved already_exists u v h = absurd (ground arith)
confirm-reserved write_error u v h = absurd (ground arith)

run_decision-reserved :
    (d : Decision) (w : Written) (v : ℤ)
    → run_decision d w ≡ reserved v
    → (w ≡ wrote) × ((d ≡ create_counter v) ⊎ ((l : Lease) × (d ≡ update_counter l v)))
unfolding run_decision
run_decision-reserved (create_counter u) w v h =
    let (e, f) = confirm-reserved w u v h in (e, inl (ap create_counter f))
run_decision-reserved (update_counter l u) w v h =
    let (e, f) = confirm-reserved w u v h in (e, inr (l, ap (update_counter l) f))
run_decision-reserved (refuse x) w v h = absurd (ground arith)

run_attempt-reserved : (a : Attempt) (v : ℤ) → run_attempt a ≡ reserved v → Confirmed v a
unfolding run_attempt
run_attempt-reserved a v h = elim (Bool-cases a.is_done) [
  | inl q ↦ absurd (ground arith)
  | inr q ↦
      let (e, f) = run_decision-reserved (decide a.counter a.claims) a.answer v (ground arith) in
      (q, e, f)
]

Reservation-cases :
    (r : Reservation) → ((v : ℤ) × (r ≡ reserved v)) ⊎ ((e : VniError) × (r ≡ failed e))
Reservation-cases (reserved v) = inl (v, refl)
Reservation-cases (failed e) = inr (e, refl)

attempts_from-reserved :
    (e : VniError) (attempts : List Attempt) (v : ℤ)
    → attempts_from e attempts ≡ reserved v
    → Any (Confirmed v) attempts
unfolding attempts_from
attempts_from-reserved e [] v h = absurd (ground arith)
attempts_from-reserved e (a ∷ rest) v h = elim (Reservation-cases (run_attempt a)) [
  | inl (u, q) ↦ inl (run_attempt-reserved a v (ground arith))
  | inr (e', q) ↦ elim (Bool-cases (is_retried e')) [
    | inl r ↦ inr (attempts_from-reserved e' rest v (ground arith))
    | inr r ↦ absurd (ground arith)
  ]
]

-- A reservation answers with a valid VNI, which the API server confirmed that it wrote for one of the
-- attempts, of which there are at most `steps`.
pub allocate_vni-Confirmed :
    (steps : ℕ) (is_done : Bool) (attempts : List Attempt) (v : ℤ)
    → allocate_vni steps is_done attempts ≡ reserved v
    → (valid_vni v ≡ true) × Any (Confirmed v) (take steps attempts)
unfolding allocate_vni
allocate_vni-Confirmed steps is_done attempts v h =
    elim (Reservation-cases (attempts_from no_attempt (take steps attempts))) [
      | inr (e, q) ↦ absurd (ground arith)
      | inl (u, q) ↦
          let same : u ≡ v = ground arith in
          (ground arith, attempts_from-reserved no_attempt (take steps attempts) v (ground arith))
    ]

-- A confirmed VNI is valid.
Confirmed-valid : (v : ℤ) (a : Attempt) → Confirmed v a → valid_vni v ≡ true
Confirmed-valid v a (d, w, inl q) = sym (ap asks_valid q) ∙ decide-valid a.counter a.claims
Confirmed-valid v a (d, w, inr (l, q)) = sym (ap asks_valid q) ∙ decide-valid a.counter a.claims

Any-Confirmed-valid :
    (v : ℤ) (attempts : List Attempt) → Any (Confirmed v) attempts → valid_vni v ≡ true
Any-Confirmed-valid v [] h = elim h [ ]
Any-Confirmed-valid v (a ∷ rest) (inl h) = Confirmed-valid v a h
Any-Confirmed-valid v (a ∷ rest) (inr h) = Any-Confirmed-valid v rest h

is_retried-cases :
    (a : Attempt) (e : VniError) → run_attempt a ≡ failed e → is_retried e ≡ true → Outrun a
is_retried-cases a (refused_write conflict) h r = inl h
is_retried-cases a (refused_write already_exists) h r = inr h
is_retried-cases a (refused_write wrote) h r = absurd (ground arith)
is_retried-cases a (refused_write write_error) h r = absurd (ground arith)
is_retried-cases a context_done h r = absurd (ground arith)
is_retried-cases a read_failed h r = absurd (ground arith)
is_retried-cases a exhausted h r = absurd (ground arith)
is_retried-cases a being_deleted h r = absurd (ground arith)
is_retried-cases a invalid_counter h r = absurd (ground arith)
is_retried-cases a unconfirmed h r = absurd (ground arith)
is_retried-cases a no_attempt h r = absurd (ground arith)
is_retried-cases a (list_failed w) h r = absurd (ground arith)

-- The first attempts lost to other writers, and the next one failed with this error, which none lost to.
abbrev pub Stopped : VniError → List Attempt → Type 0
Stopped e attempts =
    (before : List Attempt) × (a : Attempt) × (after : List Attempt) × (attempts
      ≡ before ++ (a ∷ after))
    × All Outrun before
    × (run_attempt a ≡ failed e)
    × (is_retried e ≡ false)

attempts_from-failed :
    (last : VniError) (attempts : List Attempt) (e : VniError)
    → attempts_from last attempts ≡ failed e
    → All Outrun attempts ⊎ Stopped e attempts
unfolding attempts_from
attempts_from-failed last [] e h = inl tt
attempts_from-failed last (a ∷ rest) e h = elim (Reservation-cases (run_attempt a)) [
  | inl (u, q) ↦ absurd (ground arith)
  | inr (e', q) ↦ elim (Bool-cases (is_retried e')) [
    | inr r ↦
        let same : e' ≡ e = ground arith in
        inr ([], a, rest, refl, tt, q ∙ ap failed same, ap is_retried (sym same) ∙ r)
    | inl r ↦ elim (attempts_from-failed e' rest e (ground arith)) [
      | inl all ↦ inl (is_retried-cases a e' q r, all)
      | inr (before, b, after, split, all, f, n) ↦
          inr (a ∷ before, b, after, ap (λ x. a ∷ x) split, (is_retried-cases a e' q r, all), f, n)
    ]
  ]
]

-- An allocation that fails in a live context either lost each of its at most `steps` attempts to
-- another writer, or lost some of them and stopped at the next one, with the error of that one.
pub allocate_vni-failed :
    (steps : ℕ) (attempts : List Attempt) (e : VniError)
    → allocate_vni steps false attempts ≡ failed e
    → All Outrun (take steps attempts) ⊎ Stopped e (take steps attempts)
unfolding allocate_vni
allocate_vni-failed steps attempts e h =
    elim (Reservation-cases (attempts_from no_attempt (take steps attempts))) [
      | inr (e', q) ↦ attempts_from-failed no_attempt (take steps attempts) e (ground arith)
      | inl (u, q) ↦
          let valid =
            Any-Confirmed-valid u (take steps attempts)
              (attempts_from-reserved no_attempt (take steps attempts) u q) in
          absurd (ground arith)
    ]
