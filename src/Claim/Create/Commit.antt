-- ===== src/Claim/Create/Commit.antt =====
-- A create that succeeds is one transaction on the store that it met.
use cozyplane.Base.{
  ◌≡◌, refl, Bool, true, List, [], ◌∷◌, Option, some, Bytes, take, inl, inr, Option-cases, arith,
  ◌⊎◌, Any,
}
use cozyplane.Claim.Store.{
  ClaimObject, Store, Guard, guard_holds, commit, Committed, succeeded, failed, absent, put,
}
use cozyplane.Claim.Create.{
  Outcome, returned, stopped, Request, Attempt, twin_name, guard_of, create_loop, create,
  CreateError, persistent_create_attempts,
}

Committed-cases :
    (c : Committed) → ((s : Store) × (c ≡ succeeded s)) ⊎ ((b : Bool) × (c ≡ failed b))
Committed-cases (succeeded s) = inl (s, refl)
Committed-cases (failed b) = inr (b, refl)

pub Outcome-cases {ℓ} :
    {A : Type ℓ} (r : Outcome A)
    → ((a : A) × (r ≡ returned a)) ⊎ ((e : CreateError) × (r ≡ stopped e))
Outcome-cases (returned a) = inl (a, refl)
Outcome-cases (stopped e) = inr (e, refl)

pub commit_lem :
    (k t : Bytes) (g : Guard) (object : ClaimObject) (s s' : Store)
    → commit k t g object s ≡ succeeded s'
    → (absent k s.rows ≡ true)
      × (absent t s.rows ≡ true)
      × (guard_holds g s.rows ≡ true)
      × (s' ≡ put k object s)
unfolding commit
commit_lem k t g object s s' h = ground arith

module _ (range_end : Bytes → Bytes) where
  -- The one of the attempts that succeeded, with the keys and the guard of its transaction.
  pub record Commits (k t : Bytes) (object : ClaimObject) (attempts : List Attempt) (s : Store)
      : Type 0 where
    pub attempt : Attempt
    pub made : Any (λ a. a ≡ attempt) attempts
    pub guard : Guard
    pub guarded : guard_of range_end k object attempt ≡ returned guard
    pub key_absent : absent k attempt.store.rows ≡ true
    pub twin_absent : absent t attempt.store.rows ≡ true
    pub guard_true : guard_holds guard attempt.store.rows ≡ true
    pub written : s ≡ put k object attempt.store

  later :
      {k t : Bytes} {object : ClaimObject} {attempts : List Attempt} {s : Store} (a : Attempt)
      → Commits k t object attempts s
      → Commits k t object (a ∷ attempts) s
  later a c = record {
    attempt = c.attempt;
    made = inr c.made;
    guard = c.guard;
    guarded = c.guarded;
    key_absent = c.key_absent;
    twin_absent = c.twin_absent;
    guard_true = c.guard_true;
    written = c.written;
  }

  create_loop-Commits :
      (k t : Bytes) (object : ClaimObject) (attempts : List Attempt) (s : Store)
      → create_loop range_end k t object attempts ≡ returned s
      → Commits k t object attempts s
  unfolding create_loop
  create_loop-Commits k t object [] s h = absurd (ground arith)
  create_loop-Commits k t object (a ∷ rest) s h =
      elim (Outcome-cases (guard_of range_end k object a)) [
        | inr (e, p) ↦ absurd (ground arith)
        | inl (g, p) ↦ elim (Committed-cases (commit k t g object a.store)) [
          | inl (s', q) ↦
              let (x, y, z, w) = commit_lem k t g object a.store s' q in
              record {
                attempt = a;
                made = inl refl;
                guard = g;
                guarded = p;
                key_absent = x;
                twin_absent = y;
                guard_true = z;
                written = ground arith;
              }
          | inr (b, q) ↦ later a (create_loop-Commits k t object rest s (ground arith))
        ]
      ]

module _ (addr16 : Bytes → Option Bytes) (range_end : Bytes → Bytes) where
  -- A create that succeeds has written its object under the key that the request was given, in one
  -- transaction on the store of one of its first eight attempts: that store had neither this key nor
  -- the key of the claim of the other kind on the same address, and it met the guard that the scan of
  -- this same attempt gave.
  pub create-Commits :
      (q : Request) (attempts : List Attempt) (s : Store)
      → create addr16 range_end q attempts ≡ returned s
      → (k : Bytes) × (t : Bytes) × (name : Bytes) × (q.prepared ≡ some k)
        × (twin_name addr16 q.object ≡ returned name)
        × (q.twin_key name ≡ some t)
        × (q.ttl ≡ 0)
        × Commits range_end k t q.object (take persistent_create_attempts attempts) s
  unfolding create
  create-Commits q attempts s h = elim (Outcome-cases (twin_name addr16 q.object)) [
    | inr (e, p) ↦ absurd (ground arith)
    | inl (name, p) ↦ elim (Option-cases q.prepared) [
      | inl e ↦ absurd (ground arith)
      | inr (k, e) ↦ elim (Option-cases (q.twin_key name)) [
        | inl f ↦ absurd (ground arith)
        | inr (t, f) ↦ (
          k,
          t,
          name,
          e,
          p,
          f,
          ground arith,
          create_loop-Commits range_end k t q.object (take 8 attempts) s (ground arith),
        )
      ]
    ]
  ]
