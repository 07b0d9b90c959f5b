-- ===== src/Claim/Create/Nic.antt =====
-- A persistent NIC is not claimed twice in one VNI: the scan reads a snapshot, and the guard refuses
-- the transaction if anything in its range was written since.
use cozyplane.Base.{
  ℕ, ◌+◌, ◌≤◌, ◌<◌, ◌≡◌, refl, sym, ◌∙◌, Bool, true, false, List, [], ◌∷◌, Option, none, some,
  Bytes, cut_prefix, inl, inr, arith, ◌⊎◌, All, Any, if◌then◌else◌, str_eq,
}
use mathlib.Core.Path.{subst}
use cozyplane.Grants.{is_none}
use cozyplane.Claim.Store.{
  ClaimObject, port, Row, Store, Guard, guard_holds, unmodified, put, delete, replace,
}
use cozyplane.Claim.Guard.{
  PortClaim, Page, Guarded, modified_below, already_exists, guard_error, is_persistent,
  same_persistent_nic, persistent_guard, persistent_scan_limit, GuardError,
}
use cozyplane.Claim.Guard.Sound.{entries_read, persistent_guard_sound}
use cozyplane.Claim.Create.{Attempt, guard_of, root_of, scan_prefix, returned}
use cozyplane.Claim.Create.Commit.{Commits}
use cozyplane.Claim.Create.Unique.Rows.{All-delete, All-replace, All-map₂}

abbrev pub Holds : Row → List Row → Type 0
Holds r rows = Any (λ x. x ≡ r) rows

-- A row that was not written since the snapshot is a row of the snapshot.
abbrev Kept : Store → List Row → Type 0
Kept s₀ rows = All (λ r. r.mod_revision ≤ s₀.revision → Holds r s₀.rows) rows

All-Holds :
    (rows all : List Row) → ((r : Row) → Holds r rows → Holds r all) → All (λ r. Holds r all) rows
All-Holds [] all f = tt
All-Holds (r ∷ rows) all f = (f r (inl refl), All-Holds rows all (λ x h. f x (inr h)))

-- What holds of every element holds of a given one.
All-Any : {A : Type 0} {P Q : A → Type 0} (xs : List A) → All P xs → Any Q xs → (x : A) × P x × Q x
All-Any [] p q = elim q [ ]
All-Any (x ∷ xs) (p, ps) (inl q) = (x, p, q)
All-Any (x ∷ xs) (p, ps) (inr q) = All-Any xs ps q

-- What etcd documents of a paged read at one revision, for the Ports of the scanned range: the
-- first answer names the snapshot's revision, and the pages together hold every such row.
pub record ReadsSnapshot (prefix : Bytes) (get : ℕ → Bytes → ℕ → Option Page) (s₀ : Store)
    : Type 0 where
  pub at_snapshot : (page : Page) → get 0 prefix 0 ≡ some page → page.revision ≡ s₀.revision
  pub covers :
      (r : Row) (p : PortClaim)
      → Holds r s₀.rows
      → r.object ≡ port p
      → is_none (cut_prefix r.key prefix) ≡ false
      → Any (λ e. e.decoded ≡ some p) (entries_read get (persistent_scan_limit + 1) 0 prefix 0)

Guarded-cases :
    (g : Guarded)
    → ((bound : ℕ) × (g ≡ modified_below bound))
      ⊎ (((name : Bytes) × (g ≡ already_exists name)) ⊎ ((e : GuardError) × (g ≡ guard_error e)))
Guarded-cases (modified_below bound) = inl (bound, refl)
Guarded-cases (already_exists name) = inr (inl (name, refl))
Guarded-cases (guard_error e) = inr (inr (e, refl))

guard_of-bound :
    (range_end : Bytes → Bytes) (key : Bytes) (p : PortClaim) (a : Attempt) (g : Guard)
    → is_persistent p ≡ true
    → guard_of range_end key (port p) a ≡ returned g
    → (bound : ℕ) × (g ≡ some (scan_prefix key p, bound))
      × (persistent_guard
            (root_of key)
            (scan_prefix key p)
            (range_end (scan_prefix key p))
            p
            a.scan_done
            a.get
          ≡ modified_below bound)
unfolding guard_of
guard_of-bound range_end key p a g n h =
    elim (Guarded-cases (
      persistent_guard (root_of key) (scan_prefix key p) (range_end (scan_prefix key p)) p
        a.scan_done a.get)) [
          | inl (bound, e) ↦ (bound, ground arith, e)
          | inr refused ↦ absurd (ground arith)
        ]

unmodified-lt :
    (prefix : Bytes) (bound : ℕ) (rows : List Row) (r : Row)
    → unmodified prefix bound rows ≡ true
    → Holds r rows
    → is_none (cut_prefix r.key prefix) ≡ false
    → r.mod_revision < bound
unfolding unmodified
unmodified-lt prefix bound [] r h m i = elim m [ ]
unmodified-lt prefix bound (x ∷ rows) r h (inl e) i =
    subst (λ t. is_none (cut_prefix t.key prefix) ≡ false → t.mod_revision < bound) e
      (λ j. ground arith) i
unmodified-lt prefix bound (x ∷ rows) r h (inr m) i =
    unmodified-lt prefix bound rows r (ground arith) m i

some_port : {p q : PortClaim} → some p ≡ some q → p ≡ q
some_port e = cc

All-Holds_at : (P : Row → Type 0) (rows : List Row) → All P rows → (r : Row) → Holds r rows → P r
All-Holds_at P [] h r m = elim m [ ]
All-Holds_at P (x ∷ rows) (p, ps) r (inl e) = subst P e p
All-Holds_at P (x ∷ rows) (p, ps) r (inr m) = All-Holds_at P rows ps r m

-- A write of another client, whatever it writes: a new row of any key, a delete, or an update of a key
-- with any object, which may change the identity of a NIC. Every write takes the next revision.
pub data Write (s : Store) : Store → Type 0 where
  added : (key : Bytes) (o : ClaimObject) → Write s (put key o s)
  deleted : (key : Bytes) → Write s (record { revision = s.revision + 1; rows = delete key s.rows })
  overwritten :
      (key : Bytes) (o : ClaimObject)
      → Write s (record { revision = s.revision + 1; rows = replace key o (s.revision + 1) s.rows })

-- What happens from the snapshot on.
pub data Since (s₀ : Store) : Store → Type 0 where
  here : Since s₀ s₀
  later : {s t : Store} → Since s₀ s → Write s t → Since s₀ t

Write-revision : {s t : Store} → Write s t → t.revision ≡ s.revision + 1
Write-revision (added key o) = unfold put in refl
Write-revision (deleted key) = refl
Write-revision (overwritten key o) = refl

Since-le : {s₀ s : Store} → Since s₀ s → s₀.revision ≤ s.revision
Since-le here = omega arith
Since-le (later h st) = omega (arith, Since-le h, Write-revision st)

-- A write leaves what it does not touch.
Write-Kept :
    (s₀ : Store) {s t : Store}
    → s₀.revision ≤ s.revision
    → Write s t
    → Kept s₀ s.rows
    → Kept s₀ t.rows
Write-Kept s₀ le (added key o) k = unfold put in ((λ n. absurd (omega arith)), k)
Write-Kept s₀ le (deleted key) k = All-delete _ key _ k
Write-Kept s₀ {s = s} le (overwritten key o) k =
    All-replace _ key o _ _ (All-map₂ (λ r h _. write_kept r h (str_eq r.key key)) _ k k)
  where
    write_kept :
        (r : Row)
        → (r.mod_revision ≤ s₀.revision → Holds r s₀.rows)
        → (b : Bool)
        → (if b
            then record { key = r.key; object = o; mod_revision = s.revision + 1 }
            else r).mod_revision
          ≤ s₀.revision
        → Holds
            (if b then record { key = r.key; object = o; mod_revision = s.revision + 1 } else r)
            s₀.rows
    write_kept r h true n = absurd (omega arith)
    write_kept r h false n = h n

Since-Kept : {s₀ s : Store} → Since s₀ s → Kept s₀ s.rows
Since-Kept {s₀} here =
    All-map₂ (λ r h _ n. h) s₀.rows (All-Holds s₀.rows s₀.rows (λ r h. h))
      (All-Holds s₀.rows s₀.rows (λ r h. h))
Since-Kept (later h st) = Write-Kept _ (Since-le h) st (Since-Kept h)

module _ (range_end : Bytes → Bytes) where
  -- When a persistent Port is written, no Port of its VNI is stored for the same NIC: the store that
  -- its transaction meets has no row in the scanned range that is a Port of the same NIC. That store is
  -- reached from the snapshot of the attempt's scan by any adds, deletes and overwrites, those that
  -- change the identity of a NIC included. The directory does not start with the scan's prefix, and
  -- the scan's answers are those of a paged read of the snapshot.
  pub persistent_nic_unique :
      (key twin : Bytes) (p : PortClaim) (attempts : List Attempt) (s' s₀ : Store)
      → is_persistent p ≡ true
      → (c : Commits range_end key twin (port p) attempts s') → Since s₀ c.attempt.store
      → ReadsSnapshot (scan_prefix key p) c.attempt.get s₀
      → cut_prefix (root_of key) (scan_prefix key p) ≡ none
      → (r : Row) (q : PortClaim) → Holds r c.attempt.store.rows
      → r.object ≡ port q
      → is_none (cut_prefix r.key (scan_prefix key p)) ≡ false
      → same_persistent_nic p q ≡ false
  persistent_nic_unique key twin p attempts s' s₀ n c since reads below r q m o i =
      let prefix = scan_prefix key p in
      let (bound, g, e) = guard_of-bound range_end key p c.attempt c.guard n c.guarded in
      let (page, first, b, others) =
        persistent_guard_sound (root_of key) prefix (range_end prefix) p c.attempt.scan_done
          c.attempt.get below bound e in
      let clean : unmodified prefix bound c.attempt.store.rows ≡ true =
        subst (λ h. guard_holds h c.attempt.store.rows ≡ true) g c.guard_true in
      let old = unmodified-lt prefix bound c.attempt.store.rows r clean m i in
      let at = reads.at_snapshot page first in
      let in_snapshot = All-Holds_at _ c.attempt.store.rows (Since-Kept since) r m (omega arith) in
      let (entry, other, decoded) = All-Any _ others (reads.covers r q in_snapshot o i) in
      subst (λ t. same_persistent_nic p t ≡ false) (some_port (sym other.1 ∙ decoded)) other.3
