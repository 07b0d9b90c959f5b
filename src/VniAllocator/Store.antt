-- ===== src/VniAllocator/Store.antt =====
-- The counter as the API server keeps it, and the writes of any number of allocators, each on a read
-- that may be old.
use cozyplane.Base.{
  ℕ, ◌+◌, ◌≡◌, false, List, [], ◌∷◌, Option, none, some, ◌==◌, if◌then◌else◌, ℤ, Any,
}
use cozyplane.Base.Api.{
  Read, found, not_found, read_error, Written, wrote, conflict, already_exists, write_error,
}
use cozyplane.Claim.Decimal.{format_int}
use cozyplane.VniAllocator.{Lease, Claims, Decision, create_counter, update_counter, refuse, decide}

-- The counter, every version of it that was ever stored, and every VNI that was written to it, the
-- latest first.
pub record World : Type 0 where
  pub counter : Option Lease
  pub past : List Lease
  pub written : List ℤ

abbrev pub store : ℤ → ℕ → World → World
store v version w =
    let l : Lease = record { annotation = format_int v; is_deleting = false; version = version } in
    record { counter = some l; past = l ∷ w.past; written = v ∷ w.written }

-- Optimistic concurrency: a create of what exists and an update of another version are refused.
unfoldable pub write : Decision → World → Written × World
write (create_counter v) w = elim w.counter [
  | none ↦ (wrote, store v 1 w)
  | some c ↦ (already_exists, w)
]
write (update_counter l v) w = elim w.counter [
  | none ↦ (write_error, w)
  | some c ↦ if c.version == l.version then (wrote, store v (c.version + 1) w) else (conflict, w)
]
write (refuse e) w = (write_error, w)

-- A read answers with a version that was stored at some time, or with none, or fails.
abbrev pub Seen : World → Read Lease → Type 0
Seen w (found l) = Any (λ p. p ≡ l) w.past
Seen w not_found = Unit
Seen w read_error = Unit

pub data Reach : World → Type 0 where
  start : Reach (record { counter = none; past = []; written = [] })
  next :
      {w : World}
      → Reach w
      → (r : Read Lease) (claims : Claims) → Seen w r
      → Reach (write (decide r claims) w).1
