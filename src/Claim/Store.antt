-- ===== src/Claim/Store.antt =====
-- The part of etcd that a claim is written to: the rows of both kinds with the revision of their
-- last write, the transaction of `atomicStorage.Create`, and the writes of other clients.
use cozyplane.Base.{
  ℕ, ◌+◌, Bool, true, not, ◌&&◌, List, [], ◌∷◌, Option, none, some, Bytes, str_eq, ltb, cut_prefix,
  if◌then◌else◌,
}
use cozyplane.Grants.{is_none}
use cozyplane.Claim.Guard.{PortClaim}

-- The objects that `Create` switches on.
pub data ClaimObject : Type 0 where
  port : PortClaim → ClaimObject
  service_vip : Bytes → Bytes → ClaimObject
  unsupported : ClaimObject

pub record Row : Type 0 where
  pub key : Bytes
  pub object : ClaimObject
  pub mod_revision : ℕ

pub record Store : Type 0 where
  pub revision : ℕ
  pub rows : List Row

-- `Version(key) = 0`: the key does not exist.
unfoldable pub absent : Bytes → List Row → Bool
absent key [] = true
absent key (r ∷ rows) = not (str_eq r.key key) && absent key rows

-- `ModRevision(prefix) < bound` over the range of the prefix.
unfoldable pub unmodified : Bytes → ℕ → List Row → Bool
unmodified prefix bound [] = true
unmodified prefix bound (r ∷ rows) =
    (if is_none (cut_prefix r.key prefix) then true else ltb r.mod_revision bound)
    && unmodified prefix bound rows

-- `OpPut` of a key that does not exist.
unfoldable pub put : Bytes → ClaimObject → Store → Store
put key object s = record {
  revision = s.revision + 1;
  rows = record { key = key; object = object; mod_revision = s.revision + 1 } ∷ s.rows;
}

-- The rows without those of a key.
unfoldable pub delete : Bytes → List Row → List Row
delete key [] = []
delete key (r ∷ rows) = if str_eq r.key key then delete key rows else r ∷ delete key rows

-- The rows with a new object, written at a revision, under a key.
unfoldable pub replace : Bytes → ClaimObject → ℕ → List Row → List Row
replace key object revision [] = []
replace key object revision (r ∷ rows) =
    (if str_eq r.key key
      then record { key = r.key; object = object; mod_revision = revision }
      else r)
    ∷ replace key object revision rows

-- The guard of a transaction: the range's prefix and the bound.
abbrev pub Guard : Type 0
Guard = Option (Bytes × ℕ)

abbrev pub guard_holds : Guard → List Row → Bool
guard_holds none rows = true
guard_holds (some (prefix, bound)) rows = unmodified prefix bound rows

pub data Committed : Type 0 where
  succeeded : Store → Committed
  failed : Bool → Committed

-- The transaction: put if both keys are absent and the guard holds; else it tells whether either
-- key exists.
unfoldable pub commit : Bytes → Bytes → Guard → ClaimObject → Store → Committed
commit prepared twin guard object s =
    if absent prepared s.rows && absent twin s.rows && guard_holds guard s.rows
    then succeeded (put prepared object s)
    else failed (not (absent prepared s.rows && absent twin s.rows))
