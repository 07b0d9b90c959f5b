-- ===== src/Claim/Guard.antt =====
-- pkg/registry/sdn/claim/persistent.go: the scan that looks for another claim of a persistent NIC,
-- and the guard that it hands to the etcd transaction. The i-th `kv.Get` is `get i start revision`,
-- an argument; `none` is its error. The context is looked at where the source does: a page and an
-- entry carry the state of `ctx.Err()` at the look before them.
pub mod Sound
pub mod Bound
use cozyplane.Base.{
  ℕ, zero, suc, ◌+◌, ◌-◌, ◌*◌, ◌^◌, Bool, true, false, not, ◌&&◌, ◌||◌, List, [], ◌∷◌, ◌++◌, Option,
  none, some, Bytes, length, ltb, leb, ◌==◌, if◌then◌else◌, str_eq, is_empty, cut_prefix, str_ltb,
}
use cozyplane.Grants.{VpcRef, is_nil, is_none}

-- The fields of a Port that its claim is about.
pub record PortClaim : Type 0 where
  pub name : Bytes
  pub ip : Bytes
  pub pod_namespace : Bytes
  pub vpc_ref : VpcRef
  pub vm_name : Bytes
  pub vm_nic : Bytes

abbrev pub ref_eq : VpcRef → VpcRef → Bool
ref_eq a b = str_eq a.namespace b.namespace && str_eq a.name b.name

-- `IsPersistent`.
unfoldable pub is_persistent : PortClaim → Bool
is_persistent p = not (is_empty p.vm_name)

-- `SamePersistentNIC`.
unfoldable pub same_persistent_nic : PortClaim → PortClaim → Bool
unfolding is_persistent
same_persistent_nic a b =
    is_persistent a
    && is_persistent b
    && str_eq a.pod_namespace b.pod_namespace
    && ref_eq a.vpc_ref b.vpc_ref
    && str_eq a.vm_name b.vm_name
    && str_eq a.vm_nic b.vm_nic

abbrev pub persistent_scan_limit : ℕ
persistent_scan_limit = 65536

abbrev pub persistent_page_size : ℕ
persistent_page_size = 128

abbrev pub persistent_scan_bytes : ℕ
persistent_scan_bytes = 64 * 2 ^ 20

abbrev pub max_int64 : ℕ
max_int64 = 2 ^ 63 - 1

-- An entry of a page. `decoded` is what the transformer and the decoder make of its value; a nil
-- entry has `missing` set.
pub record Entry : Type 0 where
  pub cancelled : Bool
  pub missing : Bool
  pub key : Bytes
  pub value_bytes : ℕ
  pub decoded : Option PortClaim

-- An answer to `kv.Get`; `revision` is 0 where the page or its header is nil or the revision is
-- not positive.
pub record Page : Type 0 where
  pub revision : ℕ
  pub kvs : List Entry
  pub more : Bool

pub data GuardError : Type 0 where
  context_done get_failed incomplete_snapshot page_budget byte_budget scope_budget : GuardError
  not_decoded inconsistent_identity multiple_claims oversized_snapshot no_progress : GuardError
  contention out_of_fuel : GuardError

-- What the scan carries from entry to entry: `match`, `seen` and `bytesRead`.
pub record Scan : Type 0 where
  pub found : Bytes
  pub seen : ℕ
  pub bytes_read : ℕ

pub data Scanned : Type 0 where
  scanned : Scan → Scanned
  refused : GuardError → Scanned

-- The result of `persistentGuard`: the bound on the range's ModRevision, the name of the claim
-- that exists already, or another error.
pub data Guarded : Type 0 where
  modified_below : ℕ → Guarded
  already_exists : Bytes → Guarded
  guard_error : GuardError → Guarded

module _ (root prefix : Bytes) (port : PortClaim) where
  -- The end of the loop over a page's entries, for a decoded claim.
  unfoldable pub match_stored : Scan → Bytes → PortClaim → Scanned
  match_stored s key stored =
      if not (str_eq key (root ++ stored.name))
      then refused inconsistent_identity
      else if same_persistent_nic port stored
      then if is_empty s.found
        then scanned (record s { found = stored.name })
        else refused multiple_claims
      else scanned s

  -- One round of the loop over a page's entries.
  unfoldable pub scan_entry : Bytes → Scan → Entry → Scanned
  unfolding match_stored
  scan_entry start s e =
      let s' = record s { bytes_read = s.bytes_read + e.value_bytes; seen = s.seen + 1 } in
      if e.cancelled
      then refused context_done
      else if e.missing || ltb (persistent_scan_bytes - s.bytes_read) e.value_bytes
      then refused byte_budget
      else if ltb persistent_scan_limit s'.seen
          || is_none (cut_prefix e.key prefix)
          || str_ltb e.key start
      then refused scope_budget
      else elim e.decoded [ none ↦ refused not_decoded | some p ↦ match_stored s' e.key p ]

  unfoldable pub scan_page : Bytes → Scan → List Entry → Scanned
  scan_page start s [] = scanned s
  scan_page start s (e ∷ es) = elim (scan_entry start s e) [
    | refused x ↦ refused x
    | scanned s' ↦ scan_page start s' es
  ]

-- The key of the last entry.
unfoldable pub last_key : List Entry → Bytes
last_key [] = []
last_key (e ∷ []) = e.key
last_key (e ∷ d ∷ es) = last_key (d ∷ es)

-- The statements behind the loop.
unfoldable pub conclude : Bytes → ℕ → Guarded
conclude found revision =
    if not (is_empty found)
    then already_exists found
    else if revision == max_int64
    then guard_error contention
    else modified_below (revision + 1)

-- The tests on an answer before its entries are read.
unfoldable pub page_problem : Page → Option GuardError
page_problem page =
    if page.revision == 0
    then some incomplete_snapshot
    else if ltb persistent_page_size (length page.kvs)
    then some page_budget
    else none

module _ (root prefix range_end : Bytes) (port : PortClaim) (cancelled : ℕ → Bool)
    (get : ℕ → Bytes → ℕ → Option Page) where
  -- The loop over the pages, at its i-th round, with fuel; `revision` is 0 before the first answer.
  unfoldable pub guard_loop : ℕ → ℕ → Bytes → ℕ → Scan → Guarded
  guard_loop zero i start revision s = guard_error out_of_fuel
  guard_loop (suc fuel) i start revision s =
      if cancelled i then guard_error context_done else elim (get i start revision) [
        | none ↦ guard_error get_failed
        | some page ↦ elim (page_problem page) [
          | some x ↦ guard_error x
          | none ↦
              let revision' = if revision == 0 then page.revision else revision in
              elim (scan_page root prefix port start s page.kvs) [
                | refused x ↦ guard_error x
                | scanned s' ↦
                    let next = last_key page.kvs ++ 0 ∷ [] in
                    let rest = guard_loop fuel (i + 1) next revision' s' in
                    if not page.more
                    then conclude s'.found revision'
                    else if is_nil page.kvs || leb persistent_scan_limit s'.seen
                    then guard_error oversized_snapshot
                    else if not (str_ltb start next) || not (str_ltb next range_end)
                    then guard_error no_progress
                    else rest
              ]
        ]
      ]

  -- `persistentGuard`. A round that goes on has read an entry, so the limit on entries bounds the
  -- rounds.
  unfoldable pub persistent_guard : Guarded
  persistent_guard =
      guard_loop (persistent_scan_limit + 1) 0 prefix 0
        (record { found = []; seen = 0; bytes_read = 0 })
