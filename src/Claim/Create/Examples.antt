-- ===== src/Claim/Create/Examples.antt =====
-- The theorems about creates at a store with one persistent Port, to which a second is added.
use cozyplane.Base.{
  ℕ, ◌+◌, ◌≡◌, ◌≢◌, ◌⊎◌, refl, sym, ap, inl, inr, true, false, [], ◌∷◌, ◌++◌, Option, none, some,
  Bytes, codes, pos, All, Any, arith, cut_prefix, str_eq, is_empty, str_ltb, cut,
}
use cozyplane.Claim.Store.{port, Row, Store, delete, absent, unmodified, put, commit, succeeded}
use cozyplane.Claim.Guard.{
  PortClaim, Page, is_persistent, guard_error, out_of_fuel, same_persistent_nic, persistent_guard,
  persistent_scan_limit, guard_loop, page_problem, scan_page, scan_entry, match_stored, conclude,
  last_key,
}
use cozyplane.Claim.Guard.Bound.{persistent_guard-ends}
use cozyplane.Claim.Guard.Sound.{IsOther, entries_read, persistent_guard_sound}
use cozyplane.Claim.Create.{
  Attempt, guard_of, root_of, scan_prefix, returned, Request, create, twin_name, create_loop,
  vni_of,
}
use cozyplane.Claim.Create.Commit.{Commits, create-Commits}
use cozyplane.Claim.Create.Unique.{Step, Reach, IsRegistered, address_unique}
use cozyplane.Claim.Create.Nic.{Write, Since, Holds, ReadsSnapshot, persistent_nic_unique}
use cozyplane.Claim.Update.{persistent_update_ok, update_ok, update}
use cozyplane.NetId.{valid_vni}
use cozyplane.Claim.Decimal.{parse_int, format_int}
use cozyplane.Claim.Name.{
  parse_claim, split_claim, check_vni, escape_ip, port_name, service_vip_name,
}
use cozyplane.Claim.Validate.{Kind, ports, vips, other, IsNamed, name_pinned}

abbrev no_v6 : Bytes → Option Bytes
no_v6 s = none

abbrev root : Kind → Bytes
root ports = codes "/ports/"
root vips = codes "/servicevips/"

abbrev nic : Bytes → Bytes → Bytes → PortClaim
nic name ip vm = record {
  name = name;
  ip = ip;
  pod_namespace = codes "a";
  vpc_ref = record { namespace = codes "a"; name = codes "net" };
  vm_name = vm;
  vm_nic = codes "nic0";
}

abbrev old_port : PortClaim
old_port = nic (codes "v100.10-0-0-2") (codes "10.0.0.2") (codes "vm1")

abbrev new_port : PortClaim
new_port = nic (codes "v100.10-0-0-3") (codes "10.0.0.3") (codes "vm2")

abbrev old_key : Bytes
old_key = codes "/ports/v100.10-0-0-2"

abbrev new_key : Bytes
new_key = codes "/ports/v100.10-0-0-3"

abbrev twin_key : Bytes
twin_key = codes "/servicevips/sv100.10-0-0-3"

abbrev old_row : Row
old_row = record { key = old_key; object = port old_port; mod_revision = 7 }

abbrev before : Store
before = record { revision = 9; rows = old_row ∷ [] }

abbrev page : Page
page = record {
  revision = 9;
  kvs =
      record {
        cancelled = false;
        missing = false;
        key = old_key;
        value_bytes = 500;
        decoded = some old_port;
      }
      ∷ [];
  more = false;
}

abbrev get : ℕ → Bytes → ℕ → Option Page
get i start revision = some page

abbrev range_end : Bytes → Bytes
range_end s = codes "/ports/v100/"

abbrev attempt : Attempt
attempt = record {
  is_done = false;
  scan_done = λ i. false;
  get = get;
  commit_fails = false;
  store = before;
}

abbrev request : Request
request = record {
  object = port new_port;
  ttl = 0;
  prepared = some new_key;
  twin_key = λ name. some (codes "/servicevips/" ++ name);
  resource_version = some 0;
  is_prepared = true;
  is_encoded = true;
}

-- The definitions that a run of `Create` goes through.
abbrev all_of : ℕ
unfolding create create_loop guard_of persistent_guard guard_loop page_problem scan_page scan_entry
    match_stored same_persistent_nic conclude last_key scan_prefix vni_of root_of commit absent
    unmodified put twin_name parse_claim split_claim check_vni valid_vni parse_int format_int cut
    cut_prefix is_empty str_eq str_ltb name_pinned escape_ip service_vip_name port_name entries_read
    persistent_update_ok update_ok update delete is_persistent
all_of = 0

after_create :
    create no_v6 range_end request (attempt ∷ []) ≡ returned (put new_key (port new_port) before)
unfolding all_of
after_create = refl

persistent_guard-ends_example :
    persistent_guard
      (codes "/ports/")
      (codes "/ports/v100.")
      (range_end [])
      new_port
      (λ i. false)
      get
    ≢ guard_error out_of_fuel
persistent_guard-ends_example =
    persistent_guard-ends (codes "/ports/") (codes "/ports/v100.") (range_end []) new_port
      (λ i. false) get

persistent_guard_sound_example :
    (p : Page) × (get 0 (codes "/ports/v100.") 0 ≡ some p)
    × (10 ≡ p.revision + 1)
    × All
        (IsOther (codes "/ports/") (codes "/ports/v100.") new_port)
        (entries_read get (persistent_scan_limit + 1) 0 (codes "/ports/v100.") 0)
unfolding all_of
persistent_guard_sound_example =
    persistent_guard_sound (codes "/ports/") (codes "/ports/v100.") (range_end []) new_port
      (λ i. false) get refl 10 refl

-- The store after another client's delete of a key that is not there.
abbrev settled : Store
settled = record { revision = 10; rows = old_row ∷ [] }

abbrev late_attempt : Attempt
late_attempt = record attempt { store = settled }

commits :
    Commits range_end new_key twin_key
      (port new_port)
      (attempt ∷ late_attempt ∷ [])
      (put new_key (port new_port) settled)
unfolding all_of
commits = record {
  attempt = late_attempt;
  made = inr (inl refl);
  guard = some (codes "/ports/v100.", 10);
  guarded = refl;
  key_absent = refl;
  twin_absent = refl;
  guard_true = refl;
  written = refl;
}

since : Since before settled
unfolding all_of
since = Since.later Since.here (Write.deleted twin_key)

create-Commits_example :
    (k : Bytes) × (t : Bytes) × (name : Bytes) × (request.prepared ≡ some k)
    × (twin_name no_v6 request.object ≡ returned name)
    × (request.twin_key name ≡ some t)
    × (request.ttl ≡ 0)
    × Commits range_end k t request.object (attempt ∷ []) (put new_key (port new_port) before)
create-Commits_example =
    create-Commits no_v6 range_end request (attempt ∷ []) (put new_key (port new_port) before)
      after_create

reads : ReadsSnapshot (codes "/ports/v100.") get before
unfolding all_of
reads = record {
  at_snapshot = λ p e. ap (λ t. page_revision t) (sym e);
  covers = λ r p held o i. covers r p held o;
}
  where
    page_revision : Option Page → ℕ
    page_revision none = 0
    page_revision (some p) = p.revision

    covers :
        (r : Row) (p : PortClaim)
        → Holds r before.rows
        → r.object ≡ port p
        → Any
            (λ e. e.decoded ≡ some p)
            (entries_read get (persistent_scan_limit + 1) 0 (codes "/ports/v100.") 0)
    covers r p (inl e) o = inl (ground arith)
    covers r p (inr e) o = elim e [ ]

persistent_nic_unique_example : same_persistent_nic new_port old_port ≡ false
unfolding all_of commits
persistent_nic_unique_example =
    persistent_nic_unique range_end new_key twin_key new_port (attempt ∷ late_attempt ∷ [])
      (put new_key (port new_port) settled) before refl commits since reads refl old_row old_port
      (inl refl) refl refl

-- The kinds' directories differ in their second byte.
apart : (x y : Bytes) → root ports ++ x ≢ root vips ++ y
apart x y e = ground arith

abbrev blank : Store
blank = record { revision = 9; rows = [] }

abbrev first_attempt : Attempt
first_attempt = record {
  is_done = false;
  scan_done = λ i. false;
  get = λ i start revision. some (record { revision = 9; kvs = []; more = false });
  commit_fails = false;
  store = blank;
}

first_committed :
    commit new_key twin_key (some (codes "/ports/v100.", 10)) (port new_port) blank
    ≡ succeeded (put new_key (port new_port) blank)
unfolding all_of
first_committed = refl

registered : IsRegistered no_v6 range_end root request
unfolding all_of
registered = record { pinned = refl; keyed = keyed; twin_keyed = twin_keyed }
  where
    keyed :
        (k : Kind) (name : Bytes)
        → IsNamed k name (port new_port)
        → some new_key ≡ some (root k ++ name)
    keyed ports name e = ap (λ t. some (root ports ++ t)) e
    keyed vips name e = elim e [ ]

    twin_keyed :
        (k : Kind) (name n : Bytes)
        → IsNamed k name (port new_port)
        → some (codes "/servicevips/" ++ n) ≡ some (root (other k) ++ n)
    twin_keyed ports name n e = refl
    twin_keyed vips name n e = elim e [ ]

abbrev new_row : ℕ → Row
new_row revision = record { key = new_key; object = port new_port; mod_revision = revision }

-- A create, and an update of the new row that leaves the fields that are pinned.
reached : Reach no_v6 range_end root (record { revision = 11; rows = new_row 11 ∷ [] })
unfolding all_of
reached =
    Reach.next
      (Reach.next (Reach.empty 9) (
        Step.created request new_key twin_key (codes "sv100.10-0-0-3")
          (put new_key (port new_port) blank) registered refl refl refl
          (some (codes "/ports/v100.", 10)) first_committed))
      (Step.updated new_key (port new_port) (new_row 11 ∷ []) refl)

address_unique_example :
    (absent (root ports ++ port_name no_v6 (pos 100) (codes "10.0.0.3")) (new_row 11 ∷ []) ≡ true)
    ⊎ (absent (root vips ++ service_vip_name no_v6 (pos 100) (codes "10.0.0.3")) (new_row 11 ∷ [])
        ≡ true)
address_unique_example =
    address_unique no_v6 range_end root apart (record { revision = 11; rows = new_row 11 ∷ [] })
      (pos 100) (codes "10.0.0.3") reached
