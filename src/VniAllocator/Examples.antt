-- ===== src/VniAllocator/Examples.antt =====
-- The theorems about the allocation of VNIs at two allocators and two VPCs.
use cozyplane.Base.{
  Lacks, ℕ, ◌≡◌, refl, true, false, List, [], ◌∷◌, ◌⊎◌, inl, none, some, All, Any, is_empty, arith,
  take, ℤ, pos, ◌≤ℤ◌, ◌+ℤ◌,
}
use cozyplane.Base.Api.{found, not_found, wrote, conflict}
use cozyplane.NetId.{valid_vni, last_vni}
use cozyplane.Claim.Decimal.{
  format_int, parse_int, digits, scan, parse_uint, parse_unsigned, is_digit,
}
use cozyplane.Ipam.{Lister, finished, visit_items, walk_pages, walk_claims}
use cozyplane.Ipam.Walk.{Pages, last}
use cozyplane.VniAllocator.{
  Lease, Claims, visit_vpc, visit_claim, initial_vni_high_water, create_counter, update_counter,
  decide, decide_bootstrap, decide_counter, Attempt, reserved, failed, exhausted, run_decision,
  run_attempt, attempts_from, allocate_vni, Vpc, same_vni, lost_vni_to_duplicate,
}
use cozyplane.VniAllocator.Store.{World, write, Reach, start, next}
use cozyplane.VniAllocator.Fresh.{Covered, decide-Covered}
use cozyplane.VniAllocator.Unique.{Falling, written-Falling}
use cozyplane.VniAllocator.Reserve.{
  Confirmed, Outrun, Stopped, allocate_vni-Confirmed, allocate_vni-failed,
}
use cozyplane.VniAllocator.Duplicates.{SettledVni, vni_one_keeps}

abbrev one_page : {A : Type 0} → List A → Lister A
one_page xs = record { is_done = λ n. false; list = λ page token. some (xs, []) }

abbrev one_vpc : Claims
one_vpc = record { vpcs = one_page (pos 120 ∷ []); ports = one_page []; service_vips = one_page [] }

decide-one_vpc : decide not_found one_vpc ≡ create_counter (pos 121)
unfolding decide decide_bootstrap initial_vni_high_water visit_vpc visit_claim valid_vni walk_claims
    walk_pages visit_items is_empty
decide-one_vpc = refl

decide-Covered_example :
    (high : ℤ) × (pos 121 ≡ high +ℤ pos 1)
    × (pos 99 ≤ℤ high)
    × (pos 121 ≤ℤ last_vni)
    × Covered one_vpc high
decide-Covered_example = decide-Covered one_vpc (pos 121) decide-one_vpc

abbrev first_counter : Lease
first_counter = record { annotation = format_int (pos 121); is_deleting = false; version = 1 }

abbrev one_written : World
one_written =
    (write (create_counter (pos 121)) (record { counter = none; past = []; written = [] })).1

decide-first_counter : decide (found first_counter) one_vpc ≡ update_counter first_counter (pos 122)
unfolding decide decide_counter format_int parse_int digits scan parse_uint parse_unsigned is_digit
decide-first_counter = refl

abbrev second_counter : Lease
second_counter = record { annotation = format_int (pos 122); is_deleting = false; version = 2 }

abbrev two_written : World
two_written = record {
  counter = some second_counter;
  past = second_counter ∷ first_counter ∷ [];
  written = pos 122 ∷ pos 121 ∷ [];
}

two_written-Reach : Reach two_written
unfolding write decide decide_bootstrap initial_vni_high_water visit_vpc visit_claim valid_vni
    walk_claims walk_pages visit_items is_empty decide_counter format_int parse_int digits scan
    parse_uint parse_unsigned is_digit
two_written-Reach = next (next start not_found one_vpc tt) (found first_counter) one_vpc (inl refl)

written-Falling_example : Falling (pos 122 ∷ pos 121 ∷ [])
written-Falling_example = written-Falling two_written-Reach

-- An attempt that creates the counter, and one that loses to another allocator.
abbrev create_attempt : Attempt
create_attempt = record { is_done = false; counter = not_found; claims = one_vpc; answer = wrote }

abbrev slow_attempt : Attempt
slow_attempt = record {
  is_done = false;
  counter = found first_counter;
  claims = one_vpc;
  answer = conflict;
}

allocate_one_vpc : allocate_vni 5 false (slow_attempt ∷ create_attempt ∷ []) ≡ reserved (pos 121)
unfolding allocate_vni attempts_from run_attempt run_decision decide decide_bootstrap
    initial_vni_high_water visit_vpc visit_claim valid_vni walk_claims walk_pages visit_items
    is_empty decide_counter format_int parse_int digits scan parse_uint parse_unsigned is_digit
allocate_one_vpc = refl

allocate_vni-Confirmed_example :
    (valid_vni (pos 121) ≡ true)
    × Any (Confirmed (pos 121)) (take 5 (slow_attempt ∷ create_attempt ∷ []))
allocate_vni-Confirmed_example =
    allocate_vni-Confirmed 5 false (slow_attempt ∷ create_attempt ∷ []) (pos 121) allocate_one_vpc

-- A counter that has given the last VNI.
abbrev full_attempt : Attempt
full_attempt = record {
  is_done = false;
  counter =
      found (record { annotation = format_int (pos 4194303); is_deleting = false; version = 9 });
  claims = one_vpc;
  answer = wrote;
}

allocate_full : allocate_vni 5 false (slow_attempt ∷ full_attempt ∷ []) ≡ failed exhausted
unfolding allocate_vni attempts_from run_attempt run_decision decide decide_counter format_int
    parse_int digits scan parse_uint parse_unsigned is_digit
allocate_full = refl

allocate_vni-failed_example :
    All Outrun (take 5 (slow_attempt ∷ full_attempt ∷ []))
    ⊎ Stopped exhausted (take 5 (slow_attempt ∷ full_attempt ∷ []))
allocate_vni-failed_example =
    allocate_vni-failed 5 (slow_attempt ∷ full_attempt ∷ []) exhausted allocate_full

abbrev old_vpc : Vpc
old_vpc = record { namespace = b'n' ∷ []; name = b'a' ∷ []; created = pos 4; vni = pos 100 }

abbrev young_vpc : Vpc
young_vpc = record { namespace = b'n' ∷ []; name = b'b' ∷ []; created = pos 6; vni = pos 100 }

abbrev both_vpcs : List Vpc
both_vpcs = young_vpc ∷ old_vpc ∷ []

abbrev both_live : (n : ℕ) → (one_page both_vpcs).is_done n ≡ false
both_live n = refl

both_Pages : Pages (one_page both_vpcs) 512 0 [] both_vpcs
both_Pages = last refl (omega arith)

both_named : All (λ v. Lacks b'/' v.namespace) both_vpcs
both_named = ((omega arith, tt), ((omega arith, tt), tt))

vni_one_keeps_example :
    (r : Vpc) × (same_vni r.vni (pos 100) ≡ true)
    × Any (λ o. o ≡ r) both_vpcs
    × (lost_vni_to_duplicate (one_page both_vpcs) r ≡ finished false)
    × All
        (SettledVni (one_page both_vpcs) both_live both_vpcs both_Pages (omega arith) both_named r)
        both_vpcs
vni_one_keeps_example =
    vni_one_keeps (one_page both_vpcs) both_live both_vpcs both_Pages (omega arith) both_named
      young_vpc (inl refl)
