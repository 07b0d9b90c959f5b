-- ===== src/VpnLimits/Pools/Disjoint.antt =====
-- What holds of the pools that pass.
use cozyplane.Base.{
  ◌≤◌, ◌≡◌, ◌≢◌, sym, ◌∙◌, true, false, List, [], ◌∷◌, none, some, inl, inr, Bytes, Option-cases,
  arith, length, ap, Bool-cases, is_empty, All, str_eq_iff,
}
use cozyplane.VpnLimits.{Library, Prefix, Addr, object_name}
use cozyplane.VpnLimits.Pools.{
  WireGuardAddressPool, has_name, overlaps_any, pool_prefix, pools_from, dns_problem, dns_problems,
  wire_guard_address_pools_problem,
}

-- Two pools with different names, and ranges that do not overlap once their host bits are cleared.
abbrev pub Apart : Library → WireGuardAddressPool → WireGuardAddressPool → Type 0
Apart lib p q =
    (p.name ≢ q.name)
    × ((a b : Prefix)
        → lib.parse_prefix p.cidr ≡ some a
        → lib.parse_prefix q.cidr ≡ some b
        → lib.overlaps (lib.masked b) (lib.masked a) ≡ false)

-- Every two pools of a list, the earlier first.
abbrev pub Pairwise :
    (WireGuardAddressPool → WireGuardAddressPool → Type 0) → List WireGuardAddressPool → Type 0
Pairwise R [] = Unit
Pairwise R (p ∷ ps) = All (R p) ps × Pairwise R ps

-- A DNS server's address in at most 64 bytes, which parses to one with no zone that is not a mapped
-- IPv4 address, nor the unspecified one, nor one of multicast.
abbrev pub GoodDns : Library → Bytes → Type 0
GoodDns lib dns =
    (length dns ≤ 64)
    × ((a : Addr) × (lib.parse_addr dns ≡ some a)
        × (is_empty a.zone ≡ true)
        × (a.is_mapped ≡ false)
        × (a.is_unspecified ≡ false)
        × (a.is_multicast ≡ false))

abbrev pub Good : Library → WireGuardAddressPool → Type 0
Good lib p =
    (object_name lib p.name ≡ true)
    × ((a : Prefix) × (lib.parse_prefix p.cidr ≡ some a) × (a.is_mapped ≡ false))
    × (length p.cidr ≤ 64)
    × (length p.dns ≤ 16)
    × All (GoodDns lib) p.dns

-- The same as `Apart`, by the prefixes that the loop keeps.
abbrev Parted : Library → WireGuardAddressPool → WireGuardAddressPool → Type 0
Parted lib p q =
    (p.name ≢ q.name)
    × ((a b : Prefix)
        → pool_prefix lib p.cidr ≡ some a
        → pool_prefix lib q.cidr ≡ some b
        → lib.overlaps b a ≡ false)

-- What a pool that was seen at the front of the lists has against a later one.
abbrev Clear : Library → List Bytes → List Prefix → WireGuardAddressPool → Type 0
Clear lib names prefixes p =
    (has_name names p.name ≡ false)
    × ((a : Prefix) → pool_prefix lib p.cidr ≡ some a → overlaps_any lib a prefixes ≡ false)

some_inj : {a b : Prefix} → some a ≡ some b → a ≡ b
some_inj e = ground arith

none-some : {a : Prefix} → none ≡ some a → ⊥
none-some e = cc

All-weaken :
    (P Q : WireGuardAddressPool → Type 0) (ps : List WireGuardAddressPool)
    → ((p : WireGuardAddressPool) → P p → Q p)
    → All P ps
    → All Q ps
All-weaken P Q [] f h = tt
All-weaken P Q (p ∷ ps) f (h, hs) = (f p h, All-weaken P Q ps f hs)

module _ (lib : Library) where
  pool_prefix-parsed :
      (cidr : Bytes) (a : Prefix)
      → pool_prefix lib cidr ≡ some a
      → (p : Prefix) × (lib.parse_prefix cidr ≡ some p) × (p.is_mapped ≡ false) × (lib.masked p ≡ a)
  unfolding pool_prefix
  pool_prefix-parsed cidr a h = elim (Option-cases (lib.parse_prefix cidr)) [
    | inl e ↦ absurd (ground arith)
    | inr (p, e) ↦ elim (Bool-cases p.is_mapped) [
      | inl m ↦ absurd (ground arith)
      | inr m ↦ (p, e, m, some_inj (ground arith))
    ]
  ]

  dns_problem-Good : (dns : Bytes) → dns_problem lib dns ≡ none → GoodDns lib dns
  dns_problem-Good dns h = elim (Option-cases (lib.parse_addr dns)) [
    | inl e ↦ absurd (ground arith)
    | inr (a, e) ↦ (ground arith, (a, e, ground arith, ground arith, ground arith, ground arith))
  ]

  dns_problems-Good :
      (servers : List Bytes) → dns_problems lib servers ≡ none → All (GoodDns lib) servers
  unfolding dns_problems
  dns_problems-Good [] h = tt
  dns_problems-Good (dns ∷ servers) h =
      (dns_problem-Good dns (ground arith), dns_problems-Good servers (ground arith))

  one :
      (names : List Bytes) (prefixes : List Prefix) (p : WireGuardAddressPool)
      (ps : List WireGuardAddressPool)
      → pools_from lib names prefixes (p ∷ ps) ≡ none
      → (a : Prefix) × (pool_prefix lib p.cidr ≡ some a)
        × (has_name names p.name ≡ false)
        × (overlaps_any lib a prefixes ≡ false)
        × (object_name lib p.name ≡ true)
        × (length p.cidr ≤ 64)
        × (length p.dns ≤ 16)
        × (dns_problems lib p.dns ≡ none)
        × (pools_from lib (p.name ∷ names) (a ∷ prefixes) ps ≡ none)
  unfolding pools_from
  one names prefixes p ps h = elim (Option-cases (pool_prefix lib p.cidr)) [
    | inl e ↦ absurd (ground arith)
    | inr (a, e) ↦ (
      a,
      e,
      ground arith,
      ground arith,
      ground arith,
      ground arith,
      ground arith,
      ground arith,
      ground arith,
    )
  ]

  Clear-tail :
      (names : List Bytes) (prefixes : List Prefix) (n : Bytes) (a : Prefix)
      (p : WireGuardAddressPool)
      → Clear lib (n ∷ names) (a ∷ prefixes) p
      → Clear lib names prefixes p
  unfolding has_name overlaps_any
  Clear-tail names prefixes n a p (hn, ha) = (ground arith, λ b e. let f = ha b e in ground arith)

  Clear-Parted :
      (names : List Bytes) (prefixes : List Prefix) (p : WireGuardAddressPool) (a : Prefix)
      (q : WireGuardAddressPool)
      → pool_prefix lib p.cidr ≡ some a
      → Clear lib (p.name ∷ names) (a ∷ prefixes) q
      → Parted lib p q
  unfolding has_name overlaps_any
  Clear-Parted names prefixes p a q e (hn, ha) = (
    λ same. ground (arith, str_eq_iff p.name q.name),
    λ a' b e' f. let g = ha b f in let here : a ≡ a' = some_inj (sym e ∙ e') in ground arith,
  )

  pool_prefix-Good :
      (p : WireGuardAddressPool) (a : Prefix)
      → Good lib p
      → lib.parse_prefix p.cidr ≡ some a
      → pool_prefix lib p.cidr ≡ some (lib.masked a)
  unfolding pool_prefix
  pool_prefix-Good p a g e =
      let (_, (b, f, m), _, _, _) = g in
      let same : b ≡ a = some_inj (sym f ∙ e) in
      let unmapped : a.is_mapped ≡ false = sym (ap (λ x. x.is_mapped) same) ∙ m in ground arith

  Parted-Apart :
      (p : WireGuardAddressPool) (qs : List WireGuardAddressPool)
      → Good lib p
      → All (Good lib) qs
      → All (Parted lib p) qs
      → All (Apart lib p) qs
  Parted-Apart p [] g gs h = tt
  Parted-Apart p (q ∷ qs) g (gq, gs) ((differ, over), h) = (
    (
      differ,
      λ a b e f.
          over (lib.masked a) (lib.masked b) (pool_prefix-Good p a g e) (pool_prefix-Good q b gq f),
    ),
    Parted-Apart p qs g gs h,
  )

  All-Clear :
      (names : List Bytes) (prefixes : List Prefix) (ps : List WireGuardAddressPool)
      → pools_from lib names prefixes ps ≡ none
      → All (Clear lib names prefixes) ps
  All-Clear names prefixes [] h = tt
  All-Clear names prefixes (p ∷ ps) h =
      let (a, e, hn, ho, _, _, _, _, rest) = one names prefixes p ps h in
      (
        (hn, λ b f. let same : a ≡ b = some_inj (sym e ∙ f) in ground arith),
        All-weaken _ _ ps (λ q c. Clear-tail names prefixes p.name a q c)
            (All-Clear (p.name ∷ names) (a ∷ prefixes) ps rest),
      )

  from_sound :
      (names : List Bytes) (prefixes : List Prefix) (ps : List WireGuardAddressPool)
      → pools_from lib names prefixes ps ≡ none
      → All (Good lib) ps × Pairwise (Apart lib) ps
  from_sound names prefixes [] h = (tt, tt)
  from_sound names prefixes (p ∷ ps) h =
      let (a, e, _, _, hob, hc, hd, hs, rest) = one names prefixes p ps h in
      let (b, parsed, unmapped, _) = pool_prefix-parsed p.cidr a e in
      let own : Good lib p = (hob, (b, parsed, unmapped), hc, hd, dns_problems-Good p.dns hs) in
      let (good, apart) = from_sound (p.name ∷ names) (a ∷ prefixes) ps rest in
      (
        (own, good),
        (
          Parted-Apart p ps own good (
              All-weaken _ _ ps (λ q c. Clear-Parted names prefixes p a q e c)
                (All-Clear (p.name ∷ names) (a ∷ prefixes) ps rest)),
          apart,
        ),
      )

  -- Pools that pass are at most 128; each has an object's name, a range that parses to one that is not
  -- of mapped IPv4 addresses, in at most 64 bytes, and at most 16 DNS servers, each in at most 64 bytes
  -- and of an address with no zone, not mapped, not unspecified and not of multicast; and any two
  -- pools have different names and ranges that do not overlap once masked.
  pub pools_sound :
      (pools : List WireGuardAddressPool)
      → wire_guard_address_pools_problem lib pools ≡ none
      → (length pools ≤ 128) × All (Good lib) pools × Pairwise (Apart lib) pools
  unfolding wire_guard_address_pools_problem
  pools_sound pools h =
      let (good, apart) = from_sound [] [] pools (ground arith) in (ground arith, good, apart)
