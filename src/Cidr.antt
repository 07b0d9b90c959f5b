-- ===== src/Cidr.antt =====
-- api/sdn/v1alpha1/cidr.go: whether two lists of ranges overlap.
pub mod Blocks
pub mod Sorted
pub mod Search
pub mod Parsed
pub mod Overlap
pub mod Examples
use cozyplane.Base.{
  ℕ, ◌+◌, ◌-◌, ◌*◌, ◌/◌, ◌%◌, ◌^◌, Bool, true, false, ◌&&◌, ◌||◌, not, List, [], ◌∷◌, Option, none,
  some, Bytes, ltb, leb, ◌==◌, length, if◌then◌else◌,
}

-- `netip.Addr` and `netip.Prefix`, of a family and a value.
pub record Addr : Type 0 where
  pub is4 : Bool
  pub value : ℕ

pub record Prefix : Type 0 where
  pub addr : Addr
  pub bits : ℕ

abbrev pub width : Addr → ℕ
width a = if a.is4 then 32 else 128

-- How many addresses the range has.
abbrev pub block : Prefix → ℕ
block p = 2 ^ (width p.addr - p.bits)

abbrev pub same_family : Addr → Addr → Bool
same_family a b = if a.is4 then b.is4 else not b.is4

-- `Prefix.Masked` and `Prefix.Contains`.
unfoldable pub masked : Prefix → Prefix
masked p = record {
  addr = record { is4 = p.addr.is4; value = p.addr.value / block p * block p };
  bits = p.bits;
}

unfoldable pub contains : Prefix → Addr → Bool
contains p a = same_family p.addr a && a.value / block p == p.addr.value / block p

-- `Addr.Compare(b) < 0`.
abbrev pub less : Addr → Addr → Bool
less a b = if same_family a b then ltb a.value b.value else a.is4

-- `overlapPrefix`, with `netip.ParsePrefix`.
unfoldable pub overlap_prefix : (Bytes → Option Prefix) → Bytes → Option Prefix
overlap_prefix parse s = elim (parse s) [
  | none ↦ none
  | some p ↦
      let m = masked p in
      if not m.addr.is4 && m.addr.value / 2 ^ 32 == 65535 && leb 96 m.bits
      then some (record {
        addr = record { is4 = true; value = m.addr.value % 2 ^ 32 };
        bits = m.bits - 96;
      })
      else some m
]

unfoldable pub parsed : (Bytes → Option Prefix) → List Bytes → List Prefix
parsed parse [] = []
parsed parse (s ∷ ss) =
    let rest = parsed parse ss in elim (overlap_prefix parse s) [ none ↦ rest | some p ↦ p ∷ rest ]

-- `slices.SortFunc` by address and then by length.
abbrev pub before : Prefix → Prefix → Bool
before p q = less p.addr q.addr || not (less q.addr p.addr) && ltb p.bits q.bits

unfoldable pub insert_prefix : Prefix → List Prefix → List Prefix
insert_prefix p [] = p ∷ []
insert_prefix p (q ∷ qs) = if before q p then q ∷ insert_prefix p qs else p ∷ q ∷ qs

unfoldable pub sort_prefixes : List Prefix → List Prefix
sort_prefixes [] = []
sort_prefixes (p ∷ ps) = insert_prefix p (sort_prefixes ps)

-- The loop that keeps the disjoint ranges, with the last one that is kept.
unfoldable pub keep_disjoint : Option Prefix → List Prefix → List Prefix
keep_disjoint last [] = []
keep_disjoint last (p ∷ ps) =
    let kept = p ∷ keep_disjoint (some p) ps in
    let dropped = keep_disjoint last ps in
    elim last [ none ↦ kept | some d ↦ if contains d p.addr then dropped else kept ]

-- `slices.BinarySearchFunc` on a sorted list: the range before the place of an address, and that at it.
unfoldable pub around : Option Prefix → List Prefix → Addr → Option Prefix × Option Prefix
around prev [] a = (prev, none)
around prev (p ∷ ps) a =
    let later = around (some p) ps a in if less p.addr a then later else (prev, some p)

-- The test of the second loop.
unfoldable pub meets : List Prefix → Prefix → Bool
meets disjoint p =
    let (prev, at) = around none disjoint p.addr in
    elim at [ none ↦ false | some q ↦ contains p q.addr ]
    || elim prev [ none ↦ false | some q ↦ contains q p.addr ]

unfoldable pub any_meets : (Bytes → Option Prefix) → List Prefix → List Bytes → Bool
any_meets parse disjoint [] = false
any_meets parse disjoint (s ∷ ss) =
    elim (overlap_prefix parse s) [ none ↦ false | some p ↦ meets disjoint p ]
    || any_meets parse disjoint ss

-- `CIDRsOverlap`.
unfoldable pub cidrs_overlap : (Bytes → Option Prefix) → List Bytes → List Bytes → Bool
cidrs_overlap parse a b =
    if length a == 0 || length b == 0
    then false
    else any_meets parse (keep_disjoint none (sort_prefixes (parsed parse b))) a
