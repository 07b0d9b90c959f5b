-- ===== src/Cidr/Examples.antt =====
-- Two lists that overlap in 10.1.0.0/16.
use cozyplane.Base.{
  ◌≡◌, ◌↔◌, true, [], ◌∷◌, inl, inr, Option, none, some, Bytes, codes, str_eq, Bool-cases, arith,
  if◌then◌else◌,
}
use mathlib.Core.Path.{subst}
use cozyplane.Cidr.{Addr, Prefix, parsed, cidrs_overlap}
use cozyplane.Cidr.Blocks.{Within}
use cozyplane.Cidr.Parsed.{Valid}
use cozyplane.Cidr.Overlap.{Shared, cidrs_overlap-Shared}

-- A stand-in of `netip.ParsePrefix` that knows two ranges.
abbrev wide : Prefix
wide = record { addr = record { is4 = true; value = 167772160 }; bits = 8 }

abbrev narrow : Prefix
narrow = record { addr = record { is4 = true; value = 167837696 }; bits = 16 }

abbrev parse : Bytes → Option Prefix
parse s =
    if str_eq s (codes "10.0.0.0/8")
    then some wide
    else if str_eq s (codes "10.1.0.0/16")
    then some narrow
    else none

parse-Valid : (s : Bytes) (p : Prefix) → parse s ≡ some p → Valid p
parse-Valid s p h = elim (Bool-cases (str_eq s (codes "10.0.0.0/8"))) [
  | inl e ↦ let same : wide ≡ p = ground arith in subst Valid same (omega arith, omega arith)
  | inr e ↦ elim (Bool-cases (str_eq s (codes "10.1.0.0/16"))) [
    | inl f ↦ let same : narrow ≡ p = ground arith in subst Valid same (omega arith, omega arith)
    | inr f ↦ absurd (ground arith)
  ]
]

cidrs_overlap-Shared_example :
    (cidrs_overlap parse (codes "10.1.0.0/16" ∷ []) (codes "none" ∷ codes "10.0.0.0/8" ∷ []) ≡ true)
    ↔ ((x : Addr) × Within x
        × Shared x (parsed parse (codes "10.1.0.0/16" ∷ []))
        × Shared x (parsed parse (codes "none" ∷ codes "10.0.0.0/8" ∷ [])))
cidrs_overlap-Shared_example =
    cidrs_overlap-Shared parse parse-Valid (codes "10.1.0.0/16" ∷ [])
      (codes "none" ∷ codes "10.0.0.0/8" ∷ [])
