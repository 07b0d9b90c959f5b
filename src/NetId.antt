-- ===== src/NetId.antt =====
-- pkg/netid/netid.go: the bounds of the identifiers that enter the datapath ABI. A VNI travels in
-- the Geneve header, whose bits 22 and 23 carry flags; a group is a bit of a 64-bit mask.
use cozyplane.Base.{
  ℕ, ◌+◌, ◌/◌, ◌%◌, ◌^◌, ◌-◌, ◌<◌, ◌≡◌, Bool, not, ◌==◌, ◌&&◌, ◌||◌, ℤ, pos, negsuc, ltb_ℤ, leb_ℤ,
  if◌then◌else◌, arith,
}

abbrev pub first_vni : ℤ
first_vni = pos 100

abbrev pub last_vni : ℤ
last_vni = pos (2 ^ 22 - 1)

abbrev pub last_group : ℤ
last_group = pos 62

-- `ValidVNI`.
unfoldable pub valid_vni : ℤ → Bool
valid_vni v = leb_ℤ first_vni v && leb_ℤ v last_vni

-- `ValidGroup`.
unfoldable pub valid_group : ℤ → Bool
valid_group v = leb_ℤ (pos 1) v && leb_ℤ v last_group

-- Go's conversion of an int32 to `uint32` and to `uint16`: the value modulo 2^w.
abbrev to_unsigned : ℕ → ℤ → ℕ
to_unsigned modulus (pos n) = n % modulus
to_unsigned modulus (negsuc n) = (modulus - (n + 1) % modulus) % modulus

-- `VNI`.
unfoldable pub vni : ℤ → ℕ
vni v = if ltb_ℤ v first_vni || ltb_ℤ last_vni v then 0 else to_unsigned (2 ^ 32) v

-- `Group`.
unfoldable pub group : ℤ → ℕ
group v = if ltb_ℤ v (pos 1) || ltb_ℤ last_group v then 0 else to_unsigned (2 ^ 16) v

-- The conversion of a VNI is zero exactly for the identifiers that `ValidVNI` refuses, changes no
-- valid one, and never sets the flag bits 22 and 23.
vni_exact :
    (v : ℤ)
    → (valid_vni v ≡ not (vni v == 0))
      × (pos (vni v) ≡ (if valid_vni v then v else pos 0))
      × (vni v / 2 ^ 22 ≡ 0)
unfolding valid_vni vni
vni_exact (pos n) = ground arith
vni_exact (negsuc n) = ground arith

-- The conversion of a group is zero exactly for the identifiers that `ValidGroup` refuses, changes
-- no valid one, and is never the World pseudo-group 63.
group_exact :
    (v : ℤ)
    → (valid_group v ≡ not (group v == 0))
      × (pos (group v) ≡ (if valid_group v then v else pos 0))
      × (group v < 63)
unfolding valid_group group
group_exact (pos n) = ground arith
group_exact (negsuc n) = ground arith
