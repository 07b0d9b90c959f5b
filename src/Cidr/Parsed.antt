-- ===== src/Cidr/Parsed.antt =====
-- The ranges that are parsed start at a multiple of their size.
use cozyplane.Base.{
  ℕ, suc, ◌+◌, ◌-◌, ◌*◌, ◌/◌, ◌%◌, ◌^◌, ◌≤◌, ◌<◌, ◌≡◌, refl, sym, ap, ◌∙◌, Bool, true, false, ◌&&◌,
  not, Option, some, inl, inr, Bytes, Bool-cases, Option-cases, arith, leb, ◌==◌, if◌then◌else◌,
}
use native.Mathlib.Nat.{
  suc-mul, mul_assoc, add-mul, mul-le-mul_right, le_of_mul-le-mul_right, lt_of_mul-lt-mul_right,
  div-mul-le_self,
}
use mathlib.Core.Path.{subst}
use cozyplane.Cidr.{Prefix, width, block, masked, overlap_prefix}
use cozyplane.Cidr.Blocks.{Masked, block-pos, pow-sum}

-- What `netip.ParsePrefix` answers with: a length and a value within the family.
abbrev pub Valid : Prefix → Type 0
Valid p = (p.bits ≤ width p.addr) × (p.addr.value < 2 ^ width p.addr)

-- A block that starts below a multiple of its size ends there.
block_fits : (j s m : ℕ) → j * s < m * s → j * s + s ≤ m * s
block_fits j s m h =
    let up : suc j * s ≤ m * s = mul-le-mul_right s (lt_of_mul-lt-mul_right s h) in
    omega (arith, up, suc-mul j s)

power_split : (e w : ℕ) → e ≤ w → 2 ^ w ≡ 2 ^ (w - e) * 2 ^ e
power_split e w l = ap (λ n. 2 ^ n) (omega arith) ∙ pow-sum e (w - e)

family_fits :
    (four : Bool) (v b : ℕ)
    → v < 2 ^ (if four then 32 else 128)
    → if four
      then v / 2 ^ ((if four then 32 else 128) - b) * 2 ^ ((if four then 32 else 128) - b)
          + 2 ^ ((if four then 32 else 128) - b)
        ≤ 4294967296
      else Unit
family_fits false v b h = tt
family_fits true v b h =
    let e : ℕ = 32 - b in
    let split : 4294967296 ≡ 2 ^ (32 - e) * 2 ^ e = power_split e 32 (omega arith) in
    let below : v / 2 ^ e * 2 ^ e < 2 ^ (32 - e) * 2 ^ e =
      omega (arith, split, h, div-mul-le_self v (2 ^ e)) in
    omega (arith, split, block_fits (v / 2 ^ e) (2 ^ e) (2 ^ (32 - e)) below)

masked-Masked : (p : Prefix) → Valid p → Masked (masked p)
unfolding masked
masked-Masked p (l, h) = record {
  index = p.addr.value / block p;
  starts = refl;
  fits = family_fits p.addr.is4 p.addr.value p.bits h;
}

-- The range of IPv4 that a mapped one stands for.
abbrev unmapped : Prefix → Prefix
unmapped m = record {
  addr = record { is4 = true; value = m.addr.value % 2 ^ 32 };
  bits = m.bits - 96;
}

unmapped_index :
    (k s m v : ℕ)
    → v ≡ k * s
    → 1 ≤ s
    → 4294967296 ≡ m * s
    → v / 4294967296 ≡ 65535
    → v % 4294967296 ≡ (k - 65535 * m) * s
unmapped_index k s m v e l split h =
    let front : 65535 * m * s ≡ 65535 * 4294967296 =
      mul_assoc 65535 m s ∙ ap (λ x. 65535 * x) (sym split) in
    let under : 65535 * m * s ≤ k * s = omega (arith, front, e, h) in
    let enough : 65535 * m ≤ k = le_of_mul-le-mul_right under (omega arith) in
    let parts : k * s ≡ (k - 65535 * m) * s + 65535 * m * s =
      ap (λ x. x * s) (omega (arith, enough)) ∙ add-mul (k - 65535 * m) (65535 * m) s in
    omega (arith, parts, front, e, h)

unmapped-Masked :
    (p : Prefix)
    → Masked p
    → p.addr.is4 ≡ false
    → p.addr.value / 2 ^ 32 ≡ 65535
    → 96 ≤ p.bits
    → p.bits ≤ 128
    → Masked (unmapped p)
unmapped-Masked p m four h l u =
    let e : ℕ = 32 - (p.bits - 96) in
    let same : block p ≡ 2 ^ e = ap (λ n. 2 ^ n) (ground arith) in
    let split : 4294967296 ≡ 2 ^ (32 - e) * 2 ^ e = power_split e 32 (omega arith) in
    let starts : p.addr.value ≡ m.index * 2 ^ e = m.starts ∙ ap (λ s. m.index * s) same in
    let index : ℕ = m.index - 65535 * 2 ^ (32 - e) in
    let at : p.addr.value % 4294967296 ≡ index * 2 ^ e =
      unmapped_index m.index (2 ^ e) (2 ^ (32 - e)) p.addr.value starts (block-pos (unmapped p))
        split h in
    let below : index * 2 ^ e < 2 ^ (32 - e) * 2 ^ e = omega (arith, at, split) in
    record {
      index = index;
      starts = at;
      fits = omega (arith, at, split, block_fits index (2 ^ e) (2 ^ (32 - e)) below);
    }

-- A mapped range has at most 128 bits.
mapped_bits : (p : Prefix) → Valid p → (masked p).addr.is4 ≡ false → (masked p).bits ≤ 128
unfolding masked
mapped_bits p (l, h) e = ground arith

module _ (parse : Bytes → Option Prefix)
    (valid : (s : Bytes) (p : Prefix) → parse s ≡ some p → Valid p) where
  pub overlap_prefix-Masked : (s : Bytes) (q : Prefix) → overlap_prefix parse s ≡ some q → Masked q
  unfolding overlap_prefix
  overlap_prefix-Masked s q h = elim (Option-cases (parse s)) [
    | inl e ↦ absurd (ground arith)
    | inr (p, e) ↦
        let ok = valid s p e in
        let m = masked-Masked p ok in
        elim (Bool-cases (
          not (masked p).addr.is4
          && (masked p).addr.value / 2 ^ 32 == 65535
          && leb 96 (masked p).bits)) [
            | inl c ↦
                let same : unmapped (masked p) ≡ q = ground arith in
                subst Masked same (
                  unmapped-Masked (masked p) m (ground arith) (ground arith) (ground arith)
                    (mapped_bits p ok (ground arith)))
            | inr c ↦ let same : masked p ≡ q = ground arith in subst Masked same m
          ]
  ]
