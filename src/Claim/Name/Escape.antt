-- ===== src/Claim/Name/Escape.antt =====
-- What `EscapeIP` promises: a text that may stand in an object's name, and one for each address.
use cozyplane.Base.{
  ℕ, ◌/◌, ◌%◌, ◌<◌, ◌≡◌, ◌≢◌, refl, Bool, true, false, ◌||◌, [], ◌∷◌, map, Option, none, some,
  Bytes, inl, inr, Bool-cases, Option-cases, All, arith, ◌⊎◌,
}
use cozyplane.Claim.Name.{dash, starts_with_dash, ends_with_dash, hex_digit, hex_encode, escape_ip}

or_false_left : (a b : Bool) → (a || b) ≡ false → a ≡ false
or_false_left a b h = ground arith

or_false_right : (a b : Bool) → (a || b) ≡ false → b ≡ false
or_false_right a b h = ground arith

-- Neither separator of an address is left.
abbrev pub IsLabelByte : ℕ → Type 0
IsLabelByte c = (c ≢ b'.') × (c ≢ b':')

map-dash-All : (s : Bytes) → All IsLabelByte (map dash s)
map-dash-All [] = tt
map-dash-All (c ∷ s) = ((unfold dash in ground arith, unfold dash in ground arith), map-dash-All s)

hex_digit_lem :
    (d : ℕ) → d < 16 → (hex_digit d ≢ b'.') × (hex_digit d ≢ b':') × (hex_digit d ≢ b'-')
unfolding hex_digit
hex_digit_lem d h = ground arith

hex_encode-All : (s : Bytes) → All IsLabelByte (hex_encode s)
unfolding hex_encode
hex_encode-All [] = tt
hex_encode-All (c ∷ s) =
    let (a, b, e) = hex_digit_lem (c / 16 % 16) (omega arith) in
    let (a', b', e') = hex_digit_lem (c % 16) (omega arith) in
    ((a, b), ((a', b'), hex_encode-All s))

-- A text of hexadecimal digits behind another byte ends in no dash.
hex_encode-end : (c : ℕ) (s : Bytes) → c ≢ b'-' → ends_with_dash (c ∷ hex_encode s) ≡ false
unfolding hex_encode ends_with_dash
hex_encode-end c [] h = ground arith
hex_encode-end c (d ∷ s) h =
    hex_encode-end (hex_digit (d % 16)) s (hex_digit_lem (d % 16) (omega arith)).2

module _ (addr16 : Bytes → Option Bytes) where
  -- The test of `EscapeIP` for the alternate encoding.
  abbrev has_edge : Bytes → Bool
  has_edge ip = starts_with_dash (map dash ip) || ends_with_dash (map dash ip)

  escape_inner : (ip : Bytes) → has_edge ip ≡ false → escape_ip addr16 ip ≡ map dash ip
  unfolding escape_ip
  escape_inner ip h = rw h

  escape_edge :
      (ip bytes : Bytes)
      → has_edge ip ≡ true
      → addr16 ip ≡ some bytes
      → escape_ip addr16 ip ≡ b'x' ∷ hex_encode bytes
  unfolding escape_ip
  escape_edge ip bytes h e = rw (h, e)

  -- The two encodings.
  pub escape_cases :
      (ip : Bytes)
      → (escape_ip addr16 ip ≡ map dash ip)
        ⊎ ((bytes : Bytes) × (addr16 ip ≡ some bytes)
            × (escape_ip addr16 ip ≡ b'x' ∷ hex_encode bytes))
  escape_cases ip = elim (Bool-cases (has_edge ip)) [
    | inl edge ↦ elim (Option-cases (addr16 ip)) [
      | inl e ↦ inl (unfold escape_ip in rw (edge, e))
      | inr (bytes, e) ↦ inr (bytes, e, escape_edge ip bytes edge e)
    ]
    | inr inner ↦ inl (escape_inner ip inner)
  ]

  -- The escaped text has neither separator of an address, and it starts and ends with no dash, if
  -- every text that would do so is an IPv6 address without a zone.
  escape_ip-label :
      (ip : Bytes)
      → ((starts_with_dash (map dash ip) || ends_with_dash (map dash ip)) ≡ true → addr16 ip ≢ none)
      → All IsLabelByte (escape_ip addr16 ip)
        × (starts_with_dash (escape_ip addr16 ip) ≡ false)
        × (ends_with_dash (escape_ip addr16 ip) ≡ false)
  escape_ip-label ip h = elim (Bool-cases (has_edge ip)) [
    | inl edge ↦ elim (Option-cases (addr16 ip)) [
      | inl e ↦ absurd (h edge e)
      | inr (bytes, e) ↦ rw (escape_edge ip bytes edge e) (
        (((λ p. omega arith), (λ p. omega arith)), hex_encode-All bytes),
        unfold starts_with_dash in refl,
        hex_encode-end b'x' bytes (λ p. omega arith),
      )
    ]
    | inr inner ↦
        rw (escape_inner ip inner)
          (map-dash-All ip, or_false_left _ _ inner, or_false_right _ _ inner)
  ]
