-- ===== src/Claim/Name/Unique.antt =====
-- Two addresses have two names.
use cozyplane.Base.{
  ℕ, ◌/◌, ◌%◌, ◌<◌, ◌≡◌, ◌≢◌, ◌↔◌, refl, ap, ◌∙◌, sym, true, [], ◌∷◌, map, Option, some, Bytes, ℤ,
  inl, inr, All, arith, ◌⊎◌,
}
use cozyplane.NetId.{valid_vni}
use cozyplane.Claim.Name.{
  parse_claim, dash, hex_digit, hex_encode, escape_ip, port_name, service_vip_name, claim_name,
  claim_prefix_port, claim_prefix_service_vip,
}
use cozyplane.Claim.Name.Escape.{escape_cases}
use cozyplane.Claim.Name.Parse.{parse_claim-claim_name}

-- What an address text is made of, besides one separator.
abbrev pub IsAddressByte : ℕ → ℕ → Type 0
IsAddressByte other c = (c ≢ b'-') × (c ≢ b'x') × (c ≢ other)

dash_inj :
    (other c d : ℕ)
    → (other ≡ b'.') ⊎ (other ≡ b':')
    → IsAddressByte other c
    → IsAddressByte other d
    → dash c ≡ dash d
    → c ≡ d
unfolding dash
dash_inj other c d o hc hd e = ground arith

map-dash_inj :
    (other : ℕ) (s t : Bytes)
    → (other ≡ b'.') ⊎ (other ≡ b':')
    → All (IsAddressByte other) s
    → All (IsAddressByte other) t
    → map dash s ≡ map dash t
    → s ≡ t
map-dash_inj other [] [] o hs ht e = refl
map-dash_inj other [] (d ∷ t) o hs ht e = cc
map-dash_inj other (c ∷ s) [] o hs ht e = cc
map-dash_inj other (c ∷ s) (d ∷ t) o hs ht e =
    ground (arith, dash_inj other c d o hs.0 ht.0, map-dash_inj other s t o hs.1 ht.1)

hex_digit_inj : (c d : ℕ) → c < 16 → d < 16 → hex_digit c ≡ hex_digit d → c ≡ d
unfolding hex_digit
hex_digit_inj c d hc hd e = ground arith

hex_byte_inj :
    (c d : ℕ)
    → c < 256
    → d < 256
    → hex_digit (c / 16 % 16) ≡ hex_digit (d / 16 % 16)
    → hex_digit (c % 16) ≡ hex_digit (d % 16)
    → c ≡ d
hex_byte_inj c d hc hd e f =
    let high = hex_digit_inj (c / 16 % 16) (d / 16 % 16) (omega arith) (omega arith) e in
    let low = hex_digit_inj (c % 16) (d % 16) (omega arith) (omega arith) f in omega arith

hex_encode_inj :
    (s t : Bytes)
    → All (λ c. c < 256) s
    → All (λ c. c < 256) t
    → hex_encode s ≡ hex_encode t
    → s ≡ t
unfolding hex_encode
hex_encode_inj [] [] hs ht e = refl
hex_encode_inj [] (d ∷ t) hs ht e = cc
hex_encode_inj (c ∷ s) [] hs ht e = cc
hex_encode_inj (c ∷ s) (d ∷ t) hs ht e =
    ground (arith, hex_byte_inj c d hs.0 ht.0, hex_encode_inj s t hs.1 ht.1)

-- What is used of `netip.ParseAddr` and `As16`: they give bytes, and no two canonical texts have
-- the same ones.
pub record ParsesAddresses (addr16 : Bytes → Option Bytes) (Canonical : Bytes → Type 0)
    : Type 0 where
  pub bytes_bounded : (s : Bytes) (b : Bytes) → addr16 s ≡ some b → All (λ c. c < 256) b
  pub canonical_unique :
      (s t b : Bytes) → Canonical s → Canonical t → addr16 s ≡ some b → addr16 t ≡ some b → s ≡ t

head_x :
    (s t : Bytes)
    → b'x' ∷ s ≡ t
    → (other : ℕ) → (u : Bytes) → All (IsAddressByte other) u
    → map dash u ≡ t
    → ⊥
head_x s t e other [] h f = cc
head_x s t e other (c ∷ u) (h, hs) f = unfold dash in ground arith

tail_eq : {s t : Bytes} → b'x' ∷ s ≡ b'x' ∷ t → s ≡ t
tail_eq e = cc

pair_eq_left :
    {v w : ℤ} {s t : Bytes} → ◌≡◌ {A = Option (ℤ × Bytes)} (some (v, s)) (some (w, t)) → v ≡ w
pair_eq_left e = ground arith

pair_eq_right :
    {v w : ℤ} {s t : Bytes} → ◌≡◌ {A = Option (ℤ × Bytes)} (some (v, s)) (some (w, t)) → s ≡ t
pair_eq_right e = ground arith

module _ (addr16 : Bytes → Option Bytes) (Canonical : Bytes → Type 0)
    (parses : ParsesAddresses addr16 Canonical) where
  -- The address texts of one family, whose separator is not `other`.
  pub escape_ip_inj :
      (other : ℕ) (ip jp : Bytes)
      → (other ≡ b'.') ⊎ (other ≡ b':')
      → All (IsAddressByte other) ip
      → All (IsAddressByte other) jp
      → Canonical ip
      → Canonical jp
      → escape_ip addr16 ip ≡ escape_ip addr16 jp
      → ip ≡ jp
  escape_ip_inj other ip jp o hi hj ci cj e = elim (escape_cases addr16 ip) [
    | inl f ↦ elim (escape_cases addr16 jp) [
      | inl g ↦ map-dash_inj other ip jp o hi hj (sym f ∙ e ∙ g)
      | inr (c, q, g) ↦ absurd (head_x (hex_encode c) _ (sym g ∙ sym e) other ip hi (sym f))
    ]
    | inr (b, p, f) ↦ elim (escape_cases addr16 jp) [
      | inl g ↦ absurd (head_x (hex_encode b) _ (sym f ∙ e) other jp hj (sym g))
      | inr (c, q, g) ↦ parses.canonical_unique ip jp b ci cj p (
          q
          ∙ ap some (
              sym (
                hex_encode_inj b c (parses.bytes_bounded ip b p) (parses.bytes_bounded jp c q)
                  (tail_eq (sym f ∙ e ∙ g)))))
    ]
  ]

  -- Names of one prefix are equal only for one VNI and one address.
  claim_name_inj :
      (prefix : Bytes) (v w : ℤ) (other : ℕ) (ip jp : Bytes)
      → (valid_vni v ≡ true) × (valid_vni w ≡ true)
      → (other ≡ b'.') ⊎ (other ≡ b':')
      → All (IsAddressByte other) ip × Canonical ip × (escape_ip addr16 ip ≢ [])
      → All (IsAddressByte other) jp × Canonical jp × (escape_ip addr16 jp ≢ [])
      → claim_name addr16 prefix v ip ≡ claim_name addr16 prefix w jp
      → (v ≡ w) × (ip ≡ jp)
  claim_name_inj prefix v w other ip jp (vv, vw) o (hi, ci, ni) (hj, cj, nj) e =
      let read =
        sym (parse_claim-claim_name addr16 prefix v ip vv ni)
        ∙ ap (parse_claim prefix) e
        ∙ parse_claim-claim_name addr16 prefix w jp vw nj in
      (pair_eq_left read, escape_ip_inj other ip jp o hi hj ci cj (pair_eq_right read))

  -- The names of claims of both kinds: two names of one kind are equal only for one VNI and one
  -- address, and a Port never has the name of a ServiceVIP. The VNIs are valid, and the addresses
  -- are canonical texts of one family whose escaped form is not empty.
  pub claim_names_unique :
      (v w : ℤ) (other : ℕ) (ip jp : Bytes)
      → (valid_vni v ≡ true) × (valid_vni w ≡ true)
      → (other ≡ b'.') ⊎ (other ≡ b':')
      → All (IsAddressByte other) ip × Canonical ip × (escape_ip addr16 ip ≢ [])
      → All (IsAddressByte other) jp × Canonical jp × (escape_ip addr16 jp ≢ [])
      → ((port_name addr16 v ip ≡ port_name addr16 w jp) ↔ ((v ≡ w) × (ip ≡ jp)))
        × ((service_vip_name addr16 v ip ≡ service_vip_name addr16 w jp) ↔ ((v ≡ w) × (ip ≡ jp)))
        × (port_name addr16 v ip ≢ service_vip_name addr16 w jp)
  unfolding port_name service_vip_name
  claim_names_unique v w other ip jp vs o hi hj = (
    (claim_name_inj claim_prefix_port v w other ip jp vs o hi hj, λ (e, f). rw (e, f)),
    (claim_name_inj claim_prefix_service_vip v w other ip jp vs o hi hj, λ (e, f). rw (e, f)),
    λ e. ground arith,
  )
