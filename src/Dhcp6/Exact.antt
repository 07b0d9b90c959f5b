-- ===== src/Dhcp6/Exact.antt =====
-- Which messages are answered, and the whole reply.
use cozyplane.Base.{
  ℕ, ◌≤◌, ◌<◌, ◌≡◌, ◌↔◌, ◌⊎◌, refl, sym, ap, ◌∙◌, Bool, true, false, ◌&&◌, ◌||◌, List, [], ◌∷◌,
  ◌++◌, Option, none, some, Bytes, inl, inr, Bool-cases, Option-cases, arith, All, ◌==◌, length,
  drop,
}
use cozyplane.Dhcp6.{Options, no_options, scan_options, reply_type, reply_with, build_dhcp6_reply}
use cozyplane.Dhcp6.Wire.{
  Opt, Fits, encode, IsCut, or_else, last_of, client_id_of, iaid_of, is_rapid, scan_options-encode,
}
use cozyplane.Dhcp6.Reply.{
  default_iaid, reply_bytes, last_of-length, client_id_of-length, reply_with-bytes,
}

-- The type of the reply. A SOLICIT (1) gets an ADVERTISE (2), or with a rapid commit a REPLY (7); a
-- REQUEST, CONFIRM, RENEW and REBIND (3 to 6) get a REPLY.
abbrev pub Answers : ℕ → Bool → ℕ → Type 0
Answers typ rapid rtype =
    ((typ ≡ 1) × (rapid ≡ false) × (rtype ≡ 2))
    ⊎ (((typ ≡ 1) × (rapid ≡ true) × (rtype ≡ 7)) ⊎ ((3 ≤ typ) × (typ ≤ 6) × (rtype ≡ 7)))

reply_type-Answers :
    (typ : ℕ) (rapid : Bool) (rtype : ℕ)
    → reply_type typ rapid ≡ some rtype
    → Answers typ rapid rtype
unfolding reply_type
reply_type-Answers typ rapid rtype h = elim (Bool-cases (typ == 1)) [
  | inr e ↦ inr (inr (ground arith, ground arith, ground arith))
  | inl e ↦ elim (Bool-cases rapid) [
    | inl r ↦ inr (inl (ground arith, r, ground arith))
    | inr r ↦ inl (ground arith, r, ground arith)
  ]
]

Answers-reply_type :
    (typ : ℕ) (rapid : Bool) (rtype : ℕ)
    → Answers typ rapid rtype
    → reply_type typ rapid ≡ some rtype
unfolding reply_type
Answers-reply_type typ rapid rtype (inl (a, b, c)) = ground arith
Answers-reply_type typ rapid rtype (inr (inl (a, b, c))) = ground arith
Answers-reply_type typ rapid rtype (inr (inr (a, b, c))) = ground arith

some_inj : {x y : Bytes} → some x ≡ some y → x ≡ y
some_inj e = cc

or_none : (o : Option Bytes) → or_else o none ≡ o
or_none none = refl
or_none (some b) = refl

or_false : (b : Bool) → (b || false) ≡ b
or_false b = ground arith

default_iaid-elim :
    (o : Option Bytes) → (elim o [ none ↦ 0 ∷ 0 ∷ 0 ∷ 1 ∷ [] | some i ↦ i ]) ≡ default_iaid o
default_iaid-elim none = refl
default_iaid-elim (some i) = refl

Answers-rapid :
    (typ : ℕ) (rapid : Bool) (rtype : ℕ) → Answers typ rapid rtype → (rapid && rtype == 7) ≡ rapid
Answers-rapid typ rapid rtype (inl (a, b, c)) = ground arith
Answers-rapid typ rapid rtype (inr (inl (a, b, c))) = ground arith
Answers-rapid typ rapid rtype (inr (inr (a, b, c))) = ground arith

module _ (typ a b c : ℕ) (opts : List Opt) (rest mac pod_ip : Bytes) (rdnss : Option Bytes)
    (fits : All Fits opts) (is_cut : IsCut rest) (short : length mac < 65532) where
  abbrev message : Bytes
  message = typ ∷ a ∷ b ∷ c ∷ (encode opts ++ rest)

  abbrev said : Options
  said = record {
    client_id = last_of client_id_of opts;
    iaid = last_of iaid_of opts;
    rapid = is_rapid opts;
  }

  found : scan_options (length message) (drop 4 message) no_options ≡ said
  found = scan_options-encode (length message) opts rest no_options fits is_cut (omega arith) ∙ λ i.
      record {
        client_id = or_none (last_of client_id_of opts) i;
        iaid = or_none (last_of iaid_of opts) i;
        rapid = or_false (is_rapid opts) i;
      }

  -- The reply to what was found.
  abbrev answer : Options → Option Bytes
  answer o = elim o.client_id [
    | none ↦ none
    | some client_id ↦ elim (reply_type typ o.rapid) [
      | none ↦ none
      | some rtype ↦ some (
          reply_with rtype (a ∷ b ∷ c ∷ []) client_id
            (elim o.iaid [ none ↦ 0 ∷ 0 ∷ 0 ∷ 1 ∷ [] | some i ↦ i ]) o.rapid mac pod_ip rdnss)
    ]
  ]

  build-answer : build_dhcp6_reply message mac pod_ip rdnss ≡ answer said
  unfolding build_dhcp6_reply
  build-answer = ap answer found

  answer-bytes :
      (client_id : Bytes) (rtype : ℕ)
      → last_of client_id_of opts ≡ some client_id
      → Answers typ (is_rapid opts) rtype
      → answer said ≡ some (reply_bytes rtype (a ∷ b ∷ c ∷ []) client_id opts mac pod_ip rdnss)
  answer-bytes client_id rtype e t =
      let typed = Answers-reply_type typ (is_rapid opts) rtype t in
      let small = last_of-length client_id_of 65536 client_id_of-length opts client_id fits e in
      let same =
        reply_with-bytes rtype (a ∷ b ∷ c ∷ []) client_id opts mac pod_ip rdnss fits small short
          (Answers-rapid typ (is_rapid opts) rtype t) in
      rw (answer, e, typed, default_iaid-elim) (ap some same)

  -- A message of a type, a transaction identifier of three bytes, options whose codes and lengths have
  -- sixteen bits, and bytes behind them that are too few for one more option, is answered by some
  -- bytes exactly if its type is answered and it has a client identifier. The bytes are then the type
  -- for it, the transaction identifier, and the encoded options of the reply, for the last client
  -- identifier and the last identity of the message. The MAC address has fewer than 65532 bytes.
  pub reply_exact :
      (out : Bytes)
      → (build_dhcp6_reply message mac pod_ip rdnss ≡ some out) ↔ (
          (rtype : ℕ) × (client_id : Bytes) × Answers typ (is_rapid opts) rtype
          × (last_of client_id_of opts ≡ some client_id)
          × (reply_bytes rtype (a ∷ b ∷ c ∷ []) client_id opts mac pod_ip rdnss ≡ out))
  reply_exact out = (
    sound,
    λ (rtype, client_id, t, e, f). build-answer ∙ (answer-bytes client_id rtype e t ∙ ap some f),
  )
    where
      sound :
          build_dhcp6_reply message mac pod_ip rdnss ≡ some out
          → (rtype : ℕ) × (client_id : Bytes) × Answers typ (is_rapid opts) rtype
            × (last_of client_id_of opts ≡ some client_id)
            × (reply_bytes rtype (a ∷ b ∷ c ∷ []) client_id opts mac pod_ip rdnss ≡ out)
      sound h = elim (Option-cases (last_of client_id_of opts)) [
        | inl e ↦ absurd (ground (arith, sym build-answer ∙ h))
        | inr (client_id, e) ↦ elim (Option-cases (reply_type typ (is_rapid opts))) [
          | inl f ↦ absurd (ground (arith, sym build-answer ∙ h))
          | inr (rtype, f) ↦
              let t = reply_type-Answers typ (is_rapid opts) rtype f in
              (
                rtype,
                client_id,
                t,
                e,
                some_inj (sym (answer-bytes client_id rtype e t) ∙ (sym build-answer ∙ h)),
              )
        ]
      ]
