-- ===== src/FlowEvent/Decode.antt =====
-- The record that the datapath writes is read back.
use cozyplane.Base.{
  ℕ, zero, suc, ◌⊎◌, ◌==◌, ◌+◌, ◌*◌, ◌/◌, ◌%◌, ◌<◌, ◌≡◌, ◌≢◌, refl, sym, ap, ◌∙◌, true, false, [],
  ◌∷◌, ◌++◌, some, Bytes, length, length-append, take, drop, get_or, take-append, drop-append,
  str_eq, str_eq_refl, str_eq_iff, Bool-cases, arith, if◌then◌else◌, inl, inr, ltb,
}
use cozyplane.FlowEvent.{
  FlowEvent, nat64_prefix, addr128_to_ip, little_endian, big_endian, slice, decode_flow_event,
}

-- The bytes of a number, the least significant first.
unfoldable pub to_little_endian : ℕ → ℕ → Bytes
to_little_endian zero n = []
to_little_endian (suc k) n = n % 256 ∷ to_little_endian k (n / 256)

-- The bytes that the datapath writes for an address: an IPv4 one in its map form.
abbrev pub to_addr128 : Bytes → Bytes
to_addr128 ip = if length ip == 4 then nat64_prefix ++ ip else ip

-- The bytes of a 16-bit number in network order.
abbrev pub to_network : ℕ → Bytes
to_network n = n / 256 ∷ n % 256 ∷ []

abbrev pub octets : FlowEvent → Bytes
octets e =
    e.proto ∷ e.verdict ∷ e.reason ∷ e.hook ∷ e.door ∷ e.flags ∷ e.tcp_flags ∷ e.icmp_type
    ∷ e.icmp_code ∷ 0 ∷ 0 ∷ 0 ∷ []

-- `struct flow_event`: the bytes of a record, with its padding.
unfoldable pub to_wire : FlowEvent → Bytes
to_wire e =
    to_little_endian 8 e.ts
    ++ (to_addr128 e.src
        ++ (to_addr128 e.dst
            ++ (to_little_endian 4 e.src_net
                ++ (to_little_endian 4 e.dst_net
                    ++ (to_network e.sport ++ (to_network e.dport ++ octets e))))))

-- An address of 4 bytes, or of 16 that are not those of a mapped IPv4 one.
abbrev pub IsAddress : Bytes → Type 0
IsAddress ip = (length ip ≡ 4) ⊎ ((length ip ≡ 16) × (take 12 ip ≢ nat64_prefix))

-- How many numbers k bytes hold.
abbrev pub room : ℕ → ℕ
room zero = 1
room (suc k) = 256 * room k

length-to_little_endian : (k n : ℕ) → length (to_little_endian k n) ≡ k
unfolding to_little_endian
length-to_little_endian zero n = refl
length-to_little_endian (suc k) n = ground (arith, length-to_little_endian k (n / 256))

little_endian-to_little_endian : (k n : ℕ) → n < room k → little_endian (to_little_endian k n) ≡ n
unfolding to_little_endian little_endian
little_endian-to_little_endian zero n h = ground arith
little_endian-to_little_endian (suc k) n h =
    let smaller : n / 256 < room k = omega (arith, h) in
    ground (arith, little_endian-to_little_endian k (n / 256) smaller)

big_endian-to_network : (n : ℕ) → n < 65536 → big_endian 0 (to_network n) ≡ n
unfolding big_endian
big_endian-to_network n h = ground arith

length-to_addr128 : (ip : Bytes) → IsAddress ip → length (to_addr128 ip) ≡ 16
length-to_addr128 ip (inl h) = ground (arith, length-append nat64_prefix ip)
length-to_addr128 ip (inr (h, _)) = ground arith

take_prefix : (ip : Bytes) → take 12 (nat64_prefix ++ ip) ≡ nat64_prefix
take_prefix ip = take-append nat64_prefix ip

drop_prefix : (ip : Bytes) → drop 12 (nat64_prefix ++ ip) ≡ ip
drop_prefix ip = drop-append nat64_prefix ip

addr128_to_ip-to_addr128 : (ip : Bytes) → IsAddress ip → addr128_to_ip (to_addr128 ip) ≡ ip
unfolding addr128_to_ip
addr128_to_ip-to_addr128 ip (inl h) =
    let four : (length ip == 4) ≡ true = ground arith in
    rw (four, take_prefix ip, drop_prefix ip, str_eq_refl nat64_prefix) refl
addr128_to_ip-to_addr128 ip (inr (h, other)) =
    let more : (length ip == 4) ≡ false = ground arith in
    elim (Bool-cases (str_eq (take 12 ip) nat64_prefix)) [
      | inl e ↦ absurd (other (ground (arith, str_eq_iff (take 12 ip) nat64_prefix)))
      | inr e ↦ rw (more, e) refl
    ]

drop-nil : (k : ℕ) → ◌≡◌ {A = Bytes} (drop k []) []
drop-nil zero = refl
drop-nil (suc k) = refl

drop-suc : (k : ℕ) (x : ℕ) (w : Bytes) (n : ℕ) → n ≡ suc k → drop n (x ∷ w) ≡ drop k w
drop-suc k x w n e = ap (λ m. drop m (x ∷ w)) e

drop-add : (m k : ℕ) (w : Bytes) → drop (m + k) w ≡ drop k (drop m w)
drop-add zero k w = ap (λ n. drop n w) (omega arith)
drop-add (suc m) k [] = drop-nil (suc m + k) ∙ sym (drop-nil k)
drop-add (suc m) k (x ∷ w) = drop-suc (m + k) x w (suc m + k) (omega arith) ∙ drop-add m k w

get_or-drop : (m i : ℕ) (w : Bytes) (d : ℕ) → get_or w (m + i) d ≡ get_or (drop m w) i d
get_or-drop zero i w d = let same : 0 + i ≡ i = omega arith in ap (λ n. get_or w n d) same
get_or-drop (suc m) i [] d = refl
get_or-drop (suc m) i (x ∷ w) d =
    let next : suc m + i ≡ suc (m + i) = omega arith in
    ap (λ n. get_or (x ∷ w) n d) next ∙ get_or-drop m i w d

-- Past a field that is known.
advance :
    (m k : ℕ) (w x t : Bytes)
    → drop m w ≡ x ++ t
    → length x ≡ k
    → (drop (m + k) w ≡ t) × (take k (drop m w) ≡ x)
advance m k w x t e l = (
  drop-add m k w ∙ (ap (λ s. drop k s) e ∙ (ap (λ n. drop n (x ++ t)) (sym l) ∙ drop-append x t)),
  ap (λ s. take k s) e ∙ (ap (λ n. take n (x ++ t)) (sym l) ∙ take-append x t),
)

-- What a record's fields hold: numbers of their widths, and addresses.
pub record IsRecord (e : FlowEvent) : Type 0 where
  pub ts : e.ts < room 8
  pub src : IsAddress e.src
  pub dst : IsAddress e.dst
  pub src_net : e.src_net < room 4
  pub dst_net : e.dst_net < room 4
  pub sport : e.sport < 65536
  pub dport : e.dport < 65536

-- The bytes of a record after the fields in front.
abbrev after_dst : FlowEvent → Bytes
after_dst e =
    to_little_endian 4 e.src_net
    ++ (to_little_endian 4 e.dst_net ++ (to_network e.sport ++ (to_network e.dport ++ octets e)))

-- The bytes at each place of a record, and those from the last fields on.
fields :
    (e : FlowEvent)
    → IsRecord e
    → let w = to_wire e in
      (slice 0 8 w ≡ to_little_endian 8 e.ts)
      × (slice 8 16 w ≡ to_addr128 e.src)
      × (slice 24 16 w ≡ to_addr128 e.dst)
      × (slice 40 4 w ≡ to_little_endian 4 e.src_net)
      × (slice 44 4 w ≡ to_little_endian 4 e.dst_net)
      × (slice 48 2 w ≡ to_network e.sport)
      × (slice 50 2 w ≡ to_network e.dport)
      × (drop 52 w ≡ octets e)
unfolding to_wire
fields e r =
    let w = to_wire e in
    let (d₀, s₀) =
      advance 0 8 w (to_little_endian 8 e.ts) _ refl (length-to_little_endian 8 e.ts) in
    let (d₁, s₁) = advance 8 16 w (to_addr128 e.src) _ d₀ (length-to_addr128 e.src r.src) in
    let (d₂, s₂) = advance 24 16 w (to_addr128 e.dst) _ d₁ (length-to_addr128 e.dst r.dst) in
    let (d₃, s₃) =
      advance 40 4 w (to_little_endian 4 e.src_net) _ d₂ (length-to_little_endian 4 e.src_net) in
    let (d₄, s₄) =
      advance 44 4 w (to_little_endian 4 e.dst_net) _ d₃ (length-to_little_endian 4 e.dst_net) in
    let (d₅, s₅) = advance 48 2 w (to_network e.sport) _ d₄ refl in
    let (d₆, s₆) = advance 50 2 w (to_network e.dport) (octets e) d₅ refl in
    (s₀, s₁, s₂, s₃, s₄, s₅, s₆, d₆)

length-to_wire : (e : FlowEvent) → IsRecord e → length (to_wire e) ≡ 64
unfolding to_wire
length-to_wire e r =
    let l₃ =
      length-append (to_little_endian 4 e.dst_net)
        (to_network e.sport ++ (to_network e.dport ++ octets e)) in
    let l₂ =
      length-append (to_little_endian 4 e.src_net) (
        to_little_endian 4 e.dst_net ++ (to_network e.sport ++ (to_network e.dport ++ octets e))) in
    let l₁ = length-append (to_addr128 e.dst) (after_dst e) in
    let l₀ = length-append (to_addr128 e.src) (to_addr128 e.dst ++ after_dst e) in
    let l =
      length-append (to_little_endian 8 e.ts)
        (to_addr128 e.src ++ (to_addr128 e.dst ++ after_dst e)) in
    let a = length-to_addr128 e.src r.src in
    let b = length-to_addr128 e.dst r.dst in
    ground (
      arith,
      length-to_little_endian 8 e.ts,
      length-to_little_endian 4 e.src_net,
      length-to_little_endian 4 e.dst_net,
    )

-- A byte of the last fields.
octet :
    (e : FlowEvent) (i n : ℕ)
    → drop 52 (to_wire e) ≡ octets e
    → n ≡ 52 + i
    → get_or (to_wire e) n 0 ≡ get_or (octets e) i 0
octet e i n d h =
    ap (λ m. get_or (to_wire e) m 0) h ∙ (get_or-drop 52 i (to_wire e) 0 ∙ ap (λ s. get_or s i 0) d)

-- A record's bytes, as the datapath lays them out, decode to the record: time stamp and networks in
-- little-endian order, ports in network order, an IPv4 address from its map form. The numbers must fit
-- their widths, and an address have 4 bytes, or 16 that are not a mapped IPv4 one's.
pub decode_flow_event-to_wire :
    (e : FlowEvent) → IsRecord e → decode_flow_event (to_wire e) ≡ some e
unfolding decode_flow_event
decode_flow_event-to_wire e r =
    let (s₀, s₁, s₂, s₃, s₄, s₅, s₆, d) = fields e r in
    let long : ltb (length (to_wire e)) 64 ≡ false = ground (arith, length-to_wire e r) in
    rw
      (
        long,
        s₀,
        s₁,
        s₂,
        s₃,
        s₄,
        s₅,
        s₆,
        octet e 0 52 d (omega arith),
        octet e 1 53 d (omega arith),
        octet e 2 54 d (omega arith),
        octet e 3 55 d (omega arith),
        octet e 4 56 d (omega arith),
        octet e 5 57 d (omega arith),
        octet e 6 58 d (omega arith),
        octet e 7 59 d (omega arith),
        octet e 8 60 d (omega arith),
        little_endian-to_little_endian 8 e.ts r.ts,
        addr128_to_ip-to_addr128 e.src r.src,
        addr128_to_ip-to_addr128 e.dst r.dst,
        little_endian-to_little_endian 4 e.src_net r.src_net,
        little_endian-to_little_endian 4 e.dst_net r.dst_net,
        big_endian-to_network e.sport r.sport,
        big_endian-to_network e.dport r.dport,
      )
      refl
