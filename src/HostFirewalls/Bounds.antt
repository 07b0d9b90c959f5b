-- ===== src/HostFirewalls/Bounds.antt =====
-- The preflight's counts bound the rows that a node's firewalls are compiled to.
use cozyplane.Base.{
  ℕ, zero, suc, ◌+◌, ◌*◌, ◌≤◌, ◌≡◌, refl, ap, ◌∙◌, true, false, List, [], ◌∷◌, ◌++◌, map, Option,
  none, some, ◌⊎◌, inl, inr, Bytes, Bool-cases, Option-cases, arith, ◌==◌, if◌then◌else◌, length,
  length-append, ◌-ℤ◌, to_ℕ,
}
use native.Mathlib.Nat.{mul-le-mul_right, mul-add, mul-zero, zero-mul, suc-mul}
use cozyplane.PolicyLimits.HostFirewall.{
  HfPort, rows_of_port, port_rows, peer_rows, count, count_rules,
}
use cozyplane.HostFirewalls.{
  PortSpec, Peer, FwRule, PortRow, hf_proto_num, last_port, is_served, expand, ports_from,
  hf_compile_ports, hf_any_peers, HfAllow, excepts_from, deny_rows, peer_entries, add_peer,
  peers_from, hf_compile_rule, compile_rules, counted_rule,
}

length-map : {A B : Type 0} (f : A → B) (xs : List A) → length (map f xs) ≡ length xs
length-map f [] = refl
length-map f (x ∷ xs) = ap (λ n. suc n) (length-map f xs)

abbrev port_of : PortSpec → HfPort
port_of p = record { port = p.port; end_port = p.end_port }

abbrev excepted : Peer → ℕ
excepted p = length p.except

length-expand :
    (left proto port : ℕ) (out : List PortRow)
    → length (expand left proto port out) ≡ length out + left
unfolding expand
length-expand zero proto port out = omega arith
length-expand (suc left) proto port out =
    let one : List PortRow = record { proto = proto; port = port } ∷ [] in
    length-expand left proto (port + 1) (out ++ one) ∙ omega (arith, length-append out one)

abbrev keep : List PortRow → PortSpec → List PortRow
keep out p = elim (hf_proto_num p.protocol) [
  | none ↦ out
  | some proto ↦
      if is_served p then expand (to_ℕ (last_port p -ℤ p.port) + 1) proto (to_ℕ p.port) out else out
]

-- A served item has the rows that are counted for it.
served_rows :
    (p : PortSpec)
    → is_served p ≡ true
    → to_ℕ (last_port p -ℤ p.port) + 1 ≡ rows_of_port (port_of p)
served_rows p h = ground arith

keep-cases :
    (out : List PortRow) (p : PortSpec)
    → (keep out p ≡ out)
      ⊎ ((proto : ℕ) × (is_served p ≡ true)
          × (keep out p ≡ expand (to_ℕ (last_port p -ℤ p.port) + 1) proto (to_ℕ p.port) out))
keep-cases out p = elim (Option-cases (hf_proto_num p.protocol)) [
  | inl e ↦ inl (ground arith)
  | inr (proto, e) ↦ elim (Bool-cases (is_served p)) [
    | inr q ↦ inl (ground arith)
    | inl q ↦ inr (proto, q, ground arith)
  ]
]

length-keep :
    (out : List PortRow) (p : PortSpec)
    → length (keep out p) ≤ length out + rows_of_port (port_of p)
length-keep out p = elim (keep-cases out p) [
  | inl e ↦ omega (arith, ap (λ l. length l) e)
  | inr (proto, q, e) ↦
      let rows = to_ℕ (last_port p -ℤ p.port) + 1 in
      let len : length (keep out p) ≡ length out + rows =
        ap (λ l. length l) e ∙ length-expand rows proto (to_ℕ p.port) out in
      omega (arith, len, served_rows p q)
]

length-ports_from :
    (out : List PortRow) (k : ℕ) (ports : List PortSpec)
    → length out ≤ k
    → length (ports_from out ports) ≤ port_rows k (map port_of ports)
unfolding ports_from port_rows
length-ports_from out k [] h = h
length-ports_from out k (p ∷ ps) h =
    length-ports_from (keep out p) (k + rows_of_port (port_of p)) ps
      (omega (arith, h, length-keep out p))

length-hf_compile_ports :
    (ports : List PortSpec)
    → length (hf_compile_ports ports)
      ≤ port_rows (if length (map port_of ports) == 0 then 2 else 0) (map port_of ports)
unfolding hf_compile_ports port_rows
length-hf_compile_ports [] = omega arith
length-hf_compile_ports (p ∷ ps) =
    let some_rows : (suc (length ps) == 0) ≡ false = ground arith in
    let some_counts : (suc (length (map port_of ps)) == 0) ≡ false = ground arith in
    rw (some_rows, some_counts) (length-ports_from [] 0 (p ∷ ps) (omega arith))

peer_rows-sum : (k : ℕ) (xs : List ℕ) → peer_rows k xs ≡ k + peer_rows 0 xs
unfolding peer_rows
peer_rows-sum k [] = omega arith
peer_rows-sum k (x ∷ xs) =
    peer_rows-sum (k + (x + 1)) xs ∙ omega (arith, peer_rows-sum (0 + (x + 1)) xs)

module _ {Net : Type 0} (parse_cidr : Bytes → Option Net) where
  length-excepts_from :
      (acc l : List Net) (es : List Bytes)
      → excepts_from parse_cidr acc es ≡ some l
      → length l ≡ length acc + length es
  unfolding excepts_from
  length-excepts_from acc l [] h = ground arith
  length-excepts_from acc l (e ∷ es) h = elim (Option-cases (parse_cidr e)) [
    | inl q ↦ absurd (ground arith)
    | inr (n, q) ↦
        length-excepts_from (acc ++ n ∷ []) l es (ground arith)
        ∙ omega (arith, length-append acc (n ∷ []))
  ]

  length-deny_rows :
      (row : PortRow) (entries : List (HfAllow Net)) (nets : List Net)
      → length (deny_rows row entries nets) ≡ length entries + length nets
  unfolding deny_rows
  length-deny_rows row entries [] = omega arith
  length-deny_rows row entries (n ∷ nets) =
      let one : List (HfAllow Net) =
        record { proto = row.proto; port = row.port; cidr = n; allow = false } ∷ [] in
      length-deny_rows row (entries ++ one) nets ∙ omega (arith, length-append entries one)

  length-peer_entries :
      (net : Net) (nets : List Net) (entries : List (HfAllow Net)) (rows : List PortRow)
      → length (peer_entries net nets entries rows)
        ≡ length entries + length rows * (length nets + 1)
  unfolding peer_entries
  length-peer_entries net nets entries [] = omega (arith, zero-mul (length nets + 1))
  length-peer_entries net nets entries (row ∷ rows) =
      let one : List (HfAllow Net) =
        record { proto = row.proto; port = row.port; cidr = net; allow = true } ∷ [] in
      let next = deny_rows row (entries ++ one) nets in
      length-peer_entries net nets next rows
      ∙ omega (
        arith,
        length-deny_rows row (entries ++ one) nets,
        length-append entries one,
        suc-mul (length rows) (length nets + 1),
      )

  add_peer-cases :
      (rows : List PortRow) (entries : List (HfAllow Net)) (p : Peer)
      → (add_peer parse_cidr rows entries p ≡ entries)
        ⊎ ((net : Net) × (l : List Net) × (excepts_from parse_cidr [] p.except ≡ some l)
            × (add_peer parse_cidr rows entries p ≡ peer_entries net l entries rows))
  unfolding add_peer
  add_peer-cases rows entries p = elim (Option-cases (parse_cidr p.cidr)) [
    | inl e ↦ inl (ground arith)
    | inr (net, e) ↦ elim (Option-cases (excepts_from parse_cidr [] p.except)) [
      | inl q ↦ inl (ground arith)
      | inr (l, q) ↦ inr (net, l, q, ground arith)
    ]
  ]

  length-add_peer :
      (rows : List PortRow) (entries : List (HfAllow Net)) (p : Peer)
      → length (add_peer parse_cidr rows entries p)
        ≤ length entries + length rows * (length p.except + 1)
  unfolding add_peer
  length-add_peer rows entries p = elim (add_peer-cases rows entries p) [
    | inl e ↦ omega (arith, ap (λ l. length l) e)
    | inr (net, l, q, e) ↦
        let same : length l ≡ length p.except =
          omega (arith, length-excepts_from [] l p.except q) in
        let len : length (add_peer parse_cidr rows entries p)
            ≡ length entries + length rows * (length l + 1) =
          ap (λ x. length x) e ∙ length-peer_entries net l entries rows in
        omega (arith, len, ap (λ n. length rows * (n + 1)) same)
  ]

  length-peers_from :
      (rows : List PortRow) (entries : List (HfAllow Net)) (ps : List Peer)
      → length (peers_from parse_cidr rows entries ps)
        ≤ length entries + length rows * peer_rows 0 (map excepted ps)
  unfolding peers_from peer_rows
  length-peers_from rows entries [] = omega (arith, mul-zero (length rows))
  length-peers_from rows entries (p ∷ ps) =
      let rest = peer_rows 0 (map excepted ps) in
      omega (
        arith,
        length-peers_from rows (add_peer parse_cidr rows entries p) ps,
        length-add_peer rows entries p,
        ap (λ n. length rows * n) (peer_rows-sum (0 + (length p.except + 1)) (map excepted ps)),
        mul-add (length rows) (length p.except + 1) rest,
      )

  -- The rows that are counted for a rule.
  abbrev counted_rows : FwRule → ℕ
  counted_rows r =
      port_rows (if length (map port_of r.ports) == 0 then 2 else 0) (map port_of r.ports)
      * peer_rows (if length (map excepted r.peers) == 0 then 2 else 0) (map excepted r.peers)

  length-any_peers :
      (rows : List PortRow) (entries : List (HfAllow Net)) (ps : List Peer)
      → length (peers_from parse_cidr rows entries (if length ps == 0 then hf_any_peers else ps))
        ≤ length entries
          + length rows
            * peer_rows (if length (map excepted ps) == 0 then 2 else 0) (map excepted ps)
  unfolding peer_rows
  length-any_peers rows entries [] = length-peers_from rows entries hf_any_peers
  length-any_peers rows entries (p ∷ ps) =
      let some_peers : (suc (length ps) == 0) ≡ false = ground arith in
      let some_counts : (suc (length (map excepted ps)) == 0) ≡ false = ground arith in
      rw (some_peers, some_counts) (length-peers_from rows entries (p ∷ ps))

  length-hf_compile_rule :
      (entries : List (HfAllow Net)) (r : FwRule)
      → length (hf_compile_rule parse_cidr entries r) ≤ length entries + counted_rows r
  unfolding hf_compile_rule
  length-hf_compile_rule entries r =
      let peers =
        peer_rows (if length (map excepted r.peers) == 0 then 2 else 0) (map excepted r.peers) in
      omega (
        arith,
        length-any_peers (hf_compile_ports r.ports) entries r.peers,
        mul-le-mul_right peers (length-hf_compile_ports r.ports),
      )

  count-rows :
      (work : ℕ) (r : FwRule) (w n : ℕ)
      → count work (counted_rule r) ≡ some (w, n)
      → n ≡ counted_rows r
  unfolding count
  count-rows work r w n h = ground arith

  pub length-compile_rules :
      (work rows w n : ℕ) (entries : List (HfAllow Net)) (rs : List FwRule)
      → count_rules work rows (map counted_rule rs) ≡ some (w, n)
      → length entries ≤ rows
      → rows ≤ 65536
      → (length (compile_rules parse_cidr entries rs) ≤ n) × (n ≤ 65536)
  unfolding count_rules compile_rules
  length-compile_rules work rows w n entries [] h l b = (ground arith, ground arith)
  length-compile_rules work rows w n entries (r ∷ rs) h l b =
      elim (Option-cases (count work (counted_rule r))) [
        | inl e ↦ absurd (ground arith)
        | inr ((w', k), e) ↦
            let is_count = count-rows work r w' k e in
            let len = length-hf_compile_rule entries r in
            let fits : rows + k ≤ 65536 = ground arith in
            let run : count_rules w' (rows + k) (map counted_rule rs) ≡ some (w, n) =
              ground arith in
            length-compile_rules w' (rows + k) w n (hf_compile_rule parse_cidr entries r) rs run
              (omega (arith, len, is_count)) fits
      ]
