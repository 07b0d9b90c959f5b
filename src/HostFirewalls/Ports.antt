-- ===== src/HostFirewalls/Ports.antt =====
-- A rule's ports against the ranges that its items name.
use cozyplane.Base.{
  ℕ, zero, suc, ◌+◌, ◌≡◌, refl, ◌∙◌, Bool, true, false, ◌&&◌, ◌||◌, List, [], ◌∷◌, ◌++◌, none, some,
  inl, inr, Bool-cases, Option-cases, arith, ltb, leb, ◌==◌, if◌then◌else◌, length, pos, leb_ℤ,
  ◌-ℤ◌, to_ℕ,
}
use cozyplane.HostFirewalls.{
  PortSpec, PortRow, hf_proto_num, last_port, is_served, expand, ports_from, hf_compile_ports,
}

-- A row for that protocol and port.
unfoldable pub has_port : ℕ → ℕ → List PortRow → Bool
has_port a b [] = false
has_port a b (r ∷ rows) = r.proto == a && r.port == b || has_port a b rows

-- The item is served, is for that protocol, and its range has that port.
abbrev pub item_covers : ℕ → ℕ → PortSpec → Bool
item_covers a b p =
    elim (hf_proto_num p.protocol) [ none ↦ false | some proto ↦ proto == a ]
    && is_served p
    && leb_ℤ p.port (pos b)
    && leb_ℤ (pos b) (last_port p)

unfoldable pub any_covers : ℕ → ℕ → List PortSpec → Bool
any_covers a b [] = false
any_covers a b (p ∷ ps) = item_covers a b p || any_covers a b ps

-- The ports that a rule is for; a rule without items is for every port, zero, of both protocols.
abbrev pub covers : ℕ → ℕ → List PortSpec → Bool
covers a b ports = if length ports == 0 then (a == 6 || a == 17) && b == 0 else any_covers a b ports

has_port-append :
    (a b : ℕ) (xs ys : List PortRow)
    → has_port a b (xs ++ ys) ≡ (has_port a b xs || has_port a b ys)
unfolding has_port
has_port-append a b [] ys = refl
has_port-append a b (x ∷ xs) ys = ground (arith, has_port-append a b xs ys)

has_port-one :
    (a b proto port : ℕ)
    → has_port a b (record { proto = proto; port = port } ∷ []) ≡ (proto == a && port == b)
unfolding has_port
has_port-one a b proto port = ground arith

has_port-expand :
    (a b left proto port : ℕ) (out : List PortRow)
    → has_port a b (expand left proto port out)
      ≡ (has_port a b out || proto == a && leb port b && ltb b (port + left))
unfolding expand
has_port-expand a b zero proto port out = ground arith
has_port-expand a b (suc left) proto port out =
    has_port-expand a b left proto (port + 1) (out ++ record { proto = proto; port = port } ∷ [])
    ∙ ground (
      arith,
      has_port-append a b out (record { proto = proto; port = port } ∷ []),
      has_port-one a b proto port,
    )

-- What one item adds.
abbrev keep : List PortRow → PortSpec → List PortRow
keep out p = elim (hf_proto_num p.protocol) [
  | none ↦ out
  | some proto ↦
      if is_served p then expand (to_ℕ (last_port p -ℤ p.port) + 1) proto (to_ℕ p.port) out else out
]

-- The numbers of a served item's ports.
in_range_exact :
    (p : PortSpec) (b : ℕ)
    → is_served p ≡ true
    → (leb (to_ℕ p.port) b && ltb b (to_ℕ p.port + (to_ℕ (last_port p -ℤ p.port) + 1)))
      ≡ (leb_ℤ p.port (pos b) && leb_ℤ (pos b) (last_port p))
in_range_exact p b h = ground arith

has_port-keep :
    (a b : ℕ) (out : List PortRow) (p : PortSpec)
    → has_port a b (keep out p) ≡ (has_port a b out || item_covers a b p)
has_port-keep a b out p = elim (Option-cases (hf_proto_num p.protocol)) [
  | inl e ↦ ground arith
  | inr (proto, e) ↦ elim (Bool-cases (is_served p)) [
    | inr q ↦ ground arith
    | inl q ↦ ground (
      arith,
      has_port-expand a b (to_ℕ (last_port p -ℤ p.port) + 1) proto (to_ℕ p.port) out,
      in_range_exact p b q,
    )
  ]
]

has_port-ports_from :
    (a b : ℕ) (out : List PortRow) (ports : List PortSpec)
    → has_port a b (ports_from out ports) ≡ (has_port a b out || any_covers a b ports)
unfolding ports_from any_covers
has_port-ports_from a b out [] = ground arith
has_port-ports_from a b out (p ∷ ps) =
    has_port-ports_from a b (keep out p) ps ∙ ground (arith, has_port-keep a b out p)

-- A rule has a row for a protocol and a port exactly if its items cover them.
pub hf_compile_ports-covers :
    (a b : ℕ) (ports : List PortSpec) → has_port a b (hf_compile_ports ports) ≡ covers a b ports
unfolding hf_compile_ports has_port
hf_compile_ports-covers a b ports = elim (Bool-cases (length ports == 0)) [
  | inl q ↦ ground arith
  | inr q ↦ rw q (has_port-ports_from a b [] ports)
]
