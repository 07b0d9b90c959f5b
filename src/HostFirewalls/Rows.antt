-- ===== src/HostFirewalls/Rows.antt =====
-- Which rows a node's firewalls are compiled to, by the peers and ports of the rules.
use cozyplane.Base.{
  ℕ, ◌≡◌, refl, sym, ap, ◌∙◌, Bool, true, false, ◌&&◌, ◌||◌, List, [], ◌∷◌, ◌++◌, map, Option, none,
  some, ◌⊎◌, inl, inr, Bytes, Bool-cases, Option-cases, arith, ◌==◌, if◌then◌else◌, length,
}
use cozyplane.PolicyLimits.HostFirewall.{hf_isolation, validate_hf_compilation}
use cozyplane.HostFirewalls.{
  Peer, FwRule, Firewall, PortRow, hf_any_peers, HfAllow, HfCompiled, excepts_from, deny_rows,
  peer_entries, add_peer, peers_from, hf_compile_ports, hf_compile_rule, compile_rules, does_select,
  counted, add_firewall, compile_from, compile_host_firewalls,
}
use cozyplane.HostFirewalls.Ports.{has_port, covers, hf_compile_ports-covers}

-- Rows for one protocol and port whose network and verdict are looked for.
module _ {Net : Type 0} (parse_cidr : Bytes → Option Net) (a b : ℕ) (u : Net → Bool → Bool) where
  unfoldable pub has_row : List (HfAllow Net) → Bool
  has_row [] = false
  has_row (e ∷ es) = e.proto == a && e.port == b && u e.cidr e.allow || has_row es

  has_row-append : (xs ys : List (HfAllow Net)) → has_row (xs ++ ys) ≡ (has_row xs || has_row ys)
  unfolding has_row
  has_row-append [] ys = refl
  has_row-append (x ∷ xs) ys = ground (arith, has_row-append xs ys)

  -- The exceptions all parse, and one of them is looked for.
  unfoldable pub all_parse : List Bytes → Bool
  all_parse [] = true
  all_parse (e ∷ es) = elim (parse_cidr e) [ none ↦ false | some net ↦ all_parse es ]

  unfoldable pub any_denied : List Bytes → Bool
  any_denied [] = false
  any_denied (e ∷ es) =
      elim (parse_cidr e) [ none ↦ false | some net ↦ u net false ] || any_denied es

  -- A peer whose range and exceptions all parse, and one of them is looked for: the range with the
  -- verdict true, an exception with the verdict false.
  abbrev pub peer_adds : Peer → Bool
  peer_adds p = elim (parse_cidr p.cidr) [
    | none ↦ false
    | some net ↦ all_parse p.except && (u net true || any_denied p.except)
  ]

  unfoldable pub any_peer : List Peer → Bool
  any_peer [] = false
  any_peer (p ∷ ps) = peer_adds p || any_peer ps

  -- A rule that covers the port and has such a peer; a rule without peers has those of every address.
  abbrev pub rule_adds : FwRule → Bool
  rule_adds r =
      covers a b r.ports && any_peer (if length r.peers == 0 then hf_any_peers else r.peers)

  unfoldable pub any_rule : List FwRule → Bool
  any_rule [] = false
  any_rule (r ∷ rs) = rule_adds r || any_rule rs

  -- The networks looked for.
  unfoldable any_net : List Net → Bool
  any_net [] = false
  any_net (n ∷ ns) = u n false || any_net ns

  any_net-append : (xs ys : List Net) → any_net (xs ++ ys) ≡ (any_net xs || any_net ys)
  unfolding any_net
  any_net-append [] ys = refl
  any_net-append (x ∷ xs) ys = ground (arith, any_net-append xs ys)

  any_net-one : (n : Net) → any_net (n ∷ []) ≡ u n false
  unfolding any_net
  any_net-one n = ground arith

  excepts_from-cases :
      (acc : List Net) (es : List Bytes)
      → ((excepts_from parse_cidr acc es ≡ none) × (all_parse es ≡ false))
        ⊎ ((l : List Net) × (excepts_from parse_cidr acc es ≡ some l)
            × (all_parse es ≡ true)
            × (any_net l ≡ (any_net acc || any_denied es)))
  unfolding excepts_from all_parse any_denied
  excepts_from-cases acc [] = inr (acc, refl, refl, ground arith)
  excepts_from-cases acc (e ∷ es) = elim (Option-cases (parse_cidr e)) [
    | inl q ↦ inl (ground arith, ground arith)
    | inr (n, q) ↦ elim (excepts_from-cases (acc ++ n ∷ []) es) [
      | inl (x, y) ↦ inl (ground arith, ground arith)
      | inr (l, x, y, z) ↦ inr (
        l,
        ground arith,
        ground arith,
        z ∙ ground (arith, any_net-append acc (n ∷ []), any_net-one n),
      )
    ]
  ]

  has_row-one :
      (proto port : ℕ) (net : Net) (allow : Bool)
      → has_row (record { proto = proto; port = port; cidr = net; allow = allow } ∷ [])
        ≡ (proto == a && port == b && u net allow)
  unfolding has_row
  has_row-one proto port net allow = ground arith

  has_row-deny_rows :
      (row : PortRow) (entries : List (HfAllow Net)) (nets : List Net)
      → has_row (deny_rows row entries nets)
        ≡ (has_row entries || row.proto == a && row.port == b && any_net nets)
  unfolding deny_rows any_net
  has_row-deny_rows row entries [] = ground arith
  has_row-deny_rows row entries (n ∷ nets) =
      let one : List (HfAllow Net) =
        record { proto = row.proto; port = row.port; cidr = n; allow = false } ∷ [] in
      has_row-deny_rows row (entries ++ one) nets
      ∙ ground (arith, has_row-append entries one, has_row-one row.proto row.port n false)

  has_row-peer_entries :
      (net : Net) (nets : List Net) (entries : List (HfAllow Net)) (rows : List PortRow)
      → has_row (peer_entries net nets entries rows)
        ≡ (has_row entries || has_port a b rows && (u net true || any_net nets))
  unfolding peer_entries has_port
  has_row-peer_entries net nets entries [] = ground arith
  has_row-peer_entries net nets entries (row ∷ rows) =
      let one : List (HfAllow Net) =
        record { proto = row.proto; port = row.port; cidr = net; allow = true } ∷ [] in
      has_row-peer_entries net nets (deny_rows row (entries ++ one) nets) rows
      ∙ ground (
        arith,
        has_row-deny_rows row (entries ++ one) nets,
        has_row-append entries one,
        has_row-one row.proto row.port net true,
      )

  any_net-nil : any_net [] ≡ false
  unfolding any_net
  any_net-nil = refl

  has_row-add_peer :
      (rows : List PortRow) (entries : List (HfAllow Net)) (p : Peer)
      → has_row (add_peer parse_cidr rows entries p)
        ≡ (has_row entries || has_port a b rows && peer_adds p)
  unfolding add_peer
  has_row-add_peer rows entries p = elim (Option-cases (parse_cidr p.cidr)) [
    | inl q ↦ ground arith
    | inr (net, q) ↦ elim (excepts_from-cases [] p.except) [
      | inl (x, y) ↦ ground arith
      | inr (l, x, y, z) ↦ ground (arith, has_row-peer_entries net l entries rows, any_net-nil)
    ]
  ]

  has_row-peers_from :
      (rows : List PortRow) (entries : List (HfAllow Net)) (ps : List Peer)
      → has_row (peers_from parse_cidr rows entries ps)
        ≡ (has_row entries || has_port a b rows && any_peer ps)
  unfolding peers_from any_peer
  has_row-peers_from rows entries [] = ground arith
  has_row-peers_from rows entries (p ∷ ps) =
      has_row-peers_from rows (add_peer parse_cidr rows entries p) ps
      ∙ ground (arith, has_row-add_peer rows entries p)

  has_row-hf_compile_rule :
      (entries : List (HfAllow Net)) (r : FwRule)
      → has_row (hf_compile_rule parse_cidr entries r) ≡ (has_row entries || rule_adds r)
  unfolding hf_compile_rule
  has_row-hf_compile_rule entries r =
      has_row-peers_from (hf_compile_ports r.ports) entries
        (if length r.peers == 0 then hf_any_peers else r.peers)
      ∙ ap
          (λ x.
            has_row entries
            || x && any_peer (if length r.peers == 0 then hf_any_peers else r.peers))
          (hf_compile_ports-covers a b r.ports)

  has_row-compile_rules :
      (entries : List (HfAllow Net)) (rs : List FwRule)
      → has_row (compile_rules parse_cidr entries rs) ≡ (has_row entries || any_rule rs)
  unfolding compile_rules any_rule
  has_row-compile_rules entries [] = ground arith
  has_row-compile_rules entries (r ∷ rs) =
      has_row-compile_rules (hf_compile_rule parse_cidr entries r) rs
      ∙ ground (arith, has_row-hf_compile_rule entries r)

  -- A firewall that selects the node and isolates a direction has such a rule in it.
  unfoldable pub any_ingress : List Firewall → Bool
  any_ingress [] = false
  any_ingress (f ∷ fs) =
      does_select f && (hf_isolation (counted f)).0 && any_rule f.ingress || any_ingress fs

  unfoldable pub any_egress : List Firewall → Bool
  any_egress [] = false
  any_egress (f ∷ fs) =
      does_select f && (hf_isolation (counted f)).1 && any_rule f.egress || any_egress fs

  has_row-into :
      (c : HfCompiled Net) (f : Firewall)
      → has_row (add_firewall parse_cidr c f).into
        ≡ (has_row c.into || does_select f && (hf_isolation (counted f)).0 && any_rule f.ingress)
  unfolding add_firewall
  has_row-into c f = ground (arith, has_row-compile_rules c.into f.ingress)

  has_row-out :
      (c : HfCompiled Net) (f : Firewall)
      → has_row (add_firewall parse_cidr c f).out
        ≡ (has_row c.out || does_select f && (hf_isolation (counted f)).1 && any_rule f.egress)
  unfolding add_firewall
  has_row-out c f = ground (arith, has_row-compile_rules c.out f.egress)

  has_row-compile_from :
      (c : HfCompiled Net) (fs : List Firewall)
      → (has_row (compile_from parse_cidr c fs).into ≡ (has_row c.into || any_ingress fs))
        × (has_row (compile_from parse_cidr c fs).out ≡ (has_row c.out || any_egress fs))
  unfolding compile_from any_ingress any_egress
  has_row-compile_from c [] = (ground arith, ground arith)
  has_row-compile_from c (f ∷ fs) =
      let (x, y) = has_row-compile_from (add_firewall parse_cidr c f) fs in
      (x ∙ ground (arith, has_row-into c f), y ∙ ground (arith, has_row-out c f))

  -- The rows of a node for a protocol and a port: some row of a direction has a network and a verdict that
  -- are looked for exactly if some firewall that selects the node and isolates the direction has a rule
  -- whose items cover the port, and a peer of it whose range and exceptions all parse, of which one
  -- is looked for, the range as allowed and the exceptions as denied.
  pub compile_host_firewalls-rows :
      (fs : List Firewall) (c : HfCompiled Net)
      → compile_host_firewalls parse_cidr fs ≡ some c
      → (has_row c.into ≡ any_ingress fs) × (has_row c.out ≡ any_egress fs)
  unfolding compile_host_firewalls has_row
  compile_host_firewalls-rows fs c h =
      elim (Bool-cases (validate_hf_compilation (map counted fs))) [
        | inr q ↦ absurd (ground arith)
        | inl q ↦
            let empty : HfCompiled Net = record {
              ingress = false;
              egress = false;
              into = [];
              out = [];
            } in
            let same : compile_from parse_cidr empty fs ≡ c = ground arith in
            let (x, y) = has_row-compile_from empty fs in
            (ap (λ k. has_row k.into) (sym same) ∙ x, ap (λ k. has_row k.out) (sym same) ∙ y)
      ]
