-- ===== src/PolicyLimits/HostFirewall.antt =====
-- The bound on host firewalls, `validateHFCompilation`.
use cozyplane.Base.{
  ℕ, ◌+◌, ◌*◌, Bool, true, false, ◌&&◌, ◌||◌, not, List, [], ◌∷◌, Option, none, some, ltb, ◌==◌,
  length, if◌then◌else◌, ℤ, pos, leb_ℤ, ltb_ℤ, ◌-ℤ◌, to_ℕ,
}
use cozyplane.PolicyLimits.{policy_row_limit, policy_work_limit}

-- The port and the end of its range.
pub record HfPort : Type 0 where
  pub port : ℤ
  pub end_port : ℤ

-- A rule: its peers by how many exceptions they have, and its ports.
pub record HfRule : Type 0 where
  pub peers : List ℕ
  pub ports : List HfPort

pub data PolicyType : Type 0 where
  ingress_type egress_type other_type : PolicyType

-- A firewall; `selects` is whether its node selector is valid and matches the node.
pub record HostFirewall : Type 0 where
  pub selects : Bool
  pub policy_types : List PolicyType
  pub ingress : List HfRule
  pub egress : List HfRule

abbrev sets : PolicyType → Bool × Bool → Bool × Bool
sets ingress_type (i, e) = (true, e)
sets egress_type (i, e) = (i, true)
sets other_type (i, e) = (i, e)

unfoldable pub isolation_from : Bool × Bool → List PolicyType → Bool × Bool
isolation_from b [] = b
isolation_from b (t ∷ ts) = isolation_from (sets t b) ts

-- `hfIsolation`.
unfoldable pub hf_isolation : HostFirewall → Bool × Bool
hf_isolation hf =
    if length hf.policy_types == 0
    then (true, ltb 0 (length hf.egress))
    else isolation_from (false, false) hf.policy_types

-- The rows of one port: none for a range that is empty or has more than 64.
abbrev pub rows_of_port : HfPort → ℕ
rows_of_port p =
    let hi = if leb_ℤ p.end_port (pos 0) && leb_ℤ (pos 0) p.end_port then p.port else p.end_port in
    if leb_ℤ p.port hi && ltb_ℤ (hi -ℤ p.port) (pos 64) then to_ℕ (hi -ℤ p.port) + 1 else 0

unfoldable pub port_rows : ℕ → List HfPort → ℕ
port_rows rows [] = rows
port_rows rows (p ∷ ps) = port_rows (rows + rows_of_port p) ps

unfoldable pub peer_rows : ℕ → List ℕ → ℕ
peer_rows rows [] = rows
peer_rows rows (except ∷ peers) = peer_rows (rows + (except + 1)) peers

-- `count`: the work after it, and the rule's rows; an error is `none`.
unfoldable pub count : ℕ → HfRule → Option (ℕ × ℕ)
count work r =
    let ports = port_rows (if length r.ports == 0 then 2 else 0) r.ports in
    let peers = peer_rows (if length r.peers == 0 then 2 else 0) r.peers in
    let work' = peer_rows (work + 1 + length r.ports) r.peers in
    if ltb policy_work_limit work' || ltb policy_row_limit ports || ltb policy_work_limit peers
    then none
    else some (work', ports * peers)

-- The loop over one direction's rules, with the work and the rows so far.
unfoldable pub count_rules : ℕ → ℕ → List HfRule → Option (ℕ × ℕ)
count_rules work rows [] = some (work, rows)
count_rules work rows (r ∷ rs) = elim (count work r) [
  | none ↦ none
  | some (work', n) ↦
      if ltb policy_row_limit (rows + n) then none else count_rules work' (rows + n) rs
]

unfoldable pub firewalls_fit : ℕ → ℕ → ℕ → List HostFirewall → Bool
firewalls_fit work ingress egress [] = true
firewalls_fit work ingress egress (hf ∷ hfs) =
    let (ing, eg) = hf_isolation hf in
    elim (if not hf.selects || not ing
      then some (work + 1, ingress)
      else count_rules (work + 1) ingress hf.ingress) [
        | none ↦ false
        | some (work', ingress') ↦
            elim (if not hf.selects || not eg
              then some (work', egress)
              else count_rules work' egress hf.egress) [
                | none ↦ false
                | some (work'', egress') ↦ firewalls_fit work'' ingress' egress' hfs
              ]
      ]

-- `validateHFCompilation`; an error is false.
unfoldable pub validate_hf_compilation : List HostFirewall → Bool
validate_hf_compilation hfs =
    if ltb policy_row_limit (length hfs) then false else firewalls_fit 0 0 0 hfs
