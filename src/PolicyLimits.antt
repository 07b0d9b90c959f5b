-- ===== src/PolicyLimits.antt =====
-- cmd/agent/policy_limits.go: the agent's preflight bounds on what compiling policies may cost.
pub mod Inputs
pub mod Groups
pub mod HostFirewall
pub mod Examples
use cozyplane.Base.{
  ℕ, ◌+◌, ◌-◌, Bool, true, false, ◌&&◌, ◌||◌, not, List, [], ◌∷◌, Option, none, some, Bytes, ltb,
  leb, length, if◌then◌else◌,
}

abbrev pub policy_row_limit : ℕ
policy_row_limit = 65536

abbrev pub policy_work_limit : ℕ
policy_work_limit = 1048576

-- What is counted of a label selector: its labels, and the values of each expression.
pub record LabelSelector : Type 0 where
  pub match_labels : ℕ
  pub match_expressions : List ℕ

pub record NetworkPolicyPeer : Type 0 where
  pub pod_selector : Option LabelSelector
  pub namespace_selector : Option LabelSelector
  pub ip_block_except : Option ℕ

-- A rule: how many ports it has, and its peers.
pub record Rule : Type 0 where
  pub ports : ℕ
  pub peers : List NetworkPolicyPeer

pub record NetworkPolicy : Type 0 where
  pub pod_selector : LabelSelector
  pub ingress : List Rule
  pub egress : List Rule

-- A Pod or a Namespace, by how many labels and addresses it has.
pub record Counted : Type 0 where
  pub labels : ℕ
  pub addresses : ℕ

unfoldable pub sum : List ℕ → ℕ
sum [] = 0
sum (n ∷ ns) = n + sum ns

-- `selector`; a nil selector is `none`.
unfoldable pub selector : Option LabelSelector → ℕ
selector none = 0
selector (some s) = s.match_labels + length s.match_expressions + sum s.match_expressions

abbrev pub block : Option ℕ → ℕ
block none = 0
block (some except) = except + 1

-- `peers`.
unfoldable pub peers_from : ℕ → List NetworkPolicyPeer → ℕ
peers_from n [] = n
peers_from n (p ∷ ps) =
    peers_from
      (n + (selector p.pod_selector + selector p.namespace_selector) + block p.ip_block_except) ps

unfoldable pub peers : List NetworkPolicyPeer → ℕ
peers ps = peers_from (length ps) ps

unfoldable pub rules_work : ℕ → List Rule → ℕ
rules_work work [] = work
rules_work work (r ∷ rs) = rules_work (work + (1 + r.ports + peers r.peers)) rs

-- `work`, and whether the check on it failed.
pub record Work : Type 0 where
  pub work : ℕ
  pub exceeded : Bool

abbrev pub within_limit : ℕ → Bool
within_limit work = not (ltb policy_work_limit work)

-- A loop that adds to the work and checks it at each turn.
module _ {A : Type 0} where
  unfoldable pub add_work : (ℕ → A → ℕ) → ℕ → List A → Work
  add_work next work [] = record { work = work; exceeded = false }
  add_work next work (a ∷ more) =
      let rest = add_work next (next work a) more in
      if within_limit (next work a) then rest else record { work = next work a; exceeded = true }

abbrev pub pod_work : ℕ → Counted → ℕ
pod_work work p = work + (p.labels + p.addresses)

abbrev pub namespace_work : ℕ → Counted → ℕ
namespace_work work n = work + n.labels

unfoldable pub policy_work : ℕ → NetworkPolicy → ℕ
policy_work work np =
    rules_work (rules_work (work + selector (some np.pod_selector)) np.ingress) np.egress

abbrev pub and_then : Work → (ℕ → Work) → Work
and_then w next = if w.exceeded then w else next w.work

-- `npInputWork`.
unfoldable pub np_input_work : List Counted → List Counted → List NetworkPolicy → Work
np_input_work pods nss nps =
    and_then (add_work pod_work (length pods + length nss + length nps) pods) (λ work.
      and_then (add_work namespace_work work nss) (λ work'. add_work policy_work work' nps))

-- A SecurityGroup, by how many ports each of its rules has.
pub record SecurityGroup : Type 0 where
  pub ingress : List ℕ
  pub egress : List ℕ

unfoldable pub group_rows : ℕ → List ℕ → ℕ
group_rows rows [] = rows
group_rows rows (ports ∷ rules) = group_rows (rows + (if ltb ports 2 then 2 else ports)) rules

unfoldable pub groups_fit : ℕ → ℕ → ℕ → List SecurityGroup → Bool
groups_fit ingress egress work [] = true
groups_fit ingress egress work (sg ∷ groups) =
    let ingress' = group_rows ingress sg.ingress in
    let egress' = group_rows egress sg.egress in
    let work' = group_rows (group_rows (work + 1) sg.ingress) sg.egress in
    let rest = groups_fit ingress' egress' work' groups in
    if ltb policy_row_limit ingress' || ltb policy_row_limit egress' || ltb policy_work_limit work'
    then false
    else rest

-- `validateSGCompilation`, for that many Ports; an error is false.
unfoldable pub validate_sg_compilation : List SecurityGroup → ℕ → Bool
validate_sg_compilation groups ports =
    if ltb policy_row_limit (length groups) || ltb policy_row_limit ports
    then false
    else groups_fit 0 0 0 groups
