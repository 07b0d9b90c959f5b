-- ===== src/PolicyLimits/Inputs.antt =====
-- The work that NetworkPolicies may ask for.
use cozyplane.Base.{
  ℕ, ◌+◌, ◌≤◌, ◌≡◌, ◌⊎◌, ◌↔◌, refl, ◌∙◌, false, List, [], ◌∷◌, inl, inr, some, arith, length,
}
use cozyplane.PolicyLimits.{
  Rule, NetworkPolicy, Counted, selector, peers, rules_work, add_work, pod_work, namespace_work,
  policy_work, np_input_work,
}

-- The sum of a cost over a list.
module _ {A : Type 0} where
  unfoldable pub total : (A → ℕ) → List A → ℕ
  total cost [] = 0
  total cost (a ∷ more) = cost a + total cost more

abbrev pub pod_cost : Counted → ℕ
pod_cost p = p.labels + p.addresses

abbrev pub namespace_cost : Counted → ℕ
namespace_cost n = n.labels

abbrev pub rule_cost : Rule → ℕ
rule_cost r = 1 + r.ports + peers r.peers

abbrev pub policy_cost : NetworkPolicy → ℕ
policy_cost np =
    selector (some np.pod_selector) + total rule_cost np.ingress + total rule_cost np.egress

-- The whole cost of the inputs: one for each object, and what each holds.
unfoldable pub input_cost : List Counted → List Counted → List NetworkPolicy → ℕ
input_cost pods nss nps =
    length pods
    + length nss
    + length nps
    + total pod_cost pods
    + total namespace_cost nss
    + total policy_cost nps

rules_work_lem : (w : ℕ) (rs : List Rule) → rules_work w rs ≡ w + total rule_cost rs
unfolding rules_work total
rules_work_lem w [] = ground arith
rules_work_lem w (r ∷ rs) = ground (arith, rules_work_lem (w + (1 + r.ports + peers r.peers)) rs)

policy_work_lem : (w : ℕ) (np : NetworkPolicy) → policy_work w np ≡ w + policy_cost np
unfolding policy_work
policy_work_lem w np = ground (
  arith,
  rules_work_lem (w + selector (some np.pod_selector)) np.ingress,
  rules_work_lem (rules_work (w + selector (some np.pod_selector)) np.ingress) np.egress,
)

module _ {A : Type 0} (next : ℕ → A → ℕ) (cost : A → ℕ)
    (adds : (w : ℕ) (a : A) → next w a ≡ w + cost a) where
  add_work_sound :
      (w : ℕ) (more : List A)
      → (w ≤ 1048576) ⊎ (1 ≤ length more)
      → (add_work next w more).exceeded ≡ false
      → ((add_work next w more).work ≡ w + total cost more)
        × ((add_work next w more).work ≤ 1048576)
  unfolding add_work total
  add_work_sound w [] (inl l) h = (ground arith, ground arith)
  add_work_sound w [] (inr l) h = absurd (ground arith)
  add_work_sound w (a ∷ more) l h =
      let here = adds w a in
      let (x, y) = add_work_sound (next w a) more (inl (ground arith)) (ground arith) in
      (ground arith, ground arith)

  add_work_sum :
      (w : ℕ) (more : List A)
      → (add_work next w more).exceeded ≡ false
      → (add_work next w more).work ≡ w + total cost more
  unfolding add_work total
  add_work_sum w [] h = ground arith
  add_work_sum w (a ∷ more) h =
      let here = adds w a in let x = add_work_sum (next w a) more (ground arith) in ground arith

  -- A run that starts within the limit, or has a turn, ends within it; else it has no turn.
  add_work_limit :
      (w : ℕ) (more : List A)
      → (add_work next w more).exceeded ≡ false
      → ((add_work next w more).work ≤ 1048576) ⊎ ((length more ≡ 0) × (total cost more ≡ 0))
  unfolding total
  add_work_limit w [] h = inr (refl, refl)
  add_work_limit w (a ∷ more) h =
      let (x, y) = add_work_sound w (a ∷ more) (inr (ground arith)) h in inl y

  add_work_complete :
      (w : ℕ) (more : List A)
      → w + total cost more ≤ 1048576
      → ((add_work next w more).exceeded ≡ false)
        × ((add_work next w more).work ≡ w + total cost more)
  unfolding add_work total
  add_work_complete w [] l = (refl, ground arith)
  add_work_complete w (a ∷ more) l =
      let here = adds w a in
      let (x, y) = add_work_complete (next w a) more (ground arith) in (ground arith, ground arith)

three :
    {a b c w₁ w₂ w₃ p q r : ℕ}
    → (w₁ ≤ 1048576) ⊎ ((a ≡ 0) × (p ≡ 0))
    → (w₂ ≤ 1048576) ⊎ ((b ≡ 0) × (q ≡ 0))
    → (w₃ ≤ 1048576) ⊎ ((c ≡ 0) × (r ≡ 0))
    → w₁ ≡ a + b + c + p
    → w₂ ≡ w₁ + q
    → w₃ ≡ w₂ + r
    → a + b + c + p + q + r ≤ 1048576
three l₀ l₁ l₂ s₀ s₁ s₂ = ground arith

-- Three runs in a row: the last ends within the limit unless there was no turn at all.
np_sound :
    (pods nss : List Counted) (nps : List NetworkPolicy)
    → (np_input_work pods nss nps).exceeded ≡ false
    → input_cost pods nss nps ≤ 1048576
unfolding np_input_work input_cost
np_sound pods nss nps h =
    let w₀ = length pods + length nss + length nps in
    let w₁ = (add_work pod_work w₀ pods).work in
    let w₂ = (add_work namespace_work w₁ nss).work in
    let h₀ : (add_work pod_work w₀ pods).exceeded ≡ false = ground arith in
    let h₁ : (add_work namespace_work w₁ nss).exceeded ≡ false = ground arith in
    let h₂ : (add_work policy_work w₂ nps).exceeded ≡ false = ground arith in
    let s₀ = add_work_sum pod_work pod_cost (λ w p. ground arith) w₀ pods h₀ in
    let s₁ = add_work_sum namespace_work namespace_cost (λ w p. ground arith) w₁ nss h₁ in
    let s₂ = add_work_sum policy_work policy_cost policy_work_lem w₂ nps h₂ in
    let l₀ = add_work_limit pod_work pod_cost (λ w p. ground arith) w₀ pods h₀ in
    let l₁ = add_work_limit namespace_work namespace_cost (λ w p. ground arith) w₁ nss h₁ in
    let l₂ = add_work_limit policy_work policy_cost policy_work_lem w₂ nps h₂ in
    three l₀ l₁ l₂ s₀ s₁ s₂

np_complete :
    (pods nss : List Counted) (nps : List NetworkPolicy)
    → input_cost pods nss nps ≤ 1048576
    → ((np_input_work pods nss nps).exceeded ≡ false)
      × ((np_input_work pods nss nps).work ≡ input_cost pods nss nps)
unfolding np_input_work input_cost
np_complete pods nss nps l =
    let w₀ = length pods + length nss + length nps in
    let (a, b) = add_work_complete pod_work pod_cost (λ w p. ground arith) w₀ pods (ground arith) in
    let w₁ = w₀ + total pod_cost pods in
    let (c, d) =
      add_work_complete namespace_work namespace_cost (λ w p. ground arith) w₁ nss (ground arith) in
    let w₂ = w₁ + total namespace_cost nss in
    let (e, f) = add_work_complete policy_work policy_cost policy_work_lem w₂ nps (ground arith) in
    rw (a, b, c, d) (e, f ∙ ground arith)

-- The inputs pass exactly if their whole cost is at most 2^20, and then the work that is returned is
-- that cost.
np_input_work_exact :
    (pods nss : List Counted) (nps : List NetworkPolicy)
    → ((np_input_work pods nss nps).exceeded ≡ false) ↔ (
        (input_cost pods nss nps ≤ 1048576)
        × ((np_input_work pods nss nps).work ≡ input_cost pods nss nps))
np_input_work_exact pods nss nps = (
  λ h. let l = np_sound pods nss nps h in let (_, w) = np_complete pods nss nps l in (l, w),
  λ (l, _). let (e, _) = np_complete pods nss nps l in e,
)
