-- ===== src/PolicyLimits/Groups.antt =====
-- Which SecurityGroups may be compiled.
use cozyplane.Base.{
  ℕ, ◌+◌, ◌≤◌, ◌≡◌, ◌↔◌, refl, ◌∙◌, true, false, ◌||◌, List, [], ◌∷◌, arith, if◌then◌else◌, ltb,
  length,
}
use cozyplane.PolicyLimits.{SecurityGroup, group_rows, groups_fit, validate_sg_compilation}

-- The rows of a group's rules: two for a rule with no ports or one, and one for each port else.
unfoldable pub rows : List ℕ → ℕ
rows [] = 0
rows (ports ∷ rules) = (if ltb ports 2 then 2 else ports) + rows rules

unfoldable pub ingress_rows : List SecurityGroup → ℕ
ingress_rows [] = 0
ingress_rows (sg ∷ groups) = rows sg.ingress + ingress_rows groups

unfoldable pub egress_rows : List SecurityGroup → ℕ
egress_rows [] = 0
egress_rows (sg ∷ groups) = rows sg.egress + egress_rows groups

group_rows_lem : (n : ℕ) (rules : List ℕ) → group_rows n rules ≡ n + rows rules
unfolding group_rows rows
group_rows_lem n [] = ground arith
group_rows_lem n (p ∷ rules) = ground (arith, group_rows_lem (n + (if ltb p 2 then 2 else p)) rules)

step :
    (i e w : ℕ) (sg : SecurityGroup) (groups : List SecurityGroup)
    → groups_fit i e w (sg ∷ groups) ≡ (
        if ltb 65536 (i + rows sg.ingress)
          || ltb 65536 (e + rows sg.egress)
          || ltb 1048576 (w + 1 + rows sg.ingress + rows sg.egress)
        then false
        else groups_fit
            (i + rows sg.ingress)
            (e + rows sg.egress)
            (w + 1 + rows sg.ingress + rows sg.egress)
            groups)
unfolding groups_fit
step i e w sg groups =
    rw
      (
        group_rows_lem i sg.ingress,
        group_rows_lem e sg.egress,
        group_rows_lem (w + 1) sg.ingress,
        group_rows_lem (w + 1 + rows sg.ingress) sg.egress,
      )
      refl

fit_sound :
    (i e w : ℕ) (groups : List SecurityGroup)
    → i ≤ 65536
    → e ≤ 65536
    → groups_fit i e w groups ≡ true
    → (i + ingress_rows groups ≤ 65536) × (e + egress_rows groups ≤ 65536)
unfolding ingress_rows egress_rows
fit_sound i e w [] hi he h = (ground arith, ground arith)
fit_sound i e w (sg ∷ groups) hi he h =
    let s = step i e w sg groups in
    let (a, b) =
      fit_sound (i + rows sg.ingress) (e + rows sg.egress)
        (w + 1 + rows sg.ingress + rows sg.egress) groups (ground arith) (ground arith)
        (ground arith) in
    (ground arith, ground arith)

fit_complete :
    (i e w : ℕ) (groups : List SecurityGroup)
    → i + ingress_rows groups ≤ 65536
    → e + egress_rows groups ≤ 65536
    → w + length groups + ingress_rows groups + egress_rows groups ≤ 1048576
    → groups_fit i e w groups ≡ true
unfolding ingress_rows egress_rows groups_fit
fit_complete i e w [] a b c = refl
fit_complete i e w (sg ∷ groups) a b c =
    let s = step i e w sg groups in
    let rest =
      fit_complete (i + rows sg.ingress) (e + rows sg.egress)
        (w + 1 + rows sg.ingress + rows sg.egress) groups (ground arith) (ground arith)
        (ground arith) in
    s ∙ ground arith

-- SecurityGroups may be compiled exactly if there are at most 65536 of them and as many Ports, and
-- their rules expand to at most 65536 rows of ingress and as many of egress. The separate budget of
-- work never decides: the others keep the work within it.
pub validate_sg_exact :
    (groups : List SecurityGroup) (ports : ℕ)
    → (validate_sg_compilation groups ports ≡ true) ↔ (
        (length groups ≤ 65536)
        × (ports ≤ 65536)
        × (ingress_rows groups ≤ 65536)
        × (egress_rows groups ≤ 65536))
unfolding validate_sg_compilation
validate_sg_exact groups ports = (
  λ h.
      let (a, b) = fit_sound 0 0 0 groups (ground arith) (ground arith) (ground arith) in
      (ground arith, ground arith, ground arith, ground arith),
  λ (a, b, c, d).
      let fits = fit_complete 0 0 0 groups (ground arith) (ground arith) (ground arith) in
      ground arith,
)
