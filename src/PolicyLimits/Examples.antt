-- ===== src/PolicyLimits/Examples.antt =====
-- Small inputs within the limits.
use cozyplane.Base.{◌≤◌, ◌≡◌, ◌↔◌, true, List, [], ◌∷◌, length}
use cozyplane.PolicyLimits.{SecurityGroup, validate_sg_compilation}
use cozyplane.PolicyLimits.Groups.{ingress_rows, egress_rows, validate_sg_exact}

abbrev groups : List SecurityGroup
groups = record { ingress = 0 ∷ 5 ∷ []; egress = 1 ∷ [] } ∷ []

validate_sg_exact_example : (validate_sg_compilation groups 7 ≡ true) ↔ (
    (length groups ≤ 65536)
    × (7 ≤ 65536)
    × (ingress_rows groups ≤ 65536)
    × (egress_rows groups ≤ 65536))
validate_sg_exact_example = validate_sg_exact groups 7
