-- ===== src/JsonBudget/Examples.antt =====
-- A small review.
use cozyplane.Base.{◌≤◌, ◌≡◌, ◌↔◌, false, List, [], ◌∷◌, All, length, pos}
use cozyplane.JsonBudget.{Turn, text, opens, closes, token, no_error, check_json_budget}
use cozyplane.JsonBudget.Exact.{Short, Shallow, check_json_budget_exact}

abbrev review : List Turn
review = token opens ∷ token (text 4) ∷ token (text 7) ∷ token closes ∷ []

check_json_budget_exact_example :
    (check_json_budget false review ≡ no_error)
    ↔ ((false ≡ false) × (length review ≤ 20000) × All Short review × Shallow (pos 0) review)
check_json_budget_exact_example = check_json_budget_exact false review
