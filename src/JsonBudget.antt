-- ===== src/JsonBudget.antt =====
-- internal/admission/budget.go: the bound on the structure of an admission review, before it is
-- decoded.
pub mod Exact
pub mod Examples
use cozyplane.Base.{
  ℕ, ◌+◌, Bool, true, false, ◌&&◌, List, [], ◌∷◌, Bytes, ltb, if◌then◌else◌, ℤ, pos, ltb_ℤ, ◌+ℤ◌,
  ◌-ℤ◌,
}

abbrev pub max_review_tokens : ℕ
max_review_tokens = 20000

-- A token of the JSON decoder: a string by its length, a delimiter, or another one.
pub data Token : Type 0 where
  text : ℕ → Token
  opens closes other : Token

-- A turn of the loop: whether the context is done, and what `Token` returns. A list of them ends at
-- the end of the input; `is_done` of the last turn, which finds it, comes apart.
pub data Turn : Type 0 where
  done : Turn
  bad_token : Turn
  token : Token → Turn

pub data BudgetError : Type 0 where
  no_error context_error syntax_error token_budget byte_budget depth_budget : BudgetError

abbrev pub long : Token → Bool
long (text n) = ltb 262144 n
long t = false

abbrev pub deeper : Token → ℤ → ℤ
deeper opens depth = depth +ℤ pos 1
deeper closes depth = depth -ℤ pos 1
deeper t depth = depth

abbrev is_delimiter : Token → Bool
is_delimiter opens = true
is_delimiter closes = true
is_delimiter t = false

-- `checkJSONBudget`, from a depth and a count of tokens.
unfoldable pub check_from : ℤ → ℕ → Bool → List Turn → BudgetError
check_from depth count is_done [] = if is_done then context_error else no_error
check_from depth count is_done (done ∷ turns) = context_error
check_from depth count is_done (bad_token ∷ turns) = syntax_error
check_from depth count is_done (token t ∷ turns) =
    let rest = check_from (deeper t depth) (count + 1) is_done turns in
    if ltb max_review_tokens (count + 1)
    then token_budget
    else if long t
    then byte_budget
    else if is_delimiter t && ltb_ℤ (pos 32) (deeper t depth)
    then depth_budget
    else rest

unfoldable pub check_json_budget : Bool → List Turn → BudgetError
check_json_budget is_done turns = check_from (pos 0) 0 is_done turns
