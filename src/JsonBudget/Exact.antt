-- ===== src/JsonBudget/Exact.antt =====
-- Which reviews pass.
use cozyplane.Base.{
  ℕ, ◌+◌, ◌≤◌, ◌≡◌, ◌↔◌, refl, Bool, false, List, [], ◌∷◌, All, arith, length, ℤ, pos, ◌+ℤ◌, ◌-ℤ◌,
  ◌≤ℤ◌,
}
use cozyplane.JsonBudget.{
  text, opens, closes, other, Turn, done, bad_token, token, no_error, check_from, check_json_budget,
}

-- A turn that reads a token whose string, if it is one, is of at most 256 KiB.
abbrev pub Short : Turn → Type 0
Short done = ⊥
Short bad_token = ⊥
Short (token (text n)) = n ≤ 262144
Short (token opens) = Unit
Short (token closes) = Unit
Short (token other) = Unit

-- The nesting after each turn is at most 32 deep: an opening delimiter adds one, a closing one takes
-- one off.
abbrev pub Shallow : ℤ → List Turn → Type 0
Shallow depth [] = Unit
Shallow depth (done ∷ ts) = ⊥
Shallow depth (bad_token ∷ ts) = ⊥
Shallow depth (token (text n) ∷ ts) = (depth ≤ℤ pos 32) × Shallow depth ts
Shallow depth (token other ∷ ts) = (depth ≤ℤ pos 32) × Shallow depth ts
Shallow depth (token opens ∷ ts) = (depth +ℤ pos 1 ≤ℤ pos 32) × Shallow (depth +ℤ pos 1) ts
Shallow depth (token closes ∷ ts) = (depth -ℤ pos 1 ≤ℤ pos 32) × Shallow (depth -ℤ pos 1) ts

sound :
    (depth : ℤ) (count : ℕ) (is_done : Bool) (ts : List Turn)
    → depth ≤ℤ pos 32
    → count ≤ 20000
    → check_from depth count is_done ts ≡ no_error
    → (is_done ≡ false) × (count + length ts ≤ 20000) × All Short ts × Shallow depth ts
unfolding check_from
sound depth count is_done [] d c h = (ground arith, ground arith, tt, tt)
sound depth count is_done (done ∷ ts) d c h = absurd (ground arith)
sound depth count is_done (bad_token ∷ ts) d c h = absurd (ground arith)
sound depth count is_done (token (text n) ∷ ts) d c h =
    let (a, b, s, w) = sound depth (count + 1) is_done ts d (ground arith) (ground arith) in
    (a, ground arith, (ground arith, s), (d, w))
sound depth count is_done (token other ∷ ts) d c h =
    let (a, b, s, w) = sound depth (count + 1) is_done ts d (ground arith) (ground arith) in
    (a, ground arith, (tt, s), (d, w))
sound depth count is_done (token opens ∷ ts) d c h =
    let low : depth +ℤ pos 1 ≤ℤ pos 32 = ground arith in
    let (a, b, s, w) =
      sound (depth +ℤ pos 1) (count + 1) is_done ts low (ground arith) (ground arith) in
    (a, ground arith, (tt, s), (low, w))
sound depth count is_done (token closes ∷ ts) d c h =
    let low : depth -ℤ pos 1 ≤ℤ pos 32 = ground arith in
    let (a, b, s, w) =
      sound (depth -ℤ pos 1) (count + 1) is_done ts low (ground arith) (ground arith) in
    (a, ground arith, (tt, s), (low, w))

complete :
    (depth : ℤ) (count : ℕ) (ts : List Turn)
    → count + length ts ≤ 20000
    → All Short ts
    → Shallow depth ts
    → check_from depth count false ts ≡ no_error
unfolding check_from
complete depth count [] n s w = refl
complete depth count (done ∷ ts) n (s, ss) w = absurd s
complete depth count (bad_token ∷ ts) n (s, ss) w = absurd s
complete depth count (token (text k) ∷ ts) n (s, ss) (w, ws) =
    let rest = complete depth (count + 1) ts (ground arith) ss ws in ground arith
complete depth count (token other ∷ ts) n (s, ss) (w, ws) =
    let rest = complete depth (count + 1) ts (ground arith) ss ws in ground arith
complete depth count (token opens ∷ ts) n (s, ss) (w, ws) =
    let rest = complete (depth +ℤ pos 1) (count + 1) ts (ground arith) ss ws in ground arith
complete depth count (token closes ∷ ts) n (s, ss) (w, ws) =
    let rest = complete (depth -ℤ pos 1) (count + 1) ts (ground arith) ss ws in ground arith

-- A review passes exactly if the context is live to the end of the input, every token of it is read,
-- there are at most 20000, no string is longer than 256 KiB, and the nesting after each is at most 32
-- deep.
pub check_json_budget_exact :
    (is_done : Bool) (ts : List Turn)
    → (check_json_budget is_done ts ≡ no_error)
      ↔ ((is_done ≡ false) × (length ts ≤ 20000) × All Short ts × Shallow (pos 0) ts)
unfolding check_json_budget
check_json_budget_exact is_done ts = (
  λ h.
      let (a, b, c, d) = sound (pos 0) 0 is_done ts (ground arith) (ground arith) h in
      (a, ground arith, c, d),
  λ (a, b, c, d). rw a (complete (pos 0) 0 ts (ground arith) c d),
)
