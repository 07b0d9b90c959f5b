-- ===== src/Ipam.antt =====
-- internal/ipam/claims.go: the scan of every claim that must be complete before an allocation.
pub mod Walk
pub mod Repair
pub mod Examples
use cozyplane.Base.{
  ℕ, zero, suc, ◌+◌, ◌-◌, Bool, true, false, ◌||◌, List, [], ◌∷◌, Option, none, some, Bytes,
  is_empty, str_eq, ltb, length, if◌then◌else◌,
}

abbrev pub claim_page_size : ℕ
claim_page_size = 128

abbrev pub max_claim_scan : ℕ
max_claim_scan = 65536

abbrev pub max_claim_pages : ℕ
max_claim_pages = 512

-- What a scan calls: the context's state at each time it is asked, and the pages by their number and
-- the token that they are asked for with. An error of the list is `none`.
pub record Lister (A : Type 0) : Type 0 where
  pub is_done : ℕ → Bool
  pub list : ℕ → Bytes → Option (List A × Bytes)

pub data WalkError : Type 0 where
  context_done list_error over_budget no_progress too_many_pages : WalkError

-- What the visitor has gathered, or the error.
pub data Walked (S : Type 0) : Type 0 where
  finished : S → Walked S
  stopped : WalkError → Walked S

module _ {A : Type 0} {S : Type 0} (lister : Lister A) (visit : S → A → S) where
  -- The loop over a page's items, with how often the context was asked.
  unfoldable pub visit_items : ℕ → S → List A → Walked S
  visit_items n s [] = finished s
  visit_items n s (x ∷ xs) =
      let rest = visit_items (n + 1) (visit s x) xs in
      if lister.is_done n then stopped context_done else rest

  -- The loop over the pages: the pages left, the number of the page, the context's count, the token,
  -- the items so far.
  unfoldable pub walk_pages : ℕ → ℕ → ℕ → Bytes → ℕ → S → Walked S
  walk_pages zero page n token total s = stopped too_many_pages
  walk_pages (suc left) page n token total s =
      if lister.is_done n then stopped context_done else elim (lister.list page token) [
        | none ↦ stopped list_error
        | some (items, next) ↦
            if ltb claim_page_size (length items) || ltb (max_claim_scan - total) (length items)
            then stopped over_budget
            else elim (visit_items (n + 1) s items) [
              | stopped e ↦ stopped e
              | finished s' ↦
                  let n' = n + 1 + length items in
                  let rest = walk_pages left (page + 1) (n' + 1) next (total + length items) s' in
                  if lister.is_done n'
                  then stopped context_done
                  else if is_empty next
                  then finished s'
                  else if str_eq next token
                  then stopped no_progress
                  else rest
            ]
      ]

  -- `WalkClaims`, with the state that the visitor gathers.
  unfoldable pub walk_claims : S → Walked S
  walk_claims s = walk_pages max_claim_pages 0 0 [] 0 s
