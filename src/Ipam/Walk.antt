-- ===== src/Ipam/Walk.antt =====
-- A scan that finishes has visited every claim, once and in order.
use cozyplane.Base.{
  ℕ, zero, suc, ◌+◌, ◌-◌, ◌≤◌, ◌≡◌, ◌≢◌, ◌⊎◌, refl, sym, ap, ◌∙◌, true, false, ◌||◌, List, [], ◌∷◌,
  ◌++◌, some, Bytes, is_empty, ne_of_is_empty, is_empty_of_ne, str_eq, str_eq_iff, Bool-cases,
  Option-cases, inl, inr, arith, ltb, length, length-append,
}
use cozyplane.Ipam.{
  Lister, Walked, finished, stopped, WalkError, visit_items, walk_pages, walk_claims,
}

-- What a visitor gathers of a list.
module _ {A : Type 0} {S : Type 0} where
  abbrev pub fold : (S → A → S) → S → List A → S
  fold visit s [] = s
  fold visit s (x ∷ xs) = fold visit (visit s x) xs

  fold-append :
      (visit : S → A → S) (s : S) (xs ys : List A)
      → fold visit s (xs ++ ys) ≡ fold visit (fold visit s xs) ys
  fold-append visit s [] ys = refl
  fold-append visit s (x ∷ xs) ys = fold-append visit (visit s x) xs ys

-- The claims that a chain of pages holds. Each page has at most 128, and is asked for with the token
-- of the page before; the tokens of two pages in a row differ, and the last page gives none. The chain
-- has at most so many pages, and starts at the page of that number and token.
pub data Pages {A : Type 0} (lister : Lister A) : ℕ → ℕ → Bytes → List A → Type 0 where
  last :
      {left page : ℕ} {token : Bytes} {items : List A}
      → lister.list page token ≡ some (items, [])
      → length items ≤ 128
      → Pages lister (suc left) page token items
  more :
      {left page : ℕ} {token : Bytes} {items rest : List A} (next : Bytes)
      → lister.list page token ≡ some (items, next)
      → length items ≤ 128
      → next ≢ []
      → next ≢ token
      → Pages lister left (page + 1) next rest
      → Pages lister (suc left) page token (items ++ rest)

pub Walked-cases :
    {S : Type 0}
    → (w : Walked S) → ((s : S) × (w ≡ finished s)) ⊎ ((e : WalkError) × (w ≡ stopped e))
Walked-cases (finished s) = inl (s, refl)
Walked-cases (stopped e) = inr (e, refl)

module _ {A : Type 0} {S : Type 0} (lister : Lister A) (visit : S → A → S) where
  visit_items-fold :
      (n : ℕ) (s s' : S) (items : List A)
      → visit_items lister visit n s items ≡ finished s'
      → s' ≡ fold visit s items
  unfolding visit_items
  visit_items-fold n s s' [] h = ground arith
  visit_items-fold n s s' (x ∷ xs) h = visit_items-fold (n + 1) (visit s x) s' xs (ground arith)

  is_empty_nil : (t : Bytes) → is_empty t ≡ true → t ≡ []
  unfolding is_empty
  is_empty_nil [] h = refl
  is_empty_nil (c ∷ t) h = absurd (ground arith)

  walk_pages-Pages :
      (left page n : ℕ) (token : Bytes) (total : ℕ) (s s' : S)
      → total ≤ 65536
      → walk_pages lister visit left page n token total s ≡ finished s'
      → (items : List A) × Pages lister left page token items
        × (s' ≡ fold visit s items)
        × (total + length items ≤ 65536)
  unfolding walk_pages
  walk_pages-Pages zero page n token total s s' l h = absurd (ground arith)
  walk_pages-Pages (suc left) page n token total s s' l h =
      elim (Option-cases (lister.list page token)) [
        | inl e ↦ absurd (ground arith)
        | inr ((items, next), e) ↦ elim (Walked-cases (visit_items lister visit (n + 1) s items)) [
          | inr (x, f) ↦ absurd (ground arith)
          | inl (s₁, f) ↦
              let g = visit_items-fold (n + 1) s s₁ items f in
              elim (Bool-cases (is_empty next)) [
                | inl q ↦
                    let nil = is_empty_nil next q in
                    (
                      items,
                      last (e ∙ ap (λ t. some (items, t)) nil) (ground arith),
                      ground arith,
                      ground arith,
                    )
                | inr q ↦
                    let n' = n + 1 + length items in
                    let (rest, pages, same, fits) =
                      walk_pages-Pages left (page + 1) (n' + 1) next (total + length items) s₁ s'
                        (ground arith) (ground arith) in
                    (
                      items ++ rest,
                      more next e (ground arith) (ne_of_is_empty next q)
                          (λ w. ground (arith, str_eq_iff next token)) pages,
                      same ∙ (ap (λ x. fold visit x rest) g ∙ sym (fold-append visit s items rest)),
                      ground (arith, length-append items rest),
                    )
              ]
        ]
      ]

  -- A scan that finishes has visited the claims of a whole chain of pages, each once and in order, and
  -- there are at most 65536 of them.
  pub walk_claims-Pages :
      (s s' : S)
      → walk_claims lister visit s ≡ finished s'
      → (items : List A) × Pages lister 512 0 [] items
        × (s' ≡ fold visit s items)
        × (length items ≤ 65536)
  unfolding walk_claims
  walk_claims-Pages s s' h =
      let (items, pages, same, fits) = walk_pages-Pages 512 0 0 [] 0 s s' (ground arith) h in
      (items, pages, same, ground arith)

  visit_items-live :
      ((n : ℕ) → lister.is_done n ≡ false)
      → (n : ℕ) (s : S) (items : List A)
      → visit_items lister visit n s items ≡ finished (fold visit s items)
  unfolding visit_items
  visit_items-live live n s [] = refl
  visit_items-live live n s (x ∷ xs) = rw (live n) (visit_items-live live (n + 1) (visit s x) xs)

  walk_pages-live :
      ((n : ℕ) → lister.is_done n ≡ false)
      → {left page : ℕ} {token : Bytes} {items : List A} → (n total : ℕ) (s : S)
      → Pages lister left page token items
      → total + length items ≤ 65536
      → walk_pages lister visit left page n token total s ≡ finished (fold visit s items)
  unfolding walk_pages is_empty
  walk_pages-live live {token = token} n total s (last {items = items} e small) l =
      let within : (ltb 128 (length items) || ltb (65536 - total) (length items)) ≡ false =
        ground arith in
      rw (live n, e, within, visit_items-live live (n + 1) s items, live (n + 1 + length items))
        refl
  walk_pages-live live {token = token} n total s
        (more {left} {page} {items = items} {rest = rest} next e small ne ne' pages) l =
      let sum = length-append items rest in
      let within : (ltb 128 (length items) || ltb (65536 - total) (length items)) ≡ false =
        ground arith in
      let some_more = is_empty_of_ne next ne in
      let moved : str_eq next token ≡ false = elim (Bool-cases (str_eq next token)) [
        | inl q ↦ absurd (ne' (ground (arith, str_eq_iff next token)))
        | inr q ↦ q
      ] in
      rw
        (
          live n,
          e,
          within,
          visit_items-live live (n + 1) s items,
          live (n + 1 + length items),
          some_more,
          moved,
        )
        (walk_pages-live live (n + 1 + length items + 1) (total + length items) (fold visit s items)
            pages (ground arith)
          ∙ ap finished (sym (fold-append visit s items rest)))

  -- A scan of a chain of at most 512 pages and 65536 claims finishes with all of them visited, if the
  -- context stays live.
  pub walk_claims-live :
      ((n : ℕ) → lister.is_done n ≡ false)
      → (s : S) (items : List A) → Pages lister 512 0 [] items
      → length items ≤ 65536
      → walk_claims lister visit s ≡ finished (fold visit s items)
  unfolding walk_claims
  walk_claims-live live s items pages l = walk_pages-live live 0 0 s pages (ground arith)
