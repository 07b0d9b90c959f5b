-- ===== src/Ipam/Examples.antt =====
-- The theorems about the scan at two pages.
use cozyplane.Base.{
  ℕ, ◌≡◌, ◌≤◌, refl, false, List, [], ◌∷◌, some, str_eq, is_empty, arith, length, ◌==◌,
  if◌then◌else◌,
}
use cozyplane.Ipam.{Lister, finished, visit_items, walk_pages, walk_claims}
use cozyplane.Ipam.Walk.{Pages, last, more, fold, walk_claims-Pages, walk_claims-live}

abbrev two_pages : Lister ℕ
two_pages = record {
  is_done = λ n. false;
  list = λ page token. if page == 0 then some (5 ∷ 7 ∷ [], b'n' ∷ []) else some (9 ∷ [], []);
}

abbrev push : List ℕ → ℕ → List ℕ
push s x = x ∷ s

two_pages-scan : walk_claims two_pages push [] ≡ finished (9 ∷ 7 ∷ 5 ∷ [])
unfolding walk_claims walk_pages visit_items is_empty str_eq
two_pages-scan = refl

walk_claims-Pages_example :
    (items : List ℕ) × Pages two_pages 512 0 [] items
    × (9 ∷ 7 ∷ 5 ∷ [] ≡ fold push [] items)
    × (length items ≤ 65536)
walk_claims-Pages_example = walk_claims-Pages two_pages push [] (9 ∷ 7 ∷ 5 ∷ []) two_pages-scan

two_pages-Pages : Pages two_pages 512 0 [] (5 ∷ 7 ∷ 9 ∷ [])
two_pages-Pages = more (b'n' ∷ []) refl (omega arith) (λ h. cc) (λ h. cc) (last refl (omega arith))

walk_claims-live_example : walk_claims two_pages push [] ≡ finished (9 ∷ 7 ∷ 5 ∷ [])
walk_claims-live_example =
    walk_claims-live two_pages push (λ n. refl) [] (5 ∷ 7 ∷ 9 ∷ []) two_pages-Pages (omega arith)
