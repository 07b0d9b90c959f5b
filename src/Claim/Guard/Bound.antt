-- ===== src/Claim/Guard/Bound.antt =====
-- The scan ends: it reads at most 65536 entries, and every round that goes on reads one.
use cozyplane.Base.{
  ℕ, zero, suc, ◌+◌, ◌≤◌, ◌<◌, ◌≡◌, ◌≢◌, refl, Bool, List, [], ◌∷◌, ◌++◌, Option, some, Bytes,
  length, ◌==◌, if◌then◌else◌, inl, inr, Option-cases, arith, ◌⊎◌,
}
use cozyplane.Claim.Guard.{
  PortClaim, Entry, Page, GuardError, out_of_fuel, Scan, Scanned, scanned, refused, guard_error,
  scan_entry, scan_page, last_key, conclude, page_problem, guard_loop, persistent_guard,
  persistent_scan_limit,
}

pub Scanned-cases :
    (r : Scanned) → ((s : Scan) × (r ≡ scanned s)) ⊎ ((x : GuardError) × (r ≡ refused x))
Scanned-cases (scanned s) = inl (s, refl)
Scanned-cases (refused x) = inr (x, refl)

module _ (root prefix : Bytes) (port : PortClaim) where
  -- An entry that is accepted is counted, and no other reason stops the scan than those of its own.
  scan_entry-counts :
      (start : Bytes) (s : Scan) (e : Entry) (s' : Scan)
      → scan_entry root prefix port start s e ≡ scanned s'
      → (s'.seen ≡ s.seen + 1) × (s'.seen ≤ persistent_scan_limit)
  unfolding scan_entry
  scan_entry-counts start s e s' h = ground arith

  scan_entry-fuel :
      (start : Bytes) (s : Scan) (e : Entry)
      → scan_entry root prefix port start s e ≢ refused out_of_fuel
  unfolding scan_entry
  scan_entry-fuel start s e h = ground arith

  scan_page-counts :
      (start : Bytes) (s : Scan) (es : List Entry) (s' : Scan)
      → scan_page root prefix port start s es ≡ scanned s'
      → s'.seen ≡ s.seen + length es
  unfolding scan_page
  scan_page-counts start s [] s' h = ground arith
  scan_page-counts start s (e ∷ es) s' h =
      elim (Scanned-cases (scan_entry root prefix port start s e)) [
        | inl (t, p) ↦
            ground (arith, scan_entry-counts start s e t p, scan_page-counts start t es s')
        | inr (x, p) ↦ ground arith
      ]

  scan_page-fuel :
      (start : Bytes) (s : Scan) (es : List Entry)
      → scan_page root prefix port start s es ≢ refused out_of_fuel
  unfolding scan_page
  scan_page-fuel start s [] h = cc
  scan_page-fuel start s (e ∷ es) h = elim (Scanned-cases (scan_entry root prefix port start s e)) [
    | inl (t, p) ↦ ground (arith, scan_page-fuel start t es)
    | inr (x, p) ↦ ground (arith, scan_entry-fuel start s e)
  ]

page_problem-fuel : (page : Page) → page_problem page ≢ some out_of_fuel
unfolding page_problem
page_problem-fuel page h = ground arith

conclude-fuel : (found : Bytes) (revision : ℕ) → conclude found revision ≢ guard_error out_of_fuel
unfolding conclude
conclude-fuel found revision h = ground arith

module _ (root prefix range_end : Bytes) (port : PortClaim) (cancelled : ℕ → Bool)
    (get : ℕ → Bytes → ℕ → Option Page) where
  guard_loop-fuel :
      (fuel i : ℕ) (start : Bytes) (revision : ℕ) (s : Scan)
      → persistent_scan_limit < fuel + s.seen
      → s.seen ≤ persistent_scan_limit
      → guard_loop root prefix range_end port cancelled get fuel i start revision s
        ≢ guard_error out_of_fuel
  unfolding guard_loop
  guard_loop-fuel zero i start revision s h k = absurd (omega arith)
  guard_loop-fuel (suc fuel) i start revision s h k = elim (Option-cases (get i start revision)) [
    | inl e ↦ λ r. ground arith
    | inr (page, e) ↦ elim (Scanned-cases (scan_page root prefix port start s page.kvs)) [
      | inr (x, p) ↦ λ r.
          ground (arith, scan_page-fuel root prefix port start s page.kvs, page_problem-fuel page)
      | inl (t, p) ↦ λ r. ground (
        arith,
        page_problem-fuel page,
        scan_page-counts root prefix port start s page.kvs t p,
        conclude-fuel t.found (if revision == 0 then page.revision else revision),
        guard_loop-fuel fuel (i + 1) (last_key page.kvs ++ 0 ∷ [])
            (if revision == 0 then page.revision else revision) t,
      )
    ]
  ]

  -- The scan always ends by one of its own returns, whatever the server answers.
  pub persistent_guard-ends :
      persistent_guard root prefix range_end port cancelled get ≢ guard_error out_of_fuel
  unfolding persistent_guard
  persistent_guard-ends =
      guard_loop-fuel (persistent_scan_limit + 1) 0 prefix 0 _ (omega arith) (omega arith)
