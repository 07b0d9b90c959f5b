-- ===== src/Claim/Guard/Sound.antt =====
-- What a guard that is handed to the transaction says of the entries that were read for it.
use cozyplane.Base.{
  ℕ, zero, suc, ◌+◌, ◌≡◌, ◌≢◌, refl, Bool, true, false, List, [], ◌∷◌, ◌++◌, Option, none, some,
  Bytes, ◌==◌, if◌then◌else◌, inl, inr, Option-cases, arith, ◌⊎◌, All, All-append, is_empty,
  cut_prefix, append-nil, str_eq_iff,
}
use cozyplane.Grants.{is_none}
use cozyplane.Claim.Guard.{
  PortClaim, Entry, Page, Scan, scanned, Guarded, modified_below, same_persistent_nic, scan_entry,
  scan_page, last_key, conclude, page_problem, guard_loop, persistent_guard, persistent_scan_limit,
  match_stored,
}
use cozyplane.Claim.Guard.Bound.{Scanned-cases}

module _ (root prefix : Bytes) (port : PortClaim) where
  -- The entry decodes to the claim that its key names, and that claim is of another NIC.
  abbrev pub IsOther : Entry → Type 0
  IsOther e =
      (p : PortClaim) × (e.decoded ≡ some p)
      × (e.key ≡ root ++ p.name)
      × (same_persistent_nic port p ≡ false)

  in_range :
      (start : Bytes) (s : Scan) (e : Entry) (t : Scan)
      → scan_entry root prefix port start s e ≡ scanned t
      → is_none (cut_prefix e.key prefix) ≡ false
  unfolding scan_entry
  in_range start s e t h = ground arith

  stored :
      (start : Bytes) (s : Scan) (e : Entry) (t : Scan) (p : PortClaim)
      → e.decoded ≡ some p
      → scan_entry root prefix port start s e ≡ scanned t
      → match_stored root prefix port
          (record s { bytes_read = s.bytes_read + e.value_bytes; seen = s.seen + 1 })
          e.key
          p
        ≡ scanned t
  unfolding scan_entry
  stored start s e t p d h = ground arith

  module _ (below : cut_prefix root prefix ≡ none) where
    unnamed :
        (key name : Bytes)
        → key ≡ root ++ name
        → is_none (cut_prefix key prefix) ≡ false
        → is_empty name ≡ false
    unfolding is_empty
    unnamed key [] e h = rw (e, append-nil root, below) at h
    unnamed key (c ∷ name) e h = refl

    match-IsOther :
        (s : Scan) (key : Bytes) (p : PortClaim) (t : Scan)
        → is_none (cut_prefix key prefix) ≡ false
        → match_stored root prefix port s key p ≡ scanned t
        → is_empty t.found ≡ true
        → (is_empty s.found ≡ true) × (key ≡ root ++ p.name) × (same_persistent_nic port p ≡ false)
    unfolding match_stored
    match-IsOther s key p t h m e =
        ground (arith, str_eq_iff key (root ++ p.name), unnamed key p.name)

    scan_entry-IsOther :
        (start : Bytes) (s : Scan) (e : Entry) (t : Scan)
        → scan_entry root prefix port start s e ≡ scanned t
        → is_empty t.found ≡ true
        → (is_empty s.found ≡ true) × IsOther e
    unfolding scan_entry
    scan_entry-IsOther start s e t h m = elim (Option-cases e.decoded) [
      | inl n ↦ absurd (ground arith)
      | inr (p, d) ↦
          let s' : Scan = record s {
            bytes_read = s.bytes_read + e.value_bytes;
            seen = s.seen + 1;
          } in
          let (old, key_ok, other) =
            match-IsOther s' e.key p t (in_range start s e t h) (stored start s e t p d h) m in
          (old, (p, d, key_ok, other))
    ]

    scan_page-IsOther :
        (start : Bytes) (s : Scan) (es : List Entry) (t : Scan)
        → scan_page root prefix port start s es ≡ scanned t
        → is_empty t.found ≡ true
        → (is_empty s.found ≡ true) × All IsOther es
    unfolding scan_page
    scan_page-IsOther start s [] t h m = (ground arith, tt)
    scan_page-IsOther start s (e ∷ es) t h m =
        elim (Scanned-cases (scan_entry root prefix port start s e)) [
          | inl (u, p) ↦
              let (mid, rest) = scan_page-IsOther start u es t (rw (p, scan_page) at h) m in
              let (old, first) = scan_entry-IsOther start s e u p mid in (old, (first, rest))
          | inr (x, p) ↦ absurd (ground arith)
        ]

-- The entries of the answers that the scan reads, in order.
module _ (get : ℕ → Bytes → ℕ → Option Page) where
  unfoldable pub entries_read : ℕ → ℕ → Bytes → ℕ → List Entry
  entries_read zero i start revision = []
  entries_read (suc fuel) i start revision = elim (get i start revision) [
    | none ↦ []
    | some page ↦
        let revision' = if revision == 0 then page.revision else revision in
        let rest = entries_read fuel (i + 1) (last_key page.kvs ++ 0 ∷ []) revision' in
        page.kvs ++ (if page.more then rest else [])
  ]

module _ (root prefix range_end : Bytes) (port : PortClaim) (cancelled : ℕ → Bool)
    (get : ℕ → Bytes → ℕ → Option Page) (below : cut_prefix root prefix ≡ none) where
  conclude-below :
      (found : Bytes) (revision r : ℕ)
      → conclude found revision ≡ modified_below r
      → (is_empty found ≡ true) × (r ≡ revision + 1)
  unfolding conclude
  conclude-below found revision r h = ground arith

  -- The revision of the first answer is kept.
  abbrev pinned : ℕ → Page → ℕ
  pinned revision page = if revision == 0 then page.revision else revision

  abbrev loop : ℕ → ℕ → Bytes → ℕ → Scan → Guarded
  loop = guard_loop root prefix range_end port cancelled get

  -- A round that leads to a guard: it ends the scan, or the next one leads to the same guard.
  round :
      (fuel i : ℕ) (start : Bytes) (revision : ℕ) (s : Scan) (page : Page) (t : Scan) (r : ℕ)
      → get i start revision ≡ some page
      → scan_page root prefix port start s page.kvs ≡ scanned t
      → loop (suc fuel) i start revision s ≡ modified_below r
      → ((page.more ≡ false) × (conclude t.found (pinned revision page) ≡ modified_below r))
        ⊎ ((page.more ≡ true)
            × (loop fuel (i + 1) (last_key page.kvs ++ 0 ∷ []) (pinned revision page) t
                ≡ modified_below r))
  unfolding guard_loop
  round fuel i start revision s page t r g p h = ground arith

  answered :
      (fuel i : ℕ) (start : Bytes) (revision : ℕ) (s : Scan) (r : ℕ)
      → loop (suc fuel) i start revision s ≡ modified_below r
      → (page : Page) × (t : Scan) × (get i start revision ≡ some page)
        × (scan_page root prefix port start s page.kvs ≡ scanned t)
        × (page.revision ≢ 0)
  unfolding guard_loop page_problem
  answered fuel i start revision s r h = elim (Option-cases (get i start revision)) [
    | inl e ↦ absurd (ground arith)
    | inr (page, e) ↦ elim (Scanned-cases (scan_page root prefix port start s page.kvs)) [
      | inl (t, p) ↦ (page, t, e, p, λ z. ground arith)
      | inr (x, p) ↦ absurd (ground arith)
    ]
  ]

  entries-last :
      (fuel i : ℕ) (start : Bytes) (revision : ℕ) (page : Page)
      → get i start revision ≡ some page
      → page.more ≡ false
      → entries_read get (suc fuel) i start revision ≡ page.kvs
  unfolding entries_read
  entries-last fuel i start revision page g m = ground (arith, append-nil page.kvs)

  entries-more :
      (fuel i : ℕ) (start : Bytes) (revision : ℕ) (page : Page)
      → get i start revision ≡ some page
      → page.more ≡ true
      → entries_read get (suc fuel) i start revision
        ≡ page.kvs
          ++ entries_read get fuel (i + 1) (last_key page.kvs ++ 0 ∷ []) (pinned revision page)
  unfolding entries_read
  entries-more fuel i start revision page g m = ground arith

  guard_loop-IsOther :
      (fuel i : ℕ) (start : Bytes) (revision : ℕ) (s : Scan) (r : ℕ)
      → loop fuel i start revision s ≡ modified_below r
      → (is_empty s.found ≡ true)
        × All (IsOther root prefix port) (entries_read get fuel i start revision)
        × (revision ≢ 0 → r ≡ revision + 1)
  guard_loop-IsOther zero i start revision s r h = unfold guard_loop in absurd (ground arith)
  guard_loop-IsOther (suc fuel) i start revision s r h =
      let (page, t, g, p, positive) = answered fuel i start revision s r h in
      elim (round fuel i start revision s page t r g p h) [
        | inl (last, done) ↦
            let (none_found, bound) = conclude-below t.found (pinned revision page) r done in
            let (old, others) =
              scan_page-IsOther root prefix port below start s page.kvs t p none_found in
            (old, rw (entries-last fuel i start revision page g last) others, λ z. ground arith)
        | inr (more, next) ↦
            let (none_found, others, bound) =
              guard_loop-IsOther fuel (i + 1) (last_key page.kvs ++ 0 ∷ []) (pinned revision page) t
                r next in
            let (old, here) =
              scan_page-IsOther root prefix port below start s page.kvs t p none_found in
            (
              old,
              rw (entries-more fuel i start revision page g more)
                  (All-append _ page.kvs _ here others),
              λ z. ground (arith, bound),
            )
      ]

  first_bound :
      (fuel : ℕ) (s : Scan) (page : Page) (t : Scan) (r : ℕ)
      → get 0 prefix 0 ≡ some page
      → scan_page root prefix port prefix s page.kvs ≡ scanned t
      → page.revision ≢ 0
      → loop (suc fuel) 0 prefix 0 s ≡ modified_below r
      → r ≡ page.revision + 1
  first_bound fuel s page t r g p positive h = elim (round fuel 0 prefix 0 s page t r g p h) [
    | inl (last, done) ↦ (conclude-below t.found page.revision r done).1
    | inr (more, next) ↦
        (guard_loop-IsOther fuel 1 (last_key page.kvs ++ 0 ∷ []) page.revision t r next).2 positive
  ]

  -- What is known once the scan hands a guard to the transaction: every entry that it read is the
  -- claim of another NIC, stored under the key of its name, and the bound of the guard is one above the
  -- revision of the first answer. The directory does not start with the scan's prefix.
  pub persistent_guard_sound :
      (r : ℕ)
      → persistent_guard root prefix range_end port cancelled get ≡ modified_below r
      → (page : Page) × (get 0 prefix 0 ≡ some page)
        × (r ≡ page.revision + 1)
        × All (IsOther root prefix port) (entries_read get (persistent_scan_limit + 1) 0 prefix 0)
  unfolding persistent_guard
  persistent_guard_sound r h =
      let s : Scan = record { found = []; seen = 0; bytes_read = 0 } in
      let (page, t, g, p, positive) = answered persistent_scan_limit 0 prefix 0 s r h in
      (
        page,
        g,
        first_bound persistent_scan_limit s page t r g p positive h,
        (guard_loop-IsOther _ 0 prefix 0 s r h).1,
      )
