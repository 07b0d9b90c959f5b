-- ===== src/Cidr/Overlap.antt =====
-- Two lists of ranges overlap exactly if some address is in a range of each.
use cozyplane.Base.{
  ℕ, ◌≡◌, ◌↔◌, sym, ◌∙◌, true, List, [], ◌∷◌, Option, none, some, inl, inr, Bytes, All, Any,
  Bool-cases, Option-cases, arith, leb,
}
use mathlib.Core.Path.{subst}
use cozyplane.Cidr.{
  Addr, Prefix, contains, overlap_prefix, parsed, sort_prefixes, keep_disjoint, meets, any_meets,
  cidrs_overlap,
}
use cozyplane.Cidr.Parsed.{Valid, overlap_prefix-Masked}
use cozyplane.Cidr.Blocks.{Masked, Masked-Within, Within, low, block-pos, contains-place, place}
use cozyplane.Cidr.Sorted.{
  inside, any_inside, All-sort_prefixes, Sorted-sort_prefixes, any_inside-sort_prefixes,
  keep_disjoint-any_inside,
}
use cozyplane.Cidr.Search.{overlap, any_overlap, meets-any_overlap, overlap-inside}

-- An address that two ranges share.
overlap-place :
    (p q : Prefix)
    → Masked p
    → Masked q
    → overlap p q ≡ true
    → (x : Addr) × Within x × (inside (place x) p ≡ true) × (inside (place x) q ≡ true)
overlap-place p q m n h = elim (Bool-cases (leb (low p) (low q))) [
  | inl l ↦ (q.addr, Masked-Within q n, ground (arith, block-pos q), ground (arith, block-pos q))
  | inr l ↦ (p.addr, Masked-Within p m, ground (arith, block-pos p), ground (arith, block-pos p))
]

any_overlap-place :
    (p : Prefix) (qs : List Prefix)
    → Masked p
    → All Masked qs
    → any_overlap p qs ≡ true
    → (x : Addr) × Within x × (inside (place x) p ≡ true) × (any_inside (place x) qs ≡ true)
unfolding any_overlap any_inside
any_overlap-place p [] m a h = absurd (ground arith)
any_overlap-place p (q ∷ qs) m (n, a) h = elim (Bool-cases (overlap p q)) [
  | inl o ↦ let (x, w, i, j) = overlap-place p q m n o in (x, w, i, ground arith)
  | inr o ↦ let (x, w, i, j) = any_overlap-place p qs m a (ground arith) in (x, w, i, ground arith)
]

-- The address is in some range of the list.
abbrev pub Shared : Addr → List Prefix → Type 0
Shared x ps = Any (λ p. contains p x ≡ true) ps

any_inside-Shared :
    (x : Addr) (ps : List Prefix)
    → Within x
    → All Masked ps
    → any_inside (place x) ps ≡ true
    → Shared x ps
unfolding any_inside
any_inside-Shared x [] w a h = absurd (ground arith)
any_inside-Shared x (p ∷ ps) w (m, a) h = elim (Bool-cases (inside (place x) p)) [
  | inl i ↦ inl (contains-place p x m w ∙ i)
  | inr i ↦ inr (any_inside-Shared x ps w a (ground arith))
]

Shared-any_inside :
    (x : Addr) (ps : List Prefix)
    → Within x
    → All Masked ps
    → Shared x ps
    → any_inside (place x) ps ≡ true
unfolding any_inside
Shared-any_inside x [] w a h = elim h [ ]
Shared-any_inside x (p ∷ ps) w (m, a) (inl h) = ground (arith, contains-place p x m w)
Shared-any_inside x (p ∷ ps) w (m, a) (inr h) = ground (arith, Shared-any_inside x ps w a h)

module _ (parse : Bytes → Option Prefix)
    (valid : (s : Bytes) (p : Prefix) → parse s ≡ some p → Valid p) where
  parsed-none :
      (s : Bytes) (ss : List Bytes)
      → overlap_prefix parse s ≡ none
      → parsed parse (s ∷ ss) ≡ parsed parse ss
  unfolding parsed
  parsed-none s ss e = ground arith

  parsed-some :
      (s : Bytes) (ss : List Bytes) (p : Prefix)
      → overlap_prefix parse s ≡ some p
      → parsed parse (s ∷ ss) ≡ p ∷ parsed parse ss
  unfolding parsed
  parsed-some s ss p e = ground arith

  parsed-Masked : (ss : List Bytes) → All Masked (parsed parse ss)
  unfolding parsed
  parsed-Masked [] = tt
  parsed-Masked (s ∷ ss) = elim (Option-cases (overlap_prefix parse s)) [
    | inl e ↦ subst (All Masked) (sym (parsed-none s ss e)) (parsed-Masked ss)
    | inr (p, e) ↦
        subst (All Masked) (sym (parsed-some s ss p e))
          (overlap_prefix-Masked parse valid s p e, parsed-Masked ss)
  ]

  -- What is kept of the second list.
  abbrev kept : List Bytes → List Prefix
  kept b = keep_disjoint none (sort_prefixes (parsed parse b))

  kept_lem :
      (b : List Bytes)
      → All Masked (kept b)
        × ((p : Prefix) → Masked p → meets (kept b) p ≡ any_overlap p (kept b))
        × ((x : ℕ) → any_inside x (kept b) ≡ any_inside x (parsed parse b))
  kept_lem b =
      let all = parsed-Masked b in
      let sorted_all = All-sort_prefixes Masked (parsed parse b) all in
      let (m, s, c) =
        keep_disjoint-any_inside (sort_prefixes (parsed parse b)) sorted_all
          (Sorted-sort_prefixes (parsed parse b) all) in
      (
        m,
        λ p n. meets-any_overlap p (kept b) n m s,
        λ x. c x ∙ any_inside-sort_prefixes x (parsed parse b),
      )

  -- One range of the first list against the second list.
  meets-Shared :
      (b : List Bytes) (p : Prefix)
      → Masked p
      → meets (kept b) p ≡ true
      → (x : Addr) × Within x × (contains p x ≡ true) × Shared x (parsed parse b)
  meets-Shared b p n h =
      let (m, meet, cover) = kept_lem b in
      let (x, w, i, j) = any_overlap-place p (kept b) n m (sym (meet p n) ∙ h) in
      (
        x,
        w,
        contains-place p x n w ∙ i,
        any_inside-Shared x (parsed parse b) w (parsed-Masked b) (sym (cover (place x)) ∙ j),
      )

  Shared-meets :
      (b : List Bytes) (p : Prefix) (x : Addr)
      → Masked p
      → Within x
      → contains p x ≡ true
      → Shared x (parsed parse b)
      → meets (kept b) p ≡ true
  Shared-meets b p x n w h k =
      let (m, meet, cover) = kept_lem b in
      let there = cover (place x) ∙ Shared-any_inside x (parsed parse b) w (parsed-Masked b) k in
      meet p n ∙ overlap-inside (place x) p (kept b) (sym (contains-place p x n w) ∙ h) there

  any_meets-Shared :
      (b a : List Bytes)
      → any_meets parse (kept b) a ≡ true
      → (x : Addr) × Within x × Shared x (parsed parse a) × Shared x (parsed parse b)
  unfolding any_meets parsed
  any_meets-Shared b [] h = absurd (ground arith)
  any_meets-Shared b (s ∷ a) h = elim (Option-cases (overlap_prefix parse s)) [
    | inl e ↦
        let (x, w, i, j) = any_meets-Shared b a (ground arith) in
        (x, w, subst (Shared x) (sym (parsed-none s a e)) i, j)
    | inr (p, e) ↦ elim (Bool-cases (meets (kept b) p)) [
      | inl q ↦
          let (x, w, i, j) = meets-Shared b p (overlap_prefix-Masked parse valid s p e) q in
          (x, w, subst (Shared x) (sym (parsed-some s a p e)) (inl i), j)
      | inr q ↦
          let (x, w, i, j) = any_meets-Shared b a (ground arith) in
          (x, w, subst (Shared x) (sym (parsed-some s a p e)) (inr i), j)
    ]
  ]

  Shared-any_meets :
      (b a : List Bytes) (x : Addr)
      → Within x
      → Shared x (parsed parse a)
      → Shared x (parsed parse b)
      → any_meets parse (kept b) a ≡ true
  unfolding any_meets parsed
  Shared-any_meets b [] x w h k = elim h [ ]
  Shared-any_meets b (s ∷ a) x w h k = elim (Option-cases (overlap_prefix parse s)) [
    | inl e ↦
        let rest = Shared-any_meets b a x w (subst (Shared x) (parsed-none s a e) h) k in
        ground arith
    | inr (p, e) ↦ elim (subst (Shared x) (parsed-some s a p e) h) [
      | inl i ↦
          let here = Shared-meets b p x (overlap_prefix-Masked parse valid s p e) w i k in
          ground arith
      | inr i ↦ let rest = Shared-any_meets b a x w i k in ground arith
    ]
  ]

  -- Two lists of ranges overlap exactly if some address, of either family, is in a range that parses of
  -- each list, where mapped ranges stand for those of IPv4. `netip.ParsePrefix` answers with a length and
  -- a value within its family.
  pub cidrs_overlap-Shared :
      (a b : List Bytes)
      → (cidrs_overlap parse a b ≡ true)
        ↔ ((x : Addr) × Within x × Shared x (parsed parse a) × Shared x (parsed parse b))
  unfolding cidrs_overlap parsed
  cidrs_overlap-Shared [] b = (λ h. absurd (ground arith), λ h. let (x, w, i, j) = h in elim i [ ])
  cidrs_overlap-Shared (s ∷ a) [] =
      (λ h. absurd (ground arith), λ h. let (x, w, i, j) = h in elim j [ ])
  cidrs_overlap-Shared (s ∷ a) (t ∷ b) = (
    λ h. any_meets-Shared (t ∷ b) (s ∷ a) (ground arith),
    λ h. let (x, w, i, j) = h in let run = Shared-any_meets (t ∷ b) (s ∷ a) x w i j in ground arith,
  )
