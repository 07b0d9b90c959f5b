-- ===== src/Cidr/Sorted.antt =====
-- The sorted ranges, and those of them that are kept.
use cozyplane.Base.{
  ℕ, ◌+◌, ◌-◌, ◌≤◌, ◌<◌, ◌≡◌, refl, ◌∙◌, Bool, true, false, ◌&&◌, ◌||◌, not, List, [], ◌∷◌, none,
  some, inl, inr, All, Bool-cases, arith, ltb, leb, if◌then◌else◌,
}
use native.Mathlib.Nat.{pow-le-pow_right}
use cozyplane.Cidr.{Prefix, block, contains, before, insert_prefix, sort_prefixes, keep_disjoint}
use cozyplane.Cidr.Blocks.{Masked, Masked-Within, low, contains-place, less-place, nested}

-- An address by its place in a range, and in some range of a list.
abbrev pub inside : ℕ → Prefix → Bool
inside x p = leb (low p) x && ltb x (low p + block p)

unfoldable pub any_inside : ℕ → List Prefix → Bool
any_inside x [] = false
any_inside x (p ∷ ps) = inside x p || any_inside x ps

-- The order of the sort.
abbrev pub Le : Prefix → Prefix → Type 0
Le p q = (low p ≤ low q) × (low p ≡ low q → block q ≤ block p)

Le_trans : (p q r : Prefix) → Le p q → Le q r → Le p r
Le_trans p q r (a, b) (c, d) = (omega arith, λ e. omega (arith, b (omega arith), d (omega arith)))

abbrev pub Sorted : List Prefix → Type 0
Sorted [] = Unit
Sorted (p ∷ ps) = All (Le p) ps × Sorted ps

-- A longer prefix at one place is smaller.
family_block :
    (four four' : Bool) (v x b c : ℕ)
    → (if four then v < 4294967296 else Unit)
    → (if four' then x < 4294967296 else Unit)
    → (if four then v else 4294967296 + v) ≡ (if four' then x else 4294967296 + x)
    → b ≤ c
    → (if four' then 32 else 128) - c ≤ (if four then 32 else 128) - b
family_block true true v x b c h k e l = omega arith
family_block true false v x b c h k e l = absurd (omega arith)
family_block false true v x b c h k e l = absurd (omega arith)
family_block false false v x b c h k e l = omega arith

block_le :
    (p q : Prefix) → Masked p → Masked q → low p ≡ low q → p.bits ≤ q.bits → block q ≤ block p
block_le p q m n e l = pow-le-pow_right (omega arith) (
    family_block p.addr.is4 q.addr.is4 p.addr.value q.addr.value p.bits q.bits (Masked-Within p m)
      (Masked-Within q n) e l)

before-Le : (p q : Prefix) → Masked p → Masked q → before p q ≡ true → Le p q
before-Le p q m n h =
    let pq = less-place p.addr q.addr (Masked-Within p m) (Masked-Within q n) in
    let qp = less-place q.addr p.addr (Masked-Within q n) (Masked-Within p m) in
    let facts : (ltb (low p) (low q) || not (ltb (low q) (low p)) && ltb p.bits q.bits) ≡ true =
      ground (arith, pq, qp) in
    (ground arith, λ e. block_le p q m n e (ground arith))

not-before-Le : (p q : Prefix) → Masked p → Masked q → before q p ≡ false → Le p q
not-before-Le p q m n h =
    let pq = less-place p.addr q.addr (Masked-Within p m) (Masked-Within q n) in
    let qp = less-place q.addr p.addr (Masked-Within q n) (Masked-Within p m) in
    let facts : (ltb (low q) (low p) || not (ltb (low p) (low q)) && ltb q.bits p.bits) ≡ false =
      ground (arith, pq, qp) in
    (ground arith, λ e. block_le p q m n e (ground arith))

All-Le_trans : (p q : Prefix) (rs : List Prefix) → Le p q → All (Le q) rs → All (Le p) rs
All-Le_trans p q [] l h = tt
All-Le_trans p q (r ∷ rs) l (h, hs) = (Le_trans p q r l h, All-Le_trans p q rs l hs)

All-insert_prefix :
    (P : Prefix → Type 0) (p : Prefix) (qs : List Prefix)
    → P p
    → All P qs
    → All P (insert_prefix p qs)
unfolding insert_prefix
All-insert_prefix P p [] h a = (h, tt)
All-insert_prefix P p (q ∷ qs) h (k, a) = elim (Bool-cases (before q p)) [
  | inl e ↦ rw e (k, All-insert_prefix P p qs h a)
  | inr e ↦ rw e (h, (k, a))
]

Sorted-insert_prefix :
    (p : Prefix) (qs : List Prefix)
    → Masked p
    → All Masked qs
    → Sorted qs
    → Sorted (insert_prefix p qs)
unfolding insert_prefix
Sorted-insert_prefix p [] m a s = (tt, tt)
Sorted-insert_prefix p (q ∷ qs) m (n, a) (h, s) = elim (Bool-cases (before q p)) [
  | inl e ↦
      rw e (All-insert_prefix (Le q) p qs (before-Le q p n m e) h, Sorted-insert_prefix p qs m a s)
  | inr e ↦
      let first = not-before-Le p q m n e in rw e ((first, All-Le_trans p q qs first h), (h, s))
]

any_inside-insert_prefix :
    (x : ℕ) (p : Prefix) (qs : List Prefix)
    → any_inside x (insert_prefix p qs) ≡ (inside x p || any_inside x qs)
unfolding insert_prefix any_inside
any_inside-insert_prefix x p [] = refl
any_inside-insert_prefix x p (q ∷ qs) = elim (Bool-cases (before q p)) [
  | inl e ↦ rw e (ground (arith, any_inside-insert_prefix x p qs))
  | inr e ↦ rw e refl
]

pub All-sort_prefixes :
    (P : Prefix → Type 0) (ps : List Prefix) → All P ps → All P (sort_prefixes ps)
unfolding sort_prefixes
All-sort_prefixes P [] a = tt
All-sort_prefixes P (p ∷ ps) (h, a) =
    All-insert_prefix P p (sort_prefixes ps) h (All-sort_prefixes P ps a)

pub Sorted-sort_prefixes : (ps : List Prefix) → All Masked ps → Sorted (sort_prefixes ps)
unfolding sort_prefixes
Sorted-sort_prefixes [] a = tt
Sorted-sort_prefixes (p ∷ ps) (h, a) =
    Sorted-insert_prefix p (sort_prefixes ps) h (All-sort_prefixes Masked ps a)
      (Sorted-sort_prefixes ps a)

pub any_inside-sort_prefixes :
    (x : ℕ) (ps : List Prefix) → any_inside x (sort_prefixes ps) ≡ any_inside x ps
unfolding sort_prefixes any_inside
any_inside-sort_prefixes x [] = refl
any_inside-sort_prefixes x (p ∷ ps) =
    any_inside-insert_prefix x p (sort_prefixes ps) ∙ ground (arith, any_inside-sort_prefixes x ps)

-- Ranges that follow each other from a place on, without meeting.
abbrev pub Spaced : ℕ → List Prefix → Type 0
Spaced n [] = Unit
Spaced n (d ∷ ds) = (n ≤ low d) × Spaced (low d + block d) ds

-- What is kept after a range.
record Kept (d : Prefix) (ps : List Prefix) (ds : List Prefix) : Type 0 where
  masked : All Masked ds
  spaced : Spaced (low d + block d) ds
  covers : (x : ℕ) → (inside x d || any_inside x ds) ≡ (inside x d || any_inside x ps)

keep_contained :
    (d p : Prefix) (ps : List Prefix)
    → contains d p.addr ≡ true
    → keep_disjoint (some d) (p ∷ ps) ≡ keep_disjoint (some d) ps
unfolding keep_disjoint
keep_contained d p ps h = rw h refl

keep_apart :
    (d p : Prefix) (ps : List Prefix)
    → contains d p.addr ≡ false
    → keep_disjoint (some d) (p ∷ ps) ≡ p ∷ keep_disjoint (some p) ps
unfolding keep_disjoint
keep_apart d p ps h = rw h refl

inside-nested :
    (d p : Prefix) (x : ℕ)
    → Masked d
    → Masked p
    → Le d p
    → contains d p.addr ≡ true
    → inside x p ≡ true
    → inside x d ≡ true
inside-nested d p x m n (l, small) h k =
    let at = contains-place d p.addr m (Masked-Within p n) in
    let ends = nested d p m n l (ground arith) small in ground arith

keep_disjoint-Kept :
    (d : Prefix) (ps : List Prefix)
    → Masked d
    → All Masked ps
    → All (Le d) ps
    → Sorted ps
    → Kept d ps (keep_disjoint (some d) ps)
unfolding any_inside keep_disjoint
keep_disjoint-Kept d [] m a l s = record { masked = tt; spaced = tt; covers = λ x. refl }
keep_disjoint-Kept d (p ∷ ps) m (n, a) (l, ls) (h, s) = elim (Bool-cases (contains d p.addr)) [
  | inl e ↦
      let rest = keep_disjoint-Kept d ps m a ls s in
      rw (keep_contained d p ps e) (record {
        masked = rest.masked;
        spaced = rest.spaced;
        covers = λ x. rest.covers x ∙ ground (arith, inside-nested d p x m n l e);
      })
  | inr e ↦
      let rest = keep_disjoint-Kept p ps n a h s in
      let at = contains-place d p.addr m (Masked-Within p n) in
      rw (keep_apart d p ps e) (record {
        masked = (n, rest.masked);
        spaced = (ground (arith, l.0), rest.spaced);
        covers = λ x. ground (arith, rest.covers x);
      })
]

-- What is kept of the sorted ranges is spaced, and holds the same addresses.
pub keep_disjoint-any_inside :
    (ps : List Prefix)
    → All Masked ps
    → Sorted ps
    → All Masked (keep_disjoint none ps)
      × Spaced 0 (keep_disjoint none ps)
      × ((x : ℕ) → any_inside x (keep_disjoint none ps) ≡ any_inside x ps)
unfolding keep_disjoint any_inside
keep_disjoint-any_inside [] a s = (tt, tt, λ x. refl)
keep_disjoint-any_inside (p ∷ ps) (m, a) (h, s) =
    let rest = keep_disjoint-Kept p ps m a h s in
    ((m, rest.masked), (omega arith, rest.spaced), λ x. rest.covers x)
