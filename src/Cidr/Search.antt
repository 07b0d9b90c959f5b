-- ===== src/Cidr/Search.antt =====
-- The two neighbours of an address among spaced ranges tell whether a range meets any of them.
use cozyplane.Base.{
  ℕ, ◌+◌, ◌≤◌, ◌<◌, ◌≡◌, refl, ap, ◌∙◌, Bool, true, false, ◌&&◌, ◌||◌, List, [], ◌∷◌, Option, none,
  some, inl, inr, All, Bool-cases, arith, ltb, leb,
}
use cozyplane.Cidr.{Prefix, block, less, contains, around, meets}
use cozyplane.Cidr.Blocks.{Masked, Masked-Within, low, block-pos, contains-place, less-place}
use cozyplane.Cidr.Sorted.{inside, any_inside, Spaced}

-- Two ranges meet.
abbrev pub overlap : Prefix → Prefix → Bool
overlap p q = ltb (low p) (low q + block q) && ltb (low q) (low p + block p)

unfoldable pub any_overlap : Prefix → List Prefix → Bool
any_overlap p [] = false
any_overlap p (q ∷ qs) = overlap p q || any_overlap p qs

-- The test of the neighbours.
abbrev near : Prefix → Option Prefix × Option Prefix → Bool
near p (prev, at) =
    elim at [ none ↦ false | some q ↦ contains p q.addr ]
    || elim prev [ none ↦ false | some q ↦ contains q p.addr ]

around-less :
    (prev : Option Prefix) (p d : Prefix) (ds : List Prefix)
    → less d.addr p.addr ≡ true
    → around prev (d ∷ ds) p.addr ≡ around (some d) ds p.addr
unfolding around
around-less prev p d ds h = rw h refl

around-here :
    (prev : Option Prefix) (p d : Prefix) (ds : List Prefix)
    → less d.addr p.addr ≡ false
    → around prev (d ∷ ds) p.addr ≡ (prev, some d)
unfolding around
around-here prev p d ds h = rw h refl

-- Ranges further on start later.
Spaced-low :
    (p : Prefix) (n : ℕ) (ds : List Prefix)
    → Spaced n ds
    → low p + block p ≤ n
    → any_overlap p ds ≡ false
unfolding any_overlap
Spaced-low p n [] s l = refl
Spaced-low p n (d ∷ ds) (h, s) l = ground (arith, Spaced-low p (low d + block d) ds s (omega arith))

-- Where the first range starts after p, a later one that meets p comes after one that does.
first_overlaps :
    (p d : Prefix) (ds : List Prefix)
    → low p ≤ low d
    → Spaced (low d + block d) ds
    → any_overlap p ds ≡ true
    → overlap p d ≡ true
first_overlaps p d ds l s h = elim (Bool-cases (leb (low p + block p) (low d))) [
  | inl q ↦ let apart = Spaced-low p (low d + block d) ds s (ground arith) in absurd (ground arith)
  | inr q ↦ ground (arith, block-pos d)
]

-- What the previous neighbour adds to the test.
abbrev prev_overlap : Prefix → Option Prefix → Bool
prev_overlap p none = false
prev_overlap p (some q) = overlap p q

-- The previous neighbour starts before p, and ends where the others may start.
abbrev Prev : Prefix → ℕ → Option Prefix → Type 0
Prev p n none = Unit
Prev p n (some q) = Masked q × (low q < low p) × (low q + block q ≤ n)

near-here :
    (p d : Prefix) (n : ℕ) (prev : Option Prefix)
    → Masked p
    → Masked d
    → Prev p n prev
    → low p ≤ low d
    → near p (prev, some d) ≡ (overlap p d || prev_overlap p prev)
near-here p d n none m k h l =
    ground (arith, contains-place p d.addr m (Masked-Within d k), block-pos d)
near-here p d n (some q) m k (mq, a, b) l = ground (
  arith,
  contains-place p d.addr m (Masked-Within d k),
  contains-place q p.addr mq (Masked-Within p m),
  block-pos d,
  block-pos p,
)

near-end :
    (p : Prefix) (n : ℕ) (prev : Option Prefix)
    → Masked p
    → Prev p n prev
    → near p (prev, none) ≡ prev_overlap p prev
near-end p n none m h = refl
near-end p n (some q) m (mq, a, b) =
    ground (arith, contains-place q p.addr mq (Masked-Within p m), block-pos p)

ends_early :
    (p d : Prefix) (n : ℕ) (prev : Option Prefix)
    → Prev p n prev
    → n ≤ low d
    → low d < low p
    → prev_overlap p prev ≡ false
ends_early p d n none h l k = refl
ends_early p d n (some q) (m, a, b) l k = ground arith

near-around :
    (p : Prefix) (n : ℕ) (prev : Option Prefix) (ds : List Prefix)
    → Masked p
    → All Masked ds
    → Prev p n prev
    → Spaced n ds
    → near p (around prev ds p.addr) ≡ (prev_overlap p prev || any_overlap p ds)
unfolding around any_overlap
near-around p n prev [] m a h s = near-end p n prev m h ∙ ground arith
near-around p n prev (d ∷ ds) m (k, a) h (l, s) =
    let order = less-place d.addr p.addr (Masked-Within d k) (Masked-Within p m) in
    elim (Bool-cases (less d.addr p.addr)) [
      | inl e ↦
          let ih =
            near-around p (low d + block d) (some d) ds m a (k, ground arith, omega arith) s in
          let gone = ends_early p d n prev h l (ground arith) in
          ap (near p) (around-less prev p d ds e) ∙ (ih ∙ ground arith)
      | inr e ↦
          let here = near-here p d n prev m k h (ground arith) in
          let later = first_overlaps p d ds (ground arith) s in
          ap (near p) (around-here prev p d ds e) ∙ (here ∙ ground (arith, later))
    ]

-- The test meets exactly the ranges that overlap.
pub meets-any_overlap :
    (p : Prefix) (ds : List Prefix)
    → Masked p
    → All Masked ds
    → Spaced 0 ds
    → meets ds p ≡ any_overlap p ds
unfolding meets
meets-any_overlap p ds m a s = near-around p 0 none ds m a tt s

-- Overlapping ranges have a common address, and ranges with one overlap.
pub overlap-inside :
    (x : ℕ) (p : Prefix) (ds : List Prefix)
    → inside x p ≡ true
    → any_inside x ds ≡ true
    → any_overlap p ds ≡ true
unfolding any_inside any_overlap
overlap-inside x p [] h k = absurd (ground arith)
overlap-inside x p (d ∷ ds) h k = ground (arith, overlap-inside x p ds h)
