-- ===== src/VniAllocator/Unique.antt =====
-- No two allocators are handed the same VNI.
use cozyplane.Base.{
  ℕ, ◌+◌, ◌≤◌, ◌<◌, ◌≡◌, refl, sym, ap, ◌∙◌, true, false, List, [], ◌∷◌, none, some, inl, inr, ◌⊎◌,
  All, Any, Bool-cases, arith, ◌==◌, ==_iff, ℤ, pos, negsuc, ◌≤ℤ◌, ltb_ℤ, ◌+ℤ◌,
}
use cozyplane.Base.Api.{Read, found, not_found, read_error}
use cozyplane.NetId.{last_vni, valid_vni}
use cozyplane.Claim.Decimal.{format_int, parse_int}
use cozyplane.Claim.Decimal.RoundTrip.{parse_int-format_int}
use cozyplane.VniAllocator.{Lease, Claims, create_counter, update_counter, decide}
use cozyplane.VniAllocator.Store.{World, store, write, Seen, Reach, start, next}
use cozyplane.VniAllocator.Decisions.{decide_counter-cases, decide_bootstrap-cases}
use cozyplane.VniAllocator.Fresh.{decide-Covered}

-- VNIs that are valid and fall strictly from the first to the last.
abbrev pub Falling : List ℤ → Type 0
Falling [] = Unit
Falling (v ∷ vs) = (valid_vni v ≡ true) × All (λ u. ltb_ℤ u v ≡ true) vs × Falling vs

-- A stored version is at most the current one, and the current one if it has its number.
abbrev Before : Lease → Lease → Type 0
Before c p = (p.version ≤ c.version) × (p.version ≡ c.version → p ≡ c)

record Counted (w : World) : Type 0 where
  n : ℕ
  c : Lease
  rest : List ℤ
  current : w.counter ≡ some c
  text : c.annotation ≡ format_int (pos n)
  low : 100 ≤ n
  high : n ≤ 4194303
  latest : w.written ≡ pos n ∷ rest
  falls : Falling (pos n ∷ rest)
  versions : All (λ p. Before c p) w.past

abbrev Fine : World → Type 0
Fine w = ((w.counter ≡ none) × (w.past ≡ []) × (w.written ≡ [])) ⊎ Counted w

Before-suc :
    (v : ℤ) (c p : Lease)
    → Before c p
    → Before (record { annotation = format_int v; is_deleting = false; version = c.version + 1 }) p
Before-suc v c p (l, e) = (omega arith, λ q. absurd (omega arith))

All-Before-suc :
    (v : ℤ) (c : Lease) (ps : List Lease)
    → All (λ p. Before c p) ps
    → All
        (λ p.
          Before
            (record { annotation = format_int v; is_deleting = false; version = c.version + 1 })
            p)
        ps
All-Before-suc v c [] h = tt
All-Before-suc v c (p ∷ ps) (h, hs) = (Before-suc v c p h, All-Before-suc v c ps hs)

All-ltb_suc :
    (n : ℕ) (vs : List ℤ)
    → All (λ u. ltb_ℤ u (pos n) ≡ true) vs
    → All (λ u. ltb_ℤ u (pos (n + 1)) ≡ true) vs
All-ltb_suc n [] h = tt
All-ltb_suc n (v ∷ vs) (h, hs) = (ground arith, All-ltb_suc n vs hs)

valid_vni_lem : (n : ℕ) → 100 ≤ n → n ≤ 4194303 → valid_vni (pos n) ≡ true
unfolding valid_vni
valid_vni_lem n l h = ground arith

Falling-suc :
    (n : ℕ) (rest : List ℤ)
    → 99 ≤ n
    → n < 4194303
    → Falling (pos n ∷ rest)
    → Falling (pos (n + 1) ∷ pos n ∷ rest)
unfolding valid_vni
Falling-suc n rest l h (v, b, f) = (ground arith, (ground arith, All-ltb_suc n rest b), (v, b, f))

-- The version that was read is the one that is stored, if their numbers agree.
seen_current :
    (c l : Lease) (ps : List Lease)
    → All (λ p. Before c p) ps
    → Any (λ p. p ≡ l) ps
    → l.version ≡ c.version
    → l ≡ c
seen_current c l [] b h q = elim h [ ]
seen_current c l (p ∷ ps) (b, bs) (inl e) q = sym e ∙ b.1 (ap (λ x. x.version) e ∙ q)
seen_current c l (p ∷ ps) (b, bs) (inr s) q = seen_current c l ps bs s q

-- What the store holds after a write that it accepts.
Counted-store :
    (n : ℕ) (c : Lease) (w : World) (rest : List ℤ)
    → 99 ≤ n
    → n < 4194303
    → w.written ≡ pos n ∷ rest
    → Falling (pos n ∷ rest)
    → All (λ p. Before c p) w.past
    → Counted (store (pos (n + 1)) (c.version + 1) w)
Counted-store n c w rest l h e f b = record {
  n = n + 1;
  c = record {
    annotation = format_int (pos (n + 1));
    is_deleting = false;
    version = c.version + 1;
  };
  rest = w.written;
  current = refl;
  text = refl;
  low = omega arith;
  high = omega arith;
  latest = refl;
  falls = rw e (Falling-suc n rest l h f);
  versions = ((omega arith, λ q. refl), All-Before-suc (pos (n + 1)) c w.past b);
}

write-create : (v : ℤ) (w : World) → w.counter ≡ none → (write (create_counter v) w).1 ≡ store v 1 w
unfolding write
write-create v w e = ground arith

write-create_refused :
    (v : ℤ) (c : Lease) (w : World) → w.counter ≡ some c → (write (create_counter v) w).1 ≡ w
unfolding write
write-create_refused v c w e = ground arith

write-update :
    (l : Lease) (v : ℤ) (c : Lease) (w : World)
    → w.counter ≡ some c
    → (c.version == l.version) ≡ true
    → (write (update_counter l v) w).1 ≡ store v (c.version + 1) w
unfolding write
write-update l v c w e q = ground arith

write-update_conflict :
    (l : Lease) (v : ℤ) (c : Lease) (w : World)
    → w.counter ≡ some c
    → (c.version == l.version) ≡ false
    → (write (update_counter l v) w).1 ≡ w
unfolding write
write-update_conflict l v c w e q = ground arith

write-update_none :
    (l : Lease) (v : ℤ) (w : World) → w.counter ≡ none → (write (update_counter l v) w).1 ≡ w
unfolding write
write-update_none l v w e = ground arith

-- What the store holds after a create that it accepts.
Counted-create :
    (n : ℕ) (w : World)
    → 100 ≤ n
    → n ≤ 4194303
    → w.past ≡ []
    → w.written ≡ []
    → Counted (store (pos n) 1 w)
Counted-create n w l h p q = record {
  n = n;
  c = record { annotation = format_int (pos n); is_deleting = false; version = 1 };
  rest = [];
  current = refl;
  text = refl;
  low = l;
  high = h;
  latest = ap (λ x. pos n ∷ x) q;
  falls = (valid_vni_lem n l h, tt, tt);
  versions = ((omega arith, λ z. refl), rw p tt);
}

Fine-create :
    (w : World) (v : ℤ)
    → Fine w
    → pos 100 ≤ℤ v
    → v ≤ℤ last_vni
    → Fine (write (create_counter v) w).1
Fine-create w v (inr g) l h = rw (write-create_refused v g.c w g.current) (inr g)
Fine-create w (negsuc k) (inl g) l h = absurd (omega arith)
Fine-create w (pos n) (inl (e, p, q)) l h =
    rw (write-create (pos n) w e) (inr (Counted-create n w (omega arith) (omega arith) p q))

Fine-update :
    (w : World) (l : Lease) (h : ℤ)
    → Fine w
    → Any (λ p. p ≡ l) w.past
    → parse_int l.annotation ≡ some h
    → ltb_ℤ h last_vni ≡ true
    → Fine (write (update_counter l (h +ℤ pos 1)) w).1
Fine-update w l h (inl (e, p, q)) s t b = rw (write-update_none l (h +ℤ pos 1) w e) (inl (e, p, q))
Fine-update w l h (inr g) s t b = elim (Bool-cases (g.c.version == l.version)) [
  | inr q ↦ rw (write-update_conflict l (h +ℤ pos 1) g.c w g.current q) (inr g)
  | inl q ↦
      let same =
        seen_current g.c l w.past g.versions s (ground (arith, ==_iff g.c.version l.version)) in
      let value : some h ≡ some (pos g.n) =
        sym t
        ∙ (ap (λ x. parse_int x.annotation) same
            ∙ (ap parse_int g.text ∙ parse_int-format_int g.n (omega (arith, g.high)))) in
      let is_n : h ≡ pos g.n = ground arith in
      let below : g.n < 4194303 = ground arith in
      let one_up : h +ℤ pos 1 ≡ pos (g.n + 1) = ground arith in
      rw (one_up, write-update l (pos (g.n + 1)) g.c w g.current q)
        (inr
          (Counted-store g.n g.c w g.rest (omega (arith, g.low)) below g.latest g.falls g.versions))
]

Fine-decide :
    (w : World) (r : Read Lease) (claims : Claims)
    → Fine w
    → Seen w r
    → Fine (write (decide r claims) w).1
unfolding write decide
Fine-decide w read_error claims g s = g
Fine-decide w not_found claims g s = elim (decide_bootstrap-cases claims) [
  | inl (e, q) ↦ rw q g
  | inr (v, q) ↦
      let (high, same, low, top, cover) = decide-Covered claims v q in
      rw q (Fine-create w v g (ground arith) top)
]
Fine-decide w (found l) claims g s = elim (decide_counter-cases l) [
  | inl (e, q) ↦ rw q g
  | inr (h, t, low, b, q) ↦ rw q (Fine-update w l h g s t b)
]

Fine-Reach : {w : World} → Reach w → Fine w
Fine-Reach start = inl (refl, refl, refl)
Fine-Reach (next {w} reach r claims s) = Fine-decide w r claims (Fine-Reach reach) s

-- After any decisions on any versions of the counter that were stored, each written as the API server takes
-- it, the VNIs that were written are valid, and each is above every one before it.
pub written-Falling : {w : World} → Reach w → Falling w.written
written-Falling {w} reach = elim (Fine-Reach reach) [
  | inl (e, p, q) ↦ rw q tt
  | inr g ↦ rw g.latest g.falls
]
