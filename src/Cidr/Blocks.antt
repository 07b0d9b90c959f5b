-- ===== src/Cidr/Blocks.antt =====
-- Ranges as intervals of one line of addresses, where two that meet are nested.
use cozyplane.Base.{
  ℕ, zero, suc, ◌+◌, ◌-◌, ◌*◌, ◌/◌, ◌^◌, ◌≤◌, ◌<◌, ◌≡◌, refl, sym, ap, ◌∙◌, Bool, true, false, ◌&&◌,
  not, inl, inr, Bool-cases, arith, ltb, leb, ◌==◌, if◌then◌else◌,
}
use native.Mathlib.Nat.{
  mul_assoc, suc-mul, pow-succ', mul-le-mul_right, lt_of_mul-lt-mul_right, le-div_iff_mul-le,
  div-lt_iff_lt-mul, one-le-pow, mul-div_cancel,
}
use mathlib.Core.Path.{subst}
use cozyplane.Cidr.{Addr, Prefix, width, block, same_family, contains, less}

pub pow-sum : (a n : ℕ) → 2 ^ (n + a) ≡ 2 ^ n * 2 ^ a
pow-sum a zero =
    let none_more : 2 ^ (zero + a) ≡ 2 ^ a = ap (λ k. 2 ^ k) (omega arith) in
    omega (arith, none_more)
pow-sum a (suc n) =
    let step : 2 ^ (suc n + a) ≡ 2 * 2 ^ (n + a) =
      ap (λ k. 2 ^ k) (omega arith) ∙ pow-succ' 2 (n + a) in
    step
    ∙ (ap (λ k. 2 * k) (pow-sum a n)
        ∙ (sym (mul_assoc 2 (2 ^ n) (2 ^ a)) ∙ ap (λ k. k * 2 ^ a) (sym (pow-succ' 2 n))))

pow-pos : (n : ℕ) → 1 ≤ 2 ^ n
pow-pos n = one-le-pow n 2 (omega arith)

-- The quotient of an aligned number.
quotient_interval :
    (s k x : ℕ) → 1 ≤ s → (x / s == k * s / s) ≡ (leb (k * s) x && ltb x (k * s + s))
quotient_interval s k x h =
    let own : k * s / s ≡ k = mul-div_cancel k h in
    let low = le-div_iff_mul-le {k = s} {x = k} {y = x} h in
    let high = div-lt_iff_lt-mul {k = s} {x = x} {y = suc k} h in
    let more : suc k * s ≡ k * s + s = suc-mul k s in ground (arith, own, low, high, more)

-- A block that starts in a larger one ends in it.
nest_small : (k j t m : ℕ) → j * t < k * (m * t) + m * t → j * t + t ≤ k * (m * t) + m * t
nest_small k j t m h =
    let whole : suc k * m * t ≡ k * (m * t) + m * t = mul_assoc (suc k) m t ∙ suc-mul k (m * t) in
    let below : j < suc k * m = lt_of_mul-lt-mul_right t (omega (arith, whole, h)) in
    let up : suc j * t ≤ suc k * m * t = mul-le-mul_right t below in
    omega (arith, whole, up, suc-mul j t)

-- A block that starts in a smaller one starts with it.
nest_large : (k j s m : ℕ) → k * s ≤ j * (m * s) → j * (m * s) < k * s + s → j * (m * s) ≡ k * s
nest_large k j s m l h =
    let whole : j * m * s ≡ j * (m * s) = mul_assoc j m s in
    let top : suc k * s ≡ k * s + s = suc-mul k s in
    let below : j * m < suc k = lt_of_mul-lt-mul_right s (omega (arith, whole, top, h)) in
    let at_most : j * m * s ≤ k * s = mul-le-mul_right s (omega (arith, below)) in
    omega (arith, whole, at_most)

-- The line: the addresses of IPv4, and then those of IPv6.
abbrev pub place : Addr → ℕ
place a = if a.is4 then a.value else 4294967296 + a.value

abbrev pub low : Prefix → ℕ
low p = place p.addr

-- A range that starts at a multiple of its size, within its family.
pub record Masked (p : Prefix) : Type 0 where
  pub index : ℕ
  pub starts : p.addr.value ≡ index * block p
  pub fits : if p.addr.is4 then p.addr.value + block p ≤ 4294967296 else Unit

abbrev pub Within : Addr → Type 0
Within a = if a.is4 then a.value < 4294967296 else Unit

value_interval :
    (p : Prefix) (x : ℕ)
    → Masked p
    → (x / block p == p.addr.value / block p)
      ≡ (leb p.addr.value x && ltb x (p.addr.value + block p))
value_interval p x m =
    subst (λ v. (x / block p == v / block p) ≡ (leb v x && ltb x (v + block p))) (sym m.starts)
      (quotient_interval (block p) m.index x (pow-pos (width p.addr - p.bits)))

-- A family split of the interval.
family_interval :
    (four four' : Bool) (v x s : ℕ)
    → (if four then v + s ≤ 4294967296 else Unit)
    → (if four' then x < 4294967296 else Unit)
    → ((if four then four' else not four') && (leb v x && ltb x (v + s))) ≡ (
        leb (if four then v else 4294967296 + v) (if four' then x else 4294967296 + x)
        && ltb (if four' then x else 4294967296 + x) ((if four then v else 4294967296 + v) + s))
family_interval true true v x s h k = refl
family_interval true false v x s h k = ground arith
family_interval false true v x s h k = ground arith
family_interval false false v x s h k = ground arith

-- What a range contains, by its place.
pub contains-place :
    (p : Prefix) (a : Addr)
    → Masked p
    → Within a
    → contains p a ≡ (leb (low p) (place a) && ltb (place a) (low p + block p))
unfolding contains
contains-place p a m w =
    ap (λ b. same_family p.addr a && b) (value_interval p a.value m)
    ∙ family_interval p.addr.is4 a.is4 p.addr.value a.value (block p) m.fits w

-- The order of addresses is that of their places.
family_less :
    (four four' : Bool) (v x : ℕ)
    → (if four then v < 4294967296 else Unit)
    → (if four' then x < 4294967296 else Unit)
    → (if (if four then four' else not four') then ltb v x else four)
      ≡ ltb (if four then v else 4294967296 + v) (if four' then x else 4294967296 + x)
family_less true true v x h k = refl
family_less true false v x h k = ground arith
family_less false true v x h k = ground arith
family_less false false v x h k = ground arith

pub less-place : (a b : Addr) → Within a → Within b → less a b ≡ ltb (place a) (place b)
less-place a b w w' = family_less a.is4 b.is4 a.value b.value w w'

pub block-pos : (p : Prefix) → 1 ≤ block p
block-pos p = pow-pos (width p.addr - p.bits)

family_Within :
    (four : Bool) (v s : ℕ)
    → 1 ≤ s
    → (if four then v + s ≤ 4294967296 else Unit)
    → if four then v < 4294967296 else Unit
family_Within true v s l h = omega arith
family_Within false v s l h = tt

pub Masked-Within : (p : Prefix) → Masked p → Within p.addr
Masked-Within p m = family_Within p.addr.is4 p.addr.value (block p) (block-pos p) m.fits

-- A range that starts within another one, and is no larger where they start together, ends within it.
nest_exponents :
    (k j e f : ℕ)
    → k * 2 ^ e ≤ j * 2 ^ f
    → j * 2 ^ f < k * 2 ^ e + 2 ^ e
    → (k * 2 ^ e ≡ j * 2 ^ f → 2 ^ f ≤ 2 ^ e)
    → j * 2 ^ f + 2 ^ f ≤ k * 2 ^ e + 2 ^ e
nest_exponents k j e f l h small = elim (Bool-cases (leb f e)) [
  | inl q ↦
      let split : 2 ^ e ≡ 2 ^ (e - f) * 2 ^ f =
        ap (λ n. 2 ^ n) (ground arith) ∙ pow-sum f (e - f) in
      subst (λ s. j * 2 ^ f + 2 ^ f ≤ k * s + s) (sym split)
        (nest_small k j (2 ^ f) (2 ^ (e - f)) (subst (λ s. j * 2 ^ f < k * s + s) split h))
  | inr q ↦
      let split : 2 ^ f ≡ 2 ^ (f - e) * 2 ^ e =
        ap (λ n. 2 ^ n) (ground arith) ∙ pow-sum e (f - e) in
      let together : j * 2 ^ f ≡ k * 2 ^ e =
        ap (λ s. j * s) split
        ∙ nest_large k j (2 ^ e) (2 ^ (f - e)) (subst (λ s. k * 2 ^ e ≤ j * s) split l)
            (subst (λ s. j * s < k * 2 ^ e + 2 ^ e) split h) in
      omega (arith, together, small (sym together))
]

nest_family :
    (four four' : Bool) (v x s t : ℕ)
    → (if four then v + s ≤ 4294967296 else Unit)
    → (if four' then x + t ≤ 4294967296 else Unit)
    → 1 ≤ s
    → 1 ≤ t
    → (if four then v else 4294967296 + v) ≤ (if four' then x else 4294967296 + x)
    → (if four' then x else 4294967296 + x) < (if four then v else 4294967296 + v) + s
    → (v ≤ x)
      × (x < v + s)
      × (v ≡ x → (if four then v else 4294967296 + v) ≡ (if four' then x else 4294967296 + x))
      × ((x + t ≤ v + s)
          → (if four' then x else 4294967296 + x) + t ≤ (if four then v else 4294967296 + v) + s)
nest_family true true v x s t h k p q l m = (l, m, λ e. e, λ e. e)
nest_family true false v x s t h k p q l m = absurd (omega arith)
nest_family false true v x s t h k p q l m = absurd (omega arith)
nest_family false false v x s t h k p q l m =
    (omega arith, omega arith, λ e. omega (arith, e), λ e. omega (arith, e))

pub nested :
    (p q : Prefix)
    → Masked p
    → Masked q
    → low p ≤ low q
    → low q < low p + block p
    → (low p ≡ low q → block q ≤ block p)
    → low q + block q ≤ low p + block p
nested p q m n l h small =
    let (a, b, c, d) =
      nest_family p.addr.is4 q.addr.is4 p.addr.value q.addr.value (block p) (block q) m.fits n.fits
        (block-pos p) (block-pos q) l h in
    let ends : n.index * block q + block q ≤ m.index * block p + block p =
      nest_exponents m.index n.index (width p.addr - p.bits) (width q.addr - q.bits)
        (omega (arith, a, m.starts, n.starts)) (omega (arith, b, m.starts, n.starts))
        (λ e. small (c (m.starts ∙ (e ∙ sym n.starts)))) in
    d (omega (arith, ends, m.starts, n.starts))
