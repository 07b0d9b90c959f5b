-- ===== src/Base/Strings.antt =====
-- Go strings as lists of bytes, and the functions of the package `strings` that the program uses.
use Prim.Native.Nat.{ℕ}
use Prim.Native.Char.{code}
use Prim.Native.String.{String}
use mathlib.Core.Path.{◌≡◌, refl}
use mathlib.Core.Logic.{◌↔◌, inl, inr, ◌≢◌}
use mathlib.Core.Bool.{Bool, true, false, ◌&&◌, ◌||◌}
use mathlib.Core.List.{List, [], ◌∷◌, ◌++◌}
use mathlib.Core.Option.{Option, none, some}
use native.Mathlib.Omega.{arith}
use cozyplane.Base.Tests.{ltb, ◌==◌, if◌then◌else◌, Option-cases}
use cozyplane.Base.Lists.{All}

abbrev pub Bytes : Type 0
Bytes = List ℕ

-- The code points of a literal; these are its bytes when the text is ASCII.
abbrev pub codes : String → Bytes
codes String.[] = []
codes (String.◌∷◌ c s) = code c ∷ codes s

-- `s == t` of two Go strings.
unfoldable pub str_eq : Bytes → Bytes → Bool
str_eq [] [] = true
str_eq [] (d ∷ t) = false
str_eq (c ∷ s) [] = false
str_eq (c ∷ s) (d ∷ t) = c == d && str_eq s t

pub str_eq_iff : (s t : Bytes) → (str_eq s t ≡ true) ↔ (s ≡ t)
unfolding str_eq
str_eq_iff [] [] = (λ _. refl, λ _. refl)
str_eq_iff [] (d ∷ t) = (λ h. cc, λ h. cc)
str_eq_iff (c ∷ s) [] = (λ h. cc, λ h. cc)
str_eq_iff (c ∷ s) (d ∷ t) = ground (arith, str_eq_iff s t)

pub str_eq_refl : (s : Bytes) → str_eq s s ≡ true
str_eq_refl s = (str_eq_iff s s).1 refl

-- `s < t`, in the order of their bytes.
unfoldable pub str_ltb : Bytes → Bytes → Bool
str_ltb [] [] = false
str_ltb [] (d ∷ t) = true
str_ltb (c ∷ s) [] = false
str_ltb (c ∷ s) (d ∷ t) = ltb c d || c == d && str_ltb s t

-- `s == ""`.
unfoldable pub is_empty : Bytes → Bool
is_empty [] = true
is_empty (c ∷ s) = false

pub is_empty_of_ne : (s : Bytes) → s ≢ [] → is_empty s ≡ false
unfolding is_empty
is_empty_of_ne [] h = absurd (h refl)
is_empty_of_ne (c ∷ s) h = refl

pub ne_of_is_empty : (s : Bytes) → is_empty s ≡ false → s ≢ []
unfolding is_empty
ne_of_is_empty [] h = cc
ne_of_is_empty (c ∷ s) h = cc

-- `strings.CutPrefix(s, prefix)`.
unfoldable pub cut_prefix : Bytes → Bytes → Option Bytes
cut_prefix s [] = some s
cut_prefix [] (p ∷ ps) = none
cut_prefix (c ∷ s) (p ∷ ps) = if c == p then cut_prefix s ps else none

-- `strings.Cut(s, sep)` at a separator of one byte.
unfoldable pub cut : Bytes → ℕ → Option (Bytes × Bytes)
cut [] sep = none
cut (c ∷ s) sep =
    if c == sep
    then some ([], s)
    else elim (cut s sep) [ none ↦ none | some (l, r) ↦ some (c ∷ l, r) ]

-- The byte b does not occur.
abbrev pub Lacks : ℕ → Bytes → Type 0
Lacks b = All (λ c. c ≢ b)

pub cut_prefix-append : (p s : Bytes) → cut_prefix (p ++ s) p ≡ some s
unfolding cut_prefix
cut_prefix-append [] s = refl
cut_prefix-append (c ∷ p) s = ground (arith, cut_prefix-append p s)

-- A cut finds the first separator.
pub cut-append : (l r : Bytes) (sep : ℕ) → Lacks sep l → cut (l ++ sep ∷ r) sep ≡ some (l, r)
unfolding cut
cut-append [] r sep h = ground arith
cut-append (c ∷ l) r sep h = ground (arith, cut-append l r sep)

-- What a successful cut says of the text.
pub cut_sound :
    (s : Bytes) (sep : ℕ) (l r : Bytes) → cut s sep ≡ some (l, r) → (s ≡ l ++ sep ∷ r) × Lacks sep l
unfolding cut
cut_sound [] sep l r h = cc
cut_sound (c ∷ s) sep l r h = elim (Option-cases (cut s sep)) [
  | inl e ↦ ground arith
  | inr ((l', r'), e) ↦ ground (arith, cut_sound s sep l' r' e)
]

pub cut_prefix_sound : (s p r : Bytes) → cut_prefix s p ≡ some r → s ≡ p ++ r
unfolding cut_prefix
cut_prefix_sound s [] r h = ground arith
cut_prefix_sound [] (p ∷ ps) r h = cc
cut_prefix_sound (c ∷ s) (p ∷ ps) r h = ground (arith, cut_prefix_sound s ps r)
