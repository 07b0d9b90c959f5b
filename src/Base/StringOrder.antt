-- ===== src/Base/StringOrder.antt =====
-- The order of byte texts is strict and total.
use cozyplane.Base.Tests.{==_iff}
use cozyplane.Base.Strings.{Bytes, str_eq, str_ltb}
use mathlib.Core.Bool.{true, false}
use mathlib.Core.List.{[], ◌∷◌}
use mathlib.Core.Path.{◌≡◌, refl}
use native.Mathlib.Omega.{arith}

pub str_ltb_irrefl : (s : Bytes) → str_ltb s s ≡ false
unfolding str_ltb
str_ltb_irrefl [] = refl
str_ltb_irrefl (c ∷ s) = ground (arith, str_ltb_irrefl s)

pub str_ltb_total : (s t : Bytes) → str_eq s t ≡ false → str_ltb s t ≡ false → str_ltb t s ≡ true
unfolding str_ltb str_eq
str_ltb_total [] [] h k = absurd (ground arith)
str_ltb_total [] (d ∷ t) h k = absurd (ground arith)
str_ltb_total (c ∷ s) [] h k = refl
str_ltb_total (c ∷ s) (d ∷ t) h k = ground (arith, str_ltb_total s t, ==_iff c d)

pub str_ltb_trans : (s t u : Bytes) → str_ltb s t ≡ true → str_ltb t u ≡ true → str_ltb s u ≡ true
unfolding str_ltb
str_ltb_trans [] [] u h k = absurd (ground arith)
str_ltb_trans [] (d ∷ t) [] h k = absurd (ground arith)
str_ltb_trans [] (d ∷ t) (e ∷ u) h k = refl
str_ltb_trans (c ∷ s) [] u h k = absurd (ground arith)
str_ltb_trans (c ∷ s) (d ∷ t) [] h k = absurd (ground arith)
str_ltb_trans (c ∷ s) (d ∷ t) (e ∷ u) h k =
    ground (arith, str_ltb_trans s t u, ==_iff c d, ==_iff d e)

pub str_eq_sym : (s t : Bytes) → str_eq s t ≡ str_eq t s
unfolding str_eq
str_eq_sym [] [] = refl
str_eq_sym [] (d ∷ t) = refl
str_eq_sym (c ∷ s) [] = refl
str_eq_sym (c ∷ s) (d ∷ t) = ground (arith, str_eq_sym s t, ==_iff c d, ==_iff d c)
