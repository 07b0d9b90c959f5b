-- ===== src/Base/Api.antt =====
-- The answers of a Kubernetes API server that the callers tell apart.
use mathlib.Core.Path.{◌≡◌, refl}
use mathlib.Core.Logic.{◌⊎◌, inl, inr}

-- The answer of a read.
pub data Read {ℓ} (A : Type ℓ) : Type ℓ where
  found : A → Read A
  not_found : Read A
  read_error : Read A

pub Read-cases :
    {A : Type 0} (r : Read A) → (r ≡ not_found) ⊎ ((r ≡ read_error) ⊎ ((a : A) × (r ≡ found a)))
Read-cases not_found = inl refl
Read-cases read_error = inr (inl refl)
Read-cases (found a) = inr (inr (a, refl))

-- The answer of a create, an update or a patch.
pub data Written : Type 0 where
  wrote conflict already_exists write_error : Written
