-- ===== src/Claim/Update.antt =====
-- pkg/registry/sdn/port/strategy.go and pkg/registry/sdn/servicevip/strategy.go: `ValidateUpdate`, by
-- the fields that the claims here have, and the write of an update that passes. The checks on the MAC
-- address, a ServiceVIP's VPC and its ports are left out, so that more updates pass here.
use cozyplane.Base.{
  ℕ, ◌≡◌, Bool, true, false, ◌&&◌, ◌||◌, not, List, [], ◌∷◌, Option, none, some, Bytes, str_eq,
  str_eq_iff, inl, inr, arith, Option-cases, Bool-cases, All, ◌⊎◌, if◌then◌else◌, ◌∙◌,
}
use mathlib.Core.Path.{subst}
use cozyplane.Claim.Guard.{PortClaim, is_persistent, ref_eq}
use cozyplane.Claim.Store.{ClaimObject, port, service_vip, unsupported, Row, absent}
use cozyplane.Claim.Validate.{Kind, ports, vips, IsNamed}

-- `validatePersistentUpdate`.
unfoldable pub persistent_update_ok : PortClaim → PortClaim → Bool
persistent_update_ok next old =
    str_eq next.vm_name old.vm_name
    && str_eq next.vm_nic old.vm_nic
    && (not (is_persistent old) || str_eq next.pod_namespace old.pod_namespace)

-- `ValidateUpdate` of a kind. That an update keeps the name is what the API server's own validation of
-- the metadata documents; an object of one kind does not replace one of the other.
unfoldable pub update_ok : ClaimObject → ClaimObject → Bool
update_ok (port next) (port old) =
    str_eq next.name old.name
    && str_eq next.ip old.ip
    && ref_eq next.vpc_ref old.vpc_ref
    && persistent_update_ok next old
update_ok (service_vip name ip) (service_vip old_name old_ip) =
    str_eq name old_name && str_eq ip old_ip
update_ok next old = false

-- The update of the row of a key, written at a revision; `none` if there is no such row
-- (`AllowCreateOnUpdate` is false) or if the update is refused.
unfoldable pub update : Bytes → ClaimObject → ℕ → List Row → Option (List Row)
update key next revision [] = none
update key next revision (r ∷ rows) =
    let rest = update key next revision rows in
    if str_eq r.key key
    then if update_ok next r.object
      then some (record { key = r.key; object = next; mod_revision = revision } ∷ rows)
      else none
    else elim rest [ none ↦ none | some rows' ↦ some (r ∷ rows') ]

-- An update that passes keeps the name.
pub update_ok-IsNamed :
    (next old : ClaimObject) (k : Kind) (name : Bytes)
    → update_ok next old ≡ true
    → IsNamed k name old
    → IsNamed k name next
unfolding update_ok
update_ok-IsNamed (port next) (port old) ports name h n =
    (str_eq_iff next.name old.name).0 (ground arith) ∙ n
update_ok-IsNamed (port next) (port old) vips name h n = n
update_ok-IsNamed (service_vip a ip) (service_vip b old_ip) ports name h n = n
update_ok-IsNamed (service_vip a ip) (service_vip b old_ip) vips name h n =
    (str_eq_iff a b).0 (ground arith) ∙ n
update_ok-IsNamed (port next) (service_vip b ip) k name h n = absurd (ground arith)
update_ok-IsNamed (port next) unsupported k name h n = absurd (ground arith)
update_ok-IsNamed (service_vip a ip) (port old) k name h n = absurd (ground arith)
update_ok-IsNamed (service_vip a ip) unsupported k name h n = absurd (ground arith)
update_ok-IsNamed unsupported old k name h n = absurd (ground arith)

pub absent-update :
    (t key : Bytes) (next : ClaimObject) (n : ℕ) (rows rows' : List Row)
    → update key next n rows ≡ some rows'
    → absent t rows' ≡ absent t rows
unfolding absent update
absent-update t key next n [] rows' h = absurd (ground arith)
absent-update t key next n (r ∷ rows) rows' h = elim (Option-cases (update key next n rows)) [
  | inl e ↦ ground arith
  | inr (rest, e) ↦ ground (arith, absent-update t key next n rows rest e)
]

some_rows : {x y : List Row} → some x ≡ some y → x ≡ y
some_rows e = cc

-- What an update does to a list with a row at its head.
update-cons :
    (key : Bytes) (next : ClaimObject) (n : ℕ) (r : Row) (rows rows' : List Row)
    → update key next n (r ∷ rows) ≡ some rows'
    → ((update_ok next r.object ≡ true)
        × (record { key = r.key; object = next; mod_revision = n } ∷ rows ≡ rows'))
      ⊎ ((rest : List Row) × (update key next n rows ≡ some rest) × (r ∷ rest ≡ rows'))
unfolding update
update-cons key next n r rows rows' h = elim (Bool-cases (str_eq r.key key)) [
  | inl e ↦ inl (ground arith, some_rows (ground arith))
  | inr e ↦ elim (Option-cases (update key next n rows)) [
    | inl f ↦ absurd (ground arith)
    | inr (rest, f) ↦ inr (rest, f, some_rows (ground arith))
  ]
]

All-keep :
    (P Q : Row → Type 0) (rows : List Row) → ((r : Row) → P r → Q r) → All P rows → All Q rows
All-keep P Q [] keep p = tt
All-keep P Q (r ∷ rows) keep (p, ps) = (keep r p, All-keep P Q rows keep ps)

-- What holds of every row, and of a row that is updated, holds of every row after the update.
pub All-update :
    (P Q : Row → Type 0) (key : Bytes) (next : ClaimObject) (n : ℕ) (rows rows' : List Row)
    → ((r : Row) → P r → Q r)
    → ((r : Row)
        → P r
        → update_ok next r.object ≡ true
        → Q (record { key = r.key; object = next; mod_revision = n }))
    → update key next n rows ≡ some rows'
    → All P rows
    → All Q rows'
All-update P Q key next n [] rows' keep change h p = unfold update in absurd (ground arith)
All-update P Q key next n (r ∷ rows) rows' keep change h (p, ps) =
    elim (update-cons key next n r rows rows' h) [
      | inl (ok, e) ↦ subst (λ t. All Q t) e (change r p ok, All-keep P Q rows keep ps)
      | inr (rest, f, e) ↦
          subst (λ t. All Q t) e (keep r p, All-update P Q key next n rows rest keep change f ps)
    ]
