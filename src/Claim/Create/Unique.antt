-- ===== src/Claim/Create/Unique.antt =====
-- Any interleaving of creates, updates and deletes of claims keeps every address to one holder.
pub mod Rows
use cozyplane.Base.{
  ℕ, ◌+◌, ◌≡◌, ◌≢◌, refl, sym, ap, ◌∙◌, Bool, true, false, not, ◌&&◌, List, [], ◌∷◌, ◌++◌, Option,
  none, some, Bytes, ℤ, str_eq, inl, inr, Bool-cases, arith, ◌⊎◌, All,
}
use mathlib.Core.Path.{subst}
use cozyplane.Claim.Decimal.{format_int}
use cozyplane.Claim.Name.{claim_name, escape_ip, port_name, service_vip_name}
use cozyplane.Claim.Store.{
  Guard, commit, succeeded, ClaimObject, port, service_vip, Row, Store, absent, put, delete,
}
use cozyplane.Claim.Create.{Request, Attempt, twin_name, returned, create}
use cozyplane.Claim.Create.Commit.{Commits, commit_lem, create-Commits}
use cozyplane.Claim.Validate.{Kind, ports, vips, tag, other, IsNamed, name_pinned, pinned_twin}
use cozyplane.Claim.Update.{update}
use Rows.{
  IsDistinct, KindsApart, key_of, put-IsDistinct, delete-IsDistinct, update-IsDistinct,
  present-alone,
}

ok_inj : {x y : Bytes} → returned x ≡ returned y → x ≡ y
ok_inj e = cc

some_inj : {x y : Bytes} → some x ≡ some y → x ≡ y
some_inj e = cc

module _ (addr16 : Bytes → Option Bytes) (range_end : Bytes → Bytes) (root : Kind → Bytes) where
  -- What the registry hands to `Create`: an object whose name `Validate` accepted, and the keys
  -- that the two kinds' name functions give.
  pub record IsRegistered (q : Request) : Type 0 where
    pub pinned : name_pinned addr16 q.object ≡ true
    pub keyed :
        (k : Kind) (name : Bytes) → IsNamed k name q.object → q.prepared ≡ some (root k ++ name)
    pub twin_keyed :
        (k : Kind) (name twin_name : Bytes)
        → IsNamed k name q.object
        → q.twin_key twin_name ≡ some (root (other k) ++ twin_name)

  -- One write: the transaction of any client's create, whatever else happened while it ran; a delete;
  -- an update of a stored claim that `ValidateUpdate` passes.
  pub data Step (s : Store) : Store → Type 0 where
    created :
        (q : Request) (key twin name : Bytes) (s' : Store)
        → IsRegistered q
        → q.prepared ≡ some key
        → twin_name addr16 q.object ≡ returned name
        → q.twin_key name ≡ some twin
        → (g : Guard) → commit key twin g q.object s ≡ succeeded s'
        → Step s s'
    deleted :
        (key : Bytes) → Step s (record { revision = s.revision + 1; rows = delete key s.rows })
    updated :
        (key : Bytes) (o : ClaimObject) (rows : List Row)
        → update key o (s.revision + 1) s.rows ≡ some rows
        → Step s (record { revision = s.revision + 1; rows = rows })

  pub data Reach : Store → Type 0 where
    empty : (revision : ℕ) → Reach (record { revision = revision; rows = [] })
    next : {s t : Store} → Reach s → Step s t → Reach t

  commits :
      (k t : Bytes) (o : ClaimObject) (attempts : List Attempt) (s' : Store)
      (c : Commits range_end k t o attempts s')
      → commit k t c.guard o c.attempt.store ≡ succeeded s'
  unfolding commit
  commits k t o attempts s' c =
      let written = c.written in
      let a = c.key_absent in let b = c.twin_absent in let g = c.guard_true in ground arith

  -- A successful `Create` of a registered object is such a step from the store of its last attempt.
  pub create-Step :
      (q : Request) (attempts : List Attempt) (s' : Store)
      → IsRegistered q
      → create addr16 range_end q attempts ≡ returned s'
      → (s : Store) × Step s s'
  create-Step q attempts s' r h =
      let (k, t, name, e, p, f, ttl, c) = create-Commits addr16 range_end q attempts s' h in
      (c.attempt.store, created q k t name s' r e p f c.guard (commits k t q.object _ s' c))

  module _ (apart : KindsApart root) where
    put_at :
        (s s' : Store) (key twin : Bytes) (o : ClaimObject) (k : Kind) (address : Bytes)
        → IsNamed k (tag k ++ address) o
        → key ≡ key_of root k address
        → twin ≡ key_of root (other k) address
        → (g : Guard) → commit key twin g o s ≡ succeeded s'
        → IsDistinct root s.rows
        → IsDistinct root s'.rows
    put_at s s' key twin o k address n e f g c d =
        let (no_key, no_twin, _, written) = commit_lem key twin g o s s' c in
        rw written (
          unfold put in
          put-IsDistinct root apart s.rows _ k address e n
            (subst (λ x. absent x s.rows ≡ true) e no_key)
            (subst (λ x. absent x s.rows ≡ true) f no_twin) d)

    Step-IsDistinct : {s t : Store} → Step s t → IsDistinct root s.rows → IsDistinct root t.rows
    Step-IsDistinct (deleted key) d = delete-IsDistinct root apart key _ d
    Step-IsDistinct (updated key o rows h) d = update-IsDistinct root apart key o _ _ rows h d
    Step-IsDistinct (created q key twin name s' r p t f g c) d =
        let (k, address, n, named) = pinned_twin addr16 q.object r.pinned in
        let same : name ≡ tag (other k) ++ address = ok_inj (sym t ∙ named) in
        put_at _ s' key twin q.object k address n (some_inj (sym p ∙ r.keyed k _ n))
          (some_inj (sym f ∙ r.twin_keyed k _ name n) ∙ ap (λ x. root (other k) ++ x) same) g c d

    Reach-IsDistinct : {s : Store} → Reach s → IsDistinct root s.rows
    Reach-IsDistinct (empty revision) = tt
    Reach-IsDistinct (next r st) = Step-IsDistinct st (Reach-IsDistinct r)

    -- In every store that is reached from an empty one by the transactions of creates, by deletes and
    -- by updates, in whatever order these writes come, no VPC address is held by a Port and a
    -- ServiceVIP at once. A created object has a name that `Validate` accepts, and its keys are its
    -- kind's directory and the names; an update keeps the kind and the name and passes the modelled
    -- checks of `ValidateUpdate`; and no key of one kind is one of the other.
    pub address_unique :
        (s : Store) (vni : ℤ) (ip : Bytes)
        → Reach s
        → (absent (root ports ++ port_name addr16 vni ip) s.rows ≡ true)
          ⊎ (absent (root vips ++ service_vip_name addr16 vni ip) s.rows ≡ true)
    unfolding port_name service_vip_name
    address_unique s vni ip r =
        elim (Bool-cases
          (absent (key_of root ports (format_int vni ++ b'.' ∷ escape_ip addr16 ip)) s.rows)) [
            | inl e ↦ inl e
            | inr e ↦ inr (present-alone root apart ports _ s.rows s.rows (Reach-IsDistinct r) e)
          ]
