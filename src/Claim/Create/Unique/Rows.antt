-- ===== src/Claim/Create/Unique/Rows.antt =====
-- Rows of claims in which no address has two holders, and the writes that keep it so.
use cozyplane.Base.{
  ℕ, ◌≡◌, ◌≢◌, refl, sym, ◌∙◌, true, false, some, List, [], ◌∷◌, ◌++◌, Bytes, str_eq, str_eq_iff,
  inl, inr, Bool-cases, arith, All, if◌then◌else◌,
}
use mathlib.Core.Path.{subst}
use cozyplane.Claim.Store.{ClaimObject, Row, absent, delete, replace}
use cozyplane.Claim.Update.{update_ok, update, update_ok-IsNamed, absent-update, All-update}
use cozyplane.Claim.Validate.{Kind, ports, vips, tag, other, IsNamed}

module _ (root : Kind → Bytes) where
  -- The key of the claim of a kind on an address.
  abbrev pub key_of : Kind → Bytes → Bytes
  key_of k address = root k ++ (tag k ++ address)

  -- No key of one kind is a key of the other.
  abbrev pub KindsApart : Type 0
  KindsApart = (x y : Bytes) → root ports ++ x ≢ root vips ++ y

  -- The row holds an address, under its kind's key, whose other claim is absent.
  pub record IsHolder (rows : List Row) (r : Row) : Type 0 where
    pub kind : Kind
    pub address : Bytes
    pub keyed : r.key ≡ key_of kind address
    pub named : IsNamed kind (tag kind ++ address) r.object
    pub alone : absent (key_of (other kind) address) rows ≡ true

  abbrev pub IsDistinct : List Row → Type 0
  IsDistinct rows = All (IsHolder rows) rows

append_cancel : (p x y : Bytes) → p ++ x ≡ p ++ y → x ≡ y
append_cancel [] x y e = e
append_cancel (c ∷ p) x y e = append_cancel p x y (tail_eq e)
  where
    tail_eq : {s t : Bytes} → c ∷ s ≡ c ∷ t → s ≡ t
    tail_eq e = cc

absent-delete :
    (t key : Bytes) (rows : List Row) → absent t rows ≡ true → absent t (delete key rows) ≡ true
unfolding absent delete
absent-delete t key [] h = refl
absent-delete t key (r ∷ rows) h = ground (arith, absent-delete t key rows)

-- A key that is absent is no row's key.
absent-All : (t : Bytes) (rows : List Row) → absent t rows ≡ true → All (λ r. r.key ≢ t) rows
unfolding absent
absent-All t [] h = tt
absent-All t (r ∷ rows) h =
    ((λ e. ground (arith, str_eq_iff r.key t)), absent-All t rows (ground arith))

absent-cons :
    (t : Bytes) (r : Row) (rows : List Row)
    → r.key ≢ t
    → absent t rows ≡ true
    → absent t (r ∷ rows) ≡ true
unfolding absent
absent-cons t r rows n h = ground (arith, str_eq_iff r.key t)

pub All-map₂ {ℓ} :
    {A : Type ℓ} {P Q R : A → Type 0} (f : (x : A) → P x → Q x → R x) (xs : List A)
    → All P xs
    → All Q xs
    → All R xs
All-map₂ f [] p q = tt
All-map₂ f (x ∷ xs) (p, ps) (q, qs) = (f x p q, All-map₂ f xs ps qs)

pub All-delete :
    (P : Row → Type 0) (key : Bytes) (rows : List Row) → All P rows → All P (delete key rows)
unfolding delete
All-delete P key [] h = tt
All-delete P key (r ∷ rows) (p, ps) = elim (Bool-cases (str_eq r.key key)) [
  | inl e ↦ rw e (All-delete P key rows ps)
  | inr e ↦ rw e (p, All-delete P key rows ps)
]

pub All-replace :
    (P : Row → Type 0) (key : Bytes) (o : ClaimObject) (n : ℕ) (rows : List Row)
    → All
        (λ r.
          P (if str_eq r.key key then record { key = r.key; object = o; mod_revision = n } else r))
        rows
    → All P (replace key o n rows)
unfolding replace
All-replace P key o n [] h = tt
All-replace P key o n (r ∷ rows) (p, ps) = (p, All-replace P key o n rows ps)

module _ (root : Kind → Bytes) (apart : KindsApart root) where
  -- Keys of two kinds differ, and keys of one kind hold their address.
  key_of_inj : (k l : Kind) (x y : Bytes) → key_of root k x ≡ key_of root l y → (k ≡ l) × (x ≡ y)
  key_of_inj ports ports x y e = (refl, append_cancel (tag ports) x y (append_cancel _ _ _ e))
  key_of_inj vips vips x y e = (refl, append_cancel (tag vips) x y (append_cancel _ _ _ e))
  key_of_inj ports vips x y e = absurd (apart _ _ e)
  key_of_inj vips ports x y e = absurd (apart _ _ (sym e))

  other_ne : (k : Kind) (x y : Bytes) → key_of root k x ≢ key_of root (other k) y
  other_ne ports x y e = apart _ _ e
  other_ne vips x y e = apart _ _ (sym e)

  other_twice : (k l : Kind) → k ≡ other l → other k ≡ l
  other_twice ports ports e = cc
  other_twice ports vips e = refl
  other_twice vips ports e = refl
  other_twice vips vips e = cc

  -- A new holder beside the old ones.
  pub put-IsDistinct :
      (rows : List Row) (r : Row) (k : Kind) (address : Bytes)
      → r.key ≡ key_of root k address
      → IsNamed k (tag k ++ address) r.object
      → absent (key_of root k address) rows ≡ true
      → absent (key_of root (other k) address) rows ≡ true
      → IsDistinct root rows
      → IsDistinct root (r ∷ rows)
  put-IsDistinct rows r k address e n free twin_free d = (
    record {
      kind = k;
      address = address;
      keyed = e;
      named = n;
      alone = absent-cons _ r rows (λ f. other_ne k address address (sym e ∙ f)) twin_free;
    },
    All-map₂ keep rows d (absent-All _ rows twin_free),
  )
    where
      keep :
          (x : Row)
          → IsHolder root rows x
          → x.key ≢ key_of root (other k) address
          → IsHolder root (r ∷ rows) x
      keep x h ne = record {
        kind = h.kind;
        address = h.address;
        keyed = h.keyed;
        named = h.named;
        alone =
            absent-cons _ r rows
              (λ f.
                let (same, eq) = key_of_inj k (other h.kind) address h.address (sym e ∙ f) in
                ne (h.keyed ∙ sym (λ i. key_of root (other_twice k h.kind same i) (eq i))))
              h.alone;
      }

  pub delete-IsDistinct :
      (key : Bytes) (rows : List Row) → IsDistinct root rows → IsDistinct root (delete key rows)
  delete-IsDistinct key rows d = go rows d
    where
      weaken : (r : Row) → IsHolder root rows r → IsHolder root (delete key rows) r
      weaken r h = record {
        kind = h.kind;
        address = h.address;
        keyed = h.keyed;
        named = h.named;
        alone = absent-delete _ key rows h.alone;
      }

      go :
          (rs : List Row)
          → All (IsHolder root rows) rs
          → All (IsHolder root (delete key rows)) (delete key rs)
      go rs all =
          All-delete (IsHolder root (delete key rows)) key rs
            (All-map₂ (λ r h _. weaken r h) rs all all)

  -- The holder of a key that is present.
  pub present-alone :
      (k : Kind) (address : Bytes) (rows rs : List Row)
      → All (IsHolder root rows) rs
      → absent (key_of root k address) rs ≡ false
      → absent (key_of root (other k) address) rows ≡ true
  unfolding absent
  present-alone k address rows [] d h = cc
  present-alone k address rows (r ∷ rs) (first, rest) h =
      elim (Bool-cases (str_eq r.key (key_of root k address))) [
        | inl e ↦
            let (same, eq) =
              key_of_inj first.kind k first.address address
                (sym first.keyed ∙ (str_eq_iff r.key _).0 e) in
            subst (λ t. absent t rows ≡ true) (λ i. key_of root (other (same i)) (eq i)) first.alone
        | inr e ↦ present-alone k address rows rs rest (ground arith)
      ]

  -- An update that `ValidateUpdate` passes.
  pub update-IsDistinct :
      (key : Bytes) (o : ClaimObject) (n : ℕ) (rows rows' : List Row)
      → update key o n rows ≡ some rows'
      → IsDistinct root rows
      → IsDistinct root rows'
  update-IsDistinct key o n rows rows' h d =
      All-update (IsHolder root rows) (IsHolder root rows') key o n rows rows' keep change h d
    where
      keep : (r : Row) → IsHolder root rows r → IsHolder root rows' r
      keep r i = record {
        kind = i.kind;
        address = i.address;
        keyed = i.keyed;
        named = i.named;
        alone = absent-update _ key o n rows rows' h ∙ i.alone;
      }

      change :
          (r : Row)
          → IsHolder root rows r
          → update_ok o r.object ≡ true
          → IsHolder root rows' (record { key = r.key; object = o; mod_revision = n })
      change r i ok = record {
        kind = i.kind;
        address = i.address;
        keyed = i.keyed;
        named = update_ok-IsNamed o r.object i.kind _ ok i.named;
        alone = absent-update _ key o n rows rows' h ∙ i.alone;
      }
