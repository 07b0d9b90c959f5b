-- ===== src/Grants/Exact.antt =====
-- The grants against a description with no state: which bindings count, and their prefixes.
use cozyplane.Base.{
  ◌≡◌, refl, Bool, true, false, not, ◌&&◌, ◌||◌, List, [], ◌∷◌, ◌++◌, Option, none, some,
  append_assoc, Bytes, arith, if◌then◌else◌, append-nil,
}
use cozyplane.Grants.{
  VpcBinding, BindingGrantAccumulator, binding_authorizes_attachment, is_none, is_nil,
  new_binding_grant_accumulator, result_of, add_forwarding, add, add_all, is_unrestricted,
  binding_grants_from, binding_grants_with_budget,
}
use cozyplane.Grants.Validate.{
  fits, validate_lem, fits-append_left, fits-append, fits_nil, fits-append,
}

module _ (cidr_ok : Bytes → Bool) (consumer_ns vpc_ns vpc_name : Bytes) where
  abbrev counts : Option VpcBinding → Bool
  counts b = binding_authorizes_attachment b consumer_ns vpc_ns vpc_name

  unfoldable pub forwards : Option VpcBinding → Bool
  forwards none = false
  forwards (some b) = counts (some b) && b.allow_forwarding

  -- The prefixes that one binding contributes.
  unfoldable pub prefixes : Option VpcBinding → List Bytes
  prefixes none = []
  prefixes (some b) = if counts (some b) && b.allow_forwarding then b.forwarding_cidrs else []

  -- Some binding authorizes the attachment.
  unfoldable pub some_attached : List (Option VpcBinding) → Bool
  some_attached [] = false
  some_attached (b ∷ bs) = counts b || some_attached bs

  -- Some authorizing binding allows forwarding.
  unfoldable pub some_forwarding : List (Option VpcBinding) → Bool
  some_forwarding [] = false
  some_forwarding (b ∷ bs) = forwards b || some_forwarding bs

  -- Some authorizing binding allows forwarding with no prefixes given.
  unfoldable pub some_blanket : List (Option VpcBinding) → Bool
  some_blanket [] = false
  some_blanket (b ∷ bs) = forwards b && is_nil (prefixes b) || some_blanket bs

  -- The prefixes of the authorizing bindings that allow forwarding, in order.
  unfoldable pub scoped : List (Option VpcBinding) → List Bytes
  scoped [] = []
  scoped (b ∷ bs) = prefixes b ++ scoped bs

  record Coherent (g : BindingGrantAccumulator) : Type 0 where
    consumer : g.consumer_ns ≡ consumer_ns
    vpc_namespace : g.vpc_ns ≡ vpc_ns
    vpc : g.vpc_name ≡ vpc_name
    blanket_clean : g.blanket ≡ true → (g.cidrs ≡ []) × (g.err ≡ none)
    scoped_fits : is_none g.err ≡ true → fits cidr_ok g.cidrs ≡ true
    err_empty : is_none g.err ≡ false → g.cidrs ≡ []

  add_forwarding-Coherent :
      (g : BindingGrantAccumulator) (more : List Bytes)
      → Coherent g
      → Coherent (add_forwarding cidr_ok g more)
  unfolding add_forwarding
  add_forwarding-Coherent g [] c = ground (arith, fits_nil cidr_ok)
  add_forwarding-Coherent g (x ∷ xs) c =
      ground (arith, validate_lem cidr_ok (x ∷ xs), fits-append cidr_ok g.cidrs (x ∷ xs))

  -- The three ways through `Add`.
  abbrev added : BindingGrantAccumulator → VpcBinding → BindingGrantAccumulator
  added g b =
      if not (counts (some b))
      then g
      else if not b.allow_forwarding
      then record g { attached = true }
      else add_forwarding cidr_ok (record g { attached = true; forwarding = true })
          b.forwarding_cidrs

  add_lem :
      (g : BindingGrantAccumulator) (b : VpcBinding)
      → Coherent g
      → add cidr_ok g (some b) ≡ added g b
  unfolding add
  add_lem g b c = rw (c.consumer, c.vpc_namespace, c.vpc)

  add-Coherent :
      (g : BindingGrantAccumulator) (b : Option VpcBinding)
      → Coherent g
      → Coherent (add cidr_ok g b)
  add-Coherent g none c = unfold add in c
  add-Coherent g (some b) c = rw (add_lem g b c) (
      ground (
        arith,
        add_forwarding-Coherent (record g { attached = true; forwarding = true })
            b.forwarding_cidrs,
      ))

  -- What the loop has found once it ends.
  record Found (g : BindingGrantAccumulator) (bs : List (Option VpcBinding))
      (r : BindingGrantAccumulator) : Type 0 where
    attached : r.attached ≡ (g.attached || some_attached bs)
    forwarding : r.forwarding ≡ (g.forwarding || some_forwarding bs)
    blanket : r.blanket ≡ (g.blanket || some_blanket bs)
    cidrs : r.cidrs ≡ (
        if not r.blanket && is_none g.err && fits cidr_ok (g.cidrs ++ scoped bs)
        then g.cidrs ++ scoped bs
        else [])
    errs : is_none r.err ≡ (r.blanket || (is_none g.err && fits cidr_ok (g.cidrs ++ scoped bs)))

  step-Found :
      (g : BindingGrantAccumulator) (b : Option VpcBinding)
      → Coherent g
      → Found g (b ∷ []) (add cidr_ok g b)
  unfolding some_attached some_forwarding some_blanket scoped forwards prefixes
  step-Found g none c =
      unfold add binding_authorizes_attachment in ground (arith, append-nil g.cidrs)
  step-Found g (some b) c = rw (add_lem g b c) (
      unfold add_forwarding in
      ground (
        arith,
        append-nil g.cidrs,
        append-nil b.forwarding_cidrs,
        validate_lem cidr_ok b.forwarding_cidrs,
        fits-append cidr_ok g.cidrs b.forwarding_cidrs,
      ))

  add_all-Found :
      (g : BindingGrantAccumulator) (bs : List (Option VpcBinding))
      → Coherent g
      → Found g bs (add_all cidr_ok g bs)
  unfolding add_all some_attached some_forwarding some_blanket scoped
  add_all-Found g [] c = ground (arith, append-nil g.cidrs)
  add_all-Found g (b ∷ bs) c =
      let first = step-Found g b c in
      let rest = add_all-Found (add cidr_ok g b) bs (add-Coherent g b c) in
      ground (
        arith,
        append-nil (prefixes b),
        fits-append_left cidr_ok (g.cidrs ++ prefixes b) (scoped bs),
        append_assoc g.cidrs (prefixes b) (scoped bs),
      )

  abbrev start : BindingGrantAccumulator
  start = new_binding_grant_accumulator consumer_ns vpc_ns vpc_name

  start-Coherent : Coherent start
  unfolding new_binding_grant_accumulator
  start-Coherent = ground (arith, fits_nil cidr_ok)

  forwards-counts : (b : Option VpcBinding) → forwards b ≡ true → counts b ≡ true
  unfolding forwards
  forwards-counts none h = cc
  forwards-counts (some b) h = ground arith

  -- A blanket grant is an attachment that forwards.
  blanket_attaches :
      (bs : List (Option VpcBinding))
      → some_blanket bs ≡ true
      → (some_attached bs ≡ true) × (some_forwarding bs ≡ true)
  unfolding some_blanket some_attached some_forwarding
  blanket_attaches [] h = cc
  blanket_attaches (b ∷ bs) h = ground (arith, forwards-counts b, blanket_attaches bs)

  is_unrestricted_lem :
      (b : Option VpcBinding)
      → is_unrestricted b consumer_ns vpc_ns vpc_name ≡ (forwards b && is_nil (prefixes b))
  unfolding is_unrestricted forwards prefixes
  is_unrestricted_lem none = refl
  is_unrestricted_lem (some b) = ground arith

  from_lem :
      (all bs : List (Option VpcBinding))
      → binding_grants_from cidr_ok all bs consumer_ns vpc_ns vpc_name ≡ (
          if some_blanket bs
          then record { attached = true; forwarding = true; cidrs = []; err = none }
          else result_of (add_all cidr_ok start all))
  unfolding binding_grants_from some_blanket
  from_lem all [] = refl
  from_lem all (b ∷ bs) = ground (arith, is_unrestricted_lem b, from_lem all bs)

  -- The scan for an unrestricted grant returns early without changing the answer: the results are
  -- those of one accumulator that has been given every binding in order.
  pub early_return_exact :
      (bs : List (Option VpcBinding))
      → binding_grants_with_budget cidr_ok bs consumer_ns vpc_ns vpc_name
        ≡ result_of (add_all cidr_ok (new_binding_grant_accumulator consumer_ns vpc_ns vpc_name) bs)
  unfolding binding_grants_with_budget result_of
  early_return_exact bs =
      let found = add_all-Found start bs start-Coherent in
      rw (from_lem bs bs)
        (unfold new_binding_grant_accumulator in ground (arith, blanket_attaches bs))

  -- The grants of a list of bindings: an attachment if some binding authorizes it; forwarding if
  -- some such binding is unrestricted, or if the prefixes of all that forward together pass the
  -- validation and the budget. The prefixes are then all of those, in order, and none for an
  -- unrestricted grant. There is an error exactly if the union fails and no grant is
  -- unrestricted, and then no forwarding is granted.
  pub grants_exact :
      (bs : List (Option VpcBinding))
      → let r = binding_grants_with_budget cidr_ok bs consumer_ns vpc_ns vpc_name in
        (r.attached ≡ some_attached bs)
        × (r.forwarding ≡ (some_blanket bs || some_forwarding bs && fits cidr_ok (scoped bs)))
        × (r.cidrs ≡ (if not (some_blanket bs) && fits cidr_ok (scoped bs) then scoped bs else []))
        × (is_none r.err ≡ (some_blanket bs || fits cidr_ok (scoped bs)))
  grants_exact bs =
      let found = add_all-Found start bs start-Coherent in
      rw (early_return_exact bs)
        (unfold new_binding_grant_accumulator result_of in ground (arith, blanket_attaches bs))
