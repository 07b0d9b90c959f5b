-- ===== src/HostFirewalls/Fit.antt =====
-- What compiles fits the map of each direction.
use cozyplane.Base.{
  ℕ, ◌+◌, ◌≤◌, ◌≡◌, ap, Bool, true, false, ◌||◌, not, List, [], ◌∷◌, map, Option, some, inl, inr,
  Bytes, Bool-cases, Option-cases, arith, if◌then◌else◌, length,
}
use cozyplane.PolicyLimits.HostFirewall.{
  hf_isolation, count_rules, firewalls_fit, validate_hf_compilation,
}
use cozyplane.HostFirewalls.{
  FwRule, Firewall, HfAllow, HfCompiled, compile_rules, counted_rule, does_select, counted,
  add_firewall, compile_from, compile_host_firewalls,
}
use cozyplane.HostFirewalls.Bounds.{length-compile_rules}

-- One direction of a firewall in the preflight: skipped, or its rules are counted.
abbrev stage : Bool → ℕ → ℕ → List FwRule → Option (ℕ × ℕ)
stage skip work rows rs =
    if skip then some (work, rows) else count_rules work rows (map counted_rule rs)

abbrev skips : Firewall → Bool → Bool
skips f isolates = not (does_select f) || not isolates

firewalls_fit-stages :
    (work i e : ℕ) (f : Firewall) (fs : List Firewall)
    → firewalls_fit work i e (map counted (f ∷ fs)) ≡ true
    → (w i' : ℕ) × (w' e' : ℕ) × (stage
          (skips f (hf_isolation (counted f)).0)
          (work + 1)
          i
          f.ingress
        ≡ some (w, i'))
      × (stage (skips f (hf_isolation (counted f)).1) w e f.egress ≡ some (w', e'))
      × (firewalls_fit w' i' e' (map counted fs) ≡ true)
unfolding firewalls_fit
firewalls_fit-stages work i e f fs h =
    elim (Option-cases (stage (skips f (hf_isolation (counted f)).0) (work + 1) i f.ingress)) [
      | inl q ↦ absurd (ground arith)
      | inr ((w, i'), q) ↦
          elim (Option-cases (stage (skips f (hf_isolation (counted f)).1) w e f.egress)) [
            | inl q' ↦ absurd (ground arith)
            | inr ((w', e'), q') ↦ (w, i', w', e', q, q', ground arith)
          ]
    ]

module _ {Net : Type 0} (parse_cidr : Bytes → Option Net) where
  length-stage :
      (skip : Bool) (work rows w n : ℕ) (entries : List (HfAllow Net)) (rs : List FwRule)
      → stage skip work rows rs ≡ some (w, n)
      → length entries ≤ rows
      → rows ≤ 65536
      → (length (if skip then entries else compile_rules parse_cidr entries rs) ≤ n) × (n ≤ 65536)
  length-stage true work rows w n entries rs h l b = (ground arith, ground arith)
  length-stage false work rows w n entries rs h l b =
      length-compile_rules parse_cidr work rows w n entries rs h l b

  into-skips :
      (c : HfCompiled Net) (f : Firewall)
      → (add_firewall parse_cidr c f).into ≡ (
          if skips f (hf_isolation (counted f)).0
          then c.into
          else compile_rules parse_cidr c.into f.ingress)
  unfolding add_firewall
  into-skips c f = ground arith

  out-skips :
      (c : HfCompiled Net) (f : Firewall)
      → (add_firewall parse_cidr c f).out ≡ (
          if skips f (hf_isolation (counted f)).1
          then c.out
          else compile_rules parse_cidr c.out f.egress)
  unfolding add_firewall
  out-skips c f = ground arith

  length-compile_from :
      (work i e : ℕ) (c : HfCompiled Net) (fs : List Firewall)
      → firewalls_fit work i e (map counted fs) ≡ true
      → length c.into ≤ i
      → i ≤ 65536
      → length c.out ≤ e
      → e ≤ 65536
      → (length (compile_from parse_cidr c fs).into ≤ 65536)
        × (length (compile_from parse_cidr c fs).out ≤ 65536)
  unfolding compile_from
  length-compile_from work i e c [] h l b l' b' = (omega arith, omega arith)
  length-compile_from work i e c (f ∷ fs) h l b l' b' =
      let (w, i', w', e', q, q', rest) = firewalls_fit-stages work i e f fs h in
      let (x, y) =
        length-stage (skips f (hf_isolation (counted f)).0) (work + 1) i w i' c.into f.ingress q l
          b in
      let (x', y') =
        length-stage (skips f (hf_isolation (counted f)).1) w e w' e' c.out f.egress q' l' b' in
      let into : length (add_firewall parse_cidr c f).into ≤ i' = rw (into-skips c f) x in
      let out : length (add_firewall parse_cidr c f).out ≤ e' = rw (out-skips c f) x' in
      length-compile_from w' i' e' (add_firewall parse_cidr c f) fs rest into y out y'

  -- Firewalls that are compiled give each direction at most 65536 rows.
  pub compile_host_firewalls-length :
      (fs : List Firewall) (c : HfCompiled Net)
      → compile_host_firewalls parse_cidr fs ≡ some c
      → (length c.into ≤ 65536) × (length c.out ≤ 65536)
  unfolding compile_host_firewalls validate_hf_compilation
  compile_host_firewalls-length fs c h =
      elim (Bool-cases (validate_hf_compilation (map counted fs))) [
        | inr q ↦ absurd (ground arith)
        | inl q ↦
            let empty : HfCompiled Net = record {
              ingress = false;
              egress = false;
              into = [];
              out = [];
            } in
            let same : compile_from parse_cidr empty fs ≡ c = ground arith in
            let fits : firewalls_fit 0 0 0 (map counted fs) ≡ true = ground arith in
            let (x, y) =
              length-compile_from 0 0 0 empty fs fits (omega arith) (omega arith) (omega arith)
                (omega arith) in
            (
              omega (arith, x, ap (λ k. length k.into) same),
              omega (arith, y, ap (λ k. length k.out) same),
            )
      ]
