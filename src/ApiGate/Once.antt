-- ===== src/ApiGate/Once.antt =====
-- The controllers are registered once, and only for an API that is served.
use cozyplane.Base.{
  ℕ, ◌+◌, ◌≡◌, refl, Bool, true, false, not, ◌&&◌, ◌||◌, List, [], ◌∷◌, ◌++◌, Option, none, some,
  arith, if◌then◌else◌,
}
use cozyplane.ApiGate.{
  Probe, Event, log_served_again, log_served, log_stopped, log_degraded, register, started,
  context_done, register_error, news, start_from, start,
}

-- How often a run registers, and whether some probe found the API served.
unfoldable pub registrations : List Event → ℕ
registrations [] = 0
registrations (register ∷ es) = registrations es + 1
registrations (e ∷ es) = registrations es

unfoldable pub ever_served : List Probe → Bool
ever_served [] = false
ever_served (p ∷ ps) = p.is_served || ever_served ps

registrations-append :
    (es fs : List Event) → registrations (es ++ fs) ≡ registrations es + registrations fs
unfolding registrations
registrations-append [] fs = ground arith
registrations-append (register ∷ es) fs = ground (arith, registrations-append es fs)
registrations-append (log_served_again ∷ es) fs = registrations-append es fs
registrations-append (log_served ∷ es) fs = registrations-append es fs
registrations-append (log_stopped ∷ es) fs = registrations-append es fs
registrations-append (log_degraded ∷ es) fs = registrations-append es fs
registrations-append (started ∷ es) fs = registrations-append es fs

registrations-news :
    (known : Option Bool) (s registered : Bool) → registrations (news known s registered) ≡ 0
unfolding registrations
registrations-news none true true = refl
registrations-news none true false = refl
registrations-news none false true = refl
registrations-news none false false = refl
registrations-news (some true) true registered = refl
registrations-news (some true) false true = refl
registrations-news (some true) false false = refl
registrations-news (some false) true true = refl
registrations-news (some false) true false = refl
registrations-news (some false) false registered = refl

-- The count of a run from a state, and its end.
abbrev CountedFrom : Bool → Bool → Option Bool → List Probe → Type 0
CountedFrom ok registered known ps =
    (registrations (start_from ok registered known ps).0
      ≡ (if ever_served ps && not registered then 1 else 0))
    × ((start_from ok registered known ps).1
        ≡ (if ever_served ps && not registered && not ok then register_error else context_done))

-- What a step adds to the count of the rest of a run.
counted_log :
    (known : Option Bool) (s registered : Bool) (es : List Event)
    → registrations (news known s registered ++ es) ≡ registrations es
counted_log known s registered es = ground (
  arith,
  registrations-append (news known s registered) es,
  registrations-news known s registered,
)

counted :
    (ok registered : Bool) (known : Option Bool) (ps : List Probe)
    → CountedFrom ok registered known ps
unfolding start_from registrations ever_served
counted ok registered known [] = (ground arith, ground arith)
counted ok registered known (p ∷ ps) =
    let s = p.is_served in
    let (count, end) = counted ok (registered || s) (some s) ps in
    let rest = (start_from ok (registered || s) (some s) ps).0 in
    let quiet = counted_log known s registered rest in
    let good = counted_log known s registered (register ∷ started ∷ rest) in
    let bad = counted_log known s registered (register ∷ []) in (ground arith, ground arith)

-- The controllers are registered once if some probe found the API served, and else never. The run
-- ends with an error exactly if they were to be registered and registering failed; else it ends when
-- its context is done.
pub start-once :
    (ok : Bool) (ps : List Probe)
    → (registrations (start ok ps).0 ≡ (if ever_served ps then 1 else 0))
      × ((start ok ps).1 ≡ (if ever_served ps && not ok then register_error else context_done))
unfolding start
start-once ok ps = let (count, end) = counted ok false none ps in (ground arith, ground arith)
