-- ===== src/ApiGate.antt =====
-- internal/apigate/gate.go: controllers of an aggregated API are started once the API is served.
pub mod Once
pub mod Examples
use cozyplane.Base.{
  ℕ, ◌+◌, Bool, true, false, ◌&&◌, ◌||◌, not, List, [], ◌∷◌, ◌++◌, Option, none, some, Bytes,
  str_eq, ◌==◌, length, if◌then◌else◌,
}

-- The answer of `ServerResourcesForGroupVersion`: not found, another error, nil, or the names of the
-- resources.
pub data Discovery : Type 0 where
  not_found discovery_error nil_list : Discovery
  resources : List Bytes → Discovery

-- What `Served` returns: the error matters to the log only.
pub record Probe : Type 0 where
  pub is_served : Bool
  pub has_error : Bool

abbrev probe : Bool → Bool → Probe
probe served failed = record { is_served = served; has_error = failed }

unfoldable pub has : List Bytes → Bytes → Bool
has [] want = false
has (r ∷ rs) want = str_eq r want || has rs want

unfoldable pub has_all : List Bytes → List Bytes → Bool
has_all have [] = true
has_all have (want ∷ wants) = has have want && has_all have wants

-- `DiscoveryProber.Served`, for the prober's `Resources`.
unfoldable pub served : List Bytes → Discovery → Probe
served wants not_found = probe false false
served wants discovery_error = probe false true
served wants nil_list = probe false false
served wants (resources names) =
    if length wants == 0
    then probe (not (length names == 0)) false
    else probe (has_all names wants) false

-- What `Start` does that others see, in order: it logs a change, registers, and says it started.
pub data Event : Type 0 where
  log_served_again log_served log_stopped log_degraded : Event
  register : Event
  started : Event

-- How `Start` ends: with nil once its context is done, or with the error of `Register`.
pub data End : Type 0 where
  context_done register_error : End

-- `*known != served`, true where `known` is nil.
abbrev changed : Option Bool → Bool → Bool
changed none s = true
changed (some true) s = not s
changed (some false) s = s

abbrev news : Option Bool → Bool → Bool → List Event
news known s registered =
    if not (changed known s)
    then []
    else (if s
        then (if registered then log_served_again else log_served)
        else if registered
        then log_stopped
        else log_degraded)
      ∷ []

-- The loop of `Start` over the answers of the prober, which end when the context is done;
-- `register_ok` is whether `Register` succeeds.
unfoldable pub start_from : Bool → Bool → Option Bool → List Probe → List Event × End
start_from register_ok registered known [] = ([], context_done)
start_from register_ok registered known (p ∷ ps) =
    let s = p.is_served in
    let (rest, end) = start_from register_ok (registered || s) (some s) ps in
    let log = news known s registered in
    if s && not registered
    then if register_ok
      then (log ++ (register ∷ started ∷ rest), end)
      else (log ++ register ∷ [], register_error)
    else (log ++ rest, end)

-- `Start`.
unfoldable pub start : Bool → List Probe → List Event × End
start register_ok ps = start_from register_ok false none ps
