-- ===== src/ApiGate/Examples.antt =====
-- An API that is served late, goes away and comes back.
use cozyplane.Base.{◌≡◌, Bool, true, false, not, ◌&&◌, List, [], ◌∷◌, if◌then◌else◌}
use cozyplane.ApiGate.{Probe, register_error, context_done, start}
use cozyplane.ApiGate.Once.{registrations, ever_served, start-once}

abbrev probe_of : Bool → Probe
probe_of s = record { is_served = s; has_error = false }

abbrev probes : List Probe
probes = probe_of false ∷ probe_of true ∷ probe_of false ∷ probe_of true ∷ []

start-once_example :
    (registrations (start true probes).0 ≡ (if ever_served probes then 1 else 0))
    × ((start true probes).1
        ≡ (if ever_served probes && not true then register_error else context_done))
start-once_example = start-once true probes
