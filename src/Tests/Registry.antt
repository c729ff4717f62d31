-- ===== src/Tests/Registry.antt =====
-- registry.go
use mathlib.Core.List.{Memᴰ}
use skytap.Common.{◌≡◌, refl, List, [], ◌∷◌, or_zero, some, ◌↔◌, arith}
use skytap.Text.{◌==◌}
use skytap.GoMap.{IsMap, get, put, delete}
use skytap.Registry
use skytap.Registry.{
  Registry, DomainInfo, new_registry, intercepted, mocked, observed, flows_of, domains,
}
use skytap.Registry.Spec.{
  Event, observe, set_state, add_flow, delete_host, blank, step, run, record_all,
}
use skytap.Registry.Refinement.{Refines, run-Refines}
use skytap.Registry.Invariant.{IsWellFormed, run-IsWellFormed}
use skytap.Registry.Listing.{by_host, mem-domains}
use skytap.Registry.Promotion.{run-observed}
use skytap.Tests.Samples.{Flow, host_of, api, other_host}

abbrev pub trace : List (Event Flow)
trace =
    observe api
    ∷ set_state api intercepted
    ∷ add_flow (api, 1)
    ∷ observe api
    ∷ observe other_host
    ∷ add_flow (other_host, 2)
    ∷ delete_host other_host
    ∷ []

state_after : Registry.state (run host_of new_registry trace) api ≡ intercepted
unfolding run step Registry.state Registry.observe Registry.set_state Registry.add_flow
    Registry.delete_host get put delete ◌==◌
state_after = refl

flows_after : flows_of (run host_of new_registry trace) api ≡ (api, 1) ∷ []
unfolding run step flows_of Registry.observe Registry.set_state Registry.add_flow
    Registry.delete_host get put delete ◌==◌
flows_after = refl

run-Refines_example : Refines (run host_of new_registry trace) (record_all host_of blank trace)
run-Refines_example = run-Refines host_of trace

run-IsWellFormed_example : IsWellFormed host_of (run host_of new_registry trace)
run-IsWellFormed_example = run-IsWellFormed host_of trace

mem-domains_example :
    IsMap (by_host (domains (run host_of new_registry trace)))
    × ((d : DomainInfo)
        → Memᴰ d (domains (run host_of new_registry trace)) ↔ (
            (get (run host_of new_registry trace).states d.host ≡ some d.state)
            × (d.hits ≡ or_zero 0 (get (run host_of new_registry trace).hits d.host))))
mem-domains_example = mem-domains host_of trace

run-observed_example : Registry.state (run host_of new_registry trace) other_host ≡ observed
unfolding ◌==◌
run-observed_example = run-observed host_of other_host trace (ground arith)
