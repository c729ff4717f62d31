-- ===== src/Registry/Promotion.antt =====
-- A host stays OBSERVED until a call gives it another state.
use skytap.Common.{true, ◌≡◌, refl, List, [], ◌∷◌, arith, or_zero, All}
use skytap.Text.{Str, ◌==◌}
use skytap.GoMap.{get}
use skytap.GoMap.Laws.{get-put, get-delete}
use skytap.GoMap.Merge.{get-merge}
use skytap.Registry
use skytap.Registry.{Registry, DomainState, new_registry, observed}
use skytap.Registry.Spec.{
  Event, observe, set_state, add_flow, load_states, delete_host, clear_flows, reset, step, run,
}

-- The call does not give this host a state other than OBSERVED.
abbrev pub LeavesObserved : {F : Type 0} → Str → Event F → Type 0
LeavesObserved h (set_state host s) = (host == h) ≡ true → s ≡ observed
LeavesObserved h (load_states m _) = or_zero observed (get m h) ≡ observed
LeavesObserved h _ = Unit

module _ {F : Type 0} (host_of : F → Str) where
  step-observed :
      (r : Registry F) (h : Str) (e : Event F)
      → LeavesObserved h e
      → Registry.state r h ≡ observed
      → Registry.state (step host_of r e) h ≡ observed
  unfolding step Registry.state Registry.observe Registry.set_state Registry.add_flow
      Registry.load_states Registry.delete_host Registry.clear_flows Registry.reset get
  step-observed r h (observe host) q e = ground (arith, get-put r.states host h observed)
  step-observed r h (set_state host s) q e = ground (arith, get-put r.states host h s)
  step-observed r h (add_flow f) q e = e
  step-observed r h (load_states m d) q e = ground (arith, get-merge r.states m h d)
  step-observed r h (delete_host host) q e = ground (arith, get-delete r.states host h)
  step-observed r h (clear_flows host) q e = ground arith
  step-observed r h reset q e = refl

  run_from-observed :
      (r : Registry F) (h : Str) (es : List (Event F))
      → All (LeavesObserved h) es
      → Registry.state r h ≡ observed
      → Registry.state (run host_of r es) h ≡ observed
  unfolding run
  run_from-observed r h [] q e = e
  run_from-observed r h (x ∷ es) (q, qs) e =
      run_from-observed (step host_of r x) h es qs (step-observed r h x q e)

  -- Whatever hosts are seen, whatever flows are logged and whatever is deleted: a host to which no
  -- call gives another state is OBSERVED.
  pub run-observed :
      (h : Str) (es : List (Event F))
      → All (LeavesObserved h) es
      → Registry.state (run host_of new_registry es) h ≡ observed
  run-observed h es q = run_from-observed new_registry h es q (unfold Registry.state get in refl)
