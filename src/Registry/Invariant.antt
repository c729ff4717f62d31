-- ===== src/Registry/Invariant.antt =====
-- The invariant of the registry along any sequence of calls.
use skytap.Common.{
  ◌≤◌, ◌≡◌, List, [], ◌∷◌, arith, length, or_zero, All, All-append, All-drop, Bool-cases, inl, inr,
}
use skytap.Text.{Str, ◌==◌}
use skytap.Text.Equality.{eq_iff}
use skytap.GoMap
use skytap.GoMap.{GoMap, IsMap, get}
use skytap.GoMap.Laws.{get-delete, put-IsMap, delete-IsMap}
use skytap.GoMap.Merge.{merge-IsMap}
use skytap.Registry
use skytap.Registry.{Registry, DomainState, DomainInfo, new_registry, flows_of, domains, observed}
use skytap.Registry.Ring.{length-last}
use skytap.Registry.Refinement.{flows_of-add_flow}
use skytap.Registry.Spec.{
  Event, observe, set_state, add_flow, load_states, delete_host, clear_flows, reset, step, run,
}

module _ {F : Type 0} (host_of : F → Str) where
  -- The maps have one entry for each key; the ring of a host holds at most `ring_n` flows, all of
  -- them of that host.
  pub record IsWellFormed (r : Registry F) : Type 0 where
    pub states : IsMap r.states
    pub hits : IsMap r.hits
    pub flows : IsMap r.flows
    pub bound : (h : Str) → length (flows_of r h) ≤ r.ring_n
    pub own : (h : Str) → All (λ f. host_of f ≡ h) (flows_of r h)

  add_flow-IsWellFormed :
      (r : Registry F) (f : F) → IsWellFormed r → IsWellFormed (Registry.add_flow host_of r f)
  add_flow-IsWellFormed r f w = record {
    states = unfold Registry.add_flow in w.states;
    hits = unfold Registry.add_flow in w.hits;
    flows = unfold Registry.add_flow in put-IsMap r.flows (host_of f) _ w.flows;
    bound = λ h. elim (Bool-cases (host_of f == h)) [
      | inl same ↦ rw (flows_of-add_flow, same) (unfold Registry.add_flow in length-last r.ring_n _)
      | inr other ↦ rw (flows_of-add_flow, other) (unfold Registry.add_flow in w.bound h)
    ];
    own = λ h. elim (Bool-cases (host_of f == h)) [
      | inl same ↦
          rw (flows_of-add_flow, same)
            (All-drop _ _ _
              (All-append _ (flows_of r h) (f ∷ []) (w.own h) ((eq_iff _ h).0 same, tt)))
      | inr other ↦ rw (flows_of-add_flow, other) (w.own h)
    ];
  }

  -- Dropping the flows of some hosts keeps the invariant of the flows.
  delete-flows :
      (r : Registry F) (host h : Str)
      → IsWellFormed r
      → (length (or_zero [] (get (GoMap.delete r.flows host) h)) ≤ r.ring_n)
        × All (λ f. host_of f ≡ h) (or_zero [] (get (GoMap.delete r.flows host) h))
  unfolding flows_of
  delete-flows r host h w = elim (Bool-cases (host == h)) [
    | inl same ↦ rw (get-delete, same) (omega arith, tt)
    | inr other ↦ rw (get-delete, other) (w.bound h, w.own h)
  ]

  step-IsWellFormed :
      (r : Registry F) (e : Event F) → IsWellFormed r → IsWellFormed (step host_of r e)
  unfolding step Registry.observe Registry.set_state Registry.load_states Registry.delete_host
      Registry.clear_flows Registry.reset flows_of get
  step-IsWellFormed r (observe []) w = w
  step-IsWellFormed r (observe (c ∷ host)) w = record {
    states = ground (arith, put-IsMap r.states (c ∷ host) observed w.states);
    hits = put-IsMap r.hits (c ∷ host) _ w.hits;
    flows = w.flows;
    bound = w.bound;
    own = w.own;
  }
  step-IsWellFormed r (set_state host s) w = record {
    states = put-IsMap r.states host s w.states;
    hits = w.hits;
    flows = w.flows;
    bound = w.bound;
    own = w.own;
  }
  step-IsWellFormed r (add_flow f) w = add_flow-IsWellFormed r f w
  step-IsWellFormed r (load_states m d) w = record {
    states = merge-IsMap r.states m w.states;
    hits = w.hits;
    flows = w.flows;
    bound = w.bound;
    own = w.own;
  }
  step-IsWellFormed r (delete_host []) w = w
  step-IsWellFormed r (delete_host (c ∷ host)) w = record {
    states = delete-IsMap r.states (c ∷ host) w.states;
    hits = delete-IsMap r.hits (c ∷ host) w.hits;
    flows = delete-IsMap r.flows (c ∷ host) w.flows;
    bound = λ h. (delete-flows r (c ∷ host) h w).0;
    own = λ h. (delete-flows r (c ∷ host) h w).1;
  }
  step-IsWellFormed r (clear_flows []) w = record {
    states = w.states;
    hits = w.hits;
    flows = tt;
    bound = λ h. omega arith;
    own = λ h. tt;
  }
  step-IsWellFormed r (clear_flows (c ∷ host)) w = record {
    states = w.states;
    hits = w.hits;
    flows = delete-IsMap r.flows (c ∷ host) w.flows;
    bound = λ h. (delete-flows r (c ∷ host) h w).0;
    own = λ h. (delete-flows r (c ∷ host) h w).1;
  }
  step-IsWellFormed r reset w = record {
    states = tt;
    hits = tt;
    flows = tt;
    bound = λ h. omega arith;
    own = λ h. tt;
  }

  run_from-IsWellFormed :
      (r : Registry F) (es : List (Event F)) → IsWellFormed r → IsWellFormed (run host_of r es)
  unfolding run
  run_from-IsWellFormed r [] w = w
  run_from-IsWellFormed r (e ∷ es) w =
      run_from-IsWellFormed (step host_of r e) es (step-IsWellFormed r e w)

  -- After any sequence of calls on a new registry each map has one entry for a key, each ring is
  -- within its size, and a host's ring holds flows of that host alone.
  pub run-IsWellFormed : (es : List (Event F)) → IsWellFormed (run host_of new_registry es)
  run-IsWellFormed es = run_from-IsWellFormed new_registry es (
      unfold get flows_of in
      record { states = tt; hits = tt; flows = tt; bound = λ h. omega arith; own = λ h. tt })
