-- ===== src/Registry/Refinement.antt =====
-- The registry implements its specification, whatever the calls.
use skytap.Common.{
  ◌+◌, ◌%◌, ◌≡◌, refl, sym, List, [], ◌∷◌, ◌++◌, arith, or_zero, if◌then◌else◌, Bool-cases, inl,
  inr,
}
use skytap.Text.{Str, ◌==◌}
use skytap.Text.Equality.{eq_iff}
use skytap.GoMap.{GoMap, IsMap, get}
use skytap.GoMap.Laws.{get-put, get-delete}
use skytap.GoMap.Merge.{get-merge}
use skytap.Registry.{Registry, DomainState, new_registry, flows_of, int64_mod, trim_ring, observed}
use skytap.Registry
use skytap.Registry.Ring.{last, trim_ring-eq-last, last-last-append, drop-nil}
use skytap.Registry.Spec.{
  Event, observe, set_state, add_flow, load_states, delete_host, clear_flows, reset, Ledger, blank,
  step, run, record_event, record_all,
}

-- The registry shows what the ledger holds: states as they are, hits up to wrap-around, and of the
-- history of each host as much as its ring has room for.
pub record Refines {F : Type 0} (r : Registry F) (a : Ledger F) : Type 0 where
  pub states : (h : Str) → get r.states h ≡ a.state_of h
  pub hits : (h : Str) → or_zero 0 (get r.hits h) ≡ a.hits_of h % int64_mod
  pub flows : (h : Str) → flows_of r h ≡ last r.ring_n (a.history h)

-- The flows of each host after one more flow.
pub flows_of-add_flow :
    {F : Type 0} (host_of : F → Str) (r : Registry F) (f : F) (h : Str)
    → flows_of (Registry.add_flow host_of r f) h
      ≡ (if host_of f == h then last r.ring_n (flows_of r h ++ f ∷ []) else flows_of r h)
unfolding Registry.add_flow flows_of
flows_of-add_flow host_of r f h = elim (Bool-cases (host_of f == h)) [
  | inl same ↦
      let e = (eq_iff (host_of f) h).0 same in
      rw (get-put, same, ← e) (trim_ring-eq-last r.ring_n _)
  | inr other ↦ rw (get-put, other) refl
]

module _ {F : Type 0} (host_of : F → Str) where
  observe-Refines :
      (r : Registry F) (a : Ledger F) (host : Str)
      → Refines r a
      → Refines (step host_of r (observe host)) (record_event host_of a (observe host))
  unfolding step record_event Registry.observe flows_of
  observe-Refines r a [] v = v
  observe-Refines r a (c ∷ host) v = record {
    states = λ h. ground (
      arith,
      get-put r.states (c ∷ host) h observed,
      v.states h,
      v.states (c ∷ host),
      eq_iff (c ∷ host) h,
    );
    hits = λ h. ground (
      arith,
      get-put r.hits (c ∷ host) h ((or_zero 0 (get r.hits (c ∷ host)) + 1) % int64_mod),
      v.hits h,
      v.hits (c ∷ host),
      eq_iff (c ∷ host) h,
    );
    flows = v.flows;
  }

  set_state-Refines :
      (r : Registry F) (a : Ledger F) (host s : Str)
      → Refines r a
      → Refines (step host_of r (set_state host s)) (record_event host_of a (set_state host s))
  unfolding step record_event Registry.set_state flows_of
  set_state-Refines r a host s v = record {
    states = λ h. ground (arith, get-put r.states host h s, v.states h);
    hits = v.hits;
    flows = v.flows;
  }

  add_flow-Refines :
      (r : Registry F) (a : Ledger F) (f : F)
      → Refines r a
      → Refines (step host_of r (add_flow f)) (record_event host_of a (add_flow f))
  unfolding step record_event Registry.add_flow
  add_flow-Refines r a f v = record {
    states = v.states;
    hits = v.hits;
    flows = λ h. elim (Bool-cases (host_of f == h)) [
      | inl same ↦
          rw (flows_of-add_flow, same, v.flows h) (last-last-append r.ring_n (a.history h) f)
      | inr other ↦ rw (flows_of-add_flow, other) (v.flows h)
    ];
  }

  load_states-Refines :
      (r : Registry F) (a : Ledger F) (m : GoMap DomainState) (d : IsMap m)
      → Refines r a
      → Refines (step host_of r (load_states m d)) (record_event host_of a (load_states m d))
  unfolding step record_event Registry.load_states flows_of
  load_states-Refines r a m d v = record {
    states = λ h. rw (get-merge r.states m h d, v.states h);
    hits = v.hits;
    flows = v.flows;
  }

  delete_host-Refines :
      (r : Registry F) (a : Ledger F) (host : Str)
      → Refines r a
      → Refines (step host_of r (delete_host host)) (record_event host_of a (delete_host host))
  unfolding step record_event Registry.delete_host flows_of
  delete_host-Refines r a [] v = v
  delete_host-Refines r a (c ∷ host) v = record {
    states = λ h. ground (arith, get-delete r.states (c ∷ host) h, v.states h);
    hits = λ h. ground (arith, get-delete r.hits (c ∷ host) h, v.hits h);
    flows = λ h. elim (Bool-cases (c ∷ host == h)) [
      | inl same ↦ rw (get-delete, same) (sym (drop-nil _))
      | inr other ↦ rw (get-delete, other) (v.flows h)
    ];
  }

  clear_flows-Refines :
      (r : Registry F) (a : Ledger F) (host : Str)
      → Refines r a
      → Refines (step host_of r (clear_flows host)) (record_event host_of a (clear_flows host))
  unfolding step record_event Registry.clear_flows flows_of get
  clear_flows-Refines r a [] v = record {
    states = v.states;
    hits = v.hits;
    flows = λ h. sym (drop-nil _);
  }
  clear_flows-Refines r a (c ∷ host) v = record {
    states = v.states;
    hits = v.hits;
    flows = λ h. elim (Bool-cases (c ∷ host == h)) [
      | inl same ↦ rw (get-delete, same) (sym (drop-nil _))
      | inr other ↦ rw (get-delete, other) (v.flows h)
    ];
  }

  reset-Refines :
      (r : Registry F) (a : Ledger F)
      → Refines (step host_of r reset) (record_event host_of a reset)
  unfolding step record_event Registry.reset flows_of get
  reset-Refines r a = record { states = λ h. refl; hits = λ h. refl; flows = λ h. sym (drop-nil _) }

  step-Refines :
      (r : Registry F) (a : Ledger F) (e : Event F)
      → Refines r a
      → Refines (step host_of r e) (record_event host_of a e)
  step-Refines r a (observe host) v = observe-Refines r a host v
  step-Refines r a (set_state host s) v = set_state-Refines r a host s v
  step-Refines r a (add_flow f) v = add_flow-Refines r a f v
  step-Refines r a (load_states m d) v = load_states-Refines r a m d v
  step-Refines r a (delete_host host) v = delete_host-Refines r a host v
  step-Refines r a (clear_flows host) v = clear_flows-Refines r a host v
  step-Refines r a reset v = reset-Refines r a

  run_from-Refines :
      (r : Registry F) (a : Ledger F) (es : List (Event F))
      → Refines r a
      → Refines (run host_of r es) (record_all host_of a es)
  unfolding run record_all
  run_from-Refines r a [] v = v
  run_from-Refines r a (e ∷ es) v =
      run_from-Refines (step host_of r e) (record_event host_of a e) es (step-Refines r a e v)

  -- After any sequence of calls on a new registry, in any order, the state of every host is the one
  -- last set (or loaded, or OBSERVED from its first hit) since its last deletion, its hit counter is
  -- the number of its hits since then modulo 2 ^ 64, and its ring is the tail of its flows since they
  -- were last cleared.
  pub run-Refines :
      (es : List (Event F)) → Refines (run host_of new_registry es) (record_all host_of blank es)
  run-Refines es =
      run_from-Refines new_registry blank es
        (unfold get flows_of in record { states = λ h. refl; hits = λ h. refl; flows = λ h. refl })
