-- ===== src/Tests/Concurrent.antt =====
-- Handlers whose saves are interleaved.
use skytap.Common.{ℕ, ◌≡◌, refl, true, ◌++◌, some, drop, length, false}
use skytap.Text.{Str, codes, ◌==◌}
use skytap.GoMap.{get, put}
use skytap.Disk.{mkdir_all, read_file, join}
use skytap.Registry
use skytap.Registry.{mocked, intercepted, new_registry}
use skytap.Registry.Spec as Spec
use skytap.Registry.Spec.{Event, record_all, blank}
use skytap.Rules.{new_engine}
use skytap.Config.{Codec, state_file}
use skytap.Concurrent.{
  idle, changed, Threads, call, seen, save, Reach, start, later, save_step, update,
}
use skytap.Concurrent.Serial.{HasStates, HasRules, IsSerial, IsSerial-saved}
use skytap.Rules.{Rule}
use skytap.GoMap.{GoMap}
use skytap.Registry.{DomainState}
use skytap.Common.{List, [], ◌∷◌, Bool-cases, inl, inr, eqb}
use skytap.Tests.Samples.{other_host}
use skytap.Server.Recovery.{IsWritable}
use skytap.Concurrent.Lost.{lost_update}
use skytap.Concurrent.Garbled.{garbled_file}
use skytap.Tests.Samples.{Flow, api, host_of, disk}
use skytap.Tests.Config.{codec}

-- A codec whose text for the states is the state of one host.
abbrev one_state : Codec
one_state = record codec { encode_states = λ m. get m api }

abbrev resting : Threads Flow
resting = record {
  shared = record { registry = new_registry; rules = new_engine; pin_bypass = false; disk = disk };
  pc = λ i. idle;
}

-- One handler sets a state and saves; a connection to another host comes within the save.
abbrev saved_before : Threads Flow
saved_before = record resting {
  shared = record resting.shared {
    disk = record disk {
      files = (codes "/data/state.json", codes "S") ∷ (codes "/data/rules.json", codes "R") ∷ [];
    };
  };
}

abbrev prints_states : (m : GoMap DomainState) → (b : Str) × (codec.encode_states m ≡ some b)
prints_states m = (codes "S", refl)

abbrev prints_rules : (rs : List Rule) → (b : Str) × (codec.encode_rules rs ≡ some b)
prints_rules rs = (codes "R", refl)

abbrev called : Threads Flow
called = record {
  shared = record saved_before.shared {
    registry = Spec.step host_of new_registry (Event.set_state api mocked);
  };
  pc = update saved_before.pc 0 changed;
}

abbrev next : Threads Flow → Threads Flow
next t = record {
  shared = (save_step codec (codes "/data") t.shared (t.pc 0)).0;
  pc = update t.pc 0 (save_step codec (codes "/data") t.shared (t.pc 0)).1;
}

abbrev visited : Threads Flow
visited = record (next called) {
  shared = record (next called).shared {
    registry = Registry.observe (next called).shared.registry other_host;
  };
}

abbrev end : Threads Flow
end = next (next (next (next (next visited))))

abbrev ran : Reach host_of codec (codes "/data") saved_before end
ran =
    later
      (later
        (later
          (later
            (later
              (later (later (later start (call 0 (Event.set_state api mocked) refl)) (save 0))
                (seen other_host))
              (save 0))
            (save 0))
          (save 0))
        (save 0))
      (save 0)

ended : (i : ℕ) → end.pc i ≡ idle
unfolding save_step mkdir_all
ended i = elim (Bool-cases (eqb 0 i)) [ inl e ↦ rw e refl | inr e ↦ rw e refl ]

ran-IsSerial : IsSerial codec (codes "/data") prints_states prints_rules host_of ran
unfolding IsSerial
ran-IsSerial = (tt, λ j. refl)

made : mkdir_all disk (codes "/data") ≡ true
unfolding mkdir_all
made = refl

text :
    (x : Str)
    → one_state.encode_states (Registry.set_state (new_registry {F = Flow}) api x).states ≡ some x
unfolding Registry.set_state get put ◌==◌
text x = refl

stale_file :
    (t : Threads Flow) × Reach host_of one_state (codes "/data") resting t
    × ((i : ℕ) → t.pc i ≡ idle)
    × (t.shared.registry
        ≡ Registry.set_state
            (Registry.set_state (new_registry {F = Flow}) api mocked)
            api
            intercepted)
    × (read_file t.shared.disk (join (codes "/data") state_file) ≡ some mocked)
stale_file =
    lost_update host_of one_state (codes "/data") api api mocked intercepted mocked resting
      (λ i. refl) made refl (text mocked)

next_text :
    one_state.encode_states
      (Registry.set_state
        (Registry.set_state (new_registry {F = Flow}) api intercepted)
        api
        mocked).states
    ≡ some mocked
unfolding Registry.set_state get put ◌==◌
next_text = refl

garbled_file_example :
    (t : Threads Flow) × Reach host_of one_state (codes "/data") resting t
    × ((i : ℕ) → t.pc i ≡ idle)
    × (t.shared.registry
        ≡ Registry.set_state
            (Registry.set_state (new_registry {F = Flow}) api intercepted)
            api
            mocked)
    × (read_file t.shared.disk (join (codes "/data") state_file)
        ≡ some (mocked ++ drop (length mocked) intercepted))
garbled_file_example =
    garbled_file host_of one_state (codes "/data") api api intercepted mocked intercepted mocked
      resting (λ i. refl) made refl (text intercepted) next_text

before-IsWritable : IsWritable (codes "/data") saved_before.shared.disk
unfolding mkdir_all
before-IsWritable = record { made = refl; state_free = refl; rules_free = refl }

before-HasStates : HasStates codec (codes "/data") saved_before.shared
unfolding read_file get ◌==◌ join Registry.state
before-HasStates = (codes "S", ([], refl, λ h. refl), refl)

before-HasRules : HasRules codec (codes "/data") saved_before.shared
unfolding read_file get ◌==◌ join
before-HasRules = (codes "R", refl, refl)

IsSerial-saved_example :
    HasStates codec (codes "/data") end.shared × HasRules codec (codes "/data") end.shared
IsSerial-saved_example =
    IsSerial-saved codec (codes "/data") prints_states prints_rules host_of ran ran-IsSerial
      before-IsWritable before-HasStates before-HasRules (λ i. refl) ended
