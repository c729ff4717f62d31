-- ===== src/Concurrent/Lost.antt =====
-- What interleaved saves can leave behind.
use skytap.Common.{ℕ, ◌≡◌, refl, ap, ◌∙◌, Bool, true, false, [], some}
use skytap.Text.{Str}
use skytap.Disk.{join, read_file, write_file, mkdir_all}
use skytap.Disk.Laws.{read_file-write_file}
use skytap.Registry
use skytap.Registry.{Registry, DomainState}
use skytap.Registry.Spec.{Event}
use skytap.Registry.Spec as Spec
use skytap.Config.RoundTrip.{read_file-save_rules}
use skytap.Config.{Codec, state_file, save_persist, save_rules}
use skytap.Server.Recovery.{save_persist-locked}
use skytap.Concurrent.{
  Shared, idle, changed, took, save_step, save_steps, Threads, update, call, start, later,
}
use skytap.Concurrent.Alone.{took_steps, save_steps-save_persist}
use skytap.Concurrent.Schedule.{update_self, update_ne, both_idle, To, runs, apart, apart'}

module _ {F : Type 0} (host_of : F → Str) (codec : Codec) (dir : Str) where
  -- The threads 0 and 1 from then on that the first one has got the text of the states.
  module _ (h k : Str) (x y : DomainState) (b : Str) (s : Threads F)
      (all_idle : (i : ℕ) → s.pc i ≡ idle) (made : mkdir_all s.shared.disk dir ≡ true)
      (free : s.shared.disk.locked (join dir state_file) ≡ false)
      (text : codec.encode_states (Registry.set_state s.shared.registry h x).states ≡ some b) where
    abbrev first : Shared F
    first = record s.shared { registry = Registry.set_state s.shared.registry h x }

    abbrev second : Shared F
    second = record s.shared { registry = Registry.set_state first.registry k y }

    abbrev saved : Shared F
    saved = record second {
      disk = (save_persist codec dir s.shared.disk second.registry s.shared.rules).0;
    }

    abbrev over : Shared F
    over = record saved {
      disk =
          (save_rules codec dir (write_file saved.disk (join dir state_file) b).0 s.shared.rules).0;
    }

    taken : save_steps codec dir 1 first changed ≡ (first, took b)
    unfolding save_steps save_step Registry.snapshot
    taken = rw (made, text) refl

    still_free : saved.disk.locked (join dir state_file) ≡ false
    still_free =
        ap (λ (f : Str → Bool). f (join dir state_file))
          (save_persist-locked codec (λ n. []) dir s.shared.disk second.registry s.shared.rules)
        ∙ free

    schedule :
        (t : Threads F) × To host_of codec dir s t × ((i : ℕ) → t.pc i ≡ idle) × (t.shared ≡ over)
    unfolding Spec.step
    schedule =
        let s1 : Threads F = record { shared = first; pc = update s.pc 0 changed } in
        let (t1, r1, ran1) =
          runs host_of codec dir 1 0 s1 first (took b)
            (later start (call 0 (Event.set_state h x) (all_idle 0)))
            (ap (save_steps codec dir 1 first) (update_self s.pc 0 changed) ∙ taken) in
        let idle1 : t1.pc 1 ≡ idle =
          ran1.others 1 apart ∙ update_ne s.pc 0 changed 1 apart ∙ all_idle 1 in
        let s2 : Threads F = record {
          shared = record t1.shared { registry = Registry.set_state t1.shared.registry k y };
          pc = update t1.pc 1 changed;
        } in
        let (t2, r2, ran2) =
          runs host_of codec dir 6 1 s2 saved idle (later r1 (call 1 (Event.set_state k y) idle1)) (
            ap (save_steps codec dir 6 s2.shared) (update_self t1.pc 1 changed)
            ∙ ap
                (λ (m : Shared F).
                  save_steps codec dir 6 (record m { registry = Registry.set_state m.registry k y })
                    changed)
                ran1.shared
            ∙ save_steps-save_persist codec dir 0 second) in
        let took2 : t2.pc 0 ≡ took b =
          ran2.others 0 apart' ∙ update_ne t1.pc 1 changed 0 apart' ∙ ran1.here in
        let (t3, r3, ran3) = runs host_of codec dir 5 0 t2 over idle r2 (
          ap (λ m. save_steps codec dir 5 m (t2.pc 0)) ran2.shared
          ∙ ap (save_steps codec dir 5 saved) took2
          ∙ took_steps codec dir 0 saved b still_free) in
        (
          t3,
          r3,
          both_idle t3.pc ran3.here (ran3.others 1 apart ∙ ran2.here) (λ i ne ne'.
              ran3.others i ne
              ∙ ran2.others i ne'
              ∙ update_ne t1.pc 1 changed i ne'
              ∙ ran1.others i ne
              ∙ update_ne s.pc 0 changed i ne
              ∙ all_idle i),
          ran3.shared,
        )

  -- Two handlers that set the state of a host, each followed by its save, when state.json can be written
  -- and encoding/json gives a text for the states that the first one leaves: they can be interleaved such
  -- that all have ended, the registry has both states, and state.json holds the text of the states
  -- without the second one.
  pub lost_update :
      (h k : Str) (x y : DomainState) (b : Str) (s : Threads F)
      → ((i : ℕ) → s.pc i ≡ idle)
      → mkdir_all s.shared.disk dir ≡ true
      → s.shared.disk.locked (join dir state_file) ≡ false
      → codec.encode_states (Registry.set_state s.shared.registry h x).states ≡ some b
      → (t : Threads F) × To host_of codec dir s t
        × ((i : ℕ) → t.pc i ≡ idle)
        × (t.shared.registry ≡ Registry.set_state (Registry.set_state s.shared.registry h x) k y)
        × (read_file t.shared.disk (join dir state_file) ≡ some b)
  lost_update h k x y b s all_idle made free text =
      let (t, reached, ended, at) = schedule h k x y b s all_idle made free text in
      let disk = saved h k x y b s all_idle made free text in
      (
        t,
        reached,
        ended,
        ap (λ (m : Shared F). m.registry) at,
        ap (λ (m : Shared F). read_file m.disk (join dir state_file)) at
            ∙ read_file-save_rules codec dir (write_file disk.disk (join dir state_file) b).0
                s.shared.rules
            ∙ read_file-write_file disk.disk (join dir state_file) b
                (still_free h k x y b s all_idle made free text),
      )
