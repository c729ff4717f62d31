-- ===== src/Concurrent/Garbled.antt =====
-- Two saves that have both opened state.json before either writes to it.
use skytap.Common.{ℕ, ◌≡◌, refl, ap, ◌∙◌, true, false, [], ◌++◌, some, or_zero, length, drop}
use skytap.Text.{Str}
use skytap.GoMap.Laws.{get-put_self}
use skytap.Disk.{join, read_file, mkdir_all}
use skytap.Registry
use skytap.Registry.{DomainState}
use skytap.Registry.Spec.{Event}
use skytap.Registry.Spec as Spec
use skytap.Config.RoundTrip.{read_file-save_rules}
use skytap.Config.{Codec, state_file, save_rules}
use skytap.Concurrent.{
  Shared, idle, changed, emptied, overlay, with_file, write_open, save_step, save_steps, Threads,
  update, call, Reach, start, later,
}
use skytap.Concurrent.Alone.{overlay-nil, rules_steps}
use skytap.Concurrent.Schedule.{update_self, update_ne, both_idle, runs, apart, apart'}

read_file-with_file :
    {F : Type 0} (m : Shared F) (path b : Str) → read_file (with_file m path b).disk path ≡ some b
unfolding read_file
read_file-with_file m path b = get-put_self m.disk.files path b

module _ {F : Type 0} (host_of : F → Str) (codec : Codec) (dir : Str) where
  -- From the start of a save up to the moment when the file is open.
  opened :
      (m : Shared F) (b : Str)
      → mkdir_all m.disk dir ≡ true
      → m.disk.locked (join dir state_file) ≡ false
      → codec.encode_states m.registry.states ≡ some b
      → save_steps codec dir 2 m changed ≡ (with_file m (join dir state_file) [], emptied b)
  unfolding save_steps save_step Registry.snapshot
  opened m b made free text = rw (made, text, free) refl

  -- From then on.
  abbrev rest : Shared F → Str → Shared F
  rest m b = record m {
    disk = (save_rules codec dir (write_open m (join dir state_file) b).disk m.rules).0;
  }

  emptied_steps : (m : Shared F) (b : Str) → save_steps codec dir 4 m (emptied b) ≡ (rest m b, idle)
  unfolding save_steps save_step
  emptied_steps m b = rules_steps codec dir 0 (write_open m (join dir state_file) b)

  -- The text of a save stands behind it in the file over what was there before.
  read_file-rest :
      (m : Shared F) (b old : Str)
      → read_file m.disk (join dir state_file) ≡ some old
      → read_file (rest m b).disk (join dir state_file) ≡ some (overlay b old)
  read_file-rest m b old there =
      read_file-save_rules codec dir (write_open m (join dir state_file) b).disk m.rules
      ∙ read_file-with_file m (join dir state_file)
          (overlay b (or_zero [] (read_file m.disk (join dir state_file))))
      ∙ ap (λ o. some (overlay b (or_zero [] o))) there

  read_file-rest_empty :
      (m : Shared F) (b : Str)
      → read_file (rest (with_file m (join dir state_file) []) b).disk (join dir state_file)
        ≡ some b
  read_file-rest_empty m b =
      read_file-rest (with_file m (join dir state_file) []) b []
        (read_file-with_file m (join dir state_file) [])
      ∙ ap some (overlay-nil b)

  module _ (h k : Str) (x y : DomainState) (b c : Str) (s : Threads F)
      (all_idle : (i : ℕ) → s.pc i ≡ idle) (made : mkdir_all s.shared.disk dir ≡ true)
      (free : s.shared.disk.locked (join dir state_file) ≡ false)
      (text : codec.encode_states (Registry.set_state s.shared.registry h x).states ≡ some b)
      (next_text : codec.encode_states
          (Registry.set_state (Registry.set_state s.shared.registry h x) k y).states
        ≡ some c) where
    abbrev first : Shared F
    first = record s.shared { registry = Registry.set_state s.shared.registry h x }

    abbrev second : Shared F
    second = record (with_file first (join dir state_file) []) {
      registry = Registry.set_state first.registry k y;
    }

    abbrev both_open : Shared F
    both_open = with_file second (join dir state_file) []

    abbrev ended : Shared F
    ended = rest (rest both_open b) c

    schedule :
        (t : Threads F) × Reach host_of codec dir s t
        × ((i : ℕ) → t.pc i ≡ idle)
        × (t.shared ≡ ended)
    unfolding Spec.step mkdir_all
    schedule =
        let s1 : Threads F = record { shared = first; pc = update s.pc 0 changed } in
        let (t1, r1, ran1) =
          runs host_of codec dir 2 0 s1 (with_file first (join dir state_file) []) (emptied b)
            (later start (call 0 (Event.set_state h x) (all_idle 0)))
            (ap (save_steps codec dir 2 first) (update_self s.pc 0 changed)
              ∙ opened first b made free text) in
        let idle1 : t1.pc 1 ≡ idle =
          ran1.others 1 apart ∙ update_ne s.pc 0 changed 1 apart ∙ all_idle 1 in
        let s2 : Threads F = record {
          shared = record t1.shared { registry = Registry.set_state t1.shared.registry k y };
          pc = update t1.pc 1 changed;
        } in
        let (t2, r2, ran2) =
          runs host_of codec dir 2 1 s2 both_open (emptied c)
            (later r1 (call 1 (Event.set_state k y) idle1))
            (ap (save_steps codec dir 2 s2.shared) (update_self t1.pc 1 changed)
              ∙ ap
                  (λ (m : Shared F).
                    save_steps codec dir 2
                      (record m { registry = Registry.set_state m.registry k y }) changed)
                  ran1.shared
              ∙ opened second c made free next_text) in
        let open2 : t2.pc 0 ≡ emptied b =
          ran2.others 0 apart' ∙ update_ne t1.pc 1 changed 0 apart' ∙ ran1.here in
        let (t3, r3, ran3) = runs host_of codec dir 4 0 t2 (rest both_open b) idle r2 (
          ap (λ m. save_steps codec dir 4 m (t2.pc 0)) ran2.shared
          ∙ ap (save_steps codec dir 4 both_open) open2
          ∙ emptied_steps both_open b) in
        let (t4, r4, ran4) = runs host_of codec dir 4 1 t3 ended idle r3 (
          ap (λ m. save_steps codec dir 4 m (t3.pc 1)) ran3.shared
          ∙ ap (save_steps codec dir 4 (rest both_open b)) (ran3.others 1 apart ∙ ran2.here)
          ∙ emptied_steps (rest both_open b) c) in
        (
          t4,
          r4,
          both_idle t4.pc (ran4.others 0 apart' ∙ ran3.here) ran4.here (λ i ne ne'.
              ran4.others i ne'
              ∙ ran3.others i ne
              ∙ ran2.others i ne'
              ∙ update_ne t1.pc 1 changed i ne'
              ∙ ran1.others i ne
              ∙ update_ne s.pc 0 changed i ne
              ∙ all_idle i),
          ran4.shared,
        )

  -- Two handlers that set the state of a host, each followed by its save, when state.json can be written
  -- and encoding/json gives the texts `b` and `c` for the states behind the first and behind the second
  -- one: they can be interleaved such that all have ended, the registry has both states, and state.json
  -- holds `c` and, behind it, what the longer `b` has beyond the length of `c`.
  pub garbled_file :
      (h k : Str) (x y : DomainState) (b c : Str) (s : Threads F)
      → ((i : ℕ) → s.pc i ≡ idle)
      → mkdir_all s.shared.disk dir ≡ true
      → s.shared.disk.locked (join dir state_file) ≡ false
      → codec.encode_states (Registry.set_state s.shared.registry h x).states ≡ some b
      → codec.encode_states
          (Registry.set_state (Registry.set_state s.shared.registry h x) k y).states
        ≡ some c
      → (t : Threads F) × Reach host_of codec dir s t
        × ((i : ℕ) → t.pc i ≡ idle)
        × (t.shared.registry ≡ Registry.set_state (Registry.set_state s.shared.registry h x) k y)
        × (read_file t.shared.disk (join dir state_file) ≡ some (c ++ drop (length c) b))
  unfolding overlay
  garbled_file h k x y b c s all_idle made free text next_text =
      let (t, reached, all_ended, at) = schedule h k x y b c s all_idle made free text next_text in
      let twice_open = both_open h k x y b c s all_idle made free text next_text in
      (
        t,
        reached,
        all_ended,
        ap (λ (m : Shared F). m.registry) at,
        ap (λ (m : Shared F). read_file m.disk (join dir state_file)) at
            ∙ read_file-rest (rest twice_open b) c b
                (read_file-rest_empty (second h k x y b c s all_idle made free text next_text) b),
      )
