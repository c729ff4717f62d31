-- ===== src/Concurrent/Serial.antt =====
-- Handlers that come one at a time, with connections and flows of the engine between their steps.
use mathlib.Core.Path.{subst}
use skytap.Common.{
  ℕ, ◌≡◌, ◌≢◌, refl, sym, ap, ◌∙◌, arith, List, [], some, or_zero, is_empty, eqb, Bool-cases, inl,
  inr, if_case,
}
use skytap.Text.{Str}
use skytap.GoMap.{GoMap, get}
use skytap.GoMap.Laws.{get-put_self, get-put_ne}
use skytap.Disk.{join, read_file}
use skytap.Registry
use skytap.Registry.{Registry, DomainState, observed}
use skytap.App.Decisions.{state-observe}
use skytap.Rules
use skytap.Rules.{Rule, RuleEngine}
use skytap.Config.{Codec, state_file, rules_file}
use skytap.Config.RoundTrip.{join-ne}
use skytap.App.{pin_file}
use skytap.Server.Files.{pin_file-ne}
use skytap.Server.Recovery.{IsWritable, locked-IsWritable}
use skytap.Concurrent.{
  Shared, Pc, idle, changed, took, emptied, wrote, listed, cleared, flagged, pinned, overlay,
  with_file, write_open, save_step, Threads, update, Step, call, change, switch, seen, finished,
  save, Reach, start, later,
}
use skytap.Concurrent.Alone.{overlay-nil}
use skytap.Concurrent.Schedule.{update_self, update_ne}

update_idle : (f : ℕ → Pc) (i j : ℕ) → f j ≡ idle → update f i idle j ≡ idle
update_idle f i j h = ground arith

-- A map that gives each host the state that it has in the registry.
abbrev pub Shows : {F : Type 0} → GoMap DomainState → Registry F → Type 0
Shows states reg = (h : Str) → or_zero observed (get states h) ≡ Registry.state reg h

read_file-other :
    {F : Type 0} (m : Shared F) (path other b : Str)
    → path ≢ other
    → read_file (with_file m path b).disk other ≡ read_file m.disk other
unfolding read_file
read_file-other m path other b ne = get-put_ne m.disk.files path other b ne

read_file-same :
    {F : Type 0} (m : Shared F) (path b : Str) → read_file (with_file m path b).disk path ≡ some b
unfolding read_file
read_file-same m path b = get-put_self m.disk.files path b

abbrev pub state_path : Str → Str
state_path dir = join dir state_file

abbrev pub rules_path : Str → Str
rules_path dir = join dir rules_file

module _ {F : Type 0} (codec : Codec) (dir : Str) where
  open codec use {encode_states, encode_rules}

  abbrev StatesText : Shared F → Str → Type 0
  StatesText m b =
      (states : GoMap DomainState) × (encode_states states ≡ some b) × Shows states m.registry

  -- state.json holds the text of such a map, rules.json the text of the rules.
  abbrev pub HasStates : Shared F → Type 0
  HasStates m = (b : Str) × StatesText m b × (read_file m.disk (state_path dir) ≡ some b)

  abbrev RulesText : Shared F → Str → Type 0
  RulesText m b = encode_rules (Rules.all_rules m.rules) ≡ some b

  abbrev pub HasRules : Shared F → Type 0
  HasRules m = (b : Str) × RulesText m b × (read_file m.disk (rules_path dir) ≡ some b)

  -- What holds of the files while one thread stands at a point of its save.
  unfoldable At : Shared F → Pc → Type 0
  At m idle = HasStates m × HasRules m
  At m changed = Unit
  At m (took b) = StatesText m b
  At m (emptied b) = StatesText m b × (read_file m.disk (state_path dir) ≡ some [])
  At m wrote = HasStates m
  At m (listed b) = HasStates m × RulesText m b
  At m (cleared b) = HasStates m × RulesText m b × (read_file m.disk (rules_path dir) ≡ some [])
  At m (flagged v) = HasStates m × HasRules m
  At m (pinned v) = HasStates m × HasRules m

  -- A write to another file.
  with_file-HasStates :
      (m : Shared F) (path b : Str)
      → path ≢ (state_path dir)
      → HasStates m
      → HasStates (with_file m path b)
  with_file-HasStates m path b ne (c, text, there) =
      (c, text, read_file-other m path (state_path dir) b ne ∙ there)

  with_file-HasRules :
      (m : Shared F) (path b : Str)
      → path ≢ (rules_path dir)
      → HasRules m
      → HasRules (with_file m path b)
  with_file-HasRules m path b ne (c, text, there) =
      (c, text, read_file-other m path (rules_path dir) b ne ∙ there)

  -- Where the file is empty, a write leaves its text.
  write_open-read :
      (m : Shared F) (path b : Str)
      → read_file m.disk path ≡ some []
      → read_file (write_open m path b).disk path ≡ some b
  write_open-read m path b there =
      read_file-same m path (overlay b (or_zero [] (read_file m.disk path)))
      ∙ ap (λ o. some (overlay b (or_zero [] o))) there
      ∙ ap some (overlay-nil b)

  pin-At :
      (m : Shared F) (b : Str)
      → HasStates m × HasRules m
      → HasStates (with_file m (join dir pin_file) b) × HasRules (with_file m (join dir pin_file) b)
  pin-At m b (h, k) = (
    with_file-HasStates m (join dir pin_file) b (pin_file-ne dir).0 h,
    with_file-HasRules m (join dir pin_file) b (pin_file-ne dir).1 k,
  )

  -- A change of the registry that leaves every state, at any point of a save.
  states-At :
      (m : Shared F) (reg : Registry F) (p : Pc)
      → ((h : Str) → Registry.state reg h ≡ Registry.state m.registry h)
      → At m p
      → At (record m { registry = reg }) p
  unfolding At
  states-At m reg idle e ((b, (st, text, shows), there), k) =
      ((b, (st, text, λ h. shows h ∙ sym (e h)), there), k)
  states-At m reg changed e h = tt
  states-At m reg (took b) e (st, text, shows) = (st, text, λ h. shows h ∙ sym (e h))
  states-At m reg (emptied b) e ((st, text, shows), k) = ((st, text, λ h. shows h ∙ sym (e h)), k)
  states-At m reg wrote e (b, (st, text, shows), there) =
      (b, (st, text, λ h. shows h ∙ sym (e h)), there)
  states-At m reg (listed c) e ((b, (st, text, shows), there), k) =
      ((b, (st, text, λ h. shows h ∙ sym (e h)), there), k)
  states-At m reg (cleared c) e ((b, (st, text, shows), there), k, empty) =
      ((b, (st, text, λ h. shows h ∙ sym (e h)), there), k, empty)
  states-At m reg (flagged v) e ((b, (st, text, shows), there), k) =
      ((b, (st, text, λ h. shows h ∙ sym (e h)), there), k)
  states-At m reg (pinned v) e ((b, (st, text, shows), there), k) =
      ((b, (st, text, λ h. shows h ∙ sym (e h)), there), k)

  -- At most one thread is in a handler, and the files are as far as it is.
  record Busy (t : Threads F) : Type 0 where
    writable : IsWritable dir t.shared.disk
    who : ℕ
    alone : (j : ℕ) → who ≢ j → t.pc j ≡ idle
    here : At t.shared (t.pc who)

  -- encoding/json prints every map of states and every list of rules.
  module _ (prints_states : (m : GoMap DomainState) → (b : Str) × (encode_states m ≡ some b))
      (prints_rules : (rs : List Rule) → (b : Str) × (encode_rules rs ≡ some b)) where
    save_step-At :
        (m : Shared F) (p : Pc)
        → IsWritable dir m.disk
        → At m p
        → At (save_step codec dir m p).0 (save_step codec dir m p).1
          × IsWritable dir (save_step codec dir m p).0.disk
    unfolding At save_step Registry.snapshot Registry.state
    save_step-At m idle w h = (h, w)
    save_step-At m changed w h =
        let (b, text) = prints_states m.registry.states in
        rw (w.made, text) ((m.registry.states, text, λ h. refl), w)
    save_step-At m (took b) w h =
        rw (w.state_free)
          ((h, read_file-same m (state_path dir) []), locked-IsWritable dir m.disk _ refl w)
    save_step-At m (emptied b) w (h, there) =
        ((b, h, write_open-read m (state_path dir) b there), locked-IsWritable dir m.disk _ refl w)
    save_step-At m wrote w h =
        let (b, text) = prints_rules (Rules.all_rules m.rules) in rw text ((h, text), w)
    save_step-At m (listed b) w (h, text) = rw (w.rules_free) (
      (
        with_file-HasStates m (rules_path dir) [] (λ e. join-ne dir (sym e)) h,
        text,
        read_file-same m (rules_path dir) [],
      ),
      locked-IsWritable dir m.disk _ refl w,
    )
    save_step-At m (cleared b) w (h, text, there) = (
      (
        with_file-HasStates m (rules_path dir) _ (λ e. join-ne dir (sym e)) h,
        (b, text, write_open-read m (rules_path dir) b there),
      ),
      locked-IsWritable dir m.disk _ refl w,
    )
    save_step-At m (flagged v) w h =
        if_case (λ (x : Shared F × Pc). At x.0 x.1 × IsWritable dir x.0.disk) (is_empty dir) _ _
          (λ _. (h, w))
          (λ _.
            if_case (λ (x : Shared F × Pc). At x.0 x.1 × IsWritable dir x.0.disk)
              (m.disk.locked (join dir pin_file)) _ _ (λ _. (h, w))
              (λ _. (pin-At m [] h, locked-IsWritable dir m.disk _ refl w)))
    save_step-At m (pinned v) w h = (pin-At m _ h, locked-IsWritable dir m.disk _ refl w)

    module _ (host_of : F → Str) where
      -- Each handler begins when all others have ended their saves.
      unfoldable pub IsSerial : {s t : Threads F} → Reach host_of codec dir s t → Type 0
      IsSerial start = Unit
      IsSerial (later {t = t} r (call i e h)) = IsSerial r × ((j : ℕ) → t.pc j ≡ idle)
      IsSerial (later {t = t} r (change i x h)) = IsSerial r × ((j : ℕ) → t.pc j ≡ idle)
      IsSerial (later {t = t} r (switch i v h)) = IsSerial r × ((j : ℕ) → t.pc j ≡ idle)
      IsSerial (later r _) = IsSerial r

      begins-Busy :
          (t : Threads F) (m : Shared F) (i : ℕ) (p : Pc)
          → ((j : ℕ) → t.pc j ≡ idle)
          → IsWritable dir m.disk
          → At m p
          → Busy (record { shared = m; pc = update t.pc i p })
      begins-Busy t m i p all_idle w h = record {
        writable = w;
        who = i;
        alone = λ j ne. update_ne t.pc i p j ne ∙ all_idle j;
        here = subst (At m) (sym (update_self t.pc i p)) h;
      }

      save-Busy :
          (t : Threads F) (i : ℕ)
          → Busy t
          → Busy (record {
            shared = (save_step codec dir t.shared (t.pc i)).0;
            pc = update t.pc i (save_step codec dir t.shared (t.pc i)).1;
          })
      unfolding save_step
      save-Busy t i b = elim (Bool-cases (eqb b.who i)) [
        | inl same ↦
            let e : b.who ≡ i = ground arith in
            let next =
              save_step-At t.shared (t.pc i) b.writable
                (subst (λ k. At t.shared (t.pc k)) e b.here) in
            record {
              writable = next.1;
              who = i;
              alone = λ j ne. update_ne t.pc i _ j ne ∙ b.alone j (λ q. ne (sym e ∙ q));
              here = subst (At _) (sym (update_self t.pc i _)) next.0;
            }
        | inr other ↦
            let ne : b.who ≢ i = ground arith in
            let stays : save_step codec dir t.shared (t.pc i) ≡ (t.shared, idle) =
              ap (save_step codec dir t.shared) (b.alone i ne) in
            subst (λ (x : Shared F × Pc). Busy (record { shared = x.0; pc = update t.pc i x.1 }))
              (sym stays)
              (record {
                writable = b.writable;
                who = b.who;
                alone = λ j ne'. update_idle t.pc i j (b.alone j ne');
                here =
                    subst (At t.shared) (sym (update_ne t.pc i idle b.who (λ q. ne (sym q))))
                      b.here;
              })
      ]

      Step-Busy :
          {s t u : Threads F} (r : Reach host_of codec dir s t) (st : Step host_of codec dir t u)
          → IsSerial (later r st)
          → Busy t
          → Busy u
      unfolding IsSerial At
      Step-Busy {t = t} r (call i e h) (serial, all_idle) b =
          begins-Busy t _ i changed all_idle b.writable tt
      Step-Busy {t = t} r (change i x h) (serial, all_idle) b =
          begins-Busy t _ i changed all_idle b.writable tt
      Step-Busy {t = t} r (switch i v h) (serial, all_idle) b =
          begins-Busy t (record t.shared { pin_bypass = v }) i (flagged v) all_idle b.writable
            (subst (At t.shared) (all_idle b.who) b.here)
      Step-Busy {t = t} r (seen host) serial b = record {
        writable = b.writable;
        who = b.who;
        alone = b.alone;
        here =
            states-At t.shared _ (t.pc b.who) (λ h. state-observe t.shared.registry host h) b.here;
      }
      Step-Busy {t = t} r (finished f) serial b = record {
        writable = b.writable;
        who = b.who;
        alone = b.alone;
        here =
            states-At t.shared _ (t.pc b.who) (λ h. unfold Registry.add_flow Registry.state in refl)
              b.here;
      }
      Step-Busy {t = t} r (save i) serial b = save-Busy t i b

      before :
          {s t u : Threads F} (r : Reach host_of codec dir s t) (st : Step host_of codec dir t u)
          → IsSerial (later r st)
          → IsSerial r
      unfolding IsSerial
      before r (call i e h) (serial, all_idle) = serial
      before r (change i x h) (serial, all_idle) = serial
      before r (switch i v h) (serial, all_idle) = serial
      before r (seen host) serial = serial
      before r (finished f) serial = serial
      before r (save i) serial = serial

      Reach-Busy :
          {s t : Threads F} (r : Reach host_of codec dir s t) → IsSerial r → Busy s → Busy t
      Reach-Busy start serial b = b
      Reach-Busy (later r st) serial b = Step-Busy r st serial (Reach-Busy r (before r st serial) b)

      -- Where handlers begin only when all others have ended their saves, while connections and flows of
      -- the engine come at any time, also within a save: as soon as all handlers have ended, state.json
      -- holds the text of a map that gives each host the state that it has in the registry, and rules.json
      -- the text of the rules, if they did at the start, the files can be written, and encoding/json
      -- prints every map of states and every list of rules.
      pub IsSerial-saved :
          {s t : Threads F} (r : Reach host_of codec dir s t)
          → IsSerial r
          → IsWritable dir s.shared.disk
          → HasStates s.shared
          → HasRules s.shared
          → ((i : ℕ) → s.pc i ≡ idle)
          → ((i : ℕ) → t.pc i ≡ idle)
          → HasStates t.shared × HasRules t.shared
      unfolding At
      IsSerial-saved {s = s} {t = t} r serial w h k begun ended =
          let b = Reach-Busy r serial (record {
            writable = w;
            who = 0;
            alone = λ j ne. begun j;
            here = subst (At s.shared) (sym (begun 0)) (h, k);
          }) in
          subst (At t.shared) (ended b.who) b.here
