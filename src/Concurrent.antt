-- ===== src/Concurrent.antt =====
-- The handlers as threads: each call of the registry, of the rules or of the flag is one step under its
-- mutex, and what savePersist of config.go and SetPinBypass of app.go do behind it is steps of their
-- own, which other threads come between.
pub mod Serial
pub mod Alone
pub mod Schedule
pub mod Lost
pub mod Garbled
use skytap.Common.{
  ℕ, zero, suc, Bool, true, false, List, [], ◌∷◌, ◌++◌, Option, none, some, or_zero, is_empty, eqb,
  length, drop, ◌≡◌, if◌then◌else◌,
}
use skytap.Text.{Str, codes}
use skytap.GoMap
use skytap.Disk.{Disk, join, read_file, mkdir_all}
use skytap.Registry
use skytap.Registry.{Registry}
use skytap.Registry.Spec.{Event}
use skytap.Registry.Spec as Spec
use skytap.Rules
use skytap.Rules.{RuleEngine}
use skytap.Rules.Store.{Edit, edit}
use skytap.Config.{Codec, state_file, rules_file}
use skytap.App.{pin_file}

pub record Shared (F : Type 0) : Type 0 where
  pub registry : Registry F
  pub rules : RuleEngine
  pub pin_bypass : Bool
  pub disk : Disk

-- Where a thread stands, with the text that it is about to write.
pub data Pc : Type 0 where
  idle : Pc
  changed : Pc  -- start of savePersist
  took : Str → Pc  -- has the text of the states
  emptied : Str → Pc  -- has opened state.json, which is empty then
  wrote : Pc
  listed : Str → Pc  -- has the text of the rules
  cleared : Str → Pc  -- has opened rules.json
  flagged : Bool → Pc  -- SetPinBypass behind its mutex
  pinned : Bool → Pc  -- has opened pin-bypass

-- A write at the start of a file: what the file holds behind it stays.
unfoldable pub overlay : Str → Str → Str
overlay b old = b ++ drop (length b) old

abbrev pub with_file : {F : Type 0} → Shared F → Str → Str → Shared F
with_file m path content = record m {
  disk = record m.disk { files = GoMap.put m.disk.files path content };
}

-- os.WriteFile up to its write: the file is created, or emptied.
abbrev open_file : {F : Type 0} → Shared F → Str → Pc → Shared F × Pc
open_file m path next = if m.disk.locked path then (m, idle) else (with_file m path [], next)

abbrev pub write_open : {F : Type 0} → Shared F → Str → Str → Shared F
write_open m path b = with_file m path (overlay b (or_zero [] (read_file m.disk path)))

-- The text that SetPinBypass writes.
abbrev pub pin_text : Bool → Str
pin_text v = if v then codes "1" ++ 10 ∷ [] else codes "0" ++ 10 ∷ []

abbrev pub states_text : {F : Type 0} → Shared F → Option Str → Shared F × Pc
states_text m none = (m, idle)
states_text m (some b) = (m, took b)

abbrev pub rules_text : {F : Type 0} → Shared F → Option Str → Shared F × Pc
rules_text m none = (m, idle)
rules_text m (some b) = (m, listed b)

module _ {F : Type 0} (codec : Codec) (dir : Str) where
  open codec use {encode_states, encode_rules}

  -- The next step of a thread that saves.
  unfoldable pub save_step : Shared F → Pc → Shared F × Pc
  unfolding overlay
  save_step m idle = (m, idle)
  save_step m changed =
      if mkdir_all m.disk dir
      then states_text m (encode_states (Registry.snapshot m.registry))
      else (m, idle)
  save_step m (took b) = open_file m (join dir state_file) (emptied b)
  save_step m (emptied b) = (write_open m (join dir state_file) b, wrote)
  save_step m wrote = rules_text m (encode_rules (Rules.all_rules m.rules))
  save_step m (listed b) = open_file m (join dir rules_file) (cleared b)
  save_step m (cleared b) = (write_open m (join dir rules_file) b, idle)
  save_step m (flagged v) =
      if is_empty dir then (m, idle) else open_file m (join dir pin_file) (pinned v)
  save_step m (pinned v) = (write_open m (join dir pin_file) (pin_text v), idle)

  unfoldable pub save_steps : ℕ → Shared F → Pc → Shared F × Pc
  save_steps zero m p = (m, p)
  save_steps (suc n) m p = let (m', p') = save_step m p in save_steps n m' p'

-- The threads of the server, each in one handler; one that is idle has not begun, or has ended.
pub record Threads (F : Type 0) : Type 0 where
  pub shared : Shared F
  pub pc : ℕ → Pc

abbrev pub update : (ℕ → Pc) → ℕ → Pc → ℕ → Pc
update f i p j = if eqb i j then p else f j

-- One step. A handler calls the registry, the rules or the flag, and then saves; the proxy engine calls
-- Observe and AddFlow, which do not save. More is allowed than the handlers do: any call of the registry
-- or of the rules can stand in front of a save.
pub data Step {F : Type 0} (host_of : F → Str) (codec : Codec) (dir : Str) (s : Threads F)
    : Threads F → Type 0 where
  call :
      (i : ℕ) (e : Event F)
      → s.pc i ≡ idle
      → Step host_of codec dir s (record {
        shared = record s.shared { registry = Spec.step host_of s.shared.registry e };
        pc = update s.pc i changed;
      })
  change :
      (i : ℕ) (x : Edit)
      → s.pc i ≡ idle
      → Step host_of codec dir s (record {
        shared = record s.shared { rules = edit s.shared.rules x };
        pc = update s.pc i changed;
      })
  switch :
      (i : ℕ) (v : Bool)
      → s.pc i ≡ idle
      → Step host_of codec dir s
          (record { shared = record s.shared { pin_bypass = v }; pc = update s.pc i (flagged v) })
  seen :
      (host : Str)
      → Step host_of codec dir s (record s {
        shared = record s.shared { registry = Registry.observe s.shared.registry host };
      })
  finished :
      (f : F)
      → Step host_of codec dir s (record s {
        shared = record s.shared { registry = Registry.add_flow host_of s.shared.registry f };
      })
  save :
      (i : ℕ)
      → Step host_of codec dir s (record {
        shared = (save_step codec dir s.shared (s.pc i)).0;
        pc = update s.pc i (save_step codec dir s.shared (s.pc i)).1;
      })

pub data Reach {F : Type 0} (host_of : F → Str) (codec : Codec) (dir : Str) (s : Threads F)
    : Threads F → Type 0 where
  start : Reach host_of codec dir s s
  later :
      {t u : Threads F}
      → Reach host_of codec dir s t
      → Step host_of codec dir t u
      → Reach host_of codec dir s u
