-- ===== src/Server.antt =====
-- The state that the handlers of admin.go and of mcp.go share, and its saving by config.go.
pub mod Saving
pub mod Files
pub mod Recovery
pub mod Present
use skytap.Common.{Bool, Option}
use skytap.Text.{Str}
use skytap.Registry
use skytap.Registry.{Registry}
use skytap.Rules.{RuleEngine}
use skytap.Disk.{Disk}
use skytap.SslKit.{SslKitStore}
use skytap.Config.{Codec, save_persist}

-- The registry, the rules, the disk, and the flag and the TLS policies of App.
pub record Server (F : Type 0) : Type 0 where
  pub registry : Registry F
  pub rules : RuleEngine
  pub disk : Disk
  pub pin_bypass : Bool
  pub kit : Option SslKitStore

module _ {F : Type 0} (codec : Codec) (dir : Str) where
  -- `_ = savePersist(dataDir, reg, rules)`, after the registry and the rules have changed: a failure
  -- is ignored. The call and its save are one step here, for handlers that come one at a time; Concurrent
  -- has the save in its own steps.
  unfoldable pub saved : Server F → Registry F → RuleEngine → Server F
  saved s reg rules = record s {
    registry = reg;
    rules = rules;
    disk = (save_persist codec dir s.disk reg rules).0;
  }
