-- ===== src/Server/Saving.antt =====
-- What the handlers of a server keep.
use skytap.Common.{◌≡◌, ◌⊎◌, refl, inl, inr}
use skytap.Text.{Str}
use skytap.Registry.{Registry}
use skytap.Rules.{RuleEngine}
use skytap.Config.{Codec, save_persist}
use skytap.Server.Files.{SameFiles, same-SameFiles}
use skytap.Server.{Server, saved}

module _ {F : Type 0} (codec : Codec) (dir : Str) where
  -- The registry, the rules and their files are as before, or the disk is what saving them has left.
  unfoldable pub IsKept : Server F → Server F → Type 0
  IsKept s s' =
      ((s'.registry ≡ s.registry) × (s'.rules ≡ s.rules) × SameFiles dir s.disk s'.disk)
      ⊎ (s'.disk ≡ (save_persist codec dir s.disk s'.registry s'.rules).0)

  pub same-IsKept : (s : Server F) → IsKept s s
  unfolding IsKept
  same-IsKept s = inl (refl, refl, same-SameFiles dir s.disk)

  pub saved-IsKept :
      (s : Server F) (reg : Registry F) (rules : RuleEngine)
      → IsKept s (saved codec dir s reg rules)
  unfolding IsKept saved
  saved-IsKept s reg rules = inr refl
