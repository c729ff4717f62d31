-- ===== src/Main/Capture.antt =====
-- The capture rules of main.go: what main asks of the module skydst, and what its goroutine for signals does.
use skytap.Common.{Bool, List, [], ◌∷◌, none, some, if◌then◌else◌}
use skytap.Main.{RuleSpec, Started}

-- skydst.InstallRules, whose error is only logged, and skydst.RemoveRules.
pub data Call : Type 0 where
  install : RuleSpec → Call
  remove : RuleSpec → Call

-- The calls up to now, and whether the process has ended. `signalled`: SIGINT or SIGTERM has come.
-- Without capture rules main does not wait for signals, and the system ends the process.
unfoldable pub capture_calls : {F : Type 0} → Started F → Bool → List Call × Bool
capture_calls s signalled = elim s.spec [
  | none ↦ ([], signalled)
  | some spec ↦ (install spec ∷ (if signalled then remove spec ∷ [] else []), signalled)
]
