-- ===== src/Script/Scan.antt =====
-- A scan from left to right that replaces each match and copies every other byte, as both
-- ReplaceAllStringFunc and a Replacer do.
use skytap.Common.{ℕ, zero, suc, [], ◌∷◌, ◌++◌, Option, none, some}
use skytap.Text.{Str}

-- `find` looks at the head of a text: the replacement of a match there, and what follows the match.
-- Fuel: the length of the text; a match that consumes nothing does not occur.
unfoldable pub scan : (Str → Option (Str × Str)) → ℕ → Str → Str
scan find zero s = s
scan find (suc n) [] = []
scan find (suc n) (c ∷ s) = elim (find (c ∷ s)) [
  | none ↦ c ∷ scan find n s
  | some (new, rest) ↦ new ++ scan find n rest
]
