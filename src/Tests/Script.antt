-- ===== src/Tests/Script.antt =====
-- The texts of rules.go with scripts and templates.
use skytap.Common.{ℕ, ◌+◌, ◌^◌, ◌≡◌, refl, none, some, false, [], ◌∷◌, arith}
use skytap.Script.Clock.{int, iso, date}
use skytap.Script.Offsets.{iso_period}
use skytap.Text.{Str, codes, cut_prefix, has_prefix, contains}
use skytap.Script.{marker, eval_body, until_close, skip_space}
use skytap.Script.Plain.{eval_body-plain}
use skytap.Tests.Samples.{ascii_only, engines, request}

marker_found : marker (codes "{{script: 3 + 4}}ms") ≡ some (codes "3 + 4", codes "ms")
unfolding marker until_close skip_space cut_prefix
marker_found = refl

no_braces : contains (codes "{ok}") (codes "{{") ≡ false
unfolding contains has_prefix cut_prefix
no_braces = refl

eval_body-plain_example :
    eval_body ascii_only engines (codes "{ok}") false (some request) ≡ codes "{ok}"
eval_body-plain_example = eval_body-plain ascii_only engines (codes "{ok}") (some request) no_braces

-- A clock that shows the duration that is added to it.
abbrev shown : Str → ℕ → Str
shown layout ns = ns ∷ []

iso_period_example :
    (iso none 1700000000000000000 shown (int false (60 + 2 ^ 55) ∷ [])
      ≡ iso none 1700000000000000000 shown (int false 60 ∷ []))
    × (date none 1700000000000000000 shown (int false (60 + 2 ^ 55) ∷ [])
        ≡ date none 1700000000000000000 shown (int false 60 ∷ []))
iso_period_example = iso_period none 1700000000000000000 shown 60 [] (omega arith)
