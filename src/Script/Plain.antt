-- ===== src/Script/Plain.antt =====
-- Texts without double braces.
use skytap.Common.{
  ℕ, zero, suc, ◌≡◌, refl, ap, false, [], ◌∷◌, Option, none, some, arith, length, is_empty, if_case,
}
use skytap.Text.{Str, codes, Unicode, cut_prefix, has_prefix, contains}
use skytap.Http.{Request}
use skytap.Script.{Engines, marker, shorthand, replace_marker, apply_tpl, eval_body}
use skytap.Script.Scan.{scan}

abbrev braces : Str
braces = codes "{{"

cut_prefix-braces :
    (s t : Str) → has_prefix s braces ≡ false → cut_prefix s (b'{' ∷ b'{' ∷ t) ≡ none
unfolding cut_prefix has_prefix
cut_prefix-braces [] t h = refl
cut_prefix-braces (c ∷ []) t h = ground arith
cut_prefix-braces (c ∷ d ∷ s) t h = ground arith

-- A scan that finds nothing at a text that does not begin with braces leaves a text without braces
-- as it is.
scan-plain :
    (find : Str → Option (Str × Str))
    → ((s : Str) → has_prefix s braces ≡ false → find s ≡ none)
    → (n : ℕ) (s : Str) → contains s braces ≡ false
    → scan find n s ≡ s
unfolding scan contains
scan-plain find misses zero s h = refl
scan-plain find misses (suc n) [] h = refl
scan-plain find misses (suc n) (c ∷ s) h =
    let here : has_prefix (c ∷ s) braces ≡ false = ground arith in
    let later : contains s braces ≡ false = ground arith in
    rw (scan, misses (c ∷ s) here) (ap (λ t. c ∷ t) (scan-plain find misses n s later))

shorthand-none : (s : Str) → has_prefix s braces ≡ false → shorthand s ≡ none
unfolding shorthand
shorthand-none s h =
    rw
      (
        shorthand,
        cut_prefix-braces s (codes "path}}") h,
        cut_prefix-braces s (codes "host}}") h,
        cut_prefix-braces s (codes "query.") h,
      )
      refl

module _ (u : Unicode) (engines : Engines) where
  replace_marker-none :
      (req : Option Request) (s : Str)
      → has_prefix s braces ≡ false
      → replace_marker u engines req s ≡ none
  unfolding replace_marker marker
  replace_marker-none req s h =
      rw (replace_marker, marker, cut_prefix-braces s (codes "script:") h) refl

  apply_tpl-plain :
      (s : Str) (req : Option Request) → contains s braces ≡ false → apply_tpl u engines s req ≡ s
  unfolding apply_tpl
  apply_tpl-plain s none h = refl
  apply_tpl-plain s (some req) h =
      if_case (λ t. t ≡ s) (is_empty s) _ _ (λ _. refl)
        (λ _. rw (scan-plain shorthand shorthand-none (length s) s h, h) refl)

  -- A body of a rule, a replacement of a body or a value of a field that has no double braces and is no
  -- script is used as it is written, byte for byte, whatever the request.
  pub eval_body-plain :
      (s : Str) (req : Option Request)
      → contains s braces ≡ false
      → eval_body u engines s false req ≡ s
  unfolding eval_body
  eval_body-plain s req h =
      rw (scan-plain (replace_marker u engines req) (replace_marker-none req) (length s) s h)
        (apply_tpl-plain s req h)
