-- ===== src/Tests/Rules.antt =====
-- rules.go
use skytap.Common.{◌≡◌, refl, List, [], ◌∷◌, All, some, none, ◌↔◌, false}
use skytap.Text.{Str, codes, ◌==◌, equal_fold, is_ascii, lower_byte}
use skytap.GoMap.{GoMap, get}
use skytap.GoMap.Merge.{or_else}
use skytap.Rules.{
  Rule, RuleEngine, match_rule, path_match, apply_rewrite, applies, first_rule, new_rule_id,
  content_type_key,
}
use skytap.Rules.Store.{Edit}
use skytap.Rules.Matching.{IsFirst, match_rule_iff}
use skytap.Rules.Rewriting.{apply_rewrite-object, map_value, field_value}
use skytap.Tests.Samples.{ascii_only, engines, json, blank_rule, request, api}

abbrev api_rule : Rule
api_rule = record blank_rule {
  id = codes "a";
  host = codes "API.test";
  path = codes "/v1/*";
  action = codes "rewrite";
  rewrite_json = (codes "k", codes "v") ∷ [];
}

abbrev engine : RuleEngine
engine = record {
  rules = record blank_rule { id = codes "z"; method = codes "POST" } ∷ api_rule ∷ [];
}

random_id : new_rule_id (0 ∷ 255 ∷ 26 ∷ []) ≡ codes "00ff1a"
unfolding new_rule_id
random_id = refl

second_rule : match_rule ascii_only engine api request ≡ some api_rule
unfolding match_rule first_rule applies equal_fold is_ascii lower_byte path_match ◌==◌
second_rule = refl

abbrev edits : List Edit
edits =
    Edit.add (1 ∷ []) blank_rule
    ∷ Edit.delete (codes "01")
    ∷ Edit.set (λ i. 2 ∷ []) (blank_rule ∷ [])
    ∷ []

match_rule_iff_example :
    ((r : Rule)
      → (match_rule ascii_only engine api request ≡ some r)
        ↔ IsFirst ascii_only api request engine.rules r)
    × ((match_rule ascii_only engine api request ≡ none)
        ↔ All (λ q. applies ascii_only api request q ≡ false) engine.rules)
match_rule_iff_example = match_rule_iff ascii_only api request engine

apply_rewrite-object_example :
    (obj' : GoMap Str) × (json.marshal obj' ≡ some (codes "{}"))
    × ((k : Str)
        → get obj' k
          ≡ or_else
              (map_value ascii_only engines json
                (field_value ascii_only engines json request)
                (get api_rule.rewrite_json k))
              (get ((codes "k", codes "{}") ∷ []) k))
    × ((apply_rewrite ascii_only engines json request api_rule).body ≡ some (codes "{}"))
    × ((apply_rewrite ascii_only engines json request api_rule).get_body ≡ some (codes "{}"))
    × ((apply_rewrite ascii_only engines json request api_rule).content_length ≡ 2)
    × (get (apply_rewrite ascii_only engines json request api_rule).headers content_type_key
        ≡ some (codes "application/json"))
apply_rewrite-object_example =
    apply_rewrite-object ascii_only engines json request api_rule (codes "{}")
      ((codes "k", codes "{}") ∷ []) (unfold get in (refl, tt)) refl refl refl refl refl
