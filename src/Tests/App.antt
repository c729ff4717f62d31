-- ===== src/Tests/App.antt =====
-- app.go
use skytap.Common.{◌≡◌, ◌≢◌, refl, ap, [], ◌∷◌, some, none, ◌↔◌, arith, true, false, ◌⊎◌}
use skytap.Text.{Str, codes, ◌==◌, equal_fold, is_ascii, lower_byte, cut_prefix, contains}
use skytap.GoMap.{put}
use skytap.Http.{Request, Response}
use skytap.Script.{eval_body}
use skytap.Registry
use skytap.Registry.{new_registry, intercepted, mocked}
use skytap.Registry.Spec.{run}
use skytap.Rules.{
  Rule, RuleEngine, match_rule, is_rewrite, render_rule, apply_rewrite, match, first_rule, applies,
}
use skytap.App.{terminate, passthrough, on_connect, on_request, decide}
use skytap.App.Decisions.{on_connect_lem, unpromoted_untouched, decide-response, decide-request}
use skytap.Tests.Samples.{host_of, ascii_only, engines, json, blank_rule, request, api, other_host}
use skytap.Tests.Registry.{trace}

abbrev mock_rules : RuleEngine
mock_rules = record { rules = record blank_rule { action = codes "mock"; body = codes "hi" } ∷ [] }

abbrev rewrite_rules : RuleEngine
rewrite_rules = record {
  rules =
      record blank_rule { action = codes "Rewrite"; rewrite_json = (codes "k", codes "v") ∷ [] }
      ∷ [];
}

abbrev hi : Response
hi = record {
  status = 200;
  headers = (codes "Content-Type", codes "application/json") ∷ [];
  body = codes "hi";
  content_length = 2;
}

mock_answers : (decide ascii_only engines json mocked rewrite_rules mock_rules api request).0 ≡ none
unfolding decide match_rule first_rule applies is_rewrite equal_fold is_ascii lower_byte ◌==◌
mock_answers = refl

mock_answers_again :
    (decide ascii_only engines json mocked mock_rules mock_rules api request).0 ≡ some hi
unfolding decide match match_rule first_rule applies is_rewrite equal_fold is_ascii lower_byte
    render_rule eval_body cut_prefix contains ◌==◌
mock_answers_again = refl

decide-response_example :
    (r : Rule) × (mocked ≡ mocked)
    × (match_rule ascii_only mock_rules api request ≡ some r)
    × (is_rewrite ascii_only r ≡ false)
    × (hi ≡ render_rule ascii_only engines r (some request))
    × ((decide ascii_only engines json mocked mock_rules mock_rules api request).1 ≡ request)
decide-response_example =
    decide-response ascii_only engines json mocked mock_rules mock_rules api request hi
      mock_answers_again

request_changes :
    (decide ascii_only engines json intercepted rewrite_rules rewrite_rules api request).1 ≢ request
unfolding decide match_rule first_rule applies is_rewrite equal_fold is_ascii lower_byte
    apply_rewrite ◌==◌ put
request_changes e = cc (ap (λ (r : Request). r.get_body) e)

decide-request_example :
    (r : Rule) × ((intercepted ≡ intercepted) ⊎ (intercepted ≡ mocked))
    × (match_rule ascii_only rewrite_rules api request ≡ some r)
    × (is_rewrite ascii_only r ≡ true)
    × (decide ascii_only engines json intercepted rewrite_rules rewrite_rules api request
        ≡ (none, apply_rewrite ascii_only engines json request r))
decide-request_example =
    decide-request ascii_only engines json intercepted rewrite_rules rewrite_rules api request
      request_changes

on_connect_lem_example :
    ((h : Str)
      → Registry.state (on_connect (run host_of new_registry trace) api).0 h
        ≡ Registry.state (run host_of new_registry trace) h)
    × (((on_connect (run host_of new_registry trace) api).1 ≡ terminate) ↔ (
        (Registry.state (run host_of new_registry trace) api ≡ intercepted)
        ⊎ (Registry.state (run host_of new_registry trace) api ≡ mocked)))
on_connect_lem_example = on_connect_lem (run host_of new_registry trace) api

unpromoted_untouched_example :
    ((on_connect (run host_of new_registry trace) other_host).1 ≡ passthrough)
    × (on_request ascii_only engines json
          (run host_of new_registry trace)
          rewrite_rules
          other_host
          request
        ≡ (none, request))
unfolding ◌==◌
unpromoted_untouched_example =
    unpromoted_untouched ascii_only engines json host_of trace other_host rewrite_rules request
      (ground arith)
