-- ===== src/Rules.antt =====
-- rules.go: the rule engine, the responses of mock rules and the rewriting of requests.
pub mod Store
pub mod Matching
pub mod Rewriting
use skytap.Common.{
  ℕ, zero, suc, ◌+◌, ◌/◌, ◌%◌, Bool, true, false, not, ◌&&◌, ◌||◌, List, [], ◌∷◌, ◌++◌, Option,
  none, some, map, length, take, eqb, ltb, is_empty, or_zero, if◌then◌else◌,
}
use skytap.Text.{Str, codes, ◌==◌, Unicode, equal_fold, has_prefix}
use skytap.GoMap
use skytap.GoMap.{GoMap}
use skytap.Http.{Request, Response}
use skytap.Script.{Engines, eval_body, eval_json_value}

-- `status` is the bit pattern of an int.
pub record Rule : Type 0 where
  pub id : Str
  pub host : Str
  pub path : Str
  pub method : Str
  pub status : ℕ
  pub body : Str
  pub content_type : Str
  pub action : Str
  pub rewrite_json : GoMap Str
  pub rewrite_body : Str
  pub script : Str

pub record RuleEngine : Type 0 where
  pub rules : List Rule

abbrev pub new_engine : RuleEngine
new_engine = record { rules = [] }

unfoldable hex_digit : ℕ → ℕ
hex_digit n = if ltb n 10 then n + 48 else n + 87

-- hex.EncodeToString
unfoldable pub hex_encode : Str → Str
unfolding hex_digit
hex_encode [] = []
hex_encode (b ∷ bs) = hex_digit (b / 16) ∷ hex_digit (b % 16) ∷ hex_encode bs

-- `random` is what crypto/rand gives: eight bytes.
unfoldable pub new_rule_id : Str → Str
unfolding hex_encode
new_rule_id random = hex_encode random

-- What Set and Add do to a rule that comes in.
unfoldable pub complete : Str → Rule → Rule
unfolding new_rule_id
complete random r = record r {
  id = if is_empty r.id then new_rule_id random else r.id;
  action = if is_empty r.action then codes "mock" else r.action;
}

-- `random i` is the draw for the rule at index `i`.
unfoldable pub complete_all : (ℕ → Str) → ℕ → List Rule → List Rule
unfolding complete
complete_all random i [] = []
complete_all random i (r ∷ rs) = complete (random i) r ∷ complete_all random (i + 1) rs

unfoldable pub set : (ℕ → Str) → RuleEngine → List Rule → RuleEngine
unfolding complete_all
set random e rules = record { rules = complete_all random 0 rules }

unfoldable pub add : Str → RuleEngine → Rule → RuleEngine × Rule
unfolding complete
add random e r = let r' = complete random r in (record { rules = e.rules ++ r' ∷ [] }, r')

unfoldable pub without : Str → List Rule → List Rule
without id [] = []
without id (r ∷ rs) = let rest = without id rs in if r.id == id then rest else r ∷ rest

unfoldable pub has_id : Str → List Rule → Bool
has_id id [] = false
has_id id (r ∷ rs) = r.id == id || has_id id rs

unfoldable pub delete : RuleEngine → Str → RuleEngine × Bool
unfolding without has_id
delete e id = (record { rules = without id e.rules }, has_id id e.rules)

unfoldable pub all_rules : RuleEngine → List Rule
all_rules e = e.rules

-- The text in front of a final `*`.
unfoldable pub cut_star : Str → Option Str
cut_star [] = none
cut_star (c ∷ []) = if eqb c b'*' then some [] else none
cut_star (c ∷ d ∷ s) = elim (cut_star (d ∷ s)) [ none ↦ none | some p ↦ some (c ∷ p) ]

unfoldable pub path_match : Str → Str → Bool
unfolding cut_star has_prefix
path_match pat path = elim (cut_star pat) [ some p ↦ has_prefix path p | none ↦ pat == path ]

module _ (u : Unicode) where
  -- The three guards of the loop of matchRule: the rule is not skipped.
  unfoldable pub applies : Str → Request → Rule → Bool
  applies host req r =
      (is_empty r.host || equal_fold u r.host host)
      && ((is_empty r.path || r.path == req.path || path_match r.path req.path)
          && (is_empty r.method || equal_fold u r.method req.method))

  unfoldable pub first_rule : Str → Request → List Rule → Option Rule
  first_rule host req [] = none
  first_rule host req (r ∷ rs) = if applies host req r then some r else first_rule host req rs

  unfoldable pub match_rule : RuleEngine → Str → Request → Option Rule
  match_rule e host req = first_rule host req e.rules

  unfoldable pub is_rewrite : Rule → Bool
  is_rewrite r = equal_fold u r.action (codes "rewrite")

abbrev pub content_type_key : Str
content_type_key = codes "Content-Type"

module _ (u : Unicode) (engines : Engines) where
  unfoldable pub render_rule : Rule → Option Request → Response
  render_rule r req =
      let body =
        if is_empty r.script
        then eval_body u engines r.body false req
        else eval_body u engines r.script true req in
      record {
        status = if eqb r.status 0 then 200 else r.status;
        headers =
            (
              content_type_key,
              if is_empty r.content_type then codes "application/json" else r.content_type,
            )
            ∷ [];
        body = body;
        content_length = length body;
      }

  -- Match: a response for the first matching rule, unless it rewrites.
  unfoldable pub match : RuleEngine → Str → Request → Option Response
  match e host req = elim (match_rule u e host req) [
    | none ↦ none
    | some r ↦ if is_rewrite u r then none else some (render_rule r (some req))
  ]

-- encoding/json on objects: the value of a string, reading an object (an error and `null` are
-- `none`), and printing one, which may fail.
pub record JsonObjects : Type 1 where
  pub Any : Type 0
  pub of_string : Str → Any
  pub unmarshal : Str → Option (GoMap Any)
  pub marshal : GoMap Any → Option Str

abbrev pub body_limit : ℕ
body_limit = 1048576

unfoldable replace_body : Request → Str → Request
replace_body req body = record req {
  body = some body;
  content_length = length body;
  get_body = some body;
}

module _ (u : Unicode) (engines : Engines) (json : JsonObjects) where
  open json use {Any, of_string, unmarshal, marshal}

  unfoldable pub set_fields : GoMap Any → GoMap Str → Request → GoMap Any
  set_fields obj [] req = obj
  set_fields obj ((k, v) ∷ fields) req =
      set_fields (GoMap.put obj k (of_string (eval_json_value u engines v (some req)))) fields req

  -- The fields are set in what was read of the body, or in an empty object.
  unfoldable pub rewrite_read : Request → Rule → Str → Request
  unfolding set_fields replace_body
  rewrite_read req r raw =
      elim (marshal (set_fields (or_zero [] (unmarshal raw)) r.rewrite_json req)) [
        | none ↦ record req { body = some raw; content_length = length raw }
        | some out ↦ record (replace_body req out) {
          headers = GoMap.put req.headers content_type_key (codes "application/json");
        }
      ]

  -- The reading of the body stops at `body_limit` bytes. The scripts do not see the body.
  unfoldable rewrite_fields : Request → Rule → Request
  unfolding rewrite_read
  rewrite_fields req r = rewrite_read req r (take body_limit (or_zero [] req.body))

  unfoldable pub apply_rewrite : Request → Rule → Request
  unfolding rewrite_fields replace_body
  apply_rewrite req r =
      if is_empty r.rewrite_body && is_empty r.script
      then (if is_empty r.rewrite_json then req else rewrite_fields req r)
      else replace_body req (
          eval_body u engines (if is_empty r.script then r.rewrite_body else r.script)
            (not (is_empty r.script)) (some req))
