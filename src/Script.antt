-- ===== src/Script.antt =====
-- rules.go, the texts of rules: Starlark scripts, `{{script: …}}` markers and templates.
pub mod Scan
pub mod Clock
pub mod Offsets
pub mod Plain
use skytap.Common.{
  ℕ, zero, suc, ◌-◌, Bool, true, false, ◌&&◌, ◌||◌, List, [], ◌∷◌, ◌++◌, Option, none, some, map,
  length, take, eqb, is_empty, or_zero, if◌then◌else◌,
}
use skytap.Text.{Str, codes, ◌==◌, Unicode, trim_space, cut_prefix, has_prefix, contains}
use skytap.GoMap
use skytap.GoMap.{GoMap}
use skytap.Http.{Request}
use skytap.Script.Scan.{scan}
use skytap.Script.Clock.{Thread, Passed, Answer, clock_functions}

-- What stringify tells apart in a starlark.Value: a string, the decimal text of an Int (by
-- FormatInt or by String), the text of a Float, a Bool, and the fmt.Sprint text of any other.
pub data Value : Type 0 where
  string : Str → Value
  int : Str → Value
  float : Str → Value
  bool : Bool → Value
  other : Str → Value

-- The predeclared names: those that depend on the request, and the functions that read the clock.
pub record Env : Type 0 where
  pub path : Str
  pub host : Str
  pub method : Str
  pub query : GoMap Str
  pub functions : List (Str × (Option Thread → ℕ → (Str → ℕ → Str) → List Passed → Option Answer))

-- The data of a template.
pub record TemplateData : Type 0 where
  pub path : Str
  pub host : Str
  pub query : GoMap Str

-- go.starlark.net and text/template: both may fail, also by the step and time limits.
pub record Engines : Type 0 where
  pub eval : Str → Env → Option Value
  pub exec_file : Str → Env → Option (GoMap Value)
  pub template : Str → TemplateData → Option Str

unfoldable stringify : Value → Str
stringify (string s) = s
stringify (int s) = s
stringify (float s) = s
stringify (bool b) = if b then codes "true" else codes "false"
stringify (other s) = s

-- The first value of each parameter; a parameter with no value is left out.
unfoldable query_map : GoMap (List Str) → GoMap Str
query_map [] = []
query_map ((k, []) ∷ q) = query_map q
query_map ((k, v ∷ vs) ∷ q) = (k, v) ∷ query_map q

unfoldable builtins : Option Request → Env
unfolding query_map clock_functions
builtins none = record {
  path = [];
  host = [];
  method = [];
  query = [];
  functions = clock_functions;
}
builtins (some req) = record {
  path = req.path;
  host = req.host;
  method = req.method;
  query = query_map req.query;
  functions = clock_functions;
}

unfoldable template_data : Request → TemplateData
unfolding query_map
template_data req = record { path = req.path; host = req.host; query = query_map req.query }

abbrev script_open : Str
script_open = codes "{{script:"

abbrev close : Str
close = codes "}}"

-- `\s*` of the marker's pattern
unfoldable pub skip_space : Str → Str
skip_space [] = []
skip_space (c ∷ s) =
    if eqb c 32 || eqb c 9 || eqb c 10 || eqb c 12 || eqb c 13 then skip_space s else c ∷ s

-- `(.*?)\}\}`: up to the first closing braces, with no line feed before them.
unfoldable pub until_close : Str → Option (Str × Str)
until_close [] = none
until_close (c ∷ s) =
    let later = until_close s in
    elim (cut_prefix (c ∷ s) close) [
      | some rest ↦ some ([], rest)
      | none ↦
          if eqb c 10
          then none
          else elim later [ none ↦ none | some (content, rest) ↦ some (c ∷ content, rest) ]
    ]

-- A marker at the head of a text: its content and what follows it.
unfoldable pub marker : Str → Option (Str × Str)
unfolding skip_space until_close
marker s = elim (cut_prefix s script_open) [ none ↦ none | some r ↦ until_close (skip_space r) ]

-- strings.NewReplacer of applyTpl: the pairs are tried in order at each position.
unfoldable pub shorthand : Str → Option (Str × Str)
shorthand s = elim (cut_prefix s (codes "{{path}}")) [
  | some r ↦ some (codes "{{.path}}", r)
  | none ↦ elim (cut_prefix s (codes "{{host}}")) [
    | some r ↦ some (codes "{{.host}}", r)
    | none ↦ elim (cut_prefix s (codes "{{query.")) [
      | some r ↦ some (codes "{{.query.", r)
      | none ↦ none
    ]
  ]
]

module _ (u : Unicode) (engines : Engines) where
  unfoldable eval_expr : Str → Option Request → Option Str
  unfolding stringify builtins
  eval_expr src req = elim (engines.eval src (builtins req)) [
    | none ↦ none
    | some v ↦ some (stringify v)
  ]

  unfoldable run_program : Str → Option Request → Option Str
  unfolding stringify builtins
  run_program src req = elim (engines.exec_file src (builtins req)) [
    | none ↦ none
    | some g ↦ elim (GoMap.get g (codes "out")) [
      | some out ↦ some (stringify out)
      | none ↦ elim (engines.eval src (builtins req)) [ some v ↦ some (stringify v) | none ↦ none ]
    ]
  ]

  -- What a marker is replaced by: the marker itself, where its expression fails.
  unfoldable pub replace_marker : Option Request → Str → Option (Str × Str)
  unfolding marker eval_expr
  replace_marker req s = elim (marker s) [
    | none ↦ none
    | some (content, rest) ↦
        some
          (or_zero (take (length s - length rest) s) (eval_expr (trim_space u content) req), rest)
  ]

  unfoldable pub apply_tpl : Str → Option Request → Str
  unfolding scan shorthand template_data
  apply_tpl s none = s
  apply_tpl s (some req) =
      if is_empty s
      then s
      else let t = scan shorthand (length s) s in
        if contains t (codes "{{") then or_zero t (engines.template t (template_data req)) else t

  unfoldable pub eval_body : Str → Bool → Option Request → Str
  unfolding scan replace_marker run_program apply_tpl
  eval_body s whole req =
      if whole
      then apply_tpl (or_zero s (run_program s req)) req
      else apply_tpl (scan (replace_marker req) (length s) s) req

  unfoldable pub eval_json_value : Str → Option Request → Str
  unfolding eval_body eval_expr
  eval_json_value v req = elim (cut_prefix v (codes "=")) [
    | some e ↦ or_zero v (eval_expr (trim_space u e) req)
    | none ↦ eval_body v false req
  ]
