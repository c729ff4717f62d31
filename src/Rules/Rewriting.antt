-- ===== src/Rules/Rewriting.antt =====
-- What a rewrite rule does to a request.
use skytap.Common.{
  ◌≡◌, ◌⊎◌, refl, true, false, [], ◌∷◌, Option, none, some, arith, is_empty, or_zero, length, take,
}
use skytap.Text.{Str, Unicode, codes}
use skytap.Text.Equality.{eq_iff}
use skytap.GoMap
use skytap.GoMap.{GoMap, IsMap, get}
use skytap.GoMap.Laws.{get-put, get-put_self}
use skytap.GoMap.Merge.{or_else}
use skytap.Http.{Request}
use skytap.Script.{Engines, eval_json_value}
use skytap.Rules.{
  Rule, JsonObjects, body_limit, set_fields, rewrite_read, apply_rewrite, content_type_key,
}

module _ (u : Unicode) (engines : Engines) (json : JsonObjects) where
  open json use {Any, of_string, unmarshal, marshal}

  -- What a field's new value is.
  abbrev pub field_value : Request → Str → Any
  field_value req v = of_string (eval_json_value u engines v (some req))

  abbrev pub map_value : (Str → Any) → Option Str → Option Any
  map_value f none = none
  map_value f (some v) = some (f v)

  -- Every field of the rule is set to its value, every other field of the object stays.
  get-set_fields :
      (obj : GoMap Any) (fields : GoMap Str) (req : Request) (k : Str)
      → IsMap fields
      → get (set_fields u engines json obj fields req) k
        ≡ or_else (map_value (field_value req) (get fields k)) (get obj k)
  unfolding set_fields get
  get-set_fields obj [] req k d = refl
  get-set_fields obj ((j, v) ∷ fields) req k (new, d) = ground (
    arith,
    get-set_fields (GoMap.put obj j (field_value req v)) fields req k d,
    get-put obj j k (field_value req v),
    eq_iff j k,
  )

  -- Whatever the rule, a rewritten request announces the length of its body, and the method, the
  -- path, the host and the query stay.
  apply_rewrite-frame :
      (req : Request) (r : Rule)
      → ((apply_rewrite u engines json req r ≡ req)
          ⊎ (length (or_zero [] (apply_rewrite u engines json req r).body)
              ≡ (apply_rewrite u engines json req r).content_length))
        × ((apply_rewrite u engines json req r).method ≡ req.method)
        × ((apply_rewrite u engines json req r).path ≡ req.path)
        × ((apply_rewrite u engines json req r).host ≡ req.host)
        × ((apply_rewrite u engines json req r).query ≡ req.query)
  unfolding apply_rewrite
  apply_rewrite-frame req r = ground arith

  rewrite_read-object :
      (req : Request) (r : Rule) (raw out : Str) (obj : GoMap Any)
      → unmarshal raw ≡ some obj
      → marshal (set_fields u engines json obj r.rewrite_json req) ≡ some out
      → ((rewrite_read u engines json req r raw).body ≡ some out)
        × ((rewrite_read u engines json req r raw).get_body ≡ some out)
        × ((rewrite_read u engines json req r raw).content_length ≡ length out)
        × (get (rewrite_read u engines json req r raw).headers content_type_key
            ≡ some (codes "application/json"))
  unfolding rewrite_read
  rewrite_read-object req r raw out obj parsed printed =
      rw (rewrite_read, parsed, printed)
        (refl, refl, refl, get-put_self req.headers content_type_key (codes "application/json"))

  -- For a rule with RewriteJSON and with neither RewriteBody nor a script: where the part of the body
  -- within the limit of 1 MiB is a JSON object, and encoding/json prints the object with the fields set,
  -- what is sent is a printed object in which the rule's fields have their new values and all others are
  -- as they were, marked as JSON, with its length announced and ready to be sent again.
  pub apply_rewrite-object :
      (req : Request) (r : Rule) (out : Str) (obj : GoMap Any)
      → IsMap r.rewrite_json
      → is_empty r.rewrite_body ≡ true
      → is_empty r.script ≡ true
      → is_empty r.rewrite_json ≡ false
      → unmarshal (take body_limit (or_zero [] req.body)) ≡ some obj
      → marshal (set_fields u engines json obj r.rewrite_json req) ≡ some out
      → (obj' : GoMap Any) × (marshal obj' ≡ some out)
        × ((k : Str)
            → get obj' k ≡ or_else (map_value (field_value req) (get r.rewrite_json k)) (get obj k))
        × ((apply_rewrite u engines json req r).body ≡ some out)
        × ((apply_rewrite u engines json req r).get_body ≡ some out)
        × ((apply_rewrite u engines json req r).content_length ≡ length out)
        × (get (apply_rewrite u engines json req r).headers content_type_key
            ≡ some (codes "application/json"))
  unfolding apply_rewrite
  apply_rewrite-object req r out obj d b s f parsed printed =
      let (body, again, size, kind) = rewrite_read-object req r _ out obj parsed printed in
      (
        set_fields u engines json obj r.rewrite_json req,
        printed,
        λ k. get-set_fields obj r.rewrite_json req k d,
        rw (b, s, f) body,
        rw (b, s, f) again,
        rw (b, s, f) size,
        rw (b, s, f) kind,
      )
