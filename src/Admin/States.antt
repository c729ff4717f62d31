-- ===== src/Admin/States.antt =====
-- The states that a table can hold.
use skytap.Common.{
  sym, ◌∙◌, ◌≡◌, true, false, not, [], ◌∷◌, inl, inr, ◌⊎◌, ◌||◌, if_case, is_empty, All,
}
use skytap.Text.{Str, codes, ◌==◌, to_upper}
use skytap.GoMap
use skytap.GoMap.{GoMap}
use skytap.Registry
use skytap.Registry.{Registry, DomainState}
use skytap.Rules
use skytap.Rules.{Rule}
use skytap.Server.{Server, saved}
use skytap.Admin.Cases.{mux-all, serve-all}
use skytap.Handlers.{
  AdminRequest, Setup, query, is_state, Answer, handle_domains, handle_history, handle_state,
  post_rule, handle_rules,
}
use skytap.Admin.Frame.{Frame, trust-Frame, sslkit-Frame, capture-Frame, pin-Frame}
use mathlib.Core.Path.{subst}
use skytap.Panel.{handle_ca_trust, handle_sslkit, handle_capture, handle_pin_bypass}
use skytap.Admin.{serve}

put-All :
    {V : Type 0} (P : Str × V → Type 0) (m : GoMap V) (k : Str) (v : V)
    → All P m
    → P (k, v)
    → All P (GoMap.put m k v)
unfolding GoMap.put
put-All P [] k v h p = (p, tt)
put-All P ((j, w) ∷ m) k v (q, h) p =
    if_case (All P) (j == k) _ _ (λ _. (p, h)) (λ _. (q, put-All P m k v h p))

delete-All :
    {V : Type 0} (P : Str × V → Type 0) (m : GoMap V) (k : Str) → All P m → All P (GoMap.delete m k)
unfolding GoMap.delete
delete-All P [] k h = tt
delete-All P ((j, w) ∷ m) k (q, h) =
    if_case (All P) (j == k) _ _ (λ _. delete-All P m k h) (λ _. (q, delete-All P m k h))

-- Every host of the table has one of the three states.
abbrev pub HasStates : {F : Type 0} → Registry F → Type 0
HasStates reg = All (λ e. is_state e.1 ≡ true) reg.states

module _ {F : Type 0} (env : Setup F) where
  open env use {decoder, unicode}

  module _ (s : Server F) (r : AdminRequest) (valid : HasStates s.registry) where
    domains-HasStates : HasStates (handle_domains env s r).0.registry
    unfolding handle_domains saved Registry.delete_host
    domains-HasStates =
        let Q : Answer env → Type 0 = λ a. HasStates a.0.registry in
        let host = query r (codes "host") in
        if_case Q (r.method == codes "DELETE") _ _
          (λ _.
            if_case Q (is_empty host) _ _ (λ _. valid)
              (λ _.
                if_case HasStates (is_empty host) _ _ (λ _. valid)
                  (λ _. delete-All (λ e. is_state e.1 ≡ true) s.registry.states host valid)))
          (λ _. valid)

    history-HasStates : HasStates (handle_history env s r).0.registry
    unfolding handle_history saved Registry.reset Registry.clear_flows
    history-HasStates =
        let Q : Answer env → Type 0 = λ a. HasStates a.0.registry in
        if_case Q (not (r.method == codes "DELETE")) _ _ (λ _. valid)
          (λ _.
            if_case Q (query r (codes "scope") == codes "all") _ _ (λ _. tt)
              (λ _.
                if_case Q (query r (codes "scope") == codes "flows") _ _
                  (λ _.
                    if_case HasStates (is_empty (query r (codes "host"))) _ _ (λ _. valid)
                      (λ _. valid))
                  (λ _. valid)))

    state-HasStates : HasStates (handle_state env s r).0.registry
    unfolding handle_state saved Registry.set_state
    state-HasStates =
        let Q : Answer env → Type 0 = λ a. HasStates a.0.registry in
        let st = to_upper unicode (query r (codes "state")) in
        if_case Q (is_empty (query r (codes "host")) || is_empty st) _ _ (λ _. valid)
          (λ _.
            if_case Q (is_state st) _ _
              (λ e.
                put-All (λ e. is_state e.1 ≡ true) s.registry.states (query r (codes "host")) st
                  valid e)
              (λ _. valid))

    post-HasStates :
        (random : Str) (d : Str ⊎ Rule) → HasStates (post_rule env random s d).0.registry
    unfolding post_rule saved
    post-HasStates random (inl message) = valid
    post-HasStates random (inr new) = valid

    rules-HasStates : (random : Str) → HasStates (handle_rules env random s r).0.registry
    unfolding handle_rules saved
    rules-HasStates random =
        let Q : Answer env → Type 0 = λ a. HasStates a.0.registry in
        if_case Q (r.method == codes "DELETE") _ _
          (λ _.
            if_case Q (is_empty (query r (codes "id"))) _ _ (λ _. valid)
              (λ _.
                if_case Q (Rules.delete s.rules (query r (codes "id"))).1 _ _ (λ _. valid)
                  (λ _. valid)))
          (λ _.
            if_case Q (r.method == codes "POST") _ _
              (λ _. post-HasStates random (decoder.rule r.body)) (λ _. valid))

    Frame-HasStates : (s' : Server F) → Frame s s' → HasStates s'.registry
    Frame-HasStates s' (same, _) = subst HasStates (sym same) valid

  -- Whatever the token, a request to any path but /mcp leaves every host with one of the three states,
  -- if every host had one.
  pub serve-HasStates :
      (token random : Str) (s : Server F) (r : AdminRequest)
      → HasStates s.registry
      → (r.path == codes "/mcp") ≡ false
      → HasStates (serve env token random s r).0.registry
  serve-HasStates token random s r valid other =
      let P : Server F → Type 0 = λ x. HasStates x.registry in
      let framed = Frame-HasStates s r valid in
      serve-all env P token random s r valid (
        mux-all env P token random s r valid (domains-HasStates s r valid)
          (history-HasStates s r valid) (state-HasStates s r valid)
          (rules-HasStates s r valid random) (λ e. absurd (cc (sym e ∙ other)))
          (framed (handle_ca_trust env s r).0 (trust-Frame env s r))
          (framed (handle_sslkit env s r).0 (sslkit-Frame env s r))
          (framed (handle_capture env s r).0 (capture-Frame env s r))
          (λ _. framed (handle_pin_bypass env s r).0 (pin-Frame env s r)))
