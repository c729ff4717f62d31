-- ===== src/Admin/Effects.antt =====
-- What the handlers change, and that they save it.
use skytap.Common.{Option, none, some, ◌≡◌, refl, not, inl, inr, ◌⊎◌, ◌||◌, if_case, is_empty}
use skytap.Text.{Str, codes, ◌==◌, to_upper}
use skytap.Rules
use skytap.Rules.{Rule}
use skytap.Disk.{Disk}
use skytap.SslKit.{SslKitStore, HostSslPolicy}
use skytap.CaTrust.Install.{InstallError}
use skytap.Server.{Server}
use skytap.Server.Files.{
  SameFiles, IsApart, same-SameFiles, set_pin_bypass-SameFiles, install-SameFiles,
  put_policy-SameFiles, capture-SameFiles,
}
use skytap.Server.Saving.{IsKept, same-IsKept, saved-IsKept}
use skytap.Mcp.Tools.{handle_rpc-IsKept}
use skytap.Handlers.{
  AdminRequest, Setup, Answer, query, is_state, handle_domains, handle_history, handle_state,
  post_rule, handle_rules, handle_mcp,
}
use skytap.Panel.{
  handle_pin_bypass, handle_ca_status, handle_ca_trust, trust_reply, handle_sslkit, sslkit_with,
  post_policy, handle_capture, capture_with, capture_reply,
}
use skytap.Admin.{serve}
use skytap.Admin.Cases.{mux-all, serve-all}

module _ {F : Type 0} (env : Setup F) where
  open env use {codec, decoder, dir, unicode, fields, toolkit, system}

  module _ (apart : IsApart toolkit system dir) (s : Server F) (r : AdminRequest) where
    domains-IsKept : IsKept codec dir s (handle_domains env s r).0
    unfolding handle_domains
    domains-IsKept =
        let Q : Answer env → Type 0 = λ a. IsKept codec dir s a.0 in
        if_case Q (r.method == codes "DELETE") _ _
          (λ _.
            if_case Q (is_empty (query r (codes "host"))) _ _ (λ _. same-IsKept codec dir s)
              (λ _. saved-IsKept codec dir s _ _))
          (λ _. same-IsKept codec dir s)

    history-IsKept : IsKept codec dir s (handle_history env s r).0
    unfolding handle_history
    history-IsKept =
        let Q : Answer env → Type 0 = λ a. IsKept codec dir s a.0 in
        if_case Q (not (r.method == codes "DELETE")) _ _ (λ _. same-IsKept codec dir s)
          (λ _.
            if_case Q (query r (codes "scope") == codes "all") _ _
              (λ _. saved-IsKept codec dir s _ _)
              (λ _.
                if_case Q (query r (codes "scope") == codes "flows") _ _
                  (λ _. saved-IsKept codec dir s _ _) (λ _. same-IsKept codec dir s)))

    state-IsKept : IsKept codec dir s (handle_state env s r).0
    unfolding handle_state
    state-IsKept =
        let Q : Answer env → Type 0 = λ a. IsKept codec dir s a.0 in
        let st = to_upper unicode (query r (codes "state")) in
        if_case Q (is_empty (query r (codes "host")) || is_empty st) _ _
          (λ _. same-IsKept codec dir s)
          (λ _.
            if_case Q (is_state st) _ _ (λ _. saved-IsKept codec dir s _ _)
              (λ _. same-IsKept codec dir s))

    post-IsKept : (random : Str) (d : Str ⊎ Rule) → IsKept codec dir s (post_rule env random s d).0
    unfolding post_rule
    post-IsKept random (inl message) = same-IsKept codec dir s
    post-IsKept random (inr new) = saved-IsKept codec dir s _ _

    rules-IsKept : (random : Str) → IsKept codec dir s (handle_rules env random s r).0
    unfolding handle_rules
    rules-IsKept random =
        let Q : Answer env → Type 0 = λ a. IsKept codec dir s a.0 in
        if_case Q (r.method == codes "DELETE") _ _
          (λ _.
            if_case Q (is_empty (query r (codes "id"))) _ _ (λ _. same-IsKept codec dir s)
              (λ _.
                if_case Q (Rules.delete s.rules (query r (codes "id"))).1 _ _
                  (λ _. saved-IsKept codec dir s _ _) (λ _. same-IsKept codec dir s)))
          (λ _.
            if_case Q (r.method == codes "POST") _ _ (λ _. post-IsKept random (decoder.rule r.body))
              (λ _. same-IsKept codec dir s))

    mcp-IsKept :
        (random : Str) (body : Str ⊎ Str) → IsKept codec dir s (handle_mcp env random s body).0
    unfolding handle_mcp
    mcp-IsKept random (inl message) = same-IsKept codec dir s
    mcp-IsKept random (inr raw) =
        handle_rpc-IsKept unicode fields codec dir decoder.rpc random s (decoder.rpc.request raw)

    trust_reply-IsKept :
        (d : Disk) (e : Option InstallError)
        → SameFiles dir s.disk d
        → IsKept codec dir s (trust_reply env (record s { disk = d }) e).0
    unfolding trust_reply handle_ca_status IsKept
    trust_reply-IsKept d none h = inl (refl, refl, h)
    trust_reply-IsKept d (some e) h = inl (refl, refl, h)

    trust-IsKept : IsKept codec dir s (handle_ca_trust env s r).0
    unfolding handle_ca_trust
    trust-IsKept =
        let Q : Answer env → Type 0 = λ a. IsKept codec dir s a.0 in
        if_case Q (not (r.method == codes "POST")) _ _ (λ _. same-IsKept codec dir s)
          (λ _.
            trust_reply-IsKept _ _
              (install-SameFiles dir toolkit system apart unicode env.pem s.disk))

    post_policy-IsKept :
        (store : SslKitStore) (p : Str ⊎ HostSslPolicy)
        → IsKept codec dir s (post_policy env s store p).0
    unfolding post_policy IsKept
    post_policy-IsKept store (inl message) = same-IsKept codec dir s
    post_policy-IsKept store (inr p) =
        let Q : Answer env → Type 0 = λ a. IsKept codec dir s a.0 in
        if_case Q (is_empty p.host) _ _ (λ _. same-IsKept codec dir s)
          (λ _.
            inl (refl, refl, put_policy-SameFiles dir toolkit system apart unicode s.disk store p))

    sslkit_with-IsKept : (o : Option SslKitStore) → IsKept codec dir s (sslkit_with env s r o).0
    unfolding sslkit_with IsKept
    sslkit_with-IsKept none = same-IsKept codec dir s
    sslkit_with-IsKept (some store) =
        let Q : Answer env → Type 0 = λ a. IsKept codec dir s a.0 in
        if_case Q (r.method == codes "POST") _ _
          (λ _. post_policy-IsKept store (decoder.policy r.body))
          (λ _.
            if_case Q (not (is_empty (query r (codes "host")))) _ _
              (λ _. inl (refl, refl, same-SameFiles dir s.disk))
              (λ _. inl (refl, refl, same-SameFiles dir s.disk)))

    sslkit-IsKept : IsKept codec dir s (handle_sslkit env s r).0
    unfolding handle_sslkit
    sslkit-IsKept = sslkit_with-IsKept s.kit

    capture_reply-IsKept :
        (o : Option (Disk × SslKitStore × HostSslPolicy))
        → ((x : Disk × SslKitStore × HostSslPolicy) → o ≡ some x → SameFiles dir s.disk x.0)
        → IsKept codec dir s (capture_reply env s o).0
    unfolding capture_reply IsKept
    capture_reply-IsKept none h = same-IsKept codec dir s
    capture_reply-IsKept (some (d, store, p)) h = inl (refl, refl, h (d, store, p) refl)

    capture_with-IsKept : (o : Option SslKitStore) → IsKept codec dir s (capture_with env s r o).0
    unfolding capture_with
    capture_with-IsKept none = same-IsKept codec dir s
    capture_with-IsKept (some store) =
        capture_reply-IsKept _ (capture-SameFiles dir toolkit system apart unicode s.disk store _ _)

    capture-IsKept : IsKept codec dir s (handle_capture env s r).0
    unfolding handle_capture
    capture-IsKept =
        let Q : Answer env → Type 0 = λ a. IsKept codec dir s a.0 in
        if_case Q (not (r.method == codes "POST")) _ _ (λ _. same-IsKept codec dir s)
          (λ _. capture_with-IsKept s.kit)

    pin-IsKept : IsKept codec dir s (handle_pin_bypass env s r).0
    unfolding handle_pin_bypass IsKept
    pin-IsKept =
        let Q : Answer env → Type 0 = λ a. IsKept codec dir s a.0 in
        if_case Q (r.method == codes "POST") _ _
          (λ _. inl (refl, refl, set_pin_bypass-SameFiles dir s.disk (decoder.enabled r.body)))
          (λ _. inl (refl, refl, same-SameFiles dir s.disk))

  -- Whatever the token and the request: the registry, the rules and their files are as before, or the
  -- data directory is what saving the new ones has left. The refresh command and the capturing of
  -- chains leave those files alone.
  pub serve-IsKept :
      (apart : IsApart toolkit system dir) (token random : Str) (s : Server F) (r : AdminRequest)
      → IsKept codec dir s (serve env token random s r).0
  serve-IsKept apart token random s r =
      let P = IsKept codec dir s in
      let same = same-IsKept codec dir s in
      serve-all env P token random s r same (
        mux-all env P token random s r same (domains-IsKept apart s r) (history-IsKept apart s r)
          (state-IsKept apart s r) (rules-IsKept apart s r random)
          (λ _. mcp-IsKept apart s r random r.body) (trust-IsKept apart s r)
          (sslkit-IsKept apart s r) (capture-IsKept apart s r) (λ _. pin-IsKept apart s r))
