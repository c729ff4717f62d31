-- ===== src/Admin/Frame.antt =====
-- What the handlers of Panel leave alone.
use skytap.Common.{◌≡◌, refl, not, is_empty, if_case, ◌⊎◌, inl, inr, Option, none, some}
use skytap.Text.{Str, codes, ◌==◌}
use skytap.Disk.{Disk}
use skytap.SslKit.{SslKitStore, HostSslPolicy}
use skytap.CaTrust.Install.{InstallError}
use skytap.Server.{Server}
use skytap.Handlers.{AdminRequest, Setup, Answer, query}
use skytap.Panel.{
  handle_pin_bypass, handle_ca_status, handle_ca_trust, trust_reply, handle_sslkit, sslkit_with,
  post_policy, handle_capture, capture_with, capture_reply,
}

-- The registry and the rules are as before.
abbrev pub Frame : {F : Type 0} → Server F → Server F → Type 0
Frame s s' = (s'.registry ≡ s.registry) × (s'.rules ≡ s.rules)

module _ {F : Type 0} (env : Setup F) (s : Server F) where
  open env use {decoder}

  trust_reply-Frame :
      (d : Disk) (e : Option InstallError) → Frame s (trust_reply env (record s { disk = d }) e).0
  unfolding trust_reply handle_ca_status
  trust_reply-Frame d none = (refl, refl)
  trust_reply-Frame d (some e) = (refl, refl)

  pub trust-Frame : (r : AdminRequest) → Frame s (handle_ca_trust env s r).0
  unfolding handle_ca_trust
  trust-Frame r =
      let Q : Answer env → Type 0 = λ a. Frame s a.0 in
      if_case Q (not (r.method == codes "POST")) _ _ (λ _. (refl, refl))
        (λ _. trust_reply-Frame _ _)

  post_policy-Frame :
      (store : SslKitStore) (p : Str ⊎ HostSslPolicy) → Frame s (post_policy env s store p).0
  unfolding post_policy
  post_policy-Frame store (inl message) = (refl, refl)
  post_policy-Frame store (inr p) =
      let Q : Answer env → Type 0 = λ a. Frame s a.0 in
      if_case Q (is_empty p.host) _ _ (λ _. (refl, refl)) (λ _. (refl, refl))

  sslkit_with-Frame :
      (r : AdminRequest) (o : Option SslKitStore) → Frame s (sslkit_with env s r o).0
  unfolding sslkit_with
  sslkit_with-Frame r none = (refl, refl)
  sslkit_with-Frame r (some store) =
      let Q : Answer env → Type 0 = λ a. Frame s a.0 in
      if_case Q (r.method == codes "POST") _ _
        (λ _. post_policy-Frame store (decoder.policy r.body))
        (λ _.
          if_case Q (not (is_empty (query r (codes "host")))) _ _ (λ _. (refl, refl))
            (λ _. (refl, refl)))

  pub sslkit-Frame : (r : AdminRequest) → Frame s (handle_sslkit env s r).0
  unfolding handle_sslkit
  sslkit-Frame r = sslkit_with-Frame r s.kit

  capture_reply-Frame :
      (o : Option (Disk × SslKitStore × HostSslPolicy)) → Frame s (capture_reply env s o).0
  unfolding capture_reply
  capture_reply-Frame none = (refl, refl)
  capture_reply-Frame (some (d, store, p)) = (refl, refl)

  capture_with-Frame :
      (r : AdminRequest) (o : Option SslKitStore) → Frame s (capture_with env s r o).0
  unfolding capture_with
  capture_with-Frame r none = (refl, refl)
  capture_with-Frame r (some store) = capture_reply-Frame _

  pub capture-Frame : (r : AdminRequest) → Frame s (handle_capture env s r).0
  unfolding handle_capture
  capture-Frame r =
      let Q : Answer env → Type 0 = λ a. Frame s a.0 in
      if_case Q (not (r.method == codes "POST")) _ _ (λ _. (refl, refl))
        (λ _. capture_with-Frame r s.kit)

  pub pin-Frame : (r : AdminRequest) → Frame s (handle_pin_bypass env s r).0
  unfolding handle_pin_bypass
  pin-Frame r =
      let Q : Answer env → Type 0 = λ a. Frame s a.0 in
      if_case Q (r.method == codes "POST") _ _ (λ _. (refl, refl)) (λ _. (refl, refl))
