-- ===== src/Panel.antt =====
-- admin.go: the handlers of the pin-bypass switch, the certificate, the TLS policies, the description
-- of the listener, the WebSocket and the page.
use skytap.Common.{not, ◌||◌, Option, none, some, ◌⊎◌, inl, inr, is_empty, if◌then◌else◌}
use skytap.Text.{Str, codes, ◌==◌}
use skytap.Flags.{is_loopback}
use skytap.App.{set_pin_bypass}
use skytap.CaTrust.{ca_status}
use skytap.CaTrust.Install.{InstallError, install_ca_trust}
use skytap.SslKit.{HostSslPolicy, SslKitStore, get_policy, put_policy, refresh_all, capture}
use skytap.Disk.{Disk}
use skytap.Server.{Server}
use skytap.Handlers.{
  AdminRequest, Setup, Answer, query, failure, enabled, ca, not_installed, policy, policy_list,
  not_captured, meta, page, file, upgrade,
}

module _ {F : Type 0} (env : Setup F) where
  open env use {unicode, decoder, toolkit, system, dir}

  -- The application is there: main always gives one.
  unfoldable pub handle_pin_bypass : Server F → AdminRequest → Answer env
  handle_pin_bypass s r =
      if r.method == codes "POST"
      then (let (disk', v) = set_pin_bypass dir s.disk (decoder.enabled r.body) in
          (record s { disk = disk'; pin_bypass = v }, enabled v))
      else (s, enabled s.pin_bypass)

  unfoldable pub handle_ca_status : Server F → Answer env
  handle_ca_status s = (s, ca (ca_status unicode system env.pem dir s.disk))

  unfoldable pub trust_reply : Server F → Option InstallError → Answer env
  unfolding handle_ca_status
  trust_reply s (some e) = (s, not_installed e)
  trust_reply s none = handle_ca_status s

  unfoldable pub handle_ca_trust : Server F → AdminRequest → Answer env
  unfolding trust_reply
  handle_ca_trust s r =
      if not (r.method == codes "POST")
      then (s, failure 405 (codes "POST only"))
      else let (disk', failed) = install_ca_trust unicode system env.pem dir s.disk in
        trust_reply (record s { disk = disk' }) failed

  -- A server after a call of its store.
  abbrev with_store : Server F → SslKitStore → Server F
  with_store s store = record s { kit = some store }

  unfoldable pub post_policy : Server F → SslKitStore → Str ⊎ HostSslPolicy → Answer env
  post_policy s store (inl message) = (s, failure 400 message)
  post_policy s store (inr p) =
      if is_empty p.host
      then (s, failure 400 (codes "host required"))
      else let (disk', store', p') = put_policy unicode toolkit s.disk store p in
        (record s { disk = disk'; kit = some store' }, policy p')

  -- The application is there; `store` is its kit.
  unfoldable pub sslkit_with : Server F → AdminRequest → Option SslKitStore → Answer env
  unfolding post_policy query
  sslkit_with s r none = (s, failure 503 (codes "no sslkit store"))
  sslkit_with s r (some store) =
      if r.method == codes "POST"
      then post_policy s store (decoder.policy r.body)
      else if not (is_empty (query r (codes "host")))
      then (let (store', p) = get_policy unicode toolkit s.disk store (query r (codes "host")) in
          (with_store s store', policy p))
      else (let (store', ps) = refresh_all unicode toolkit s.disk store store.hosts in
          (with_store s store', policy_list ps))

  unfoldable pub handle_sslkit : Server F → AdminRequest → Answer env
  unfolding sslkit_with
  handle_sslkit s r = sslkit_with s r s.kit

  unfoldable pub capture_reply : Server F → Option (Disk × SslKitStore × HostSslPolicy) → Answer env
  capture_reply s none = (s, not_captured)
  capture_reply s (some (disk', store', p)) =
      (record s { disk = disk'; kit = some store' }, policy p)

  unfoldable pub capture_with : Server F → AdminRequest → Option SslKitStore → Answer env
  unfolding query capture_reply
  capture_with s r none = (s, failure 503 (codes "no sslkit store"))
  capture_with s r (some store) =
      let (host, dst) = decoder.target r.body in
      let host' = if is_empty host then query r (codes "host") else host in
      capture_reply s (capture unicode toolkit s.disk store host' dst)

  unfoldable pub handle_capture : Server F → AdminRequest → Answer env
  unfolding capture_with
  handle_capture s r =
      if not (r.method == codes "POST")
      then (s, failure 405 (codes "POST only"))
      else capture_with s r s.kit

  -- /meta, for the token of the listener
  unfoldable pub handle_meta : Str → Server F → Answer env
  handle_meta token s =
      (s, meta env.bind (is_loopback env.addresses env.bind) (not (is_empty token)))

  unfoldable pub handle_upgrade : Server F → Answer env
  handle_upgrade s = (s, if env.has_hub then upgrade else failure 503 (codes "no hub"))

  -- The page, or the server of the embedded files; the page is there, since it is embedded.
  unfoldable pub handle_page : Server F → AdminRequest → Answer env
  handle_page s r =
      if r.path == codes "/" || r.path == codes "/index.html"
      then (
        s,
        elim env.index_page [ none ↦ failure 500 (codes "file does not exist") | some b ↦ page b ],
      )
      else (s, file r.path)
