-- ===== src/SslKit.antt =====
-- sslkit.go: the TLS policy of each host, its file and the configuration that clients read.
pub mod Lookup
use skytap.Common.{
  ℕ, Bool, true, false, not, ◌&&◌, List, [], ◌∷◌, ◌++◌, Option, none, some, is_empty, is_some,
  or_zero, if◌then◌else◌,
}
use skytap.Text.{Str, codes, Unicode, to_lower, trim_space}
use skytap.GoMap
use skytap.GoMap.{GoMap}
use skytap.Disk.{Disk, join, read_file, write_file, mkdir_all}

pub record HostSslPolicy : Type 0 where
  pub host : Str
  pub kit : Bool
  pub impersonate : Bool
  pub pin : Str
  pub verify : Str
  pub captured : Bool
  pub spki : Str
  pub subject : Str
  pub issuer : Str

-- What a missing key of the map gives.
abbrev pub zero_policy : HostSslPolicy
zero_policy = record {
  host = [];
  kit = false;
  impersonate = false;
  pin = [];
  verify = [];
  captured = false;
  spki = [];
  subject = [];
  issuer = [];
}

pub record SslKitStore : Type 0 where
  pub data_dir : Str
  pub conf_dir : Str
  pub hosts : GoMap HostSslPolicy

-- gomitm and the packages of certificates: the directory of the captured chains; capturing one, with
-- the text of its error; the Base64 of the key's hash, the subject and the issuer of the first
-- certificate of a PEM text; and encoding/json on the map of policies.
pub record Toolkit : Type 0 where
  pub dump_dir : Str
  pub dump_chain : Disk → Str → Str → Option Disk
  pub certificate : Str → Option (Str × Str × Str)
  pub encode_hosts : GoMap HostSslPolicy → Option Str
  pub decode_hosts : Str → Option (GoMap HostSslPolicy)

-- strings.Join
unfoldable join_texts : Str → List Str → Str
join_texts sep [] = []
join_texts sep (s ∷ []) = s
join_texts sep (s ∷ t ∷ ts) = s ++ sep ++ join_texts sep (t ∷ ts)

abbrev bool_env : Bool → Str
bool_env v = if v then codes "on" else codes "off"

-- The four lists of the configuration, in the order in which the map is gone through: the hosts
-- with a kit, those to impersonate, and the settings for pins and for verification.
unfoldable kit_hosts : GoMap HostSslPolicy → List Str
kit_hosts [] = []
kit_hosts ((k, p) ∷ m) = let rest = kit_hosts m in if p.kit then p.host ∷ rest else rest

unfoldable impersonated_hosts : GoMap HostSslPolicy → List Str
impersonated_hosts [] = []
impersonated_hosts ((k, p) ∷ m) =
    let rest = impersonated_hosts m in if p.impersonate then p.host ∷ rest else rest

unfoldable pin_settings : GoMap HostSslPolicy → List Str
pin_settings [] = []
pin_settings ((k, p) ∷ m) =
    let rest = pin_settings m in
    if not (is_empty p.pin) then (p.host ++ codes "=" ++ p.pin) ∷ rest else rest

unfoldable verify_settings : GoMap HostSslPolicy → List Str
verify_settings [] = []
verify_settings ((k, p) ∷ m) =
    let rest = verify_settings m in
    if not (is_empty p.verify) then (p.host ++ codes "=" ++ p.verify) ∷ rest else rest

-- The text of skytap-ssl.conf; each line ends with a line feed.
unfoldable pub client_conf : GoMap HostSslPolicy → Str
unfolding kit_hosts impersonated_hosts pin_settings verify_settings join_texts
client_conf m =
    codes "SKYTAP_SSL_CA=/certs/ca.crt"
    ++ 10 ∷ codes "SKYTAP_SSL_PROXY=http://skytap:8080"
    ++ 10 ∷ codes "SKYTAP_SSL_ORIGIN_CERT_DIR=/certs/origin-cache"
    ++ 10 ∷ codes "SKYTAP_SSL_KIT_HOSTS="
    ++ join_texts (codes ",") (kit_hosts m)
    ++ 10 ∷ codes "SKYTAP_SSL_IMPERSONATE_HOSTS="
    ++ join_texts (codes ",") (impersonated_hosts m)
    ++ 10 ∷ codes "SKYTAP_SSL_IMPERSONATE="
    ++ bool_env (not (is_empty (impersonated_hosts m)))
    ++ 10 ∷ codes "SKYTAP_SSL_PIN_BY_HOST="
    ++ join_texts (codes ",") (pin_settings m)
    ++ 10 ∷ codes "SKYTAP_SSL_VERIFY_BY_HOST="
    ++ join_texts (codes ",") (verify_settings m)
    ++ 10 ∷ []

unfoldable pub write_client_conf : Disk → SslKitStore → Disk
unfolding client_conf
write_client_conf d s =
    let dir = if is_empty s.conf_dir then codes "/certs" else s.conf_dir in
    if mkdir_all d dir
    then (write_file d (join dir (codes "skytap-ssl.conf")) (client_conf s.hosts)).0
    else d

-- strings.ToLower(strings.TrimSpace(host))
unfoldable pub host_key : Unicode → Str → Str
host_key u host = to_lower u (trim_space u host)

-- The defaults of an empty Pin and an empty Verify.
unfoldable pub with_defaults : HostSslPolicy → HostSslPolicy
with_defaults p = record p {
  pin = if is_empty p.pin then codes "off" else p.pin;
  verify = if is_empty p.verify then codes "ca" else p.verify;
}

-- Put keeps what has been captured where the new policy has no key.
unfoldable pub keep_capture : HostSslPolicy → HostSslPolicy → HostSslPolicy
keep_capture cur p =
    if is_empty p.spki
    then record p {
      spki = cur.spki;
      subject = cur.subject;
      issuer = cur.issuer;
      captured = cur.captured;
    }
    else p

module _ (u : Unicode) (kit : Toolkit) where
  -- What refreshLocked does with the certificate, or with the file, of the host of `p`.
  abbrev pub refresh_with :
      SslKitStore → HostSslPolicy → Option (Str × Str × Str) → SslKitStore × HostSslPolicy
  refresh_with s p none = (s, p)
  refresh_with s p (some (key, subject, issuer)) =
      let p' = record p { spki = key; subject = subject; issuer = issuer; captured = true } in
      (record s { hosts = GoMap.put s.hosts p.host p' }, p')

  abbrev pub refresh_from : SslKitStore → HostSslPolicy → Option Str → SslKitStore × HostSslPolicy
  refresh_from s p none = (s, record p { captured = false })
  refresh_from s p (some b) = refresh_with s p (kit.certificate b)

  unfoldable pub refresh : Disk → SslKitStore → HostSslPolicy → SslKitStore × HostSslPolicy
  refresh d s p =
      if is_empty kit.dump_dir
      then (s, p)
      else refresh_from s p (read_file d (join kit.dump_dir (p.host ++ codes ".pem")))

  -- persistLocked: the error of making the directory is ignored.
  unfoldable pub persist : Disk → SslKitStore → Disk
  unfolding write_client_conf
  persist d s = if is_empty s.data_dir then d else elim (kit.encode_hosts s.hosts) [
    | none ↦ d
    | some b ↦ write_client_conf (write_file d (join s.data_dir (codes "sslkit.json")) b).0 s
  ]

  unfoldable pub new_store : Disk → Str → Str → Disk × SslKitStore
  unfolding write_client_conf
  new_store d data_dir conf_dir =
      let hosts : GoMap HostSslPolicy = elim (read_file d (join data_dir (codes "sslkit.json"))) [
        | none ↦ []
        | some b ↦ or_zero [] (kit.decode_hosts b)
      ] in
      let s : SslKitStore = record { data_dir = data_dir; conf_dir = conf_dir; hosts = hosts } in
      (write_client_conf d s, s)

  abbrev found_policy :
      Disk → SslKitStore → Str → Option HostSslPolicy → SslKitStore × HostSslPolicy
  found_policy d s key none =
      (s, record zero_policy { host = key; pin = codes "off"; verify = codes "ca" })
  found_policy d s key (some p) = refresh d s p

  -- Get
  unfoldable pub get_policy : Disk → SslKitStore → Str → SslKitStore × HostSslPolicy
  unfolding host_key refresh
  get_policy d s host = found_policy d s (host_key u host) (GoMap.get s.hosts (host_key u host))

  -- All, on a map that is gone through as it was at the start. What refreshLocked writes meanwhile is the
  -- entry of the policy's own host, which is the key of that policy for all that Put has stored; for a
  -- file of policies with other keys Go leaves open whether a new entry is visited.
  unfoldable pub refresh_all :
      Disk → SslKitStore → GoMap HostSslPolicy → SslKitStore × List HostSslPolicy
  unfolding refresh
  refresh_all d s [] = (s, [])
  refresh_all d s ((k, p) ∷ m) =
      let (s', p') = refresh d s p in let (s'', ps) = refresh_all d s' m in (s'', p' ∷ ps)

  -- The end of Put and of Capture: the policy is refreshed, stored and saved.
  unfoldable pub store_policy :
      Disk → SslKitStore → HostSslPolicy → Disk × SslKitStore × HostSslPolicy
  unfolding refresh persist
  store_policy d s p =
      let (s', p') = refresh d s p in
      let s'' = record s' { hosts = GoMap.put s'.hosts p.host p' } in (persist d s'', s'', p')

  -- Put
  unfoldable pub put_policy :
      Disk → SslKitStore → HostSslPolicy → Disk × SslKitStore × HostSslPolicy
  unfolding host_key with_defaults keep_capture store_policy
  put_policy d s p =
      let q = with_defaults (record p { host = host_key u p.host }) in
      store_policy d s (keep_capture (or_zero zero_policy (GoMap.get s.hosts q.host)) q)

  -- Capture; `none` is an error.
  unfoldable pub capture :
      Disk → SslKitStore → Str → Str → Option (Disk × SslKitStore × HostSslPolicy)
  unfolding host_key with_defaults store_policy
  capture d s host dst =
      if is_empty (host_key u host) then none else elim (kit.dump_chain d (host_key u host) dst) [
        | none ↦ none
        | some d' ↦ some (
            store_policy d' s (
              with_defaults (record (or_zero zero_policy (GoMap.get s.hosts (host_key u host))) {
                host = host_key u host;
              })))
      ]

  unfoldable pub impersonate_enabled : SslKitStore → Str → Bool
  unfolding host_key
  impersonate_enabled s host = elim (GoMap.get s.hosts (host_key u host)) [
    | none ↦ false
    | some p ↦ p.impersonate
  ]
