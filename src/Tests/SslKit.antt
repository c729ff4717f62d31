-- ===== src/Tests/SslKit.antt =====
-- sslkit.go
use skytap.Common.{◌≡◌, refl, [], ◌∷◌, some, none, true, false}
use skytap.Text.{codes, ◌==◌, to_lower, trim_space, is_ascii, lower_byte, trim_left, trim_right}
use skytap.GoMap.{get, put}
use skytap.Disk.{Disk, join, read_file, write_file, mkdir_all}
use skytap.SslKit.{
  HostSslPolicy, SslKitStore, Toolkit, zero_policy, host_key, with_defaults, keep_capture, refresh,
  persist, store_policy, get_policy, put_policy, write_client_conf,
}
use skytap.SslKit.Lookup.{chain_file, get_policy-put_policy}
use skytap.Tests.Samples.{ascii_only, api}

abbrev pub kit : Toolkit
kit = record {
  dump_dir = codes "/dump";
  dump_chain = λ d host dst. some d;
  certificate = λ b. some (codes "key", codes "subject", codes "issuer");
  encode_hosts = λ m. some (codes "{}");
  decode_hosts = λ b. none;
}

abbrev with_chain : Disk
with_chain = record {
  files = (codes "/dump/api.test.pem", codes "PEM") ∷ [];
  locked = λ path. false;
}

abbrev pub store : SslKitStore
store = record { data_dir = codes "/data"; conf_dir = codes "/conf"; hosts = [] }

abbrev pub policy : HostSslPolicy
policy = record zero_policy { host = codes " API.test"; impersonate = true }

same_key : host_key ascii_only api ≡ host_key ascii_only policy.host
unfolding host_key to_lower trim_space is_ascii lower_byte trim_left trim_right
same_key = refl

same_chain :
    read_file
      (put_policy ascii_only kit with_chain store policy).0
      (chain_file ascii_only kit (host_key ascii_only policy.host))
    ≡ read_file with_chain (chain_file ascii_only kit (host_key ascii_only policy.host))
unfolding put_policy store_policy refresh persist write_client_conf write_file mkdir_all read_file
    join host_key to_lower trim_space is_ascii lower_byte trim_left trim_right keep_capture
    with_defaults get put ◌==◌
same_chain = refl

get_policy-put_policy_example :
    (get_policy ascii_only kit
      (put_policy ascii_only kit with_chain store policy).0
      (put_policy ascii_only kit with_chain store policy).1
      api).1
    ≡ (put_policy ascii_only kit with_chain store policy).2
get_policy-put_policy_example =
    get_policy-put_policy ascii_only kit with_chain store policy api same_key same_chain
