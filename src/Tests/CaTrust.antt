-- ===== src/Tests/CaTrust.antt =====
-- ca_trust.go
use skytap.Common.{◌≡◌, refl, true, false, [], some, arith}
use skytap.Text.{Str, codes, ◌==◌, contains}
use skytap.CaTrust.{System, linux, ca_status, detect_ca_family}
use skytap.CaTrust.Install.{install_ca_trust}
use skytap.CaTrust.Trusted.{LeavesSources, CanInstall, ca_status-install}
use skytap.Tests.Samples.{ascii_only, disk}

-- A machine on which the refresh command fails and changes no file.
abbrev pub machine : System
machine = record {
  goos = linux;
  uid = 0;
  look_path = λ bin. true;
  is_dir = λ path. false;
  sha256 = λ b. [];
  run = λ d argv. (d, some (codes "exit status 1"));
}

abbrev pem : Str
pem = codes "-----BEGIN CERTIFICATE-----AAAAAAAAAAAAAAAAAAAAAAAAA-----END CERTIFICATE-----"

can_install : CanInstall ascii_only machine (codes "/data") disk
unfolding ◌==◌
can_install = record {
  on_linux = refl;
  cert_dir = refl;
  cert = refl;
  data_dir = refl;
  marker = refl;
}

leaves_sources : LeavesSources ascii_only machine (codes "/data")
leaves_sources = record {
  release = λ d argv. refl;
  marker = λ d argv. refl;
  cert = λ d argv blob. refl;
}

words : contains pem (codes "BEGIN CERTIFICATE") ≡ true
unfolding contains ◌==◌
words = refl

ca_status-install_example :
    let st =
      ca_status ascii_only machine pem
        (codes "/data")
        (install_ca_trust ascii_only machine pem (codes "/data") disk).0 in
    (st.installed ≡ true)
    × (st.want_trust ≡ true)
    × (st.family ≡ (detect_ca_family ascii_only machine disk).id)
ca_status-install_example =
    ca_status-install ascii_only machine pem (codes "/data") disk can_install leaves_sources words
      (omega arith)
