-- ===== src/CaTrust.antt =====
-- ca_trust.go: where the certificate authority goes in the system's trust store, and its marker.
pub mod Family
pub mod Install
pub mod Trusted
use skytap.Common.{
  ℕ, Bool, true, false, not, ◌&&◌, ◌||◌, List, [], ◌∷◌, ◌++◌, Option, none, some, eqb, ltb, length,
  is_empty, is_some, if◌then◌else◌,
}
use skytap.Text.{
  Str, codes, ◌==◌, Unicode, to_lower, trim_space, contains, split_on, strip_left, strip_right,
}
use skytap.Net.{cut_first, cut_last}
use skytap.Rules.{hex_encode}
use skytap.Disk.{Disk, join, read_file, write_file, mkdir_all}

-- The machine: runtime.GOOS, os.Getuid, exec.LookPath, whether os.Stat finds a directory, SHA-256,
-- and running a command, which may change files and gives the text of its error and its output.
pub record System : Type 0 where
  pub goos : Str
  pub uid : ℕ
  pub look_path : Str → Bool
  pub is_dir : Str → Bool
  pub sha256 : Str → Str
  pub run : Disk → List Str → Disk × Option Str

abbrev pub linux : Str
linux = codes "linux"

abbrev pub os_release_file : Str
os_release_file = codes "/etc/os-release"

abbrev pub marker_file : Str
marker_file = codes "ca-trusted"

unfoldable pub trust_marker_path : Str → Str
trust_marker_path dir = join dir marker_file

pub record CaFamily : Type 0 where
  pub id : Str
  pub cert_path : Str
  pub refresh : List Str
  pub hint : Str

abbrev pub deb : CaFamily
deb = record {
  id = codes "debian";
  cert_path = codes "/usr/local/share/ca-certificates/skytap.crt";
  refresh = codes "update-ca-certificates" ∷ [];
  hint =
      codes
        "Debian/Ubuntu/Alpine: copy PEM to /usr/local/share/ca-certificates/skytap.crt then run update-ca-certificates";
}

abbrev pub rhel : CaFamily
rhel = record {
  id = codes "rhel";
  cert_path = codes "/etc/pki/ca-trust/source/anchors/skytap.crt";
  refresh = codes "update-ca-trust" ∷ codes "extract" ∷ [];
  hint =
      codes
        "Alma/Rocky/RHEL/Fedora: copy PEM to /etc/pki/ca-trust/source/anchors/skytap.crt then run update-ca-trust extract";
}

abbrev pub arch : CaFamily
arch = record {
  id = codes "arch";
  cert_path = codes "/etc/ca-certificates/trust-source/anchors/skytap.crt";
  refresh = codes "update-ca-trust" ∷ [];
  hint =
      codes
        "Arch/BlackArch: copy PEM to /etc/ca-certificates/trust-source/anchors/skytap.crt then run update-ca-trust";
}

-- The fields of the map of caStatus that are not constant; `note` is.
pub record CaStatus : Type 0 where
  pub os : Str
  pub distro : Str
  pub family : Str
  pub fingerprint : Str
  pub installed : Bool
  pub want_trust : Bool
  pub trust_path : Str
  pub install_hint : Str
  pub can_install : Bool

abbrev is_quote : ℕ → Bool
is_quote c = eqb c 34 || eqb c 39

-- strings.Trim by the two quotes
unfoldable unquote : Str → Str
unquote v = strip_right is_quote (strip_left is_quote v)

-- Whether one of the names is in the text.
unfoldable pub mentions : Str → List Str → Bool
mentions blob [] = false
mentions blob (w ∷ ws) = contains blob w || mentions blob ws

abbrev pub arch_words : List Str
arch_words = codes "arch" ∷ codes "blackarch" ∷ codes "manjaro" ∷ codes "artix" ∷ []

abbrev pub rhel_words : List Str
rhel_words =
    codes "rhel"
    ∷ codes "fedora"
    ∷ codes "centos"
    ∷ codes "almalinux"
    ∷ codes "rocky"
    ∷ codes "ol"
    ∷ []

abbrev pub deb_words : List Str
deb_words = codes "debian" ∷ codes "ubuntu" ∷ codes "alpine" ∷ []

module _ (u : Unicode) where
  -- The switch on the key of one line of os-release; `ids` is what was found so far.
  unfoldable release_line : Str × Str → Option (Str × Str) → Str × Str
  unfolding unquote
  release_line ids none = ids
  release_line (id, like) (some (k, v)) =
      if k == codes "ID"
      then (to_lower u (unquote v), like)
      else if k == codes "ID_LIKE"
      then (id, to_lower u (unquote v))
      else (id, like)

  unfoldable release_lines : Str × Str → List Str → Str × Str
  unfolding release_line
  release_lines ids [] = ids
  release_lines ids (line ∷ lines) = release_lines (release_line ids (cut_first b'=' line)) lines

  unfoldable pub release_text : Option Str → Str × Str
  unfolding release_lines
  release_text none = ([], [])
  release_text (some b) =
      let (first, others) = split_on 10 b in release_lines ([], []) (first ∷ others)

  unfoldable pub os_release : Disk → Str × Str
  unfolding release_text
  os_release d = release_text (read_file d os_release_file)

  module _ (sys : System) where
    -- The family for the text `ID ID_LIKE`.
    unfoldable pub family_of : Str → CaFamily
    unfolding mentions
    family_of blob =
        if mentions blob arch_words
        then arch
        else if mentions blob rhel_words
        then rhel
        else if mentions blob deb_words
        then deb
        else if sys.look_path (codes "update-ca-trust")
            && sys.is_dir (codes "/etc/pki/ca-trust/source/anchors")
        then rhel
        else if sys.look_path (codes "update-ca-trust")
            && sys.is_dir (codes "/etc/ca-certificates/trust-source/anchors")
        then arch
        else deb

    unfoldable pub detect_ca_family : Disk → CaFamily
    unfolding os_release family_of
    detect_ca_family d = let (id, like) = os_release d in family_of (id ++ b' ' ∷ like)

    unfoldable pub looks_installed : Option Str → Bool
    looks_installed none = false
    looks_installed (some b) = contains b (codes "BEGIN CERTIFICATE") && ltb 50 (length b)

    unfoldable pub ca_installed_at : Disk → Str → Bool
    unfolding looks_installed
    ca_installed_at d path = looks_installed (read_file d path)

    -- strings.TrimSpace of what was read, compared with "1".
    unfoldable pub marked : Option Str → Bool
    marked none = false
    marked (some b) = trim_space u b == codes "1"

    unfoldable pub wants_trust : Str → Disk → Bool
    unfolding marked trust_marker_path
    wants_trust dir d = marked (read_file d (trust_marker_path dir))

    unfoldable pub ca_status : Str → Str → Disk → CaStatus
    unfolding detect_ca_family ca_installed_at wants_trust
    ca_status pem dir d = record {
      os = sys.goos;
      distro = (os_release d).0;
      family = (detect_ca_family d).id;
      fingerprint = if is_empty pem then [] else hex_encode (sys.sha256 pem);
      installed = sys.goos == linux && ca_installed_at d (detect_ca_family d).cert_path;
      want_trust = wants_trust dir d;
      trust_path = (detect_ca_family d).cert_path;
      install_hint = (detect_ca_family d).hint;
      can_install = sys.goos == linux && eqb sys.uid 0;
    }
