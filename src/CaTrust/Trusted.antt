-- ===== src/CaTrust/Trusted.antt =====
-- What the status says after an installation.
use skytap.Common.{
  Bool, ◌<◌, ◌≡◌, ◌≢◌, refl, sym, ap, ◌∙◌, true, false, List, [], ◌∷◌, ◌++◌, some, Option-cases,
  inl, inr, length, arith, ◌&&◌,
}
use skytap.Text.{Str, codes, ◌==◌, Unicode, contains, trim_space, is_ascii, trim_left, trim_right}
use skytap.Text.Equality.{eq_iff}
use skytap.Disk.{Disk, read_file, write_file, mkdir_all}
use skytap.Disk.Laws.{
  write_file-free, read_file-write_file, read_file-write_file_ne, locked-write_file,
}
use skytap.Disk.Paths.{ending, ending-join}
use skytap.CaTrust.{
  System, linux, marker_file, os_release_file, trust_marker_path, family_of, detect_ca_family,
  CaFamily, ca_status, ca_installed_at, looks_installed, wants_trust, marked,
}
use skytap.CaTrust.Family.{detect_ca_family-all, detect_ca_family-same}
use skytap.CaTrust.Install.{dir_of, run_refresh, install_ca_trust}

-- Three kinds of path that the six last bytes tell apart.
abbrev cert_ending : Str
cert_ending = codes "ap.crt"

apart : (p q : Str) → ending p ≢ ending q → p ≢ q
apart p q ne e = ne (ap ending e)

marker-ending : (dir : Str) → ending (trust_marker_path dir) ≡ codes "rusted"
unfolding ending trust_marker_path
marker-ending dir = ending-join dir marker_file (omega arith)

-- A refresh command leaves os-release, the marker and the sources of the certificates as they are.
pub record LeavesSources (u : Unicode) (sys : System) (dir : Str) : Type 0 where
  pub release :
      (d : Disk) (argv : List Str)
      → read_file (sys.run d argv).0 os_release_file ≡ read_file d os_release_file
  pub marker :
      (d : Disk) (argv : List Str)
      → read_file (sys.run d argv).0 (trust_marker_path dir) ≡ read_file d (trust_marker_path dir)
  pub cert :
      (d : Disk) (argv : List Str) (blob : Str)
      → read_file (sys.run d argv).0 (family_of u sys blob).cert_path
        ≡ read_file d (family_of u sys blob).cert_path

-- Nothing keeps the installation from writing.
pub record CanInstall (u : Unicode) (sys : System) (dir : Str) (d : Disk) : Type 0 where
  pub on_linux : (sys.goos == linux) ≡ true
  pub cert_dir : d.locked (dir_of (detect_ca_family u sys d).cert_path) ≡ false
  pub cert : d.locked (detect_ca_family u sys d).cert_path ≡ false
  pub data_dir : d.locked dir ≡ false
  pub marker : d.locked (trust_marker_path dir) ≡ false

abbrev mark : Str
mark = codes "1" ++ 10 ∷ []

marked-mark : (u : Unicode) (sys : System) → marked u sys (some mark) ≡ true
unfolding marked trim_space is_ascii trim_left trim_right ◌==◌
marked-mark u sys = refl

module _ (u : Unicode) (sys : System) (pem dir : Str) where
  -- The files before the refresh command.
  abbrev written : Disk → Disk
  written d =
      (write_file (write_file d (detect_ca_family u sys d).cert_path pem).0 (trust_marker_path dir)
        mark).0

  cert-ending : (d : Disk) → ending (detect_ca_family u sys d).cert_path ≡ cert_ending
  unfolding ending
  cert-ending d =
      detect_ca_family-all u sys (λ f. ending f.cert_path ≡ cert_ending) d refl refl refl

  cert-not-marker : (d : Disk) → (detect_ca_family u sys d).cert_path ≢ trust_marker_path dir
  unfolding ◌==◌
  cert-not-marker d = apart _ _ (λ e.
      absurd (
        cc ((eq_iff cert_ending (codes "rusted")).1 (sym (cert-ending d) ∙ e ∙ marker-ending dir))))

  cert-not-release : (d : Disk) → (detect_ca_family u sys d).cert_path ≢ os_release_file
  unfolding ◌==◌ ending
  cert-not-release d =
      apart _ _
        (λ e. absurd (cc ((eq_iff cert_ending (codes "elease")).1 (sym (cert-ending d) ∙ e))))

  marker-not-release : trust_marker_path dir ≢ os_release_file
  unfolding ◌==◌ ending
  marker-not-release = apart _ _ (λ e.
      absurd (cc ((eq_iff (codes "rusted") (codes "elease")).1 (sym (marker-ending dir) ∙ e))))

  install-written :
      (d : Disk)
      → CanInstall u sys dir d
      → (install_ca_trust u sys pem dir d).0
        ≡ (run_refresh sys (written d) (detect_ca_family u sys d).refresh).0
  unfolding install_ca_trust mkdir_all ◌==◌
  install-written d can =
      let first = write_file-free d (detect_ca_family u sys d).cert_path pem can.cert in
      let rest : Disk → Disk = λ x.
        (run_refresh sys (write_file x (trust_marker_path dir) mark).0
          (detect_ca_family u sys d).refresh).0 in
      rw (install_ca_trust, can.on_linux, can.cert_dir, first, can.data_dir)
        (ap (λ (p : Disk × Bool). rest p.0) (sym first))

  -- A file that the refresh command leaves alone is read after it as before it.
  read-run_refresh :
      (path : Str)
      → ((d : Disk) (argv : List Str) → read_file (sys.run d argv).0 path ≡ read_file d path)
      → (d : Disk) (argv : List Str) → read_file (run_refresh sys d argv).0 path ≡ read_file d path
  unfolding run_refresh
  read-run_refresh path keeps d [] = refl
  read-run_refresh path keeps d (bin ∷ args) = elim (Option-cases (sys.run d (bin ∷ args)).1) [
    | inl fine ↦ rw (run_refresh, fine) (keeps d (bin ∷ args))
    | inr (text, failed) ↦ rw (run_refresh, failed) (keeps d (bin ∷ args))
  ]

  module _ (d : Disk) (can : CanInstall u sys dir d) (leaves : LeavesSources u sys dir) where
    cert-read : read_file (written d) (detect_ca_family u sys d).cert_path ≡ some pem
    cert-read =
        read_file-write_file_ne _ (trust_marker_path dir) mark _ (λ e. cert-not-marker d (sym e))
        ∙ read_file-write_file d (detect_ca_family u sys d).cert_path pem can.cert

    marker-read : read_file (written d) (trust_marker_path dir) ≡ some mark
    marker-read = read_file-write_file _ (trust_marker_path dir) mark (
        ap (λ (f : Str → Bool). f (trust_marker_path dir))
          (locked-write_file d (detect_ca_family u sys d).cert_path pem)
        ∙ can.marker)

    release-read : read_file (written d) os_release_file ≡ read_file d os_release_file
    release-read =
        read_file-write_file_ne _ (trust_marker_path dir) mark _ marker-not-release
        ∙ read_file-write_file_ne d _ pem _ (cert-not-release d)

    -- What is read after the installation of a file that the command leaves alone.
    after :
        (path : Str)
        → ((d : Disk) (argv : List Str) → read_file (sys.run d argv).0 path ≡ read_file d path)
        → read_file (install_ca_trust u sys pem dir d).0 path ≡ read_file (written d) path
    after path keeps =
        ap (λ x. read_file x path) (install-written d can)
        ∙ read-run_refresh path keeps (written d) (detect_ca_family u sys d).refresh

    same-family :
        detect_ca_family u sys (install_ca_trust u sys pem dir d).0 ≡ detect_ca_family u sys d
    same-family =
        detect_ca_family-same u sys d _ (after os_release_file leaves.release ∙ release-read)

    cert-leaves :
        (x : Disk) (argv : List Str)
        → read_file (sys.run x argv).0 (detect_ca_family u sys d).cert_path
          ≡ read_file x (detect_ca_family u sys d).cert_path
    unfolding detect_ca_family
    cert-leaves x argv = leaves.cert x argv _

    wanted : wants_trust u sys dir (install_ca_trust u sys pem dir d).0 ≡ true
    unfolding wants_trust
    wanted =
        ap (marked u sys) (after (trust_marker_path dir) leaves.marker ∙ marker-read)
        ∙ marked-mark u sys

    -- On Linux, where nothing keeps the installation from writing and the refresh command leaves its
    -- sources alone: after it the status says installed and wanted, with the family as before,
    -- even if the command fails, for a text that is longer than 50 bytes and has the words of a
    -- certificate.
    pub ca_status-install :
        contains pem (codes "BEGIN CERTIFICATE") ≡ true
        → 50 < length pem
        → let st = ca_status u sys pem dir (install_ca_trust u sys pem dir d).0 in
          (st.installed ≡ true)
          × (st.want_trust ≡ true)
          × (st.family ≡ (detect_ca_family u sys d).id)
    unfolding ca_status ca_installed_at looks_installed
    ca_status-install words long =
        let looks : looks_installed u sys (some pem) ≡ true = ground arith in
        let x = (install_ca_trust u sys pem dir d).0 in
        let at_path : ca_installed_at u sys x (detect_ca_family u sys x).cert_path ≡ true =
          ap (λ (f : CaFamily). ca_installed_at u sys x f.cert_path) same-family
          ∙ ap (looks_installed u sys)
              (after (detect_ca_family u sys d).cert_path cert-leaves ∙ cert-read)
          ∙ looks in
        (
          ap (λ b. b && ca_installed_at u sys x (detect_ca_family u sys x).cert_path) can.on_linux
              ∙ at_path,
          wanted,
          ap (λ (f : CaFamily). f.id) same-family,
        )
