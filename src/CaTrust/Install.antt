-- ===== src/CaTrust/Install.antt =====
-- installCATrust and restoreCATrust.
use skytap.Common.{is_empty, not, List, [], ◌∷◌, ◌++◌, Option, none, some, if◌then◌else◌}
use skytap.Text.{Str, codes, ◌==◌, Unicode}
use skytap.Net.{cut_last}
use skytap.Disk.{Disk, write_file, mkdir_all}
use skytap.CaTrust.{System, linux, trust_marker_path, detect_ca_family, wants_trust}

-- The errors, in the order of the returns; the last one has the command and the text of its error.
pub data InstallError : Type 0 where
  linux_only no_cert_dir no_certificate no_data_dir : InstallError
  not_refreshed : List Str → Str → InstallError

-- filepath.Dir of a clean path that is not the root
unfoldable pub dir_of : Str → Str
dir_of path = elim (cut_last b'/' path) [
  | none ↦ codes "."
  | some (dir, name) ↦ if is_empty dir then codes "/" else dir
]

unfoldable pub run_refresh : System → Disk → List Str → Disk × Option InstallError
run_refresh sys d [] = (d, none)
run_refresh sys d (bin ∷ args) =
    let (d', failed) = sys.run d (bin ∷ args) in
    elim failed [ none ↦ (d', none) | some text ↦ (d', some (not_refreshed (bin ∷ args) text)) ]

module _ (u : Unicode) (sys : System) where
  unfoldable pub install_ca_trust : Str → Str → Disk → Disk × Option InstallError
  unfolding dir_of run_refresh
  install_ca_trust pem dir d =
      let fam = detect_ca_family u sys d in
      if not (sys.goos == linux)
      then (d, some linux_only)
      else if not (mkdir_all d (dir_of fam.cert_path))
      then (d, some no_cert_dir)
      else let (d1, written) = write_file d fam.cert_path pem in
        if not written
        then (d1, some no_certificate)
        else if not (mkdir_all d1 dir)
        then (d1, some no_data_dir)
        else run_refresh sys (write_file d1 (trust_marker_path dir) (codes "1" ++ 10 ∷ [])).0
            fam.refresh

  unfoldable pub restore_ca_trust : Str → Str → Disk → Disk
  unfolding install_ca_trust
  restore_ca_trust pem dir d = if wants_trust u sys dir d then (install_ca_trust pem dir d).0 else d
