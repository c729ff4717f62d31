-- ===== src/CaTrust/Family.antt =====
-- Which family is detected.
use skytap.Common.{◌≡◌, ap, ◌&&◌, ◌++◌, ◌∷◌, if_case}
use skytap.Text.{Str, codes, Unicode}
use skytap.Disk.{Disk, read_file}
use skytap.CaTrust.{
  System, CaFamily, deb, rhel, arch, mentions, arch_words, rhel_words, deb_words, family_of,
  os_release, release_text, detect_ca_family, os_release_file,
}

module _ (u : Unicode) (sys : System) where
  -- What holds of the three families holds of the one that is detected.
  family_of-all :
      (P : CaFamily → Type 0) (blob : Str) → P arch → P rhel → P deb → P (family_of u sys blob)
  unfolding family_of
  family_of-all P blob a r d =
      if_case P (mentions blob arch_words) _ _ (λ _. a)
        (λ _.
          if_case P (mentions blob rhel_words) _ _ (λ _. r)
            (λ _.
              if_case P (mentions blob deb_words) _ _ (λ _. d)
                (λ _.
                  if_case P
                    (sys.look_path (codes "update-ca-trust")
                      && sys.is_dir (codes "/etc/pki/ca-trust/source/anchors"))
                    _ _ (λ _. r)
                    (λ _.
                      if_case P
                        (sys.look_path (codes "update-ca-trust")
                          && sys.is_dir (codes "/etc/ca-certificates/trust-source/anchors"))
                        _ _ (λ _. a) (λ _. d)))))

  pub detect_ca_family-all :
      (P : CaFamily → Type 0) (d : Disk) → P arch → P rhel → P deb → P (detect_ca_family u sys d)
  unfolding detect_ca_family
  detect_ca_family-all P d = family_of-all P ((os_release u d).0 ++ b' ' ∷ (os_release u d).1)

  -- The detection looks at no file but os-release.
  pub detect_ca_family-same :
      (d d' : Disk)
      → read_file d' os_release_file ≡ read_file d os_release_file
      → detect_ca_family u sys d' ≡ detect_ca_family u sys d
  unfolding detect_ca_family os_release
  detect_ca_family-same d d' e =
      ap (λ b. family_of u sys ((release_text u b).0 ++ b' ' ∷ (release_text u b).1)) e
