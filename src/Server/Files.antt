-- ===== src/Server/Files.antt =====
-- What leaves the files of config.go as they are.
use mathlib.Core.Path.{subst}
use skytap.Common.{
  Bool-cases, ◌≡◌, ◌≢◌, refl, sym, ap, ◌∙◌, arith, Bool, false, not, List, [], ◌∷◌, ◌++◌, Option,
  some, Option-cases, inl, inr, is_empty, if_case, if◌then◌else◌, or_zero,
}
use skytap.Text.{Str, codes, ◌==◌, Unicode}
use skytap.Text.Equality.{eq_iff}
use skytap.Disk.{Disk, join, read_file, write_file, mkdir_all}
use skytap.Disk.Laws.{read_file-write_file_ne, locked-write_file}
use skytap.Disk.Paths.{ending, ending-join}
use skytap.Config.{state_file, rules_file}
use skytap.App.{pin_file, set_pin_bypass}
use skytap.CaTrust.{System, detect_ca_family, trust_marker_path, marker_file}
use skytap.CaTrust.Family.{detect_ca_family-all}
use skytap.CaTrust.Install.{InstallError, dir_of, run_refresh, install_ca_trust}
use skytap.GoMap
use skytap.SslKit.{
  refresh, zero_policy, keep_capture, with_defaults, HostSslPolicy, SslKitStore, Toolkit, host_key,
  persist, write_client_conf, client_conf, store_policy, put_policy, capture,
}

-- The two files of the data directory hold what they held, and the same files can be written.
pub record SameFiles (dir : Str) (d d' : Disk) : Type 0 where
  pub states : read_file d' (join dir state_file) ≡ read_file d (join dir state_file)
  pub rules : read_file d' (join dir rules_file) ≡ read_file d (join dir rules_file)
  pub locked : d'.locked ≡ d.locked

-- The refresh command of the system and the capturing of chains leave the two files alone, and what
-- can be written.
pub record IsApart (toolkit : Toolkit) (sys : System) (dir : Str) : Type 0 where
  pub command : (d : Disk) (argv : List Str) → SameFiles dir d (sys.run d argv).0
  pub dump :
      (d d' : Disk) (host dst : Str) → toolkit.dump_chain d host dst ≡ some d' → SameFiles dir d d'

-- A path that is neither of the two by its last six bytes.
abbrev pub IsOther : Str → Type 0
IsOther path = (ending path ≢ codes "e.json") × (ending path ≢ codes "s.json")

pub other :
    (path tail : Str)
    → ending path ≡ tail
    → (tail == codes "e.json") ≡ false
    → (tail == codes "s.json") ≡ false
    → IsOther path
other path tail e p q = (
  λ h. absurd (cc (sym p ∙ (eq_iff tail (codes "e.json")).1 (sym e ∙ h))),
  λ h. absurd (cc (sym q ∙ (eq_iff tail (codes "s.json")).1 (sym e ∙ h))),
)

module _ (dir : Str) where
  pub same-SameFiles : (d : Disk) → SameFiles dir d d
  same-SameFiles d = record { states = refl; rules = refl; locked = refl }

  pub then-SameFiles :
      (d d' d'' : Disk) → SameFiles dir d d' → SameFiles dir d' d'' → SameFiles dir d d''
  then-SameFiles d d' d'' a b = record {
    states = b.states ∙ a.states;
    rules = b.rules ∙ a.rules;
    locked = b.locked ∙ a.locked;
  }

  pub write-SameFiles :
      (d : Disk) (path content : Str) → IsOther path → SameFiles dir d (write_file d path content).0
  unfolding ending
  write-SameFiles d path content (p, q) = record {
    states =
        read_file-write_file_ne d path content _
          (λ e. p (ap ending e ∙ ending-join dir state_file (omega arith)));
    rules =
        read_file-write_file_ne d path content _
          (λ e. q (ap ending e ∙ ending-join dir rules_file (omega arith)));
    locked = locked-write_file d path content;
  }

  -- The file of the switch is none of the two.
  pub pin_file-ne :
      (join dir pin_file ≢ join dir state_file) × (join dir pin_file ≢ join dir rules_file)
  unfolding ending ◌==◌
  pin_file-ne =
      let (p, q) =
        other (join dir pin_file) (codes "bypass") (ending-join dir pin_file (omega arith)) refl
          refl in
      (
        λ e. p (ap ending e ∙ ending-join dir state_file (omega arith)),
        λ e. q (ap ending e ∙ ending-join dir rules_file (omega arith)),
      )

  pub set_pin_bypass-SameFiles : (d : Disk) (v : Bool) → SameFiles dir d (set_pin_bypass dir d v).0
  unfolding set_pin_bypass ending ◌==◌
  set_pin_bypass-SameFiles d v =
      if_case (λ (x : Disk × Bool). SameFiles dir d x.0) (is_empty dir) _ _ (λ _. same-SameFiles d)
        (λ _. write-SameFiles d (join dir pin_file) _ (
          other (join dir pin_file) (codes "bypass") (ending-join dir pin_file (omega arith)) refl
            refl))

  marker-other : IsOther (trust_marker_path dir)
  unfolding ending trust_marker_path ◌==◌
  marker-other =
      other (join dir marker_file) (codes "rusted") (ending-join dir marker_file (omega arith)) refl
        refl

  module _ (toolkit : Toolkit) (sys : System) (apart : IsApart toolkit sys dir) where
    run_refresh-SameFiles :
        (d : Disk) (argv : List Str) → SameFiles dir d (run_refresh sys d argv).0
    unfolding run_refresh
    run_refresh-SameFiles d [] = same-SameFiles d
    run_refresh-SameFiles d (bin ∷ args) = elim (Option-cases (sys.run d (bin ∷ args)).1) [
      | inl fine ↦ rw (run_refresh, fine) (apart.command d (bin ∷ args))
      | inr (text, failed) ↦ rw (run_refresh, failed) (apart.command d (bin ∷ args))
    ]

    pub install-SameFiles :
        (u : Unicode) (pem : Str) (d : Disk) → SameFiles dir d (install_ca_trust u sys pem dir d).0
    unfolding install_ca_trust ending ◌==◌
    install-SameFiles u pem d =
        let P : Disk × Option InstallError → Type 0 = λ x. SameFiles dir d x.0 in
        let cert = (detect_ca_family u sys d).cert_path in
        let one = write-SameFiles d cert pem (
          other cert (codes "ap.crt")
            (detect_ca_family-all u sys (λ f. ending f.cert_path ≡ codes "ap.crt") d refl refl refl)
            refl refl) in
        let d1 = (write_file d cert pem).0 in
        let two = write-SameFiles d1 (trust_marker_path dir) (codes "1" ++ 10 ∷ []) marker-other in
        let d2 = (write_file d1 (trust_marker_path dir) (codes "1" ++ 10 ∷ [])).0 in
        if_case P (not (sys.goos == codes "linux")) _ _ (λ _. same-SameFiles d)
          (λ _.
            if_case P (not (mkdir_all d (dir_of cert))) _ _ (λ _. same-SameFiles d)
              (λ _.
                if_case P (not (write_file d cert pem).1) _ _ (λ _. one)
                  (λ _.
                    if_case P (not (mkdir_all d1 dir)) _ _ (λ _. one)
                      (λ _. then-SameFiles d d1 _ one (
                        then-SameFiles d1 d2 _ two
                          (run_refresh-SameFiles d2 (detect_ca_family u sys d).refresh))))))

    pub write_client_conf-SameFiles :
        (d : Disk) (s : SslKitStore) → SameFiles dir d (write_client_conf d s)
    unfolding write_client_conf ending ◌==◌
    write_client_conf-SameFiles d s =
        let conf = if is_empty s.conf_dir then codes "/certs" else s.conf_dir in
        if_case (SameFiles dir d) (mkdir_all d conf) _ _
          (λ _. write-SameFiles d _ (client_conf s.hosts) (
            other (join conf (codes "skytap-ssl.conf")) (codes "l.conf")
              (ending-join conf (codes "skytap-ssl.conf") (omega arith)) refl refl))
          (λ _. same-SameFiles d)

    persist-SameFiles :
        (u : Unicode) (d : Disk) (s : SslKitStore) → SameFiles dir d (persist u toolkit d s)
    unfolding persist ending ◌==◌
    persist-SameFiles u d s = elim (Option-cases (toolkit.encode_hosts s.hosts)) [
      | inl none_made ↦
          rw (persist, none_made)
            (if_case (SameFiles dir d) (is_empty s.data_dir) _ _ (λ _. same-SameFiles d)
              (λ _. same-SameFiles d))
      | inr (b, made) ↦
          rw (persist, made)
            (if_case (SameFiles dir d) (is_empty s.data_dir) _ _ (λ _. same-SameFiles d)
              (λ _.
                then-SameFiles d _ _
                  (write-SameFiles d (join s.data_dir (codes "sslkit.json")) b (
                    other (join s.data_dir (codes "sslkit.json")) (codes "t.json")
                      (ending-join s.data_dir (codes "sslkit.json") (omega arith)) refl refl))
                  (write_client_conf-SameFiles _ s)))
    ]

    store_policy-SameFiles :
        (u : Unicode) (d : Disk) (s : SslKitStore) (p : HostSslPolicy)
        → SameFiles dir d (store_policy u toolkit d s p).0
    unfolding store_policy
    store_policy-SameFiles u d s p =
        let (s', p') = refresh u toolkit d s p in
        persist-SameFiles u d (record s' { hosts = GoMap.put s'.hosts p.host p' })

    pub put_policy-SameFiles :
        (u : Unicode) (d : Disk) (s : SslKitStore) (p : HostSslPolicy)
        → SameFiles dir d (put_policy u toolkit d s p).0
    unfolding put_policy
    put_policy-SameFiles u d s p = store_policy-SameFiles u d s (
        keep_capture (or_zero zero_policy (GoMap.get s.hosts (host_key u p.host)))
          (with_defaults (record p { host = host_key u p.host })))

    pub capture-SameFiles :
        (u : Unicode) (d : Disk) (s : SslKitStore) (host dst : Str)
        (x : Disk × SslKitStore × HostSslPolicy)
        → capture u toolkit d s host dst ≡ some x
        → SameFiles dir d x.0
    unfolding capture
    capture-SameFiles u d s host dst x h = elim (Bool-cases (is_empty (host_key u host))) [
      | inl no_host ↦ absurd (cc (rw (capture, no_host) at h))
      | inr named ↦ elim (Option-cases (toolkit.dump_chain d (host_key u host) dst)) [
        | inl failed ↦ absurd (cc (rw (capture, named, failed) at h))
        | inr (d', dumped) ↦
            subst (λ (y : Disk × SslKitStore × HostSslPolicy). SameFiles dir d y.0)
              (ap (or_zero x) (rw (capture, named, dumped) at h))
              (then-SameFiles d d' _ (apart.dump d d' (host_key u host) dst dumped) (
                store_policy-SameFiles u d' s (
                  with_defaults
                    (record (or_zero zero_policy (GoMap.get s.hosts (host_key u host))) {
                      host = host_key u host;
                    }))))
      ]
    ]
