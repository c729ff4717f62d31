-- ===== src/Main/Files.antt =====
-- What main writes besides the states and the rules.
use skytap.Common.{
  ◌≡◌, ◌≢◌, refl, ap, ◌∙◌, arith, Bool, true, false, not, some, or_zero, is_empty, inl, inr, ◌⊎◌,
  if_case, Bool-cases, [],
}
use skytap.Text.{Str, codes, ◌==◌}
use skytap.Disk.{Disk, join, mkdir_all, write_file, read_file}
use skytap.Disk.Laws.{write_file-free, read_file-write_file_ne, locked-write_file}
use skytap.Disk.Paths.{ending, ending-join}
use skytap.Config.{state_file, rules_file}
use skytap.CaTrust.{wants_trust}
use skytap.CaTrust.Install.{dir_of, restore_ca_trust}
use skytap.SslKit.{new_store}
use skytap.Server.Files.{
  SameFiles, IsApart, same-SameFiles, then-SameFiles, write-SameFiles, other, install-SameFiles,
  write_client_conf-SameFiles,
}
use skytap.Handlers.{Setup}
use skytap.Main.{Options, open_key_log, write_certificates, certified}

-- There is no key log, or it can be opened and is none of the two files.
pub record CanLog (dir path : Str) (d : Disk) : Type 0 where
  pub made : mkdir_all d (dir_of path) ≡ true
  pub free : d.locked path ≡ false
  pub not_states : path ≢ join dir state_file
  pub not_rules : path ≢ join dir rules_file

abbrev pub LogOpens : Str → Str → Disk → Type 0
LogOpens dir path d = (is_empty path ≡ true) ⊎ CanLog dir path d

pub locked-LogOpens :
    (dir path : Str) (d d' : Disk)
    → d'.locked ≡ d.locked
    → LogOpens dir path d
    → LogOpens dir path d'
unfolding mkdir_all
locked-LogOpens dir path d d' e (inl unset) = inl unset
locked-LogOpens dir path d d' e (inr can) = inr (record {
  made = ap (λ (l : Str → Bool). not (l (dir_of path))) e ∙ can.made;
  free = ap (λ (l : Str → Bool). l path) e ∙ can.free;
  not_states = can.not_states;
  not_rules = can.not_rules;
})

pub open_key_log-SameFiles :
    (dir path : Str) (d : Disk)
    → LogOpens dir path d
    → (d' : Disk) × (open_key_log d path ≡ some d') × SameFiles dir d d'
unfolding open_key_log
open_key_log-SameFiles dir path d (inl unset) =
    (d, rw (open_key_log, unset) refl, same-SameFiles dir d)
open_key_log-SameFiles dir path d (inr can) =
    let content = or_zero [] (read_file d path) in
    let written = write_file-free d path content can.free in
    elim (Bool-cases (is_empty path)) [
      | inl unset ↦ (d, rw (open_key_log, unset) refl, same-SameFiles dir d)
      | inr set ↦ (
        (write_file d path content).0,
        rw (open_key_log, set, can.made, ap (λ (x : Disk × Bool). x.1) written) refl,
        record {
          states = read_file-write_file_ne d path content (join dir state_file) can.not_states;
          rules = read_file-write_file_ne d path content (join dir rules_file) can.not_rules;
          locked = locked-write_file d path content;
        },
      )
    ]

module _ {F : Type 0} (env : Setup F) (o : Options)
    (apart : IsApart env.toolkit env.system o.data_dir) where
  open env use {unicode, system, toolkit}

  pub new_store-SameFiles :
      (d : Disk)
      → SameFiles o.data_dir d (new_store unicode toolkit d o.data_dir (codes "/certs")).0
  unfolding new_store
  new_store-SameFiles d =
      write_client_conf-SameFiles o.data_dir toolkit system apart d
        (new_store unicode toolkit d o.data_dir (codes "/certs")).1

  write_certificates-SameFiles :
      (pem : Str) (d : Disk) → SameFiles o.data_dir d (write_certificates system o.data_dir pem d)
  unfolding write_certificates ending ◌==◌
  write_certificates-SameFiles pem d =
      let dir = o.data_dir in
      let path = join (join dir (codes "ca")) (codes "ca.crt") in
      let d' = (write_file d path pem).0 in
      let d'' = (write_file d' (codes "/certs/ca.crt") pem).0 in
      let first = write-SameFiles dir d path pem (
        other path (codes "ca.crt")
          (ending-join (join dir (codes "ca")) (codes "ca.crt") (omega arith)) refl refl) in
      let second =
        write-SameFiles dir d' (codes "/certs/ca.crt") pem
          (other (codes "/certs/ca.crt") (codes "ca.crt") refl refl refl) in
      let third =
        write-SameFiles dir d'' (codes "/certs/ca.pem") pem
          (other (codes "/certs/ca.pem") (codes "ca.pem") refl refl refl) in
      if_case (SameFiles dir d) (system.is_dir (codes "/certs")) _ _
        (λ _. then-SameFiles dir d d' _ first (then-SameFiles dir d' d'' _ second third))
        (λ _. first)

  restore-SameFiles :
      (pem : Str) (d : Disk)
      → SameFiles o.data_dir d (restore_ca_trust unicode system pem o.data_dir d)
  unfolding restore_ca_trust
  restore-SameFiles pem d =
      if_case (SameFiles o.data_dir d) (wants_trust unicode system o.data_dir d) _ _
        (λ _. install-SameFiles o.data_dir toolkit system apart unicode pem d)
        (λ _. same-SameFiles o.data_dir d)

  pub certified-SameFiles : (pem : Str) (d : Disk) → SameFiles o.data_dir d (certified env o pem d)
  unfolding certified
  certified-SameFiles pem d =
      then-SameFiles o.data_dir d _ _ (restore-SameFiles pem d) (write_certificates-SameFiles pem _)
