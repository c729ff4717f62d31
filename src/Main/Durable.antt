-- ===== src/Main/Durable.antt =====
-- What a started program has saved.
use mathlib.Core.Path.{subst}
use skytap.Common.{
  ℕ, ◌≡◌, refl, sym, ◌∙◌, Bool, true, false, ap, not, [], Option, some, is_empty, All, inl, inr,
  Option-cases, if_case, if◌then◌else◌,
}
use skytap.Text.{Str, codes, Unicode}
use skytap.Disk.{Disk, join, mkdir_all, read_file}
use skytap.Registry.{Registry, new_registry}
use skytap.Rules
use skytap.Rules.{Rule, RuleEngine, new_engine}
use skytap.Rules.Store.{IsComplete, Edit, edit, edit-IsComplete}
use skytap.Config.{Codec, load_persist, save_persist, saved_rules, persist_exists, rules_file}
use skytap.Config.RoundTrip.{ReadsBack, save_persist-persist_exists}
use skytap.Flags.{
  seed, seed_rules, seed_rule, seed_host, has_host, intercept_all, split_csv, name_hosts, start,
}
use skytap.Flags.Start.{load_persist-loaded}
use skytap.Server.{Server}
use skytap.Server.Files.{IsApart, SameFiles, then-SameFiles}
use skytap.Server.Present.{persist_exists-SameFiles}
use skytap.Server.Recovery.{
  IsWritable, locked-IsWritable, save_persist-locked, same-IsRecoverable, saved-IsRecoverable,
}
use skytap.SslKit.{Toolkit, new_store}
use skytap.App.{load_pin_bypass}
use skytap.Ws.{new_hub}
use skytap.Flags.{refuses_admin}
use skytap.Handlers.{Setup}
use skytap.Program.Restart.{IsDurable}
use skytap.Main.{
  Options, Started, given, rule_spec, setup_with, origin_dir, certified, go_on, main, listens,
  main_loop,
}
use skytap.Main.Files.{
  LogOpens, locked-LogOpens, open_key_log-SameFiles, new_store-SameFiles, certified-SameFiles,
}

module _ (codec : Codec) (random : ℕ → Str) (drawn : (i : ℕ) → is_empty (random i) ≡ false)
    (dir : Str) where
  loaded-IsComplete :
      {F : Type 0} (d : Disk) (reg : Registry F)
      → All IsComplete (load_persist codec random dir d reg new_engine).1.rules
  unfolding load_persist edit
  loaded-IsComplete {F = F} d reg =
      if_case (λ (x : Registry F × RuleEngine × Bool). All IsComplete x.1.rules) (mkdir_all d dir) _
        _
        (λ _. elim (Option-cases (saved_rules codec (read_file d (join dir rules_file)))) [
          | inl nothing ↦ rw nothing tt
          | inr (rs, found) ↦ rw found (edit-IsComplete new_engine (Edit.set random rs) drawn tt)
        ])
        (λ _. tt)

seed_rules-IsComplete :
    (fresh : Str) (rules : RuleEngine)
    → is_empty fresh ≡ false
    → All IsComplete rules.rules
    → All IsComplete (seed_rules fresh rules).rules
unfolding seed_rules edit
seed_rules-IsComplete fresh rules drawn h =
    if_case (λ (x : RuleEngine). All IsComplete x.rules)
      (has_host seed_host (Rules.all_rules rules)) _ (Rules.add fresh rules seed_rule).0 (λ _. h)
      (λ _. edit-IsComplete rules (Edit.add fresh seed_rule) drawn h)

-- The files are what a save of the registry and the rules has left, in a directory that can be written.
abbrev IsSaved : {F : Type 0} → Codec → Str → Registry F × RuleEngine × Disk → Type 0
IsSaved codec dir (reg, rules, d) =
    (before : Disk) × IsWritable dir before × (d ≡ (save_persist codec dir before reg rules).0)

name_hosts-IsSaved :
    {F : Type 0} (u : Unicode) (codec : Codec) (dir hosts : Str) (d : Disk)
    (p : Registry F × RuleEngine)
    → IsWritable dir d
    → IsSaved codec dir (name_hosts u codec dir hosts d p)
unfolding name_hosts
name_hosts-IsSaved u codec dir hosts d (reg, rules) w =
    let named = if is_empty hosts then reg else intercept_all reg (split_csv u hosts) in
    let d' = if is_empty hosts then d else (save_persist codec dir d named rules).0 in
    (
      d',
      if_case (IsWritable dir) (is_empty hosts) d (save_persist codec dir d named rules).0 (λ _. w)
          (λ _.
            locked-IsWritable dir d _ (save_persist-locked codec (λ i. []) dir d named rules) w),
      refl,
    )

pub name_hosts-rules :
    {F : Type 0} (u : Unicode) (codec : Codec) (dir hosts : Str) (d : Disk)
    (p : Registry F × RuleEngine)
    → (name_hosts u codec dir hosts d p).1 ≡ p.1
unfolding name_hosts
name_hosts-rules u codec dir hosts d (reg, rules) = refl

pub name_hosts-locked :
    {F : Type 0} (u : Unicode) (codec : Codec) (dir hosts : Str) (d : Disk)
    (p : Registry F × RuleEngine)
    → (name_hosts u codec dir hosts d p).2.locked ≡ d.locked
unfolding name_hosts
name_hosts-locked u codec dir hosts d (reg, rules) =
    let named = if is_empty hosts then reg else intercept_all reg (split_csv u hosts) in
    let once = save_persist-locked codec (λ i. []) dir d named rules in
    let d' = if is_empty hosts then d else (save_persist codec dir d named rules).0 in
    save_persist-locked codec (λ i. []) dir d' named rules
    ∙ if_case (λ (x : Disk). x.locked ≡ d.locked) (is_empty hosts) d
        (save_persist codec dir d named rules).0 (λ _. refl) (λ _. once)

start_lem :
    {F : Type 0} (u : Unicode) (codec : Codec) (random : ℕ → Str) (fresh dir hosts : Str) (d : Disk)
    → ((i : ℕ) → is_empty (random i) ≡ false)
    → is_empty fresh ≡ false
    → IsWritable dir d
    → (x : Registry F × RuleEngine × Disk) × (start u codec random fresh dir hosts d new_registry
          new_engine
        ≡ some x)
      × All IsComplete x.1.rules
      × IsSaved codec dir x
      × (x.2.locked ≡ d.locked)
unfolding start
start_lem {F = F} u codec random fresh dir hosts d drawn fresh_drawn w =
    let read = load_persist codec random dir d (new_registry {F = F}) new_engine in
    let p : Registry F × RuleEngine =
      if persist_exists dir d then (read.0, read.1) else seed fresh read.0 read.1 in
    let whole = loaded-IsComplete codec random drawn dir d (new_registry {F = F}) in
    (
      name_hosts u codec dir hosts d p,
      rw (start, load_persist-loaded codec random dir d (new_registry {F = F}) new_engine w.made)
          refl,
      subst (λ (k : RuleEngine). All IsComplete k.rules)
          (sym (name_hosts-rules u codec dir hosts d p))
          (if_case (λ (q : Registry F × RuleEngine). All IsComplete q.1.rules)
            (persist_exists dir d) (read.0, read.1) (seed fresh read.0 read.1) (λ _. whole)
            (λ _. unfold seed in seed_rules-IsComplete fresh read.1 fresh_drawn whole)),
      name_hosts-IsSaved u codec dir hosts d p w,
      name_hosts-locked u codec dir hosts d p,
    )

module _ {F : Type 0} (env : Setup F) (o : Options)
    (apart : IsApart env.toolkit env.system o.data_dir) (draws : ℕ → Str) where
  open env use {unicode, codec, system, toolkit}

  -- What holds of a program that has started.
  pub record HasBegun (x : Started F) : Type 0 where
    pub durable : IsDurable x.setup draws x.program
    pub present : persist_exists x.setup.dir x.program.server.disk ≡ true
    pub still_apart : IsApart x.setup.toolkit x.setup.system x.setup.dir
    pub dir : x.setup.dir ≡ o.data_dir
    pub codec : x.setup.codec ≡ env.codec
    pub serves :
        x.serves_admin ≡ not (refuses_admin env.addresses o.admin o.admin_token o.allow_open_admin)

  go_on-HasBegun :
      (pem : Str) (reg : Registry F) (rules : RuleEngine) (d : Disk)
      → All IsComplete rules.rules
      → IsSaved codec o.data_dir (reg, rules, d)
      → IsWritable o.data_dir d
      → LogOpens o.data_dir o.key_log d
      → ReadsBack codec reg.states rules.rules
      → (x : Started F) × (go_on env o pem (reg, rules, d) ≡ some x) × HasBegun x
  unfolding go_on setup_with
  go_on-HasBegun pem reg rules d whole (before, w, at) w' log back =
      let dir = o.data_dir in
      let store = new_store unicode toolkit d dir (codes "/certs") in
      let conf = new_store-SameFiles env o apart d in
      let (d'', opens, logged) =
        open_key_log-SameFiles dir o.key_log store.0
          (locked-LogOpens dir o.key_log d store.0 conf.locked log) in
      let first : Server F = record {
        registry = reg;
        rules = rules;
        disk = d;
        pin_bypass = load_pin_bypass unicode dir store.0;
        kit = some store.1;
      } in
      let last : Server F = record first { disk = certified env o pem d'' } in
      let same = then-SameFiles dir d store.0 (certified env o pem d'') conf (
        then-SameFiles dir store.0 d'' (certified env o pem d'') logged
          (certified-SameFiles env o apart pem d'')) in
      (
        record {
          setup = setup_with env o pem d;
          program = record { server = last; hub = some new_hub };
          spec = rule_spec env o;
          token = o.admin_token;
          serves_admin = not (refuses_admin env.addresses o.admin o.admin_token o.allow_open_admin);
          http_proxy = given o.http_proxy;
          socks = given o.socks;
        },
        rw (go_on, opens) refl,
        record {
          durable = record {
            writable = locked-IsWritable dir d (certified env o pem d'') same.locked w';
            complete = whole;
            recoverable =
                same-IsRecoverable codec draws dir first last same refl (λ h. refl)
                  (saved-IsRecoverable codec draws dir before first w back whole at);
          };
          present = persist_exists-SameFiles dir d (certified env o pem d'') same (
              ap (persist_exists dir) at
              ∙ save_persist-persist_exists codec dir before w.made w.state_free w.rules_free reg
                  rules back);
          still_apart = record {
            command = apart.command;
            dump = λ e e' host dst.
                if_case (λ (k : Toolkit). k.dump_chain e host dst ≡ some e' → SameFiles dir e e')
                  (mkdir_all d (origin_dir o)) (record toolkit { dump_dir = origin_dir o }) toolkit
                  (λ _. apart.dump e e' host dst) (λ _. apart.dump e e' host dst);
          };
          dir = refl;
          codec = refl;
          serves = refl;
        },
      )

  pub main-HasBegun :
      (load_ca : Disk → Str → Option (Disk × Str)) (random : ℕ → Str) (fresh : Str) (d d' : Disk)
      (pem : Str)
      → load_ca d (join o.data_dir (codes "ca")) ≡ some (d', pem)
      → ((i : ℕ) → is_empty (random i) ≡ false)
      → is_empty fresh ≡ false
      → IsWritable o.data_dir d'
      → LogOpens o.data_dir o.key_log d'
      → ((x : Registry F × RuleEngine × Disk)
          → start unicode codec random fresh o.data_dir o.intercept_hosts d' new_registry new_engine
            ≡ some x
          → ReadsBack codec x.0.states x.1.rules)
      → (x : Started F) × (main env o load_ca random fresh d ≡ some x) × HasBegun x
  unfolding main
  main-HasBegun load_ca random fresh d d' pem loads drawn fresh_drawn w log back =
      let (x, starts, whole, saved_at, same) =
        start_lem {F = F} unicode codec random fresh o.data_dir o.intercept_hosts d' drawn
          fresh_drawn w in
      let (y, goes, begun) =
        go_on-HasBegun pem x.0 x.1 x.2 whole saved_at (locked-IsWritable o.data_dir d' x.2 same w)
          (locked-LogOpens o.data_dir o.key_log d' x.2 same log) (back x starts) in
      (y, rw (main, loads, starts) goes, begun)

  pub main_loop-begun :
      (free : Str → Bool) (load_ca : Disk → Str → Option (Disk × Str)) (random : ℕ → Str)
      (fresh : Str) (d : Disk) (x : Started F)
      → refuses_admin env.addresses o.admin o.admin_token o.allow_open_admin ≡ false
      → listens env o free ≡ true
      → main env o load_ca random fresh d ≡ some x
      → HasBegun x
      → main_loop env o free load_ca random fresh d ≡ some x
  unfolding main_loop
  main_loop-begun free load_ca random fresh d x accepted all_free runs begun =
      rw (main_loop, runs, begun.serves, accepted, all_free) refl

  -- main reaches its accept loop where the certificate authority loads, the data directory and its files
  -- can be written, the key log, if there is one, can be opened and is another file, the admin interface
  -- is not refused, and all addresses can be listened on. Then loading the data directory again gives the
  -- states and the rules that the program has, if the commands of the system leave its files alone, each
  -- drawing gives bytes, and encoding/json reads back what is saved.
  pub main_loop-IsDurable :
      (free : Str → Bool) (load_ca : Disk → Str → Option (Disk × Str)) (random : ℕ → Str)
      (fresh : Str) (d d' : Disk) (pem : Str)
      → load_ca d (join o.data_dir (codes "ca")) ≡ some (d', pem)
      → ((i : ℕ) → is_empty (random i) ≡ false)
      → is_empty fresh ≡ false
      → IsWritable o.data_dir d'
      → LogOpens o.data_dir o.key_log d'
      → ((x : Registry F × RuleEngine × Disk)
          → start unicode codec random fresh o.data_dir o.intercept_hosts d' new_registry new_engine
            ≡ some x
          → ReadsBack codec x.0.states x.1.rules)
      → refuses_admin env.addresses o.admin o.admin_token o.allow_open_admin ≡ false
      → listens env o free ≡ true
      → (x : Started F) × (main_loop env o free load_ca random fresh d ≡ some x)
        × IsDurable x.setup draws x.program
  main_loop-IsDurable free load_ca random fresh d d' pem loads drawn fresh_drawn w log back accepted
        all_free =
      let (x, runs, begun) =
        main-HasBegun load_ca random fresh d d' pem loads drawn fresh_drawn w log back in
      (x, main_loop-begun free load_ca random fresh d x accepted all_free runs begun, begun.durable)
