-- ===== src/Main/Lifetime.antt =====
-- The program from its start, through any calls, to its next start.
use mathlib.Core.Path.{subst}
use skytap.Common.{
  not, ℕ, ◌≡◌, refl, sym, ap, ◌∙◌, Bool, true, false, List, [], ◌∷◌, Option, some, or_zero,
  is_empty, arith, if◌then◌else◌,
}
use skytap.Text.{Str, codes, ◌==◌, Unicode, split_on, trim_space, trim_left, trim_right, is_ascii}
use skytap.GoMap.Laws.{get-put}
use skytap.Disk.{Disk, join}
use skytap.Registry
use skytap.Registry.{Registry, intercepted, new_registry}
use skytap.Rules.{RuleEngine, new_engine, JsonObjects}
use skytap.Script.{Engines}
use skytap.Flow.{FlowView}
use skytap.Config.{Codec, load_persist, persist_exists}
use skytap.Config.RoundTrip.{ReadsBack}
use skytap.Flags.{refuses_admin, intercept_all, split_csv, trimmed_parts, start, name_hosts}
use skytap.Server.Files.{IsApart, SameFiles}
use skytap.Server.Present.{persist_exists-SameFiles}
use skytap.SslKit.{new_store}
use skytap.App.{load_pin_bypass}
use skytap.Ws.{new_hub}
use skytap.Server.Recovery.{IsWritable, IsRecoverable, load_persist-SameFiles}
use skytap.Handlers.{Setup}
use skytap.Program.{Input, run}
use skytap.Program.Restart.{AllSafe, run-IsDurable}
use skytap.Program.Present.{run-persist_exists}
use skytap.Main.{
  Options, Started, given, rule_spec, setup_with, certified, go_on, main, listens, main_loop,
}
use skytap.Main.Files.{LogOpens, locked-LogOpens, open_key_log-SameFiles, new_store-SameFiles}
use skytap.Main.Durable.{
  name_hosts-rules, name_hosts-locked, main_loop-begun, HasBegun, main-HasBegun,
}

unfoldable pub names : Str → List Str → Bool
names h [] = false
names h (x ∷ xs) = if x == h then true else names h xs

intercept_all-names :
    {F : Type 0} (reg : Registry F) (hs : List Str) (h : Str)
    → Registry.state (intercept_all reg hs) h
      ≡ (if names h hs then intercepted else Registry.state reg h)
unfolding intercept_all names
intercept_all-names reg [] h = refl
intercept_all-names reg (x ∷ xs) h =
    intercept_all-names (Registry.set_state reg x intercepted) xs h
    ∙ (unfold Registry.state Registry.set_state in
        ground (arith, get-put reg.states x h intercepted))

split_csv-empty : (u : Unicode) → split_csv u [] ≡ []
unfolding split_csv trimmed_parts split_on trim_space trim_left trim_right is_ascii
split_csv-empty u = refl

name_hosts-names :
    {F : Type 0} (u : Unicode) (codec : Codec) (dir hosts : Str) (d : Disk) (reg : Registry F)
    (rules : RuleEngine)
    → (name_hosts u codec dir hosts d (reg, rules)).0 ≡ intercept_all reg (split_csv u hosts)
unfolding name_hosts intercept_all
name_hosts-names u codec dir [] d reg rules = rw (split_csv-empty u) refl
name_hosts-names u codec dir (c ∷ hosts) d reg rules = refl

-- A start from files that load_persist reads.
start-again :
    {F : Type 0} (u : Unicode) (codec : Codec) (random : ℕ → Str) (fresh dir hosts : Str) (d : Disk)
    (reg : Registry F) (rules : RuleEngine)
    → persist_exists dir d ≡ true
    → load_persist codec random dir d new_registry new_engine ≡ (reg, rules, true)
    → start u codec random fresh dir hosts d new_registry new_engine
      ≡ some (name_hosts u codec dir hosts d (reg, rules))
unfolding start
start-again u codec random fresh dir hosts d reg rules present loaded =
    rw (start, loaded, present) refl

-- What go_on does with the registry and the rules.
go_on-keeps :
    {F : Type 0} (env : Setup F) (o : Options) (pem : Str) (reg : Registry F) (rules : RuleEngine)
    (d : Disk)
    → IsApart env.toolkit env.system o.data_dir
    → LogOpens o.data_dir o.key_log d
    → (y : Started F) × (go_on env o pem (reg, rules, d) ≡ some y)
      × (y.program.server.registry ≡ reg)
      × (y.program.server.rules ≡ rules)
      × (y.serves_admin
          ≡ not (refuses_admin env.addresses o.admin o.admin_token o.allow_open_admin))
unfolding go_on
go_on-keeps env o pem reg rules d apart log =
    let store = new_store env.unicode env.toolkit d o.data_dir (codes "/certs") in
    let same = new_store-SameFiles env o apart d in
    let (d', opens, logged) =
      open_key_log-SameFiles o.data_dir o.key_log store.0
        (locked-LogOpens o.data_dir o.key_log d store.0 same.locked log) in
    (
      record {
        setup = setup_with env o pem d;
        program = record {
          server = record {
            registry = reg;
            rules = rules;
            disk = certified env o pem d';
            pin_bypass = load_pin_bypass env.unicode o.data_dir store.0;
            kit = some store.1;
          };
          hub = some new_hub;
        };
        spec = rule_spec env o;
        token = o.admin_token;
        serves_admin = not (refuses_admin env.addresses o.admin o.admin_token o.allow_open_admin);
        http_proxy = given o.http_proxy;
        socks = given o.socks;
      },
      rw (go_on, opens) refl,
      refl,
      refl,
      refl,
    )

abbrev named : Options → Str → Options
named o hosts = record o { intercept_hosts = hosts }

module _ {F : Type 0} (env : Setup F) (o : Options)
    (apart : IsApart env.toolkit env.system o.data_dir) (draws : ℕ → Str) where
  open env use {unicode, codec, addresses}

  -- main on files that load_persist reads.
  main_loop-again :
      (free : Str → Bool) (load_ca : Disk → Str → Option (Disk × Str)) (fresh hosts pem : Str)
      (d d' : Disk) (reg : Registry F) (rules : RuleEngine)
      → load_ca d (join o.data_dir (codes "ca")) ≡ some (d', pem)
      → SameFiles o.data_dir d d'
      → LogOpens o.data_dir o.key_log d'
      → refuses_admin addresses o.admin o.admin_token o.allow_open_admin ≡ false
      → listens env o free ≡ true
      → persist_exists o.data_dir d ≡ true
      → load_persist codec draws o.data_dir d new_registry new_engine ≡ (reg, rules, true)
      → (y : Started F) × (main_loop env (named o hosts) free load_ca draws fresh d ≡ some y)
        × (y.program.server.registry ≡ intercept_all reg (split_csv unicode hosts))
        × (y.program.server.rules ≡ rules)
  unfolding main main_loop listens
  main_loop-again free load_ca fresh hosts pem d d' reg rules loads same log accepted all_free
        present read =
      let next = name_hosts unicode codec o.data_dir hosts d' (reg, rules) in
      let starts =
        start-again unicode codec draws fresh o.data_dir hosts d' reg rules
          (persist_exists-SameFiles o.data_dir d d' same present)
          (load_persist-SameFiles codec draws o.data_dir d d' new_registry new_engine same
            ∙ read) in
      let (y, goes, registry, kept, serves) =
        go_on-keeps env (named o hosts) pem next.0 next.1 next.2 apart (
          locked-LogOpens o.data_dir o.key_log d' next.2
            (name_hosts-locked unicode codec o.data_dir hosts d' (reg, rules)) log) in
      (
        y,
        rw (main_loop, main, loads, starts, goes, serves, accepted, all_free) refl,
        registry ∙ name_hosts-names unicode codec o.data_dir hosts d' reg rules,
        kept ∙ name_hosts-rules unicode codec o.data_dir hosts d' (reg, rules),
      )

  main_loop-some :
      (free : Str → Bool) (load_ca : Disk → Str → Option (Disk × Str)) (random : ℕ → Str)
      (fresh : Str) (d : Disk) (x x' : Started F)
      → refuses_admin addresses o.admin o.admin_token o.allow_open_admin ≡ false
      → listens env o free ≡ true
      → main env o load_ca random fresh d ≡ some x'
      → HasBegun env o apart draws x'
      → main_loop env o free load_ca random fresh d ≡ some x
      → HasBegun env o apart draws x
  main_loop-some free load_ca random fresh d x x' accepted all_free runs begun loops =
      subst (HasBegun env o apart draws)
        (ap (or_zero x) (
          sym (
            main_loop-begun env o apart draws free load_ca random fresh d x' accepted all_free runs
              begun)
          ∙ loops))
        begun

  -- main reaches its accept loop, where the certificate authority loads, the data directory and its files
  -- can be written, the key log, if there is one, can be opened and is another file, the admin interface
  -- is not refused, all addresses can be listened on, the commands of the system leave the files of
  -- config.go alone, each drawing gives bytes, and encoding/json reads back what is saved. Then calls of
  -- the program come in any order, those of the admin interface one at a time, each with its save. When
  -- main is started again on the data directory, with the same flags and any SKYTAP_INTERCEPT_HOSTS, and
  -- the certificate authority loads, leaving the files of config.go alone, the key log can be opened, and
  -- all addresses can be listened on, it reaches its accept loop with the rules that the program had, and
  -- with the states that it had except that every named host is INTERCEPTED.
  pub main_loop-restart :
      (engines : Engines) (json : JsonObjects) (free free' : Str → Bool)
      (load_ca load_ca' : Disk → Str → Option (Disk × Str)) (random : ℕ → Str)
      (fresh fresh' hosts : Str) (d d' d'' : Disk) (pem pem' : Str) (x : Started F)
      (text : F → Option Str) (marshal : List (FlowView x.setup.fields.Time) → Option Str)
      (is : List (Input F))
      → load_ca d (join o.data_dir (codes "ca")) ≡ some (d', pem)
      → ((i : ℕ) → is_empty (random i) ≡ false)
      → is_empty fresh ≡ false
      → IsWritable o.data_dir d'
      → LogOpens o.data_dir o.key_log d'
      → ((z : Registry F × RuleEngine × Disk)
          → start unicode codec random fresh o.data_dir o.intercept_hosts d' new_registry new_engine
            ≡ some z
          → ReadsBack codec z.0.states z.1.rules)
      → refuses_admin addresses o.admin o.admin_token o.allow_open_admin ≡ false
      → listens env o free ≡ true
      → main_loop env o free load_ca random fresh d ≡ some x
      → AllSafe x.setup engines json text marshal x.token x.program is
      → let s = (run x.setup engines json text marshal x.token x.program is).server in
        load_ca' s.disk (join o.data_dir (codes "ca")) ≡ some (d'', pem')
        → SameFiles o.data_dir s.disk d''
        → LogOpens o.data_dir o.key_log d''
        → listens env o free' ≡ true
        → (y : Started F) × (main_loop env (named o hosts) free' load_ca' draws fresh' s.disk
            ≡ some y)
          × (y.program.server.rules ≡ s.rules)
          × ((h : Str)
              → Registry.state y.program.server.registry h ≡ (
                  if names h (split_csv unicode hosts)
                  then intercepted
                  else Registry.state s.registry h))
  unfolding IsRecoverable
  main_loop-restart engines json free free' load_ca load_ca' random fresh fresh' hosts d d' d'' pem
        pem' x text marshal is loads drawn fresh_drawn w log back accepted all_free loops safe
        loads' same log' all_free' =
      let (x', runs, begun') =
        main-HasBegun env o apart draws load_ca random fresh d d' pem loads drawn fresh_drawn w log
          back in
      let begun =
        main_loop-some free load_ca random fresh d x x' accepted all_free runs begun' loops in
      let after = run x.setup engines json text marshal x.token x.program is in
      let disk = after.server.disk in
      let durable =
        run-IsDurable x.setup engines json text marshal x.token begun.still_apart draws x.program is
          safe begun.durable in
      let present =
        run-persist_exists x.setup engines json text marshal x.token begun.still_apart x.program is
          begun.present in
      let (reg, read, states) = durable.recoverable in
      let (y, goes, registry, rules) =
        main_loop-again free' load_ca' fresh' hosts pem' disk d'' reg after.server.rules loads' same
          log' accepted all_free' (ap (λ dir. persist_exists dir disk) (sym begun.dir) ∙ present)
          (ap (λ dir. load_persist codec draws dir disk new_registry new_engine) (sym begun.dir)
            ∙ ap (λ c. load_persist c draws x.setup.dir disk new_registry new_engine)
                (sym begun.codec)
            ∙ read) in
      (
        y,
        goes,
        rules,
        λ h.
            ap (λ r. Registry.state r h) registry
            ∙ intercept_all-names reg (split_csv unicode hosts) h
            ∙ ap (λ st. if names h (split_csv unicode hosts) then intercepted else st) (states h),
      )
