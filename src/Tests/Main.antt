-- ===== src/Tests/Main.antt =====
-- main.go, from the flags to the accept loop.
use mathlib.Core.Path.{subst}
use skytap.Server.Files.{same-SameFiles}
use skytap.Flags.{is_loopback}
use skytap.Net.{split_host_port}
use skytap.Common.{
  false, ℕ, ◌≡◌, refl, sym, ap, ◌∙◌, true, List, [], ◌∷◌, Option, some, or_zero, inl,
}
use skytap.Text.{Str, codes, ◌==◌, split_on, trim_space, trim_left, trim_right, is_ascii}
use skytap.GoMap.{get, put}
use skytap.Disk.{Disk, join, mkdir_all, read_file, write_file}
use skytap.Registry
use skytap.Registry.{Registry, mocked, intercepted, new_registry}
use skytap.Rules
use skytap.Rules.{Rule, RuleEngine, new_engine, complete}
use skytap.Config.{
  Codec, load_persist, save_persist, save_rules, saved_states, saved_rules, persist_exists,
}
use skytap.Config.RoundTrip.{ReadsBack}
use skytap.Flags.{
  start, seed, seed_host, seed_rule, seed_registry, seed_rules, has_host, name_hosts, intercept_all,
  split_csv, trimmed_parts,
}
use skytap.Server.Recovery.{IsWritable}
use skytap.Handlers.{Setup}
use skytap.Main.{
  Options, Started, main, setup_with, certified, rule_spec, listens, main_loop, go_on, open_key_log,
}
use skytap.Main.{RuleSpec}
use skytap.Main.Capture.{Call, capture_calls}
use skytap.Main.Lifetime.{names, main_loop-restart}
use skytap.SslKit.{SslKitStore, new_store}
use skytap.App.{load_pin_bypass, on_connect, on_flow}
use skytap.Ws.{new_hub}
use skytap.Flags.{refuses_admin}
use skytap.Program.{Input, connection, flow, admin, step, run}
use skytap.Flow.{FlowView}
use skytap.Admin.{serve, mux, is_public, token_ok}
use skytap.Handlers.{handle_state, query, is_state}
use skytap.Server.{saved}
use skytap.Text.{to_upper, upper_byte, trim_prefix, cut_prefix}
use skytap.Registry.{trim_ring}
use skytap.Program.Restart.{AllSafe, IsSafe}
use skytap.Common.{not, none, if◌then◌else◌}
use skytap.Tests.Samples.{engines, json}
use skytap.Tests.Program.{text}
use skytap.Main.Durable.{main_loop-IsDurable}
use skytap.Program.Restart.{IsDurable}
use skytap.Tests.Samples.{Flow, api, ascii_only, disk}
use skytap.Tests.Config.{codec}
use skytap.Tests.Admin.{setup, all-IsApart, mock_it}

abbrev options : Options
options = record {
  listen = codes ":3128";
  http_proxy = [];
  socks = codes ":1080";
  admin = codes "localhost:8080";
  admin_token = [];
  data_dir = codes "/data";
  key_log = [];
  install = true;
  mode = codes "output";
  ports = codes "80,443";
  exclude_nets = codes "127.0.0.0/8";
  intercept_hosts = api;
  origin_cert_dir = [];
  allow_open_admin = [];
}

abbrev states : List (Str × Str)
states = (seed_host, mocked) ∷ (api, intercepted) ∷ []

abbrev seeded : Rule
seeded = record seed_rule { id = codes "01"; action = codes "mock" }

-- A codec for the states of the two hosts, and for the rule that the start saves.
abbrev started_codec : Codec
started_codec = record codec {
  encode_states = λ m. get m api;
  decode_states = λ b. some (some ((seed_host, mocked) ∷ (api, b) ∷ []));
  decode_rules = λ b. some (seeded ∷ []);
}

abbrev start_setup : Setup Flow
start_setup = record setup { codec = started_codec }

abbrev load_ca : Disk → Str → Option (Disk × Str)
load_ca d dir = some (d, codes "PEM")

abbrev drawn : ℕ → Str
drawn i = 1 ∷ []

abbrev begun : Registry Flow × RuleEngine × Disk
begun = (
  record { states = states; hits = []; flows = []; ring_n = 64 },
  record { rules = seeded ∷ [] },
  record disk {
    files = (codes "/data/state.json", intercepted) ∷ (codes "/data/rules.json", codes "R") ∷ [];
  },
)

starts :
    start ascii_only started_codec drawn
      (1 ∷ [])
      (codes "/data")
      api
      disk
      (new_registry {F = Flow})
      new_engine
    ≡ some begun
unfolding start name_hosts seed seed_registry seed_rules has_host intercept_all split_csv
    trimmed_parts load_persist persist_exists saved_states saved_rules save_persist save_rules
    mkdir_all read_file write_file join split_on trim_space trim_left trim_right is_ascii ◌==◌ get
    put complete Registry.set_state Registry.snapshot Rules.all_rules Rules.add Rules.new_rule_id
    Rules.hex_encode
starts = refl

begun-ReadsBack : ReadsBack started_codec begun.0.states begun.1.rules
unfolding get ◌==◌
begun-ReadsBack = record {
  states_text = intercepted;
  rules_text = codes "R";
  again = states;
  encoded_states = refl;
  encoded_rules = refl;
  decoded_states = refl;
  decoded_rules = refl;
  is_map = (refl, (refl, tt));
  same = λ h. refl;
}

found-ReadsBack :
    (x : Registry Flow × RuleEngine × Disk)
    → start ascii_only started_codec drawn
        (1 ∷ [])
        (codes "/data")
        api
        disk
        (new_registry {F = Flow})
        new_engine
      ≡ some x
    → ReadsBack started_codec x.0.states x.1.rules
found-ReadsBack x e =
    subst (λ (y : Registry Flow × RuleEngine × Disk). ReadsBack started_codec y.0.states y.1.rules)
      (ap (or_zero begun) (sym starts ∙ e)) begun-ReadsBack

disk-IsWritable : IsWritable (codes "/data") disk
unfolding mkdir_all
disk-IsWritable = record { made = refl; state_free = refl; rules_free = refl }

can_listen : listens start_setup options (λ addr. true) ≡ true
unfolding listens
can_listen = refl

not_refused :
    refuses_admin start_setup.addresses options.admin options.admin_token options.allow_open_admin
    ≡ false
unfolding refuses_admin is_loopback split_host_port ◌==◌
not_refused = refl

main_loop-IsDurable_example :
    (x : Started Flow) × (main_loop start_setup options (λ addr. true) load_ca drawn (1 ∷ []) disk
      ≡ some x)
    × IsDurable x.setup drawn x.program
main_loop-IsDurable_example =
    main_loop-IsDurable start_setup options all-IsApart drawn (λ addr. true) load_ca drawn (1 ∷ [])
      disk disk (codes "PEM") refl (λ i. refl) refl disk-IsWritable (inl refl) found-ReadsBack
      not_refused can_listen

abbrev stored : Disk × SslKitStore
stored = new_store ascii_only start_setup.toolkit begun.2 (codes "/data") (codes "/certs")

abbrev started : Started Flow
started = record {
  setup = setup_with start_setup options (codes "PEM") begun.2;
  program = record {
    server = record {
      registry = begun.0;
      rules = begun.1;
      disk = certified start_setup options (codes "PEM") stored.0;
      pin_bypass = load_pin_bypass ascii_only (codes "/data") stored.0;
      kit = some stored.1;
    };
    hub = some new_hub;
  };
  spec = rule_spec start_setup options;
  token = [];
  serves_admin = not (refuses_admin start_setup.addresses (codes "localhost:8080") [] []);
  http_proxy = none;
  socks = some (codes ":1080");
}

main-started : main start_setup options load_ca drawn (1 ∷ []) disk ≡ some started
unfolding main go_on open_key_log
main-started = rw (main, starts) refl

-- A day of the program: a host that a client connects to, a flow, and a call that mocks the host.
abbrev day : List (Input Flow)
day = connection api ∷ flow (api, 1) ∷ admin (1 ∷ []) mock_it ∷ []

abbrev listed : List (FlowView started.setup.fields.Time) → Option Str
listed fs = some (codes "null")

-- A signal removes the rules that have been installed.
signalled :
    (spec : RuleSpec) × (capture_calls started true
      ≡ (Call.install spec ∷ Call.remove spec ∷ [], true))
unfolding capture_calls rule_spec
signalled = (_, refl)

mocked_back : ReadsBack started_codec ((seed_host, mocked) ∷ (api, mocked) ∷ []) (seeded ∷ [])
unfolding get ◌==◌
mocked_back = record {
  states_text = mocked;
  rules_text = codes "R";
  again = (seed_host, mocked) ∷ (api, mocked) ∷ [];
  encoded_states = refl;
  encoded_rules = refl;
  decoded_states = refl;
  decoded_rules = refl;
  is_map = (refl, (refl, tt));
  same = λ h. refl;
}

day-safe : AllSafe started.setup engines json text listed [] started.program day
unfolding AllSafe IsSafe serve mux handle_state query is_state saved is_public token_ok trim_prefix
    cut_prefix ◌==◌ get put Registry.set_state step on_connect Registry.observe on_flow
    Registry.add_flow to_upper is_ascii upper_byte trim_ring setup_with
day-safe = (tt, (tt, ((refl, mocked_back), tt)))

started_loop :
    main_loop start_setup options (λ addr. true) load_ca drawn (1 ∷ []) disk ≡ some started
unfolding main_loop listens
started_loop = rw (main_loop, main-started, not_refused) refl

main_loop-restart_example :
    let s = (run started.setup engines json text listed [] started.program day).server in
    (y : Started Flow) × (main_loop start_setup
        (record options { intercept_hosts = [] })
        (λ addr. true)
        load_ca
        drawn
        (1 ∷ [])
        s.disk
      ≡ some y)
    × (y.program.server.rules ≡ s.rules)
    × ((h : Str)
        → Registry.state y.program.server.registry h ≡ (
            if names h (split_csv ascii_only []) then intercepted else Registry.state s.registry h))
main_loop-restart_example =
    main_loop-restart start_setup options all-IsApart drawn engines json (λ addr. true)
      (λ addr. true) load_ca load_ca drawn (1 ∷ []) (1 ∷ []) [] disk disk
      (run started.setup engines json text listed [] started.program day).server.disk (codes "PEM")
      (codes "PEM") started text listed day refl (λ i. refl) refl disk-IsWritable (inl refl)
      found-ReadsBack not_refused can_listen started_loop day-safe refl
      (same-SameFiles (codes "/data") _) (inl refl) can_listen
