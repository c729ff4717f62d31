-- ===== src/Tests/Program.antt =====
-- The parts together.
use skytap.Common.{ℕ, ◌≡◌, refl, List, [], ◌∷◌, Option, some, All}
use skytap.Text.{Str, codes, ◌==◌, to_upper, is_ascii, upper_byte, trim_prefix, cut_prefix}
use skytap.GoMap.{get, put}
use skytap.Disk.{mkdir_all, read_file}
use skytap.Registry
use skytap.Flow.{FlowView}
use skytap.Registry.{trim_ring, mocked, new_registry}
use skytap.Config.{Codec, load_persist, saved_states, saved_rules}
use skytap.App.{on_flow, on_connect, on_request}
use skytap.Ws.{new_hub}
use skytap.Server.{saved}
use skytap.Server.Recovery.{IsRecoverable}
use skytap.Handlers.{Setup, handle_state, query, is_state}
use skytap.Admin.{serve, mux, is_public, token_ok}
use skytap.Program.{Program, Input, connection, flow, admin, step, run}
use skytap.Program.Feed.{IsElsewhere, texts_of, run-received}
use skytap.Program.{join, greet}
use skytap.Registry.{Registry}
use skytap.Common.{◌++◌}
use skytap.Ws.{Hub, got, make_limit}
use skytap.Ws.Delivery.{receive}
use skytap.Ws.Session.{snapshot}
use skytap.Common.{length, ◌<◌, arith}
use skytap.Program.Guarded.{IsStranger, run-guarded}
use skytap.Config.RoundTrip.{ReadsBack}
use skytap.Program.Restart.{AllSafe, IsSafe, IsDurable, run-IsDurable}
use skytap.Tests.Samples as Samples
use skytap.Tests.Samples.{Flow, api, engines, json, disk}
use skytap.Tests.Config.{codec}
use skytap.Tests.Admin.{
  setup, server, secret, mock_it, stranger, pin_on, wrong, wrong_pin, all-IsApart,
}

abbrev pub text : Flow → Option Str
text f = some (codes "{}")

abbrev marshal : List (FlowView ℕ) → Option Str
marshal fs = some (codes "null")

abbrev program : Program Flow
program = record { server = server; hub = some new_hub }

abbrev calls : List (Input Flow)
calls = connection api ∷ flow (api, 1) ∷ admin (1 ∷ []) stranger ∷ admin (1 ∷ []) pin_on ∷ []

calls-IsStranger : All (IsStranger secret) calls
unfolding IsStranger
calls-IsStranger = (tt, (tt, (wrong, (wrong_pin, tt))))

run-guarded_example :
    let after = (run setup engines json text marshal secret program calls).server in
    ((on_connect after.registry api).1 ≡ (on_connect program.server.registry api).1)
    × (on_request setup.unicode engines json after.registry after.rules api Samples.request
        ≡ on_request setup.unicode engines json program.server.registry program.server.rules api
            Samples.request)
run-guarded_example =
    run-guarded setup engines json text marshal secret refl program calls calls-IsStranger api
      Samples.request

-- A codec that knows one mocked host and no rule.
abbrev one_host : Codec
one_host = record codec { decode_rules = λ b. some [] }

abbrev durable_setup : Setup Flow
durable_setup = record setup { codec = one_host }

abbrev changes : List (Input Flow)
changes = connection api ∷ flow (api, 1) ∷ admin (1 ∷ []) mock_it ∷ []

abbrev draws : ℕ → Str
draws i = []

reads_back : ReadsBack one_host ((api, mocked) ∷ []) []
unfolding get
reads_back = record {
  states_text = codes "S";
  rules_text = codes "R";
  again = (api, mocked) ∷ [];
  encoded_states = refl;
  encoded_rules = refl;
  decoded_states = refl;
  decoded_rules = refl;
  is_map = (refl, tt);
  same = λ h. refl;
}

all_safe : AllSafe durable_setup engines json text marshal secret program changes
unfolding AllSafe IsSafe serve mux handle_state query is_state saved is_public token_ok trim_prefix
    cut_prefix ◌==◌ get put Registry.set_state step on_connect Registry.observe on_flow
    Registry.add_flow to_upper is_ascii upper_byte trim_ring
all_safe = (tt, (tt, ((refl, reads_back), tt)))

program-IsDurable : IsDurable durable_setup draws program
unfolding IsRecoverable load_persist mkdir_all read_file saved_states saved_rules get
program-IsDurable = record {
  writable = record { made = refl; state_free = refl; rules_free = refl };
  complete = tt;
  recoverable = (new_registry, refl, λ h. refl);
}

run-IsDurable_example :
    IsDurable durable_setup draws
      (run durable_setup engines json text marshal secret program changes)
run-IsDurable_example =
    run-IsDurable durable_setup engines json text marshal secret all-IsApart draws program changes
      all_safe program-IsDurable

calls-IsElsewhere : All (IsElsewhere (codes "c")) calls
unfolding IsElsewhere
calls-IsElsewhere = (tt, (tt, (tt, (tt, tt))))

abbrev later_calls : List (Input Flow)
later_calls = flow (api, 2) ∷ []

later_calls-IsElsewhere : All (IsElsewhere (codes "c")) later_calls
unfolding IsElsewhere
later_calls-IsElsewhere = (tt, tt)

-- The host is listed, and its flows are read when they are gone.
abbrev listed_at : ℕ → Registry Flow
listed_at i = new_registry

abbrev sent : List Str
sent =
    texts_of text calls
    ++ snapshot setup.fields marshal server.registry listed_at ∷ texts_of text later_calls

fitting : All (λ b. length b < make_limit) sent
unfolding snapshot texts_of
fitting = (omega arith, (omega arith, (omega arith, tt)))

run-received_example :
    (after : Hub) × (new : Str) × ((run setup engines json text marshal secret program (
        join (codes "c")
        ∷ (calls ++ greet (codes "c") server.registry listed_at ∷ later_calls))).hub
      ≡ some after)
    × (get after.clients (codes "c") ≡ some new)
    × (receive (length sent) new ≡ got (sent, []))
run-received_example =
    run-received setup engines json text marshal secret program new_hub (codes "c") server.registry
      listed_at calls later_calls refl calls-IsElsewhere later_calls-IsElsewhere fitting
