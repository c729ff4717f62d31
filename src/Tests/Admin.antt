-- ===== src/Tests/Admin.antt =====
-- admin.go and mcp.go
use skytap.Common.{ℕ, ◌≡◌, ◌≢◌, refl, [], ◌∷◌, inr, true, false}
use skytap.Text.{Str, codes, ◌==◌, cut_prefix, trim_prefix}
use skytap.Registry.{new_registry}
use skytap.Rules.{new_engine}
use skytap.Server.{Server}
use skytap.Server.Saving.{IsKept}
use skytap.Mcp.{call_tool}
use skytap.Mcp.Listed.{is_listed, call_tool_iff}
use skytap.Mcp.{mcp_tools}
use skytap.Common.{◌↔◌, none}
use skytap.Admin.{serve, is_public}
use skytap.Handlers.{AdminRequest, BodyDecoder, Setup, failure}
use skytap.Server.Files.{IsApart}
use skytap.Tests.SslKit.{kit, store, policy}
use skytap.Tests.CaTrust.{machine}
use skytap.Common.{some, ap, sym, or_zero}
use skytap.Disk.{read_file, join}
use skytap.Config.{state_file, rules_file}
use skytap.Admin.Access.{credential, serve-refused, serve-pin_bypass}
use skytap.Admin.Effects.{serve-IsKept}
use skytap.Admin.States.{HasStates, serve-HasStates}
use skytap.Tests.Samples.{fields, Flow, ascii_only, api, blank_rule, disk, net}
use skytap.Tests.Config.{codec}

-- Every body is the same rule, a call of set_state, and turns the switch on.
abbrev decoder : BodyDecoder
decoder = record {
  rule = λ b. inr blank_rule;
  policy = λ b. inr policy;
  target = λ b. (api, []);
  enabled = λ b. true;
  rpc = record {
    RpcId = ℕ;
    request = λ b. inr (record { id = 1; method = codes "tools/call"; params = b });
    call = λ b. inr (record { name = codes "set_state"; arguments = b });
    arguments = λ b. [];
  };
}

abbrev pub setup : Setup Flow
setup = record {
  unicode = ascii_only;
  fields = fields;
  codec = codec;
  decoder = decoder;
  toolkit = kit;
  system = machine;
  addresses = net;
  dir = codes "/data";
  bind = codes "127.0.0.1:7777";
  pem = codes "PEM";
  has_hub = true;
  index_page = some (codes "<html>");
}

abbrev pub server : Server Flow
server = record {
  registry = new_registry;
  rules = new_engine;
  disk = disk;
  pin_bypass = false;
  kit = some store;
}

abbrev pub secret : Str
secret = codes "s3cret"

abbrev pub mock_it : AdminRequest
mock_it = record {
  method = codes "POST";
  path = codes "/state";
  query = (codes "host", api) ∷ (codes "state", codes "mocked") ∷ [];
  authorization = codes "Bearer s3cret";
  body = inr [];
}

abbrev pub stranger : AdminRequest
stranger = record mock_it { authorization = codes "Bearer guess" }

abbrev pub pin_on : AdminRequest
pin_on = record mock_it { path = codes "/pin-bypass"; authorization = [] }

guarded : is_public stranger.path ≡ false
unfolding is_public ◌==◌
guarded = refl

pub wrong : credential stranger ≢ secret
unfolding credential trim_prefix cut_prefix ◌==◌
wrong e = cc e

pub wrong_pin : credential pin_on ≢ secret
unfolding credential trim_prefix cut_prefix ◌==◌
wrong_pin e = cc e

serve-refused_example :
    serve setup secret [] server stranger ≡ (server, failure 401 (codes "unauthorized"))
serve-refused_example = serve-refused setup secret [] server stranger refl guarded wrong

serve-pin_bypass_example : (serve setup secret [] server pin_on).0.pin_bypass ≡ true
serve-pin_bypass_example = serve-pin_bypass setup secret [] server pin_on refl refl

pub all-IsApart : IsApart kit machine (codes "/data")
all-IsApart = record {
  command = λ d argv. record { states = refl; rules = refl; locked = refl };
  dump = λ d d' host dst e. record {
    states = ap (λ x. read_file (or_zero d x) (join (codes "/data") state_file)) (sym e);
    rules = ap (λ x. read_file (or_zero d x) (join (codes "/data") rules_file)) (sym e);
    locked = ap (λ x. (or_zero d x).locked) (sym e);
  };
}

serve-IsKept_example : IsKept codec (codes "/data") server (serve setup secret [] server mock_it).0
serve-IsKept_example = serve-IsKept setup all-IsApart secret [] server mock_it

to_state : (mock_it.path == codes "/mcp") ≡ false
unfolding ◌==◌
to_state = refl

serve-HasStates_example : HasStates (serve setup secret [] server mock_it).0.registry
serve-HasStates_example = serve-HasStates setup secret [] server mock_it tt to_state

call_tool_iff_example :
    ((call_tool ascii_only fields codec (codes "/data") [] server (codes "reset") []).1 ≡ none)
    ↔ (is_listed (codes "reset") mcp_tools ≡ false)
call_tool_iff_example =
    call_tool_iff ascii_only fields codec (codes "/data") [] server (codes "reset") []
