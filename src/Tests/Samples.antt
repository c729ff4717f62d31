-- ===== src/Tests/Samples.antt =====
-- Data that the tests share.
use skytap.Common.{ℕ, false, [], ◌∷◌, none, some}
use skytap.Text.{Str, codes, Unicode}
use skytap.Flow.{FlowFields}
use skytap.Http.{Request}
use skytap.Script.{Engines, string}
use skytap.Rules.{Rule, JsonObjects}
use skytap.Disk.{Disk}
use skytap.Net.{Addresses}

-- Inputs beyond ASCII are left alone.
abbrev pub ascii_only : Unicode
ascii_only = record { upper = λ s. s; lower = λ s. s; fold = λ s t. false; trim = λ s. s }

-- A flow with the fields that the registry needs.
abbrev pub Flow : Type 0
Flow = Str × ℕ

abbrev pub fields : FlowFields Flow
fields = record {
  Time = ℕ;
  time = λ f. f.1;
  host = λ f. f.0;
  method = λ f. codes "GET";
  path = λ f. codes "/";
  status = λ f. 200;
  req_size = λ f. 0;
  res_size = λ f. 0;
  mocked = λ f. false;
  req_body = λ f. [];
  res_body = λ f. [];
  req_truncated = λ f. false;
  res_truncated = λ f. false;
}

abbrev pub host_of : Flow → Str
host_of f = f.0

abbrev pub api : Str
api = codes "api.test"

abbrev pub other_host : Str
other_host = codes "x.test"

-- Every expression gives `7`, no script runs, no template parses.
abbrev pub engines : Engines
engines = record {
  eval = λ src env. some (string (codes "7"));
  exec_file = λ src env. none;
  template = λ t data'. none;
}

-- Values are strings; every text is read as one object, and printed as its first key.
abbrev pub json : JsonObjects
json = record {
  Any = Str;
  of_string = λ s. s;
  unmarshal = λ b. some ((codes "k", b) ∷ []);
  marshal = λ o. some (codes "{}");
}

abbrev pub blank_rule : Rule
blank_rule = record {
  id = [];
  host = [];
  path = [];
  method = [];
  status = 0;
  body = [];
  content_type = [];
  action = [];
  rewrite_json = [];
  rewrite_body = [];
  script = [];
}

abbrev pub request : Request
request = record {
  method = codes "GET";
  path = codes "/v1/users";
  host = api;
  query = [];
  headers = [];
  body = some (codes "{}");
  content_length = 2;
  get_body = none;
}

abbrev pub disk : Disk
disk = record { files = []; locked = λ path. false }

-- No address is a loopback address, and every IPv6 address has the same text.
abbrev pub net : Addresses
net = record { is_loopback_ip = λ s. false; ipv6_text = λ s. codes "::" }
