-- ===== src/Main.antt =====
-- main.go: what main sets up in front of its accept loop, from the flags and the environment.
pub mod Capture
pub mod Files
pub mod Durable
pub mod Lifetime
use skytap.Common.{
  ℕ, Bool, true, false, not, ◌&&◌, ◌||◌, List, [], ◌++◌, Option, none, some, is_empty, or_zero,
  if◌then◌else◌,
}
use skytap.Text.{Str, codes, ◌==◌}
use skytap.GoMap
use skytap.Disk.{Disk, join, read_file, write_file, mkdir_all}
use skytap.Registry.{Registry, new_registry}
use skytap.Rules.{RuleEngine, new_engine}
use skytap.Net.{Addresses}
use skytap.Flags.{split_csv, parse_ints, must_port, refuses_admin, start}
use skytap.App.{load_pin_bypass}
use skytap.CaTrust.{System}
use skytap.CaTrust.Install.{dir_of, restore_ca_trust}
use skytap.SslKit.{SslKitStore, Toolkit, new_store}
use skytap.Ws.{new_hub}
use skytap.Handlers.{Setup}
use skytap.Server.{Server}
use skytap.Program.{Program}

-- The flags, and the variables of the environment that are no default of a flag.
pub record Options : Type 0 where
  pub listen : Str
  pub http_proxy : Str
  pub socks : Str
  pub admin : Str
  pub admin_token : Str
  pub data_dir : Str
  pub key_log : Str
  pub install : Bool
  pub mode : Str
  pub ports : Str
  pub exclude_nets : Str
  pub intercept_hosts : Str
  pub origin_cert_dir : Str
  pub allow_open_admin : Str

-- skydst.RuleSpec; the mode is PreroutingRedirect or OutputRedirect.
pub record RuleSpec : Type 0 where
  pub proxy_port : ℕ
  pub ports : List ℕ
  pub exclude_uid : ℕ
  pub exclude_nets : List Str
  pub prerouting : Bool

-- What runs then: the capture rules to install, the admin interface with its token, and the addresses
-- of the proxies. Where the admin interface is not served the process ends at once.
pub record Started (F : Type 0) : Type 1 where
  pub setup : Setup F
  pub program : Program F
  pub spec : Option RuleSpec
  pub token : Str
  pub serves_admin : Bool
  pub http_proxy : Option Str
  pub socks : Option Str

abbrev pub given : Str → Option Str
given addr = if is_empty addr then none else some addr

-- The directory for the certificates of origins.
unfoldable pub origin_dir : Options → Str
origin_dir o = if is_empty o.origin_cert_dir then codes "/certs/origin-cache" else o.origin_cert_dir

-- Opening the key log for appending: a new file is empty.
unfoldable pub open_key_log : Disk → Str → Option Disk
unfolding dir_of
open_key_log d path =
    if is_empty path
    then some d
    else if not (mkdir_all d (dir_of path))
    then none
    else let (d', opened) = write_file d path (or_zero [] (read_file d path)) in
      if opened then some d' else none

-- The copies of the certificate.
unfoldable pub write_certificates : System → Str → Str → Disk → Disk
write_certificates sys data_dir pem d =
    let d' = (write_file d (join (join data_dir (codes "ca")) (codes "ca.crt")) pem).0 in
    if sys.is_dir (codes "/certs")
    then (write_file (write_file d' (codes "/certs/ca.crt") pem).0 (codes "/certs/ca.pem") pem).0
    else d'

unfoldable pub rule_spec : {F : Type 0} → Setup F → Options → Option RuleSpec
rule_spec env o =
    if o.install
    then some (record {
      proxy_port = must_port o.listen;
      ports = parse_ints env.unicode o.ports;
      exclude_uid = env.system.uid;
      exclude_nets = split_csv env.unicode o.exclude_nets;
      prerouting = o.mode == codes "prerouting";
    })
    else none

module _ {F : Type 0} (env : Setup F) (o : Options) where
  open env use {unicode, codec, system, toolkit}

  -- What adminMux is given, with the directory of SetOriginDumpDir.
  unfoldable pub setup_with : Str → Disk → Setup F
  unfolding origin_dir
  setup_with pem d = record env {
    dir = o.data_dir;
    bind = o.admin;
    pem = pem;
    has_hub = true;
    toolkit =
        if mkdir_all d (origin_dir o) then record toolkit { dump_dir = origin_dir o } else toolkit;
  }

  -- The files after the certificate has been restored and copied.
  unfoldable pub certified : Str → Disk → Disk
  unfolding write_certificates
  certified pem d =
      write_certificates system o.data_dir pem (restore_ca_trust unicode system pem o.data_dir d)

  -- From the two saves on, up to the listening; `none` where the process ends before.
  unfoldable pub go_on : Str → Registry F × RuleEngine × Disk → Option (Started F)
  unfolding setup_with certified open_key_log rule_spec
  go_on pem (reg, rules, d) =
      let (d', kit) = new_store unicode toolkit d o.data_dir (codes "/certs") in
      elim (open_key_log d' o.key_log) [
        | none ↦ none
        | some d'' ↦ some (record {
          setup = setup_with pem d;
          program = record {
            server = record {
              registry = reg;
              rules = rules;
              disk = certified pem d'';
              pin_bypass = load_pin_bypass unicode o.data_dir d';
              kit = some kit;
            };
            hub = some new_hub;
          };
          spec = rule_spec env o;
          token = o.admin_token;
          serves_admin = not (refuses_admin env.addresses o.admin o.admin_token o.allow_open_admin);
          http_proxy = given o.http_proxy;
          socks = given o.socks;
        })
      ]

  -- main up to the listening. `load_ca` is gomitm.LoadOrCreateCA, with the files it leaves and the
  -- certificate; `random` and
  -- `fresh` are what loaded rules and the rule of the seed would draw.
  unfoldable pub main :
      (Disk → Str → Option (Disk × Str)) → (ℕ → Str) → Str → Disk → Option (Started F)
  unfolding go_on
  main load_ca random fresh d = elim (load_ca d (join o.data_dir (codes "ca"))) [
    | none ↦ none
    | some (d', pem) ↦
        elim (start {F = F} unicode codec random fresh o.data_dir o.intercept_hosts d' new_registry
          new_engine) [ none ↦ none | some x ↦ go_on pem x ]
  ]

  -- Can all that is listened on be listened on: the admin interface, the proxies that are asked for, and
  -- the redirected connections.
  unfoldable pub listens : (Str → Bool) → Bool
  listens free =
      free o.admin
      && free o.listen
      && (is_empty o.http_proxy || free o.http_proxy)
      && (is_empty o.socks || free o.socks)

  -- main up to its accept loop: what runs then, and `none` where the process ends, also where the admin
  -- interface is refused or an address cannot be listened on.
  unfoldable pub main_loop :
      (Str → Bool)
      → (Disk → Str → Option (Disk × Str))
      → (ℕ → Str)
      → Str
      → Disk
      → Option (Started F)
  unfolding main listens
  main_loop free load_ca random fresh d = elim (main load_ca random fresh d) [
    | none ↦ none
    | some x ↦ if x.serves_admin && listens free then some x else none
  ]
