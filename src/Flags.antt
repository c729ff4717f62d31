-- ===== src/Flags.antt =====
-- main.go: the reading of the flags, the seed of an empty data directory and the start of the
-- registry and the rules.
pub mod Lists
pub mod Ports
pub mod Start
use skytap.Common.{
  ℕ, zero, suc, ◌+◌, ◌-◌, ◌*◌, ◌%◌, Bool, true, false, not, ◌&&◌, ◌||◌, List, [], ◌∷◌, ◌++◌, Option,
  none, some, eqb, ltb, leb, is_some, is_empty, or_zero, if◌then◌else◌,
}
use skytap.Text.{split_on, Str, codes, ◌==◌, Unicode, trim_space}
use skytap.Text.Utf8.{runes}
use skytap.GoMap
use skytap.Net.{Addresses, split_host_port}
use skytap.Net.Decimal.{digits, uint64_mod}
use skytap.Registry
use skytap.Registry.{Registry, mocked, intercepted}
use skytap.Rules
use skytap.Rules.{Rule, RuleEngine}
use skytap.Disk.{Disk}
use skytap.Config.{Codec, load_persist, save_persist, persist_exists}

module _ (u : Unicode) where
  unfoldable pub trimmed_parts : List Str → List Str
  trimmed_parts [] = []
  trimmed_parts (p ∷ ps) =
      let q = trim_space u p in let rest = trimmed_parts ps in if is_empty q then rest else q ∷ rest

  unfoldable pub split_csv : Str → List Str
  unfolding trimmed_parts
  split_csv s = let (first, others) = split_on b',' s in trimmed_parts (first ∷ others)

  -- n > 0 for the int whose bit pattern is `n`
  unfoldable pub is_positive : ℕ → Bool
  is_positive n = ltb 0 n && ltb n 9223372036854775808

  unfoldable pub positive_numbers : List Str → List ℕ
  unfolding is_positive digits
  positive_numbers [] = []
  positive_numbers (p ∷ ps) =
      let rest = positive_numbers ps in
      elim (digits 0 p) [ none ↦ rest | some n ↦ if is_positive n then n ∷ rest else rest ]

  -- The characters of a part are looked at as bytes: one beyond ASCII is no digit either way.
  unfoldable pub parse_ints : Str → List ℕ
  unfolding split_csv positive_numbers
  parse_ints s =
      let out = positive_numbers (split_csv s) in if is_empty out then 80 ∷ 443 ∷ [] else out

-- n = n*10 + int(c-'0') for every rune, digit or not, on the bit pattern of an int.
unfoldable pub rune_number : ℕ → List ℕ → ℕ
rune_number n [] = n
rune_number n (c ∷ cs) = rune_number ((n * 10 + (c + uint64_mod - 48)) % uint64_mod) cs

unfoldable pub must_port : Str → ℕ
unfolding rune_number runes
must_port addr = elim (split_host_port addr) [
  | none ↦ 3128
  | some (host, p) ↦ rune_number 0 (runes p)
]

unfoldable pub is_loopback : Addresses → Str → Bool
is_loopback net addr = elim (split_host_port addr) [
  | none ↦ false
  | some (host, port) ↦ host == codes "localhost" || net.is_loopback_ip host
]

-- The guard in front of ListenAndServe: the process ends instead of serving. `allow` is the value of
-- SKYTAP_ALLOW_OPEN_ADMIN.
unfoldable pub refuses_admin : Addresses → Str → Str → Str → Bool
refuses_admin net admin token allow =
    not (is_loopback net admin) && (is_empty token && not (allow == codes "1"))

abbrev pub seed_host : Str
seed_host = codes "check.spy.net"

abbrev pub seed_rule : Rule
seed_rule = record {
  id = [];
  host = seed_host;
  path = codes "/";
  method = codes "GET";
  status = 200;
  body = 123 ∷ (34 ∷ (codes "license" ++ (34 ∷ (58 ∷ (34 ∷ (codes "active" ++ (34 ∷ 125 ∷ [])))))));
  content_type = codes "application/json";
  action = [];
  rewrite_json = [];
  rewrite_body = [];
  script = [];
}

unfoldable pub has_host : Str → List Rule → Bool
has_host h [] = false
has_host h (r ∷ rs) = r.host == h || has_host h rs

unfoldable pub seed_registry : {F : Type 0} → Registry F → Registry F
seed_registry reg =
    if is_some (GoMap.get (Registry.snapshot reg) seed_host)
    then reg
    else Registry.set_state reg seed_host mocked

unfoldable pub seed_rules : Str → RuleEngine → RuleEngine
unfolding has_host
seed_rules random rules =
    if has_host seed_host (Rules.all_rules rules)
    then rules
    else (Rules.add random rules seed_rule).0

unfoldable pub seed : {F : Type 0} → Str → Registry F → RuleEngine → Registry F × RuleEngine
unfolding seed_registry seed_rules
seed random reg rules = (seed_registry reg, seed_rules random rules)

unfoldable pub intercept_all : {F : Type 0} → Registry F → List Str → Registry F
intercept_all reg [] = reg
intercept_all reg (h ∷ hs) = intercept_all (Registry.set_state reg h intercepted) hs

-- From the environment variable on: the named hosts, and the saves. `hosts` is
-- SKYTAP_INTERCEPT_HOSTS.
unfoldable pub name_hosts :
    {F : Type 0}
    → Unicode
    → Codec
    → Str
    → Str
    → Disk
    → Registry F × RuleEngine
    → Registry F × RuleEngine × Disk
unfolding intercept_all
name_hosts u codec dir hosts d (reg, rules) =
    let named = if is_empty hosts then reg else intercept_all reg (split_csv u hosts) in
    let d' = if is_empty hosts then d else (save_persist codec dir d named rules).0 in
    (named, rules, (save_persist codec dir d' named rules).0)

-- The start of main up to the second save; `none` where the process ends.
unfoldable pub start :
    {F : Type 0}
    → Unicode
    → Codec
    → (ℕ → Str)
    → Str
    → Str
    → Str
    → Disk
    → Registry F
    → RuleEngine
    → Option (Registry F × RuleEngine × Disk)
unfolding seed name_hosts
start u codec random fresh dir hosts d reg rules =
    let (reg', rules', loaded) = load_persist codec random dir d reg rules in
    if loaded
    then some (
        name_hosts u codec dir hosts d
          (if persist_exists dir d then (reg', rules') else seed fresh reg' rules'))
    else none
