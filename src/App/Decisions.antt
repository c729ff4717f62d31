-- ===== src/App/Decisions.antt =====
-- When traffic is decrypted, changed or answered.
use skytap.Common.{
  ◌≡◌, ◌≢◌, refl, ◌⊎◌, Bool, true, false, List, [], ◌∷◌, Option, none, some, arith, All, is_empty,
  Bool-cases, Option-cases, inl, inr, ◌↔◌,
}
use skytap.Text.{Str, Unicode, ◌==◌, trim_space, is_ascii, trim_left, trim_right}
use skytap.Text.Equality.{eq_iff}
use skytap.GoMap.Laws.{get-put}
use skytap.Http.{Request, Response}
use skytap.Script.{Engines}
use skytap.Registry
use skytap.Registry.{Registry, DomainState, new_registry, observed, intercepted, mocked}
use skytap.Registry.Spec.{Event, run}
use skytap.Registry.Promotion.{LeavesObserved, run-observed}
use skytap.Rules.{
  Rule, RuleEngine, JsonObjects, match_rule, is_rewrite, match, render_rule, apply_rewrite,
}
use skytap.Disk.{Disk, join}
use skytap.Disk.Laws.{read_file-write_file}
use skytap.App.{
  terminate, passthrough, is_decrypted, if_rewrite, on_connect, decide, on_request, set_pin_bypass,
  load_pin_bypass, pin_file,
}

module _ {F : Type 0} where
  pub state-observe :
      (r : Registry F) (host h : Str)
      → Registry.state (Registry.observe r host) h ≡ Registry.state r h
  unfolding Registry.state Registry.observe
  state-observe r [] h = refl
  state-observe r (c ∷ host) h =
      ground (arith, get-put r.states (c ∷ host) h observed, eq_iff (c ∷ host) h)

  -- A connection changes no host's state, and is decrypted exactly when its own host is INTERCEPTED
  -- or MOCKED.
  pub on_connect_lem :
      (r : Registry F) (host : Str)
      → ((h : Str) → Registry.state (on_connect r host).0 h ≡ Registry.state r h)
        × (((on_connect r host).1 ≡ terminate)
            ↔ ((Registry.state r host ≡ intercepted) ⊎ (Registry.state r host ≡ mocked)))
  unfolding on_connect
  on_connect_lem r host =
      (λ h. state-observe r host h, rw (state-observe r host) (grind (arith, eq_iff)))

is_decrypted_sound :
    (st : DomainState) → is_decrypted st ≡ true → (st ≡ intercepted) ⊎ (st ≡ mocked)
unfolding is_decrypted
is_decrypted_sound st h = ground (arith, eq_iff st intercepted, eq_iff st mocked)

module _ (u : Unicode) (engines : Engines) (json : JsonObjects) where
  match-some :
      (e : RuleEngine) (host : Str) (req : Request) (resp : Response)
      → match u engines e host req ≡ some resp
      → (r : Rule) × (match_rule u e host req ≡ some r)
        × (is_rewrite u r ≡ false)
        × (resp ≡ render_rule u engines r (some req))
  unfolding match
  match-some e host req resp h = elim (Option-cases (match_rule u e host req)) [
    | inl missed ↦ absurd (ground arith)
    | inr (r, found) ↦ (r, found, ground arith, ground arith)
  ]

  if_rewrite-some :
      (o : Option Rule) (r : Rule)
      → if_rewrite u o ≡ some r
      → (o ≡ some r) × (is_rewrite u r ≡ true)
  unfolding if_rewrite
  if_rewrite-some none r h = absurd (cc)
  if_rewrite-some (some q) r h = ground arith

  -- A host that no call has promoted: its connections pass through, and its requests reach the
  -- origin unchanged, whatever the rules.
  pub unpromoted_untouched :
      {F : Type 0} (host_of : F → Str) (es : List (Event F)) (host : Str) (e : RuleEngine)
      (req : Request)
      → All (LeavesObserved host) es
      → ((on_connect (run host_of new_registry es) host).1 ≡ passthrough)
        × (on_request u engines json (run host_of new_registry es) e host req ≡ (none, req))
  unfolding on_connect on_request is_decrypted ◌==◌
  unpromoted_untouched host_of es host e req q =
      let r = run host_of new_registry es in
      let seen = run-observed host_of host es q in
      (rw (state-observe r host, seen) refl, rw seen (ground arith))

  -- A response is made up only for a MOCKED host, from the first matching rule of the second read of
  -- the rules, which is no rewrite rule, and leaves the request alone, whatever was done to the
  -- rules between the two reads.
  pub decide-response :
      (st : DomainState) (e e' : RuleEngine) (host : Str) (req : Request) (resp : Response)
      → (decide u engines json st e e' host req).0 ≡ some resp
      → (r : Rule) × (st ≡ mocked)
        × (match_rule u e' host req ≡ some r)
        × (is_rewrite u r ≡ false)
        × (resp ≡ render_rule u engines r (some req))
        × ((decide u engines json st e e' host req).1 ≡ req)
  unfolding decide
  decide-response st e e' host req resp h =
      elim (Option-cases (if_rewrite u (match_rule u e host req))) [
        | inr (r, rewrites) ↦ absurd (cc (rw (decide, rewrites) at h))
        | inl mocks ↦ elim (Bool-cases (st == mocked)) [
          | inr other ↦ absurd (cc (rw (decide, mocks, other) at h))
          | inl is_mocked ↦
              let (r, found, plain, shown) =
                match-some e' host req resp (rw (decide, mocks, is_mocked) at h) in
              (
                r,
                (eq_iff st mocked).0 is_mocked,
                found,
                plain,
                shown,
                rw (decide, mocks, is_mocked) refl,
              )
        ]
      ]

  -- A request is changed only for an INTERCEPTED or MOCKED host, by the first matching rule of the
  -- first read, which is a rewrite rule, and then it goes to the origin.
  pub decide-request :
      (st : DomainState) (e e' : RuleEngine) (host : Str) (req : Request)
      → (decide u engines json st e e' host req).1 ≢ req
      → (r : Rule) × ((st ≡ intercepted) ⊎ (st ≡ mocked))
        × (match_rule u e host req ≡ some r)
        × (is_rewrite u r ≡ true)
        × (decide u engines json st e e' host req ≡ (none, apply_rewrite u engines json req r))
  unfolding decide
  decide-request st e e' host req h = elim (Option-cases (if_rewrite u (match_rule u e host req))) [
    | inl mocks ↦ absurd (h (ground arith))
    | inr (r, rewrites) ↦ elim (Bool-cases (is_decrypted st)) [
      | inr passed ↦ absurd (h (rw (decide, rewrites, passed) refl))
      | inl open_host ↦
          let (found, kind) = if_rewrite-some (match_rule u e host req) r rewrites in
          (r, is_decrypted_sound st open_host, found, kind, rw (decide, rewrites, open_host) refl)
    ]
  ]

-- What SetPinBypass writes is what loadPinBypass reads, in a directory where the file can be written.
load_pin_bypass-set_pin_bypass :
    (u : Unicode) (dir : Str) (d : Disk) (v : Bool)
    → is_empty dir ≡ false
    → d.locked (join dir pin_file) ≡ false
    → load_pin_bypass u dir (set_pin_bypass dir d v).0 ≡ v
unfolding load_pin_bypass set_pin_bypass trim_space is_ascii trim_left trim_right ◌==◌
load_pin_bypass-set_pin_bypass u dir d true h free =
    rw (h, load_pin_bypass, read_file-write_file d (join dir pin_file) _ free) refl
load_pin_bypass-set_pin_bypass u dir d false h free =
    rw (h, load_pin_bypass, read_file-write_file d (join dir pin_file) _ free) refl
