-- ===== src/Admin/Access.antt =====
-- Who may use which handler.
use skytap.Common.{
  ◌≡◌, ◌≢◌, refl, sym, ◌∙◌, ap, Bool, true, false, inl, inr, if_case, is_empty, if◌then◌else◌,
  Bool-cases, arith, ◌⊎◌, ◌||◌,
}
use skytap.Text.{Str, codes, ◌==◌, trim_prefix}
use skytap.Text.Equality.{eq_iff}
use skytap.Server.{Server}
use skytap.App.{set_pin_bypass}
use skytap.Disk.{Disk}
use skytap.Handlers.{AdminRequest, Setup, Answer, failure, query}
use skytap.Panel.{handle_pin_bypass, handle_meta, handle_page}
use skytap.Admin.Frame.{Frame, pin-Frame}
use skytap.Admin.{is_public, mux, serve}

-- The text that a request presents as its token: /ws takes it from the query, all else from the
-- header.
unfoldable pub credential : AdminRequest → Str
credential r =
    if r.path == codes "/ws"
    then query r (codes "token")
    else trim_prefix r.authorization (codes "Bearer ")

eq-wrong : (s t : Str) → s ≢ t → (s == t) ≡ false
eq-wrong s t ne = ground (arith, eq_iff s t)

credential-ws :
    (r : AdminRequest) → (r.path == codes "/ws") ≡ true → credential r ≡ query r (codes "token")
unfolding credential
credential-ws r e = rw (credential, e) refl

credential-header :
    (r : AdminRequest)
    → (r.path == codes "/ws") ≡ false
    → credential r ≡ trim_prefix r.authorization (codes "Bearer ")
unfolding credential
credential-header r e = rw (credential, e) refl

public-cases :
    (path : Str)
    → is_public path ≡ true
    → (path ≡ codes "/meta")
      ⊎ ((path ≡ codes "/pin-bypass") ⊎ ((path ≡ codes "/") ⊎ (path ≡ codes "/index.html")))
unfolding is_public
public-cases path h = grind (
  arith,
  eq_iff path (codes "/meta"),
  eq_iff path (codes "/"),
  eq_iff path (codes "/index.html"),
  eq_iff path (codes "/pin-bypass"),
)

module _ {F : Type 0} (env : Setup F) where
  -- With a token, a request that presents another text to a guarded path is refused with 401, and
  -- nothing changes.
  pub serve-refused :
      (token random : Str) (s : Server F) (r : AdminRequest)
      → is_empty token ≡ false
      → is_public r.path ≡ false
      → credential r ≢ token
      → serve env token random s r ≡ (s, failure 401 (codes "unauthorized"))
  unfolding serve
  serve-refused token random s r set guarded ne = elim (Bool-cases (r.path == codes "/ws")) [
    | inl ws ↦
        rw (serve, set, guarded, ws, eq-wrong _ token (λ e. ne (credential-ws r ws ∙ e))) refl
    | inr other ↦
        rw (serve, set, guarded, other, eq-wrong _ token (λ e. ne (credential-header r other ∙ e)))
          refl
  ]

  -- A request that presents the token is answered by the handler of its path.
  serve-accepted :
      (token random : Str) (s : Server F) (r : AdminRequest)
      → is_empty token ≡ false
      → credential r ≡ token
      → serve env token random s r ≡ mux env token random s r
  unfolding serve
  serve-accepted token random s r set e = elim (Bool-cases (is_public r.path)) [
    | inl open_path ↦ rw (serve, set, open_path) refl
    | inr guarded ↦ elim (Bool-cases (r.path == codes "/ws")) [
      | inl ws ↦
          rw (serve, set, guarded, ws, (eq_iff _ token).1 (sym (credential-ws r ws) ∙ e)) refl
      | inr other ↦
          rw (serve, set, guarded, other, (eq_iff _ token).1 (sym (credential-header r other) ∙ e))
            refl
    ]
  ]

  mux-pin_bypass :
      (token random : Str) (s : Server F) (r : AdminRequest)
      → r.path ≡ codes "/pin-bypass"
      → mux env token random s r ≡ handle_pin_bypass env s r
  unfolding mux ◌==◌
  mux-pin_bypass token random s r path = rw (mux, path) refl

  set_pin_bypass-flag : (d : Disk) (v : Bool) → (set_pin_bypass env.dir d v).1 ≡ v
  unfolding set_pin_bypass
  set_pin_bypass-flag d v =
      if_case (λ (x : Disk × Bool). x.1 ≡ v) (is_empty env.dir) _ _ (λ _. refl) (λ _. refl)

  handle_pin_bypass-post :
      (s : Server F) (r : AdminRequest)
      → r.method ≡ codes "POST"
      → (handle_pin_bypass env s r).0.pin_bypass ≡ env.decoder.enabled r.body
  unfolding handle_pin_bypass ◌==◌
  handle_pin_bypass-post s r method =
      rw (handle_pin_bypass, method) (set_pin_bypass-flag s.disk (env.decoder.enabled r.body))

  serve-public :
      (token random : Str) (s : Server F) (r : AdminRequest)
      → is_public r.path ≡ true
      → serve env token random s r ≡ mux env token random s r
  unfolding serve
  serve-public token random s r e = elim (Bool-cases (is_empty token)) [
    | inl none_set ↦ rw (serve, none_set) refl
    | inr set ↦ rw (serve, set, e) refl
  ]

  -- Whatever the token, and whatever a request presents, a POST to /pin-bypass sets the switch to
  -- what its body says.
  pub serve-pin_bypass :
      (token random : Str) (s : Server F) (r : AdminRequest)
      → r.path ≡ codes "/pin-bypass"
      → r.method ≡ codes "POST"
      → (serve env token random s r).0.pin_bypass ≡ env.decoder.enabled r.body
  serve-pin_bypass token random s r path method =
      let open_path : is_public r.path ≡ true = unfold is_public ◌==◌ in rw (path) refl in
      ap (λ (a : Answer env). a.0.pin_bypass)
        (serve-public token random s r open_path ∙ mux-pin_bypass token random s r path)
      ∙ handle_pin_bypass-post s r method

  mux-meta :
      (token random : Str) (s : Server F) (r : AdminRequest)
      → r.path ≡ codes "/meta"
      → mux env token random s r ≡ handle_meta env token s
  unfolding mux ◌==◌
  mux-meta token random s r path = rw (mux, path) refl

  mux-page :
      (token random : Str) (s : Server F) (r : AdminRequest)
      → (r.path ≡ codes "/") ⊎ (r.path ≡ codes "/index.html")
      → mux env token random s r ≡ handle_page env s r
  unfolding mux ◌==◌
  mux-page token random s r (inl path) = rw (mux, path) refl
  mux-page token random s r (inr path) = rw (mux, path) refl

  page-Frame : (s : Server F) (r : AdminRequest) → Frame s (handle_page env s r).0
  unfolding handle_page
  page-Frame s r =
      let Q : Answer env → Type 0 = λ a. Frame s a.0 in
      if_case Q (r.path == codes "/" || r.path == codes "/index.html") _ _ (λ _. (refl, refl))
        (λ _. (refl, refl))

  public-Frame :
      (token random : Str) (s : Server F) (r : AdminRequest)
      → is_public r.path ≡ true
      → Frame s (mux env token random s r).0
  unfolding handle_meta
  public-Frame token random s r public = elim (public-cases r.path public) [
    | inl meta ↦ rw (mux-meta token random s r meta) (refl, refl)
    | inr (inl pin) ↦ rw (mux-pin_bypass token random s r pin) (pin-Frame env s r)
    | inr (inr page) ↦ rw (mux-page token random s r page) (page-Frame s r)
  ]

  -- With a token, a request that does not present it leaves the registry and the rules alone.
  pub serve-Frame :
      (token random : Str) (s : Server F) (r : AdminRequest)
      → is_empty token ≡ false
      → credential r ≢ token
      → Frame s (serve env token random s r).0
  serve-Frame token random s r set ne = elim (Bool-cases (is_public r.path)) [
    | inl public ↦ rw (serve-public token random s r public) (public-Frame token random s r public)
    | inr guarded ↦ rw (serve-refused token random s r set guarded ne) (refl, refl)
  ]
