-- ===== src/Admin/Cases.antt =====
-- What holds after every handler holds after the whole interface.
use skytap.Common.{◌≡◌, true, not, ◌||◌, if_case, is_empty}
use skytap.Text.{Str, codes, ◌==◌, trim_prefix}
use skytap.Server.{Server}
use skytap.Handlers.{
  AdminRequest, Setup, Answer, query, handle_domains, handle_history, handle_flows, handle_state,
  handle_rules, handle_mcp,
}
use skytap.Panel.{
  handle_pin_bypass, handle_ca_status, handle_ca_trust, handle_sslkit, handle_capture, handle_meta,
  handle_upgrade, handle_page,
}
use skytap.Admin.{token_ok, is_public, mux, serve}

module _ {F : Type 0} (env : Setup F) where
  module _ (P : Server F → Type 0) (token random : Str) (s : Server F) (r : AdminRequest)
      (same : P s) where
    -- What holds of every handler's outcome holds of the mux's, and then of what stands in front of it.
    pub mux-all :
        P (handle_domains env s r).0
        → P (handle_history env s r).0
        → P (handle_state env s r).0
        → P (handle_rules env random s r).0
        → ((r.path == codes "/mcp") ≡ true → P (handle_mcp env random s r.body).0)
        → P (handle_ca_trust env s r).0
        → P (handle_sslkit env s r).0
        → P (handle_capture env s r).0
        → ((r.path == codes "/pin-bypass") ≡ true → P (handle_pin_bypass env s r).0)
        → P (mux env token random s r).0
    unfolding mux handle_flows handle_ca_status handle_meta handle_upgrade handle_page
    mux-all domains history state rules mcp trust sslkit captured pin =
        let Q : Answer env → Type 0 = λ a. P a.0 in
        let at = λ (p : Str). r.path == p in
        if_case Q (at (codes "/domains")) _ _ (λ _. domains)
          (λ _.
            if_case Q (at (codes "/history")) _ _ (λ _. history)
              (λ _.
                if_case Q (at (codes "/flows")) _ _ (λ _. same)
                  (λ _.
                    if_case Q (at (codes "/state")) _ _ (λ _. state)
                      (λ _.
                        if_case Q (at (codes "/rules")) _ _ (λ _. rules)
                          (λ _. if_case Q (at (codes "/mcp")) _ _ mcp (λ _.
                            if_case Q (at (codes "/ca.pem")) _ _ (λ _. same)
                              (λ _.
                                if_case Q (at (codes "/ca/status")) _ _ (λ _. same)
                                  (λ _.
                                    if_case Q (at (codes "/ca/trust")) _ _ (λ _. trust)
                                      (λ _.
                                        if_case Q (at (codes "/sslkit")) _ _ (λ _. sslkit)
                                          (λ _.
                                            if_case Q (at (codes "/sslkit/capture")) _ _
                                              (λ _. captured)
                                              (λ _.
                                                if_case Q (at (codes "/pin-bypass")) _ _ pin (λ _.
                                                  if_case Q (at (codes "/meta")) _ _ (λ _. same)
                                                    (λ _.
                                                      if_case Q (at (codes "/ws")) _ _ (λ _. same)
                                                        (λ _.
                                                          if_case Q
                                                            (at (codes "/")
                                                            || at (codes "/index.html"))
                                                            _ _ (λ _. same)
                                                            (λ _. same)))))))))))))))

    pub serve-all : P (mux env token random s r).0 → P (serve env token random s r).0
    unfolding serve
    serve-all h =
        let Q : Answer env → Type 0 = λ a. P a.0 in
        if_case Q (is_empty token) _ _ (λ _. h)
          (λ _.
            if_case Q (is_public r.path) _ _ (λ _. h)
              (λ _.
                if_case Q (r.path == codes "/ws") _ _
                  (λ _.
                    if_case Q (token_ok (query r (codes "token")) token) _ _ (λ _. h) (λ _. same))
                  (λ _.
                    if_case Q (not (token_ok (trim_prefix r.authorization (codes "Bearer ")) token))
                      _ _ (λ _. same) (λ _. h))))
