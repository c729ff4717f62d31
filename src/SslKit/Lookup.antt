-- ===== src/SslKit/Lookup.antt =====
-- What is found after a policy has been put.
use skytap.Common.{
  ◌≡◌, refl, sym, ap, ◌∙◌, Option, none, some, inl, inr, Bool-cases, is_empty, or_zero, ◌++◌,
}
use skytap.Text.{Str, codes, Unicode}
use skytap.GoMap.{get}
use skytap.GoMap.Laws.{get-put_self}
use skytap.Disk.{Disk, join, read_file}
use skytap.SslKit.{
  HostSslPolicy, SslKitStore, Toolkit, zero_policy, host_key, with_defaults, keep_capture, refresh,
  refresh_from, refresh_with, store_policy, get_policy, put_policy, impersonate_enabled,
}

module _ (u : Unicode) (kit : Toolkit) where
  -- The file of a host's captured chain.
  abbrev pub chain_file : Str → Str
  chain_file host = join kit.dump_dir (host ++ codes ".pem")

  refresh_with-same :
      (s : SslKitStore) (p : HostSslPolicy) (c : Option (Str × Str × Str))
      → ((refresh_with u kit s p c).1.host ≡ p.host)
        × ((refresh_with u kit s p c).1.impersonate ≡ p.impersonate)
  refresh_with-same s p none = (refl, refl)
  refresh_with-same s p (some (key, subject, issuer)) = (refl, refl)

  refresh_from-same :
      (s : SslKitStore) (p : HostSslPolicy) (b : Option Str)
      → ((refresh_from u kit s p b).1.host ≡ p.host)
        × ((refresh_from u kit s p b).1.impersonate ≡ p.impersonate)
  refresh_from-same s p none = (refl, refl)
  refresh_from-same s p (some b) = refresh_with-same s p (kit.certificate b)

  -- A refreshed policy is of the same host, and impersonates as before.
  refresh-same :
      (d : Disk) (s : SslKitStore) (p : HostSslPolicy)
      → ((refresh u kit d s p).1.host ≡ p.host)
        × ((refresh u kit d s p).1.impersonate ≡ p.impersonate)
  unfolding refresh
  refresh-same d s p = elim (Bool-cases (is_empty kit.dump_dir)) [
    | inl off ↦ rw (refresh, off) (refl, refl)
    | inr on ↦ rw (refresh, on) (refresh_from-same s p (read_file d (chain_file p.host)))
  ]

  refresh_with-again :
      (s s' : SslKitStore) (p : HostSslPolicy) (c : Option (Str × Str × Str))
      → (refresh_with u kit s' (refresh_with u kit s p c).1 c).1 ≡ (refresh_with u kit s p c).1
  refresh_with-again s s' p none = refl
  refresh_with-again s s' p (some (key, subject, issuer)) = refl

  refresh_from-again :
      (s s' : SslKitStore) (p : HostSslPolicy) (b : Option Str)
      → (refresh_from u kit s' (refresh_from u kit s p b).1 b).1 ≡ (refresh_from u kit s p b).1
  refresh_from-again s s' p none = refl
  refresh_from-again s s' p (some b) = refresh_with-again s s' p (kit.certificate b)

  -- Refreshing again from the same file changes nothing.
  refresh-again :
      (d d' : Disk) (s s' : SslKitStore) (p : HostSslPolicy)
      → read_file d' (chain_file p.host) ≡ read_file d (chain_file p.host)
      → (refresh u kit d' s' (refresh u kit d s p).1).1 ≡ (refresh u kit d s p).1
  unfolding refresh
  refresh-again d d' s s' p e = elim (Bool-cases (is_empty kit.dump_dir)) [
    | inl off ↦ rw (refresh, off) refl
    | inr on ↦
        let b = read_file d (chain_file p.host) in
        rw (refresh, on, (refresh_from-same s p b).0, e) (refresh_from-again s s' p b)
  ]

  keep_capture-same :
      (cur p : HostSslPolicy)
      → ((keep_capture cur p).host ≡ p.host) × ((keep_capture cur p).impersonate ≡ p.impersonate)
  unfolding keep_capture
  keep_capture-same cur p = elim (Bool-cases (is_empty p.spki)) [
    | inl no_key ↦ rw (keep_capture, no_key) (refl, refl)
    | inr key ↦ rw (keep_capture, key) (refl, refl)
  ]

  -- What Put hands on: the policy under its key, with the defaults and what had been captured.
  abbrev put_input : SslKitStore → HostSslPolicy → HostSslPolicy
  put_input s p =
      keep_capture (or_zero zero_policy (get s.hosts (host_key u p.host)))
        (with_defaults (record p { host = host_key u p.host }))

  put_input-same :
      (s : SslKitStore) (p : HostSslPolicy)
      → ((put_input s p).host ≡ host_key u p.host) × ((put_input s p).impersonate ≡ p.impersonate)
  unfolding with_defaults
  put_input-same s p = keep_capture-same _ (with_defaults (record p { host = host_key u p.host }))

  put_policy-found :
      (d : Disk) (s : SslKitStore) (p : HostSslPolicy)
      → get (put_policy u kit d s p).1.hosts (host_key u p.host) ≡ some (put_policy u kit d s p).2
  unfolding put_policy store_policy with_defaults
  put_policy-found d s p =
      ap (λ k. get (put_policy u kit d s p).1.hosts k) (sym (put_input-same s p).0)
      ∙ get-put_self (refresh u kit d s (put_input s p)).0.hosts (put_input s p).host _

  -- After a policy has been put, looking up its host, in any spelling with the same key, answers the
  -- policy that Put answered, as long as the file of the host's certificate is the same.
  pub get_policy-put_policy :
      (d : Disk) (s : SslKitStore) (p : HostSslPolicy) (host : Str)
      → host_key u host ≡ host_key u p.host
      → read_file (put_policy u kit d s p).0 (chain_file (host_key u p.host))
        ≡ read_file d (chain_file (host_key u p.host))
      → (get_policy u kit (put_policy u kit d s p).0 (put_policy u kit d s p).1 host).1
        ≡ (put_policy u kit d s p).2
  unfolding get_policy put_policy store_policy with_defaults
  get_policy-put_policy d s p host same file =
      rw (get_policy, same, put_policy-found d s p)
        (refresh-again d (put_policy u kit d s p).0 s (put_policy u kit d s p).1 (put_input s p) (
          ap (λ k. read_file (put_policy u kit d s p).0 (chain_file k)) (put_input-same s p).0
          ∙ file
          ∙ ap (λ k. read_file d (chain_file k)) (sym (put_input-same s p).0)))

  -- After a policy has been put, its host is impersonated, in any spelling with the same key, where
  -- the policy says so and only there.
  impersonate_enabled-put_policy :
      (d : Disk) (s : SslKitStore) (p : HostSslPolicy) (host : Str)
      → host_key u host ≡ host_key u p.host
      → impersonate_enabled u kit (put_policy u kit d s p).1 host ≡ p.impersonate
  unfolding impersonate_enabled
  impersonate_enabled-put_policy d s p host same =
      rw (impersonate_enabled, same, put_policy-found d s p)
        (unfold put_policy store_policy with_defaults in
          (refresh-same d s (put_input s p)).1 ∙ (put_input-same s p).1)
