-- ===== src/Registry/Listing.antt =====
-- What `Domains` lists, for a registry that any sequence of calls has produced.
use mathlib.Core.List.{Memᴰ}
use skytap.Common.{ℕ, ◌≡◌, refl, ap, List, [], ◌∷◌, none, some, arith, map, or_zero, ◌↔◌}
use skytap.Text.{Str}
use skytap.GoMap.{GoMap, IsMap, get}
use skytap.GoMap.Laws.{get_of_entry, entry_of_get}
use skytap.Registry.{DomainState, DomainInfo, new_registry, domains}
use skytap.Registry.Spec.{Event, run}
use skytap.Registry.Invariant.{run-IsWellFormed}

abbrev info : GoMap ℕ → Str × DomainState → DomainInfo
info hits e = record { host = e.0; state = e.1; hits = or_zero 0 (get hits e.0) }

mem-info :
    (hits : GoMap ℕ) (m : GoMap DomainState) (d : DomainInfo)
    → Memᴰ d (map (info hits) m)
    → Memᴰ (d.host, d.state) m × (d.hits ≡ or_zero 0 (get hits d.host))
mem-info hits [] d i = elim i [ ]
mem-info hits ((h, s) ∷ m) d (Memᴰ.head e) =
    (Memᴰ.head (cc), cc (ap (λ (x : DomainInfo). x.host) e, ap (λ (x : DomainInfo). x.hits) e))
mem-info hits ((h, s) ∷ m) d (Memᴰ.tail i) =
    let (found, same) = mem-info hits m d i in (Memᴰ.tail found, same)

info-mem :
    (hits : GoMap ℕ) (m : GoMap DomainState) (d : DomainInfo)
    → Memᴰ (d.host, d.state) m
    → d.hits ≡ or_zero 0 (get hits d.host)
    → Memᴰ d (map (info hits) m)
info-mem hits [] d i same = elim i [ ]
info-mem hits ((h, s) ∷ m) d (Memᴰ.head e) same =
    Memᴰ.head
      (ground (arith, ap (λ (p : Str × DomainState). p.0) e, ap (λ (p : Str × DomainState). p.1) e))
info-mem hits ((h, s) ∷ m) d (Memᴰ.tail i) same = Memᴰ.tail (info-mem hits m d i same)

-- The listing, keyed by host.
abbrev pub by_host : List DomainInfo → GoMap DomainInfo
by_host = map (λ d. (d.host, d))

get-by_host-none :
    (hits : GoMap ℕ) (m : GoMap DomainState) (k : Str)
    → get m k ≡ none
    → get (by_host (map (info hits) m)) k ≡ none
unfolding get
get-by_host-none hits [] k e = refl
get-by_host-none hits ((h, s) ∷ m) k e = ground (arith, get-by_host-none hits m k)

by_host-IsMap :
    (hits : GoMap ℕ) (m : GoMap DomainState) → IsMap m → IsMap (by_host (map (info hits) m))
by_host-IsMap hits [] d = tt
by_host-IsMap hits ((h, s) ∷ m) (new, d) = (get-by_host-none hits m h new, by_host-IsMap hits m d)

module _ {F : Type 0} (host_of : F → Str) where
  -- After any sequence of calls, `Domains` lists exactly the hosts that have a state, each once,
  -- with that state and with its hit counter (0 where it has none).
  pub mem-domains :
      (es : List (Event F))
      → IsMap (by_host (domains (run host_of new_registry es)))
        × ((d : DomainInfo)
            → Memᴰ d (domains (run host_of new_registry es)) ↔ (
                (get (run host_of new_registry es).states d.host ≡ some d.state)
                × (d.hits ≡ or_zero 0 (get (run host_of new_registry es).hits d.host))))
  unfolding domains
  mem-domains es =
      let r = run host_of new_registry es in
      let w = run-IsWellFormed host_of es in
      (
        by_host-IsMap r.hits r.states w.states,
        λ d. (
          λ i.
              let (found, same) = mem-info r.hits r.states d i in
              (get_of_entry r.states d.host d.state w.states found, same),
          λ (e, same). info-mem r.hits r.states d (entry_of_get r.states d.host d.state e) same,
        ),
      )
