-- ===== src/Client/Probe/Verdicts.antt =====
-- What a network probe establishes.
use portkeeper.Common.{
  String, Bool, true, false, ◌≡◌, ◌≢◌, ◌↔◌, refl, Option, none, some, List, [], ◌∷◌, if◌then◌else◌,
  string_equal, All, Option-cases, inl, inr,
}
use portkeeper.Client.{Url, validate_target, check_url}
use portkeeper.Client.Probe.{
  Dial, connected, dial_failed, Probed, passed, port_of, after_dial, dial_all, probe_addresses,
  probe_url, probe_network,
}

-- What every dial must come to: a connection, or a timeout of the dial while the context lasts.
abbrev pub expected : (blocked : Bool) → Dial
expected blocked = if blocked then dial_failed true false else connected

after_dial_iff :
    (blocked : Bool) (d : Dial) (rest : Probed)
    → (after_dial blocked d rest ≡ passed) ↔ ((d ≡ expected blocked) × (rest ≡ passed))
unfolding after_dial
after_dial_iff true connected rest = ((λ h. cc), λ h. cc (h.0))
after_dial_iff true (dial_failed true true) rest = ((λ h. cc), λ h. cc (h.0))
after_dial_iff true (dial_failed true false) rest = ((λ h. (refl, h)), λ h. h.1)
after_dial_iff true (dial_failed false true) rest = ((λ h. cc), λ h. cc (h.0))
after_dial_iff true (dial_failed false false) rest = ((λ h. cc), λ h. cc (h.0))
after_dial_iff false connected rest = ((λ h. (refl, h)), λ h. h.1)
after_dial_iff false (dial_failed timeout over) rest = ((λ h. cc), λ h. cc (h.0))

dial_all_iff :
    (blocked writes : Bool) (dial : String → Dial) (addresses : List String)
    → (dial_all blocked writes dial addresses ≡ passed)
      ↔ ((writes ≡ true) × All (λ a. dial a ≡ expected blocked) addresses)
unfolding dial_all
dial_all_iff blocked true dial [] = ((λ h. (refl, tt)), λ h. refl)
dial_all_iff blocked false dial [] = ((λ h. cc), λ h. cc (h.0))
dial_all_iff blocked writes dial (a ∷ rest) =
    let this = after_dial_iff blocked (dial a) (dial_all blocked writes dial rest) in
    let others = dial_all_iff blocked writes dial rest in
    (
      (λ h. let (one, more) = this.0 h in ((others.0 more).0, (one, (others.0 more).1))),
      λ h. this.1 (h.1.0, others.1 (h.0, h.1.1)),
    )

-- The target is valid, its host resolves to at least one address, and the result can be written.
pub record IsReachable (parse_url : String → Option Url) (lookup_ip : String → Option (List String))
    (writes : Bool) (endpoint : String) (u : Url) (addresses : List String) : Type 0 where
  pub valid : validate_target parse_url endpoint ≡ none
  pub parsed : parse_url endpoint ≡ some u
  pub resolved : lookup_ip u.hostname ≡ some addresses
  pub nonempty : addresses ≢ []
  pub written : writes ≡ true

module _ (dial : (address port : String) → Dial) (blocked writes : Bool) where
  addresses_iff :
      (u : Url) (o : Option (List String))
      → (probe_addresses blocked writes (λ a. dial a (port_of u)) o ≡ passed) ↔ (
          (addresses : List String) × (o ≡ some addresses)
          × (addresses ≢ [])
          × (writes ≡ true)
          × All (λ a. dial a (port_of u) ≡ expected blocked) addresses)
  unfolding probe_addresses
  addresses_iff u none = ((λ h. cc), λ h. cc (h.1))
  addresses_iff u (some []) = ((λ h. cc), λ h. absurd (h.2 (cc (h.1))))
  addresses_iff u (some (a ∷ rest)) =
      let all = dial_all_iff blocked writes (λ b. dial b (port_of u)) (a ∷ rest) in
      (
        (λ h. (a ∷ rest, refl, (λ e. cc), (all.0 h).0, (all.0 h).1)),
        λ h. let same : h.0 ≡ a ∷ rest = cc (h.1) in all.1 (h.3, rw same at (h.4)),
      )

  url_iff :
      (lookup_ip : String → Option (List String)) (o : Option Url)
      → (probe_url lookup_ip dial blocked writes o (check_url o) ≡ passed) ↔ (
          (u : Url) × (addresses : List String) × (check_url o ≡ none)
          × (o ≡ some u)
          × (lookup_ip u.hostname ≡ some addresses)
          × (addresses ≢ [])
          × (writes ≡ true)
          × All (λ a. dial a (port_of u) ≡ expected blocked) addresses)
  unfolding probe_url check_url
  url_iff lookup_ip none = ((λ h. cc), λ h. cc (h.3))
  url_iff lookup_ip (some u) = elim (Option-cases (check_url (some u))) [
    | inr (e, bad) ↦ rw (bad, probe_url) ((λ h. cc), λ h. cc (h.2))
    | inl good ↦
        let found = addresses_iff u (lookup_ip u.hostname) in
        rw (good, probe_url)
          (
            (λ h.
                let (addresses, looked_up, nonempty, written, all) = found.0 h in
                (u, addresses, refl, refl, looked_up, nonempty, written, all)),
            λ h.
                let same : h.0 ≡ u = cc (h.3) in
                found.1 (h.1, rw same at (h.4), h.5, h.6, rw same at (h.7)),
          )
  ]

-- A probe passes exactly if the target is valid and resolves to addresses, and every one of them answers
-- as expected: with a connection; or, if it is to be blocked, with a timeout of the dial itself while the
-- context lasts. A refusal, a failed lookup or a cancelled probe never passes for isolation.
pub probe_network_iff :
    (parse_url : String → Option Url) (lookup_ip : String → Option (List String))
    (dial : (address port : String) → Dial) (blocked writes : Bool) (endpoint : String)
    → (probe_network parse_url lookup_ip dial blocked writes endpoint ≡ passed) ↔ (
        (u : Url) × (addresses : List String) × IsReachable parse_url lookup_ip writes endpoint u
          addresses
        × All (λ a. dial a (port_of u) ≡ expected blocked) addresses)
unfolding probe_network validate_target
probe_network_iff parse_url lookup_ip dial blocked writes endpoint =
    let iff = url_iff dial blocked writes lookup_ip (parse_url endpoint) in
    (
      (λ h.
          let (u, addresses, valid, parsed, resolved, nonempty, written, all) = iff.0 h in
          (
            u,
            addresses,
            record {
              valid = valid;
              parsed = parsed;
              resolved = resolved;
              nonempty = nonempty;
              written = written;
            },
            all,
          )),
      λ h. iff.1 (h.0, h.1, h.2.valid, h.2.parsed, h.2.resolved, h.2.nonempty, h.2.written, h.3),
    )
