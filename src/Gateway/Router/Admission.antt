-- ===== src/Gateway/Router/Admission.antt =====
-- What a request must pass before it is sent to a backend.
use text.Mathlib.TextEquality.{eq_iff}
use portkeeper.Common.{
  ℕ, ◌+◌, ◌≤◌, String, true, false, not, ◌&&◌, ◌≡◌, ◌≢◌, ◌↔◌, refl, some, arith, ◌==◌,
  if◌then◌else◌, Bool-cases, Option-cases, inl, inr, string_equal, nat_equal,
}
use portkeeper.Gateway.Headers.{Headers}
use portkeeper.Gateway.Paths.{Target, parse_path}
use portkeeper.Gateway.Accounts.{unauthenticated, unavailable, AuthResult, identified, rejected}
use portkeeper.Gateway.Registry.{Backend, Resolution, found, resolve, allows, policy_max_age}
use portkeeper.Gateway.Limiter.{allow_at}
use portkeeper.Gateway.Router.{
  Env, Router, Request, Outbound, answered, proxied, rewrite, admit_to, resolved, routed,
  known_agent, by_verdict, verdict, handle, entered, serve_http,
}

-- The backend may be used by the agent now.
pub record IsOpen (env : Env) (req : Request) (agent : String) (b : Backend) : Type 0 where
  pub fresh : env.checked_at ≤ b.policy_observed_at + policy_max_age
  pub allowed : allows b agent ≡ true
  pub ready : b.ready ≡ true
  pub duplex : (req.proto_major == 1 && req.has_body && not env.full_duplex) ≡ false

admit_to_iff :
    (env : Env) (req : Request) (agent tool : String) (b : Backend) (out : Outbound)
    → (admit_to env req agent tool b ≡ proxied out)
      ↔ (IsOpen env req agent b × (out ≡ rewrite req b tool agent (env.prepare req.headers)))
unfolding admit_to
admit_to_iff env req agent tool b out = (
  λ h. (
    record {
      fresh = ground arith;
      allowed = ground arith;
      ready = ground arith;
      duplex = ground arith;
    },
    ground arith,
  ),
  λ v. ground (arith, v.0),
)

-- All that a request has passed when it is sent upstream, and what is sent.
pub record IsAdmitted (env : Env) (rt : Router) (req : Request) (out : Outbound) : Type 0 where
  pub agent : String
  pub target : Target
  pub backend : Backend
  pub verified : verdict env.auth req.headers ≡ identified agent
  pub named : agent ≢ ""
  pub parsed : parse_path req.path ≡ some target
  pub resolves : resolve rt.registry target.namespace target.server ≡ found backend
  pub within_rate : (allow_at rt.limiter agent env.limited_at).1 ≡ true
  pub is_open : IsOpen env req agent backend
  pub sent : out ≡ rewrite req backend target.tool agent (env.prepare req.headers)

resolved-proxied :
    (env : Env) (req : Request) (agent tool : String) (r : Resolution) (out : Outbound)
    → resolved env req agent tool r ≡ proxied out
    → (b : Backend) × (r ≡ found b) × (admit_to env req agent tool b ≡ proxied out)
unfolding resolved
resolved-proxied env req agent tool (found b) out h = (b, refl, h)
resolved-proxied env req agent tool _ out h = cc

not_proxied : {s : ℕ} {h : Headers} {m : String} {out : Outbound} → answered s h m ≡ proxied out → ⊥
not_proxied e = cc

routed-proxied :
    (env : Env) (rt : Router) (req : Request) (agent : String) (t : Target) (out : Outbound)
    → (routed env rt req agent t).outcome ≡ proxied out
    → ((allow_at rt.limiter agent env.limited_at).1 ≡ true)
      × (resolved env req agent t.tool (resolve rt.registry t.namespace t.server) ≡ proxied out)
unfolding routed
routed-proxied env rt req agent t out h =
    elim (Bool-cases (allow_at rt.limiter agent env.limited_at).1) [
      | inl within ↦ (within, rw (within, if◌then◌else◌) at h)
      | inr refused ↦ absurd (not_proxied (rw (refused, if◌then◌else◌) at h))
    ]

by_verdict-proxied :
    (env : Env) (rt : Router) (req : Request) (v : AuthResult) (out : Outbound)
    → (by_verdict env rt req v).outcome ≡ proxied out
    → (agent : String) × (t : Target) × (v ≡ identified agent)
      × (agent ≢ "")
      × (parse_path req.path ≡ some t)
      × ((routed env rt req agent t).outcome ≡ proxied out)
unfolding by_verdict
by_verdict-proxied env rt req (rejected unauthenticated) out h = cc
by_verdict-proxied env rt req (rejected unavailable) out h = cc
by_verdict-proxied env rt req (identified agent) out h = elim (Bool-cases (agent == "")) [
  | inl blank ↦ absurd (not_proxied (rw (blank, if◌then◌else◌) at h))
  | inr named ↦ elim (Option-cases (parse_path req.path)) [
    | inl bad ↦ absurd (not_proxied (rw (named, if◌then◌else◌, bad, known_agent) at h))
    | inr (t, parsed) ↦ (
      agent,
      t,
      refl,
      ground (arith, eq_iff agent ""),
      parsed,
      rw (named, if◌then◌else◌, parsed, known_agent) at h,
    )
  ]
]

served-IsAdmitted :
    (env : Env) (rt : Router) (req : Request) (out : Outbound)
    → (serve_http env rt req).1 ≡ proxied out
    → IsAdmitted env rt req out
unfolding serve_http handle
served-IsAdmitted env rt req out h =
    let (agent, t, verified, named, parsed, gone) =
      by_verdict-proxied env (entered rt) req (verdict env.auth req.headers) out h in
    let (within, answer) = routed-proxied env (entered rt) req agent t out gone in
    let (b, resolves, admitted) =
      resolved-proxied env req agent t.tool (resolve rt.registry t.namespace t.server) out answer in
    let (is_open, sent) = (admit_to_iff env req agent t.tool b out).0 admitted in
    record {
      agent = agent;
      target = t;
      backend = b;
      verified = verified;
      named = named;
      parsed = parsed;
      resolves = resolves;
      within_rate = within;
      is_open = is_open;
      sent = sent;
    }

admitted-served :
    (env : Env) (rt : Router) (req : Request) (out : Outbound)
    → IsAdmitted env rt req out
    → (serve_http env rt req).1 ≡ proxied out
unfolding serve_http handle by_verdict routed resolved
admitted-served env rt req out a =
    let named : (a.agent == "") ≡ false = ground (arith, a.named, eq_iff a.agent "") in
    rw (a.verified, by_verdict)
      (rw (named, if◌then◌else◌, a.parsed, known_agent)
        (rw (a.within_rate, if◌then◌else◌, a.resolves, resolved)
          ((admit_to_iff env req a.agent a.target.tool a.backend out).1 (a.is_open, a.sent))))

-- A request is sent upstream exactly if a nonempty agent was verified, the path names a target that
-- resolves, the limiter allows the agent, the policy is fresh and admits it, the backend is ready and a
-- body can be streamed; and what is sent is the rewritten request to that backend.
pub serve_http-proxied_iff :
    (env : Env) (rt : Router) (req : Request) (out : Outbound)
    → ((serve_http env rt req).1 ≡ proxied out) ↔ IsAdmitted env rt req out
serve_http-proxied_iff env rt req out =
    (served-IsAdmitted env rt req out, admitted-served env rt req out)
