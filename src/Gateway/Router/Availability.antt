-- ===== src/Gateway/Router/Availability.antt =====
-- The gateway keeps serving: the loop of polls behind the router.
use portkeeper.Common.{
  ℕ, ◌+◌, ◌≤◌, String, true, false, not, ◌&&◌, ◌==◌, nat_equal, ◌≡◌, ◌≢◌, sym, refl, ap, ◌∙◌,
  Option, some, List, ◌∷◌, arith,
}
use portkeeper.Api.{Condition}
use portkeeper.Common.Dict.{Values-lookup}
use portkeeper.Gateway.Paths.{Target, parse_path}
use portkeeper.Gateway.Accounts.{identified}
use portkeeper.Gateway.Limiter.{allow_at}
use portkeeper.Gateway.Registry.{
  name_equal, Backend, Registry, found, new_registry, policy_max_age, resolve, allows,
}
use portkeeper.Gateway.Registry.Resolve.{resolve-found}
use portkeeper.Gateway.Registry.Refresh.{poll_all, polls-IsSnapshot}
use portkeeper.Gateway.Registry.Polling.{poll_interval, ListCall, next_poll, start}
use portkeeper.Gateway.Registry.Polling.Freshness.{answers, IsSteady, IsRunning, start-fresh}
use portkeeper.Gateway.Router.{Env, Router, Request, proxied, rewrite, verdict, serve_http}
use portkeeper.Gateway.Router.Admission.{serve_http-proxied_iff}

-- What a request needs to be sent upstream, apart from the age of the policy.
pub record IsEligible (env : Env) (rt : Router) (req : Request) : Type 0 where
  pub agent : String
  pub target : Target
  pub backend : Backend
  pub verified : verdict env.auth req.headers ≡ identified agent
  pub named : agent ≢ ""
  pub parsed : parse_path req.path ≡ some target
  pub resolves : resolve rt.registry target.namespace target.server ≡ found backend
  pub within_rate : (allow_at rt.limiter agent env.limited_at).1 ≡ true
  pub allowed : allows backend agent ≡ true
  pub ready : backend.ready ≡ true
  pub duplex : (req.proto_major == 1 && req.has_body && not env.full_duplex) ≡ false

-- The polls that `Start` makes succeed often enough: the first one, which has ended by `now`, and then
-- at least one of any two; each takes at most what the delay leaves of the interval of 5 seconds, and
-- they go on.
pub record IsPolling (delay now : ℕ) (first : ListCall) (calls : List ListCall) : Type 0 where
  pub quick : first.took + delay ≤ poll_interval
  pub answered : answers first.items ≡ true
  pub ended : first.took ≤ now
  pub steady : IsSteady delay true calls
  pub running : IsRunning now (next_poll 0 first.took) calls

-- Polls go on, the first has succeeded and ended when the request reads the registry, and no two in a row
-- fail; each takes 5 seconds at most, less the delay until the request checks the age of the policy. Then
-- every request that is verified, within the rate, allowed at a backend that is ready and, if it is an
-- HTTP/1 request with a body, gets full duplex, is sent upstream, at whatever instant it reads the registry.
pub polling-proxied :
    (find : List Condition → String → Option Condition) (host : String) (delay resolved_at : ℕ)
    (first : ListCall) (calls : List ListCall) (env : Env) (rt : Router) (req : Request)
    → IsPolling delay resolved_at first calls
    → rt.registry ≡ poll_all find host (start resolved_at (first ∷ calls)) new_registry
    → env.checked_at ≤ resolved_at + delay
    → (e : IsEligible env rt req)
    → (serve_http env rt req).1
      ≡ proxied (rewrite req e.backend e.target.tool e.agent (env.prepare req.headers))
polling-proxied find host delay resolved_at first calls env rt req p same prompt e =
    let polls = start resolved_at (first ∷ calls) in
    let fresh =
      start-fresh find host delay resolved_at first calls p.quick p.answered p.steady p.ended
        p.running in
    let (k, present) =
      resolve-found (poll_all find host polls new_registry) e.target.namespace e.target.server
        e.backend (polls-IsSnapshot find host polls).distinct
        (ap (λ (r : Registry). resolve r e.target.namespace e.target.server) (sym same)
          ∙ e.resolves) in
    (serve_http-proxied_iff env rt req
        (rewrite req e.backend e.target.tool e.agent (env.prepare req.headers))).1
      (record {
        agent = e.agent;
        target = e.target;
        backend = e.backend;
        verified = e.verified;
        named = e.named;
        parsed = e.parsed;
        resolves = e.resolves;
        within_rate = e.within_rate;
        is_open = record {
          fresh = omega (
            arith,
            prompt,
            Values-lookup (λ b. resolved_at + delay ≤ b.policy_observed_at + policy_max_age) k
                e.backend (poll_all find host polls new_registry).backends fresh.1 present,
          );
          allowed = e.allowed;
          ready = e.ready;
          duplex = e.duplex;
        };
        sent = refl;
      })
