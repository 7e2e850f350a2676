-- ===== src/Gateway/Router/Cardinality.antt =====
-- The labels of the metrics stay within fixed bounds.
use portkeeper.Common.{
  String, Bool, true, false, ◌≡◌, ◌⊎◌, inl, inr, refl, ◌∙◌, ◌==◌, arith, All-imp, Option, none,
  some, if◌then◌else◌, Bool-cases, string_equal,
}
use portkeeper.Gateway.Paths.{Target, parse_path}
use portkeeper.Gateway.Accounts.{unauthenticated, unavailable, AuthResult, identified, rejected}
use portkeeper.Gateway.Registry.{Resolution, found, not_found, ambiguous, resolve}
use portkeeper.Gateway.Limiter.{allow_at}
use portkeeper.Gateway.Metrics.{
  Metrics, server_key, admit, observed_server, observed_endpoint, record_rate_limit, record_request,
}
use portkeeper.Gateway.Metrics.Statuses.{status_label-status_labels}
use portkeeper.Gateway.Metrics.Labels.{admit_lem, admit-limit}
use portkeeper.Gateway.Router.{
  Env, Router, Request, Outcome, Handled, observe, routed, known_agent, by_verdict, verdict, handle,
  entered, serve_http, status_of, completes, stop,
}
use portkeeper.Gateway.Metrics.Cardinality.{
  IsServerLabel, IsBoundedEntry, IsBoundedTiming, IsBounded, IsBoundedEntry-admit,
  IsBoundedTiming-admit, record_rate_limit-IsBounded,
}

observe-IsBounded :
    (m : Metrics) (r : Resolution)
    → IsBounded m
    → IsBounded (observe m r).0
      × IsServerLabel (observe m r).0.server_labels (observe m r).1.0 (observe m r).1.1
unfolding observe observed_server
observe-IsBounded m not_found v = (v, inr (inr (refl, inr refl)))
observe-IsBounded m ambiguous v = (v, inr (inr (refl, inr refl)))
observe-IsBounded m (found b) v =
    let (same, bound) = admit-limit m.server_labels (server_key b) v.servers in
    (
      record {
        server_limit = same ∙ v.server_limit;
        agent_limit = v.agent_limit;
        servers = rw same bound;
        agents = v.agents;
        entries =
            All-imp (IsBoundedEntry m.server_labels)
              (IsBoundedEntry (admit m.server_labels (server_key b)).0)
              (IsBoundedEntry-admit m.server_labels (server_key b)) m.requests v.entries;
        timings =
            All-imp (IsBoundedTiming m.server_labels)
              (IsBoundedTiming (admit m.server_labels (server_key b)).0)
              (IsBoundedTiming-admit m.server_labels (server_key b)) m.durations v.timings;
        rates = v.rates;
      },
      elim (Bool-cases (admit m.server_labels (server_key b)).1) [
        | inl known ↦ rw known (inl ((admit_lem m.server_labels (server_key b)).0.0 known))
        | inr full ↦ rw full (inr (inl (refl, refl)))
      ],
    )

-- What a handled request hands to the counter.
record IsLabelled (h : Handled) : Type 0 where
  bounded : IsBounded h.metrics
  server : IsServerLabel h.metrics.server_labels h.namespace h.server
  endpoint : (h.endpoint ≡ "mcp") ⊎ (h.endpoint ≡ "other")

observed_endpoint_cases :
    (tool : String) → (observed_endpoint tool ≡ "mcp") ⊎ (observed_endpoint tool ≡ "other")
unfolding observed_endpoint
observed_endpoint_cases tool = ground arith

limited-IsBounded :
    (m : Metrics) (agent : String) (allowed : Bool)
    → IsBounded m
    → IsBounded (if allowed then m else record_rate_limit m agent)
limited-IsBounded m agent true v = v
limited-IsBounded m agent false v = record_rate_limit-IsBounded m agent v

limited-server_labels :
    (m : Metrics) (agent : String) (allowed : Bool)
    → (if allowed then m else record_rate_limit m agent).server_labels ≡ m.server_labels
unfolding record_rate_limit
limited-server_labels m agent true = refl
limited-server_labels m agent false = refl

routed-IsLabelled :
    (env : Env) (rt : Router) (req : Request) (agent : String) (t : Target)
    → IsBounded rt.metrics
    → IsLabelled (routed env rt req agent t)
unfolding routed
routed-IsLabelled env rt req agent t v =
    let r = resolve rt.registry t.namespace t.server in
    let ok = (allow_at rt.limiter agent env.limited_at).1 in
    let (bounded, server) = observe-IsBounded rt.metrics r v in
    record {
      bounded = limited-IsBounded (observe rt.metrics r).0 agent ok bounded;
      server = rw (limited-server_labels (observe rt.metrics r).0 agent ok) server;
      endpoint = observed_endpoint_cases t.tool;
    }

stop-IsLabelled :
    (rt : Router) (server endpoint : String) (o : Outcome)
    → IsBounded rt.metrics
    → (server ≡ "_unauthenticated") ⊎ (server ≡ "_unresolved")
    → (endpoint ≡ "mcp") ⊎ (endpoint ≡ "other")
    → IsLabelled (stop rt server endpoint o)
stop-IsLabelled rt server endpoint o v fixed e = record {
  bounded = v;
  server = inr (inr (refl, fixed));
  endpoint = e;
}

known_agent-IsLabelled :
    (env : Env) (rt : Router) (req : Request) (agent : String) (o : Option Target)
    → IsBounded rt.metrics
    → IsLabelled (known_agent env rt req agent o)
unfolding known_agent
known_agent-IsLabelled env rt req agent none v =
    stop-IsLabelled rt "_unresolved" (observed_endpoint "") _ v (inr refl)
      (observed_endpoint_cases "")
known_agent-IsLabelled env rt req agent (some t) v = routed-IsLabelled env rt req agent t v

by_verdict-IsLabelled :
    (env : Env) (rt : Router) (req : Request) (a : AuthResult)
    → IsBounded rt.metrics
    → IsLabelled (by_verdict env rt req a)
unfolding by_verdict
by_verdict-IsLabelled env rt req (rejected unauthenticated) v =
    stop-IsLabelled rt "_unauthenticated" "other" _ v (inl refl) (inr refl)
by_verdict-IsLabelled env rt req (rejected unavailable) v =
    stop-IsLabelled rt "_unauthenticated" "other" _ v (inl refl) (inr refl)
by_verdict-IsLabelled env rt req (identified agent) v = elim (Bool-cases (agent == "")) [
  | inl blank ↦
      rw (blank, if◌then◌else◌)
        (stop-IsLabelled rt "_unauthenticated" "other" _ v (inl refl) (inr refl))
  | inr named ↦
      rw (named, if◌then◌else◌) (known_agent-IsLabelled env rt req agent (parse_path req.path) v)
]

result_cases :
    (completed : Bool)
    → let result : String = if completed then "complete" else "aborted" in
      (result ≡ "complete") ⊎ (result ≡ "aborted")
result_cases true = inl refl
result_cases false = inr refl

-- Every request keeps the labels of the metrics bounded, whatever it holds and however it ends: at
-- most 256 servers and 128 agents are admitted; each request that is counted names an admitted server or
-- a fixed one, one of two endpoints, one of the 21 statuses and one of two results; each duration names
-- such a server and endpoint; and each refusal for the rate an admitted agent or "_overflow".
pub serve_http-IsBounded :
    (env : Env) (rt : Router) (req : Request)
    → IsBounded rt.metrics
    → IsBounded (serve_http env rt req).0.metrics
unfolding serve_http handle record_request
serve_http-IsBounded env rt req v =
    let h : Handled = by_verdict env (entered rt) req (verdict env.auth req.headers) in
    let l : IsLabelled h =
      by_verdict-IsLabelled env (entered rt) req (verdict env.auth req.headers) (record {
        server_limit = v.server_limit;
        agent_limit = v.agent_limit;
        servers = v.servers;
        agents = v.agents;
        entries = v.entries;
        timings = v.timings;
        rates = v.rates;
      }) in
    record {
      server_limit = l.bounded.server_limit;
      agent_limit = l.bounded.agent_limit;
      servers = l.bounded.servers;
      agents = l.bounded.agents;
      entries = (
        record {
          server = l.server;
          endpoint = l.endpoint;
          status = status_label-status_labels (status_of env h.outcome);
          result = result_cases (completes env h.outcome);
        },
        l.bounded.entries,
      );
      timings = (record { server = l.server; endpoint = l.endpoint }, l.bounded.timings);
      rates = l.bounded.rates;
    }
