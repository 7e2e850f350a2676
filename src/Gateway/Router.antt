-- ===== src/Gateway/Router.antt =====
-- internal/gateway/router.go: `ServeHTTP`, from the request to the answer or the request that is sent
-- upstream. The reverse proxy of net/http/httputil and its transport are parameters, and so are the
-- readings of the clock.
pub mod Admission
pub mod Identity
pub mod Accounting
pub mod Cardinality
pub mod Guarantees
pub mod Availability
use portkeeper.Common.{
  ℕ, suc, ◌+◌, ◌-◌, String, Bool, true, false, ◌&&◌, not, Option, none, some, List, [], ◌∷◌, ◌==◌,
  if◌then◌else◌, ltb, leb, string_equal, nat_equal,
}
use portkeeper.Common.Text.{append}
use portkeeper.Gateway.Headers.{Headers, values, del, set}
use portkeeper.Gateway.Paths.{Target, parse_path}
use portkeeper.Gateway.Accounts.{
  AuthError, unauthenticated, unavailable, AuthResult, identified, rejected,
}
use portkeeper.Gateway.Registry.{
  Backend, Registry, Resolution, found, not_found, ambiguous, resolve, allows, policy_max_age,
}
use portkeeper.Gateway.Limiter.{AgentLimiter, allow_at}
use portkeeper.Gateway.Metrics.{
  Metrics, observed_server, observed_endpoint, record_rate_limit, record_request,
}

pub record Request : Type 0 where
  pub path : String
  pub host : String
  pub headers : Headers
  pub proto_major : ℕ
  pub has_body : Bool
  pub remote_ip : Option String
  pub tls : Bool

-- The request that the proxy sends.
pub record Outbound : Type 0 where
  pub scheme : String
  pub address : String
  pub path : String
  pub raw_path : String
  pub host : String
  pub headers : Headers

pub data Outcome : Type 0 where
  answered : (status : ℕ) (headers : Headers) (message : String) → Outcome
  proxied : Outbound → Outcome

-- The codes that the proxy hands to `WriteHeader`, and whether it returns or panics.
pub record Upstream : Type 0 where
  pub codes : List ℕ
  pub returns : Bool

-- What the handler is given: the readings of the clock in the order in which they are taken, whether
-- full duplex can be enabled, and the headers that the proxy passes to `Rewrite`.
pub record Env : Type 0 where
  pub auth : Option (List String → AuthResult)
  pub full_duplex : Bool
  pub prepare : Headers → Headers
  pub send : Outbound → Upstream
  pub start : ℕ
  pub limited_at : ℕ
  pub checked_at : ℕ
  pub finish : ℕ

-- The registry is the one that `Resolve` reads; a poll that ends later replaces the map, not the backend
-- that was found.
pub record Router : Type 0 where
  pub registry : Registry
  pub limiter : AgentLimiter
  pub metrics : Metrics

-- The variables of the handler when it comes to an outcome.
pub record Handled : Type 0 where
  pub limiter : AgentLimiter
  pub metrics : Metrics
  pub namespace : String
  pub server : String
  pub endpoint : String
  pub outcome : Outcome

comma_joined : List String → String → String
comma_joined [] last = last
comma_joined (x ∷ xs) last = append x (append ", " (comma_joined xs last))

forwarded_for : Headers → Option String → Headers
unfolding comma_joined
forwarded_for h none = del "X-Forwarded-For" h
forwarded_for h (some ip) = set "X-Forwarded-For" (comma_joined (values "X-Forwarded-For" h) ip) h

-- `r.SetXForwarded()`
unfoldable pub set_x_forwarded : Request → Headers → Headers
unfolding forwarded_for
set_x_forwarded req h =
    set "X-Forwarded-Proto" (if req.tls then "https" else "http")
      (set "X-Forwarded-Host" req.host (forwarded_for h req.remote_ip))

-- The function `Rewrite` of the proxy, and the path that it is given.
unfoldable pub rewrite : Request → Backend → (tool agent : String) → Headers → Outbound
rewrite req backend tool agent out = record {
  scheme = "http";
  address = backend.address;
  path = append "/" tool;
  raw_path = "";
  host = req.host;
  headers =
      set "X-Agent-Id" agent
        (del "Proxy-Authorization" (del "Authorization" (set_x_forwarded req out)));
}

-- The checks of a resolved backend, in order.
unfoldable pub admit_to : Env → Request → (agent tool : String) → Backend → Outcome
admit_to env req agent tool b =
    if ltb (b.policy_observed_at + policy_max_age) env.checked_at
    then answered 503 (("Retry-After", "5") ∷ []) "authorization policy is stale"
    else if not (allows b agent)
    then answered 403 [] "agent is not authorized for this MCP server"
    else if not b.ready
    then answered 503 (("Retry-After", "5") ∷ []) "MCP server is not ready"
    else if req.proto_major == 1 && req.has_body && not env.full_duplex
    then answered 500 [] "streaming request transport unavailable"
    else proxied (rewrite req b tool agent (env.prepare req.headers))

unfoldable pub resolved : Env → Request → (agent tool : String) → Resolution → Outcome
resolved env req agent tool not_found = answered 404 [] "unknown MCP server"
resolved env req agent tool ambiguous =
    answered 409 []
      "server name exists in multiple namespaces; use /<namespace>/<server>/<endpoint>"
resolved env req agent tool (found b) = admit_to env req agent tool b

-- The labels of a backend that was found.
observe : Metrics → Resolution → Metrics × (String × String)
observe m (found b) = observed_server m b
observe m not_found = (m, ("", "_unresolved"))
observe m ambiguous = (m, ("", "_unresolved"))

unfoldable pub routed : Env → Router → Request → (agent : String) → Target → Handled
unfolding observe
routed env rt req agent t =
    let resolution = resolve rt.registry t.namespace t.server in
    let (metrics, labels) = observe rt.metrics resolution in
    let (limiter, allowed) = allow_at rt.limiter agent env.limited_at in
    record {
      limiter = limiter;
      metrics = if allowed then metrics else record_rate_limit metrics agent;
      namespace = labels.0;
      server = labels.1;
      endpoint = observed_endpoint t.tool;
      outcome =
          if allowed
          then resolved env req agent t.tool resolution
          else answered 429 (("Retry-After", "1") ∷ [])
              "agent rate limit or limiter capacity exceeded";
    }

-- A request that goes no further leaves the limiter and the labels alone.
abbrev pub stop : Router → (server endpoint : String) → Outcome → Handled
stop rt server endpoint outcome = record {
  limiter = rt.limiter;
  metrics = rt.metrics;
  namespace = "";
  server = server;
  endpoint = endpoint;
  outcome = outcome;
}

known_agent : Env → Router → Request → (agent : String) → Option Target → Handled
known_agent env rt req agent none =
    stop rt "_unresolved" (observed_endpoint "")
      (answered 400 [] "expected /<namespace>/<server>/<endpoint> or /<server>/<endpoint>")
known_agent env rt req agent (some t) = routed env rt req agent t

abbrev pub auth_unavailable : Outcome
auth_unavailable = answered 503 (("Retry-After", "5") ∷ []) "authentication service unavailable"

unfoldable pub by_verdict : Env → Router → Request → AuthResult → Handled
unfolding known_agent
by_verdict env rt req (rejected unauthenticated) = stop rt "_unauthenticated" "other" (
    answered 401 (("Www-Authenticate", "Bearer realm=\"portkeeper\"") ∷ [])
      "a valid gateway-audience ServiceAccount bearer token is required")
by_verdict env rt req (rejected unavailable) = stop rt "_unauthenticated" "other" auth_unavailable
by_verdict env rt req (identified agent) =
    if agent == ""
    then stop rt "_unauthenticated" "other" auth_unavailable
    else known_agent env rt req agent (parse_path req.path)

-- A router without an authenticator takes every request for one that it cannot verify.
unfoldable pub verdict : Option (List String → AuthResult) → Headers → AuthResult
verdict none headers = rejected unavailable
verdict (some auth) headers = auth (values "Authorization" headers)

unfoldable pub handle : Env → Router → Request → Handled
handle env rt req = by_verdict env rt req (verdict env.auth req.headers)

-- `WriteHeader` of the capturing writer
unfoldable pub capture : ℕ → List ℕ → ℕ
capture status [] = status
capture status (code ∷ codes) = capture (if leb 200 code then code else status) codes

status_of : Env → Outcome → ℕ
status_of env (answered status headers message) = capture 200 (status ∷ [])
status_of env (proxied out) = capture 200 (env.send out).codes

completes : Env → Outcome → Bool
completes env (answered status headers message) = true
completes env (proxied out) = (env.send out).returns

-- The gauge of requests in flight is raised.
abbrev pub entered : Router → Router
entered rt = record rt { metrics = record rt.metrics { in_flight = suc rt.metrics.in_flight } }

-- The whole handler: the gauge is raised and lowered, and the request is recorded once.
unfoldable pub serve_http : Env → Router → Request → Router × Outcome
unfolding status_of completes capture
serve_http env rt req =
    let h = handle env (entered rt) req in
    let recorded =
      record_request h.metrics h.namespace h.server h.endpoint (status_of env h.outcome)
        (completes env h.outcome) (env.finish - env.start) in
    (
      record rt {
        limiter = h.limiter;
        metrics = record recorded { in_flight = recorded.in_flight - 1 };
      },
      h.outcome,
    )
