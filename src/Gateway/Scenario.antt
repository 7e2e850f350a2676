-- ===== src/Gateway/Scenario.antt =====
-- A gateway with one ready backend, and requests to it: the inputs of the tests.
use mathlib.Core.List.{Memᴰ}
use portkeeper.Common.{
  ℕ, String, true, false, ◌≡◌, Option, none, some, List, [], ◌∷◌, ◌==◌, if◌then◌else◌, Bool-cases,
  inl, inr, arith, string_equal,
}
use portkeeper.Common.Int.{pos}
use portkeeper.Api.{Condition, McpServer}
use portkeeper.Api.Readiness.{FindsCondition}
use portkeeper.Gateway.Headers.{Headers}
use portkeeper.Gateway.Accounts.{
  Review, Reply, reviewed, failed, NameRules, ServiceAccountAuthenticator, authenticate,
}
use portkeeper.Gateway.Limiter.{AgentLimiter}
use portkeeper.Gateway.Registry.{NamespacedName, Backend, Registry}
use portkeeper.Gateway.Registry.Refresh.{Poll}
use portkeeper.Gateway.Metrics.{Metrics}
use portkeeper.Gateway.Router.{Request, Env, Router}

-- A search that does what `meta.FindStatusCondition` documents.
unfoldable pub first_condition : List Condition → String → Option Condition
first_condition [] kind = none
first_condition (c ∷ cs) kind = if c.kind == kind then some c else first_condition cs kind

first_condition-Memᴰ :
    (cs : List Condition) (kind : String) (c : Condition)
    → first_condition cs kind ≡ some c
    → Memᴰ c cs × (c.kind ≡ kind)
unfolding first_condition
first_condition-Memᴰ [] kind c h = cc
first_condition-Memᴰ (x ∷ cs) kind c h = elim (Bool-cases (x.kind == kind)) [
  | inl hit ↦
      let same : x ≡ c = ground arith in
      (Memᴰ.head (ground arith), ground (arith, same, string_equal.equal_iff x.kind kind))
  | inr miss ↦
      let (later, e) = first_condition-Memᴰ cs kind c (ground arith) in (Memᴰ.tail later, e)
]

pub first_condition-FindsCondition : FindsCondition first_condition
first_condition-FindsCondition = record {
  found = λ cs kind c h. let (m, e) = first_condition-Memᴰ cs kind c h in (∣ m ∣₁, e);
}

abbrev pub ready : Condition
ready = record {
  kind = "Ready";
  status = "True";
  observed_generation = pos 3;
  reason = "DeploymentAvailable";
  message = "";
}

abbrev pub weather : McpServer
weather = record {
  meta = record {
    namespace = "team";
    name = "weather";
    uid = "u1";
    generation = pos 3;
    deleting = false;
  };
  spec = record {
    image = "weather:1";
    port = pos 9001;
    tools = [];
    allowed_service_accounts = record { namespace = "agents"; name = "ann" } ∷ [];
    auth_type = "none";
    auth_secret_ref = "";
  };
  status = record { phase = "Ready"; observed_generation = pos 3; conditions = ready ∷ [] };
}

abbrev pub weather_backend : ℕ → Backend
weather_backend at = record {
  namespace = "team";
  name = "weather";
  address = "weather-svc.team.svc.cluster.local:9001";
  ready = true;
  allowed_service_accounts = record { namespace = "agents"; name = "ann" } ∷ [];
  policy_observed_at = at;
}

abbrev pub weather_key : NamespacedName
weather_key = record { namespace = "team"; name = "weather" }

abbrev pub one_backend : Registry
one_backend = record { backends = (weather_key, weather_backend 0) ∷ []; synced = true }

abbrev pub polls : List Poll
polls = record { at = 0; items = some (weather ∷ []) } ∷ record { at = 5; items = none } ∷ []

abbrev pub lax_rules : NameRules
lax_rules = record { is_label = λ s. true; is_subdomain = λ s. true }

abbrev pub ann : String
ann = "system:serviceaccount:agents:ann"

abbrev pub ann_review : Review
ann_review = record {
  authenticated = true;
  error = "";
  audiences = "portkeeper" ∷ [];
  uid = "7";
  username = ann;
}

-- The API knows one token.
abbrev pub one_token : String → List String → Reply
one_token token audiences = if token == "t1" then reviewed (some ann_review) else failed

abbrev pub authenticator : ServiceAccountAuthenticator
authenticator = record { reviewer = one_token; audience = "portkeeper"; inflight = 0 }

abbrev pub limiter : AgentLimiter
limiter = record {
  buckets = [];
  rate = 5;
  one = 1_000_000_000;
  burst = 10_000_000_000;
  max_agents = 10000;
  idle_ttl = 900_000_000_000;
}

abbrev pub metrics : Metrics
metrics = record {
  server_labels = record { limit = 256; values = [] };
  agent_labels = record { limit = 128; values = [] };
  requests = [];
  durations = [];
  rate_limited = [];
  in_flight = 0;
}

abbrev pub router : Router
router = record { registry = one_backend; limiter = limiter; metrics = metrics }

abbrev pub call : String → Headers → Request
call path headers = record {
  path = path;
  host = "gateway";
  headers = headers;
  proto_major = 1;
  has_body = true;
  remote_ip = some "10.0.0.9";
  tls = false;
}

abbrev pub with_token : Headers
with_token = ("Authorization", "Bearer t1") ∷ ("X-Agent-Id", "root") ∷ []

abbrev pub at_time : ℕ → Env
at_time now = record {
  auth = some (authenticate lax_rules authenticator);
  full_duplex = true;
  prepare = λ h. h;
  send = λ out. record { codes = 200 ∷ []; returns = true };
  start = now;
  limited_at = now;
  checked_at = now;
  finish = now;
}
