-- ===== src/Gateway/Examples.antt =====
-- The theorems about the gateway at concrete inputs.
use portkeeper.Common.{
  ℕ, ◌+◌, ◌<◌, String, true, ◌≡◌, ◌≢◌, ◌↔◌, inr, refl, sym, none, some, [], ◌∷◌, arith,
  string_equal,
}
use portkeeper.Common.Dict.{lookup, IsDistinct}
use text.Mathlib.TextEquality.{eq_iff}
use portkeeper.Api.{is_ready}
use portkeeper.Gateway.Headers.{values}
use portkeeper.Gateway.Paths.{Target, parse_path}
use portkeeper.Gateway.Paths.Laws.{slash, print, IsTarget, parse_path-print}
use portkeeper.Gateway.Accounts.{identified, authenticate}
use portkeeper.Gateway.Accounts.Names.{IsAccount}
use portkeeper.Gateway.Accounts.Policy.{Lists}
use portkeeper.Gateway.Accounts.Verdicts.{IsVerified, authenticate_iff}
use portkeeper.Gateway.Accounts.Inflight.{
  Pool, begin, Reach, here, next, IsCounted, Reach-IsCounted,
}
use portkeeper.Gateway.Registry.{
  NamespacedName, Backend, Registry, found, name_equal, new_registry, resolve, policy_max_age,
  principal_of,
}
use portkeeper.Gateway.Registry.Resolve.{Legacy, resolve-Legacy, resolve-ext}
use portkeeper.Gateway.Registry.Refresh.{last_success, poll_all}
use portkeeper.Gateway.Registry.Mirror.{Mirrors, polls-Mirrors}
use portkeeper.Gateway.Router.{Request, proxied, serve_http}
use portkeeper.Gateway.Router.Identity.{rewrite_headers}
use portkeeper.Gateway.Router.Admission.{IsAdmitted, serve_http-proxied_iff}
use portkeeper.Gateway.Router.Accounting.{IsTurnedAway, unauthenticated_serve_http}
use portkeeper.Gateway.Accounts.Verdicts.{Presents}
use portkeeper.Gateway.Accounts.{failed, max_inflight}
use portkeeper.Common.{◌⊎◌, ◌≤◌}
use portkeeper.Gateway.Metrics.Cardinality.{IsBounded}
use portkeeper.Gateway.Router.Cardinality.{serve_http-IsBounded}
use portkeeper.Gateway.Router.Guarantees.{stale_registry-closed, proxied-Lists}
use portkeeper.Gateway.Scenario.{
  first_condition, weather, weather_key, weather_backend, one_backend, polls, lax_rules, ann,
  authenticator, router, call, with_token, at_time,
}
use portkeeper.Common.{List, inl}
use portkeeper.Gateway.Router.{rewrite}
use portkeeper.Gateway.Registry.Polling.{ListCall, next_poll, polls_by, start}
use portkeeper.Gateway.Registry.Polling.Freshness.{IsSteady, IsRunning}
use portkeeper.Gateway.Router.Availability.{IsEligible, IsPolling, polling-proxied}
use portkeeper.Gateway.Tests.{gateway_code, sent, reached, polled}

abbrev request : Request
request = call "/team/weather/mcp" with_token

proxied-Lists_example :
    (a : IsAdmitted (at_time 0) router request sent) × IsVerified lax_rules authenticator
      (values "Authorization" with_token)
      a.agent
    × ((namespace : String) × (name : String) × IsAccount lax_rules a.agent namespace name
        × Lists namespace name a.backend.allowed_service_accounts)
proxied-Lists_example =
    proxied-Lists lax_rules authenticator (at_time 0) router request sent refl reached

polled_back : one_backend ≡ poll_all first_condition "" polls new_registry
polled_back = sym polled

late : (at : ℕ) → last_success none polls ≡ some at → at + policy_max_age < 15_000_000_001
unfolding last_success
late at e = ground arith

stale_registry-closed_example :
    (serve_http (at_time 15_000_000_001) router request).1 ≢ proxied sent
stale_registry-closed_example =
    stale_registry-closed first_condition "" polls (at_time 15_000_000_001) router request sent
      polled_back late

serve_http-proxied_iff_example :
    ((serve_http (at_time 0) router request).1 ≡ proxied sent)
    ↔ IsAdmitted (at_time 0) router request sent
serve_http-proxied_iff_example = serve_http-proxied_iff (at_time 0) router request sent

rewrite_headers_example :
    (values "X-Agent-Id" sent.headers ≡ ann ∷ [])
    × (values "Authorization" sent.headers ≡ [])
    × (values "Proxy-Authorization" sent.headers ≡ [])
rewrite_headers_example = rewrite_headers request (weather_backend 0) "mcp" ann with_token

abbrev anonymous : Request
anonymous = call "/team/weather/mcp" []

nobody :
    (username : String)
    → IsVerified lax_rules authenticator (values "Authorization" []) username
    → ⊥
unfolding gateway_code
nobody username v = cc (v.presented.only)

unauthenticated_serve_http_example :
    (status : ℕ) × IsTurnedAway (at_time 0) router anonymous status
    × ((status ≡ 401) ⊎ (status ≡ 503))
    × ((status ≡ 503) ↔ (
        (token : String) × Presents (values "Authorization" []) token
        × ((max_inflight ≤ authenticator.inflight)
            ⊎ (authenticator.reviewer token (authenticator.audience ∷ []) ≡ failed))))
unauthenticated_serve_http_example =
    unauthenticated_serve_http (at_time 0) router anonymous lax_rules authenticator refl nobody

new_metrics-IsBounded : IsBounded router.metrics
new_metrics-IsBounded = record {
  server_limit = refl;
  agent_limit = refl;
  servers = omega arith;
  agents = omega arith;
  entries = tt;
  timings = tt;
  rates = tt;
}

serve_http-IsBounded_example : IsBounded (serve_http (at_time 0) router request).0.metrics
serve_http-IsBounded_example = serve_http-IsBounded (at_time 0) router request new_metrics-IsBounded

authenticate_iff_example :
    (authenticate lax_rules authenticator ("Bearer t1" ∷ []) ≡ identified ann)
    ↔ IsVerified lax_rules authenticator ("Bearer t1" ∷ []) ann
authenticate_iff_example = authenticate_iff lax_rules authenticator ("Bearer t1" ∷ []) ann

ann-IsAccount : IsAccount lax_rules ann "agents" "ann"
unfolding principal_of
ann-IsAccount = record {
  principal = refl;
  label = refl;
  subdomain = refl;
  plain_namespace = ground arith;
  plain_name = ground arith;
}

abbrev idle_pool : Pool
idle_pool = record { state = authenticator; reviewing = 0 }

abbrev busy_pool : Pool
busy_pool = record { state = record authenticator { inflight = 1 }; reviewing = 1 }

busy_pool-Reach : Reach idle_pool busy_pool
unfolding gateway_code
busy_pool-Reach = next here (begin (record authenticator { inflight = 1 }) refl)

Reach-IsCounted_example : IsCounted busy_pool
Reach-IsCounted_example = Reach-IsCounted (omega arith) busy_pool-Reach

one_backend-IsDistinct : IsDistinct one_backend.backends
unfolding lookup
one_backend-IsDistinct = (refl, tt)

resolve-Legacy_example : Legacy "weather" one_backend.backends (resolve one_backend "" "weather")
resolve-Legacy_example = resolve-Legacy one_backend "weather" one_backend-IsDistinct

abbrev other_key : NamespacedName
other_key = record { namespace = "team"; name = "clock" }

abbrev clock_backend : Backend
clock_backend = record (weather_backend 0) { name = "clock" }

-- The same two entries, as two visits of the map come to them.
abbrev weather_first : Registry
weather_first = record {
  backends = (weather_key, weather_backend 0) ∷ (other_key, clock_backend) ∷ [];
  synced = true;
}

abbrev clock_first : Registry
clock_first = record {
  backends = (other_key, clock_backend) ∷ (weather_key, weather_backend 0) ∷ [];
  synced = true;
}

weather_first-IsDistinct : IsDistinct weather_first.backends
unfolding lookup
weather_first-IsDistinct = (refl, (refl, tt))

clock_first-IsDistinct : IsDistinct clock_first.backends
unfolding lookup
clock_first-IsDistinct = (refl, (refl, tt))

keys_differ : weather_key ≢ other_key
keys_differ e = cc

same_entries :
    (k : NamespacedName) → lookup k weather_first.backends ≡ lookup k clock_first.backends
unfolding lookup
same_entries k =
    ground
      (arith, name_equal.equal_iff weather_key k, name_equal.equal_iff other_key k, keys_differ)

resolve-ext_example : resolve weather_first "" "weather" ≡ resolve clock_first "" "weather"
resolve-ext_example =
    resolve-ext weather_first clock_first "" "weather" weather_first-IsDistinct
      clock_first-IsDistinct same_entries

weather_scanned : resolve clock_first "" "weather" ≡ found (weather_backend 0)
unfolding gateway_code
weather_scanned = refl

polls-Mirrors_example :
    Mirrors first_condition "" polls (poll_all first_condition "" polls new_registry)
polls-Mirrors_example = polls-Mirrors first_condition "" polls

abbrev weather_target : Target
weather_target = record { namespace = "team"; server = "weather"; tool = "mcp" }

weather_target-IsTarget : IsTarget weather_target
weather_target-IsTarget = record {
  server = (ground (arith, eq_iff "weather" ""), ground arith);
  tool = (ground (arith, eq_iff "mcp" ""), ground arith);
  namespace = inr (ground (arith, eq_iff "team" ""), ground arith);
}

parse_path-print_example : parse_path (slash (print weather_target)) ≡ some weather_target
parse_path-print_example = parse_path-print weather_target weather_target-IsTarget

weather_parsed : parse_path "/team/weather/mcp/" ≡ some weather_target
unfolding gateway_code
weather_parsed = refl

weather-ready : is_ready first_condition (some weather) ≡ true
unfolding gateway_code
weather-ready = refl

abbrev instant : ℕ
instant = 13_000_000_000

-- The time from the registry to the check of the age.
abbrev lag : ℕ
lag = 1_000_000_000

abbrev check_time : ℕ
check_time = 13_500_000_000

abbrev first_call : ListCall
first_call = record { took = 1_000_000_000; items = some (weather ∷ []) }

-- The second call fails after 3 seconds, and the third one is under way.
abbrev list_calls : List ListCall
list_calls =
    record { took = 3_000_000_000; items = none }
    ∷ record { took = 4_000_000_000; items = some (weather ∷ []) }
    ∷ []

list_calls-IsRunning : IsRunning instant (next_poll 0 1_000_000_000) list_calls
unfolding IsRunning next_poll
list_calls-IsRunning = inr (inl (omega arith))

list_calls-IsSteady : IsSteady lag true list_calls
unfolding IsSteady
list_calls-IsSteady = (omega arith, refl, (omega arith, refl, tt))

calls-IsPolling : IsPolling lag instant first_call list_calls
calls-IsPolling = record {
  quick = omega arith;
  answered = refl;
  ended = omega arith;
  steady = list_calls-IsSteady;
  running = list_calls-IsRunning;
}

polled_since :
    one_backend ≡ poll_all first_condition "" (start instant (first_call ∷ list_calls)) new_registry
unfolding gateway_code polls_by next_poll poll_all
polled_since = refl

eligible : IsEligible (at_time check_time) router request
unfolding gateway_code
eligible = record {
  agent = ann;
  target = weather_target;
  backend = weather_backend 0;
  verified = refl;
  named = λ e. cc;
  parsed = refl;
  resolves = refl;
  within_rate = refl;
  allowed = refl;
  ready = refl;
  duplex = refl;
}

polling-proxied_example :
    (serve_http (at_time check_time) router request).1
    ≡ proxied (rewrite request (weather_backend 0) "mcp" ann with_token)
unfolding eligible
polling-proxied_example =
    polling-proxied first_condition "" lag instant first_call list_calls (at_time check_time) router
      request calls-IsPolling polled_since (omega arith) eligible
