-- ===== src/Gateway/Tests.antt =====
-- Requests through the whole gateway, and its theorems at concrete inputs.
use portkeeper.Common.{◌≡◌, refl, [], ◌∷◌, string_equal}
use portkeeper.Common.Dict.{lookup, insert}
use portkeeper.Common.Text.{split, trim, trim_left, trim_right, fields, equal_fold}
use portkeeper.Common.Text.Decimal.{show_ℕ, show_ℤ}
use portkeeper.Common.Int.{◌+ℤ◌, ◌-ℤ◌, ◌*ℕ◌}
use portkeeper.Gateway.Headers.{values, del, set}
use portkeeper.Gateway.Paths.{from_parts, parse_path}
use portkeeper.Gateway.Accounts.{
  account_parts, valid_service_account, token_of, accept, enter, leave, authenticate,
}
use portkeeper.Gateway.Registry.{
  address_of, principal_of, allows, backend_of, refresh, new_registry, resolve, has_synced,
}
use portkeeper.Gateway.Registry.Refresh.{latest, last_success, poll_all}
use portkeeper.Gateway.Limiter.{
  bucket_for, evict, is_replenished, accrued, refill, consume, allow_at,
}
use portkeeper.Gateway.Metrics.{
  admit, observed_server, observed_endpoint, record_rate_limit, status_label, record_request,
}
use portkeeper.Gateway.Router.{
  Outbound, answered, proxied, set_x_forwarded, rewrite, admit_to, resolved, routed, by_verdict,
  verdict, handle, capture, serve_http,
}
use portkeeper.Gateway.Scenario.{
  first_condition, weather_backend, one_backend, polls, ann, router, call, with_token, at_time,
}
use portkeeper.Api.{is_ready}

unfoldable pub gateway_code : Unit {0}
unfolding lookup insert split trim trim_left trim_right fields equal_fold show_ℕ show_ℤ ◌+ℤ◌ ◌-ℤ◌
    ◌*ℕ◌ values del set from_parts parse_path account_parts valid_service_account token_of accept
    enter leave authenticate address_of principal_of allows backend_of refresh new_registry resolve
    has_synced latest last_success poll_all bucket_for evict is_replenished accrued refill consume
    allow_at admit observed_server observed_endpoint record_rate_limit status_label record_request
    set_x_forwarded rewrite admit_to resolved routed by_verdict verdict handle capture serve_http
    first_condition is_ready
gateway_code = tt

-- The poll builds the registry of the scenario.
pub polled : poll_all first_condition "" polls new_registry ≡ one_backend
unfolding gateway_code
polled = refl

abbrev pub sent : Outbound
sent = rewrite (call "/team/weather/mcp" with_token) (weather_backend 0) "mcp" ann with_token

sent_headers : values "X-Agent-Id" sent.headers ≡ ann ∷ []
unfolding gateway_code
sent_headers = refl

pub reached : (serve_http (at_time 0) router (call "/team/weather/mcp" with_token)).1 ≡ proxied sent
unfolding gateway_code
reached = refl

reached_legacy :
    (serve_http (at_time 0) router (call "/weather/mcp" with_token)).1
    ≡ proxied (record sent { host = "gateway" })
unfolding gateway_code
reached_legacy = refl

no_token :
    (serve_http (at_time 0) router (call "/team/weather/mcp" [])).1
    ≡ answered 401
        (("Www-Authenticate", "Bearer realm=\"portkeeper\"") ∷ [])
        "a valid gateway-audience ServiceAccount bearer token is required"
unfolding gateway_code
no_token = refl

too_late :
    (serve_http (at_time 15_000_000_001) router (call "/team/weather/mcp" with_token)).1
    ≡ answered 503 (("Retry-After", "5") ∷ []) "authorization policy is stale"
unfolding gateway_code
too_late = refl
