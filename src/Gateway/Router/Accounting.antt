-- ===== src/Gateway/Router/Accounting.antt =====
-- What requests that are not authenticated leave behind in the limiter and in the metrics.
use portkeeper.Common.{
  ℕ, ◌-◌, ◌≤◌, String, ◌≡◌, ◌↔◌, ◌⊎◌, inl, inr, refl, ap, ◌∙◌, Option, some, List, [], ◌∷◌, if_true,
  string_equal, arith,
}
use portkeeper.Common.Text.Decimal.{show_ℕ}
use portkeeper.Gateway.Headers.{Headers, values}
use portkeeper.Gateway.Accounts.{
  unauthenticated, unavailable, AuthResult, identified, rejected, failed, NameRules,
  ServiceAccountAuthenticator, max_inflight, authenticate,
}
use portkeeper.Gateway.Accounts.Verdicts.{
  Presents, IsVerified, authenticate_iff, authenticate-unavailable_iff,
}
use portkeeper.Gateway.Metrics.{record_request, status_label}
use portkeeper.Gateway.Router.{
  Env, Router, Request, answered, by_verdict, verdict, handle, serve_http, entered, stop, capture,
}

-- The request is answered with the status, takes no token and no bucket of the limiter and no label, and is
-- counted and timed once, under "_unauthenticated".
pub record IsTurnedAway (env : Env) (rt : Router) (req : Request) (status : ℕ) : Type 0 where
  pub answer :
      (h : Headers) × (message : String) × ((serve_http env rt req).1 ≡ answered status h message)
  pub limiter : (serve_http env rt req).0.limiter ≡ rt.limiter
  pub server_labels : (serve_http env rt req).0.metrics.server_labels ≡ rt.metrics.server_labels
  pub agent_labels : (serve_http env rt req).0.metrics.agent_labels ≡ rt.metrics.agent_labels
  pub rate_limited : (serve_http env rt req).0.metrics.rate_limited ≡ rt.metrics.rate_limited
  pub requests :
      (serve_http env rt req).0.metrics.requests
      ≡ record {
        namespace = "";
        server = "_unauthenticated";
        endpoint = "other";
        status = show_ℕ status;
        result = "complete";
      }
        ∷ rt.metrics.requests
  pub durations :
      (serve_http env rt req).0.metrics.durations
      ≡ (("", "_unauthenticated", "other"), env.finish - env.start) ∷ rt.metrics.durations
  pub in_flight : (serve_http env rt req).0.metrics.in_flight ≡ rt.metrics.in_flight

-- How a request without a user ends, by the verdict.
abbrev refusal : AuthResult → ℕ
refusal (rejected unauthenticated) = 401
refusal _ = 503

refusal_cases :
    (v : AuthResult)
    → ((agent : String) → v ≡ identified agent → ⊥)
    → ((refusal v ≡ 401) ⊎ (refusal v ≡ 503)) × ((refusal v ≡ 503) ↔ (v ≡ rejected unavailable))
refusal_cases (rejected unauthenticated) nobody =
    (inl refl, (λ e. absurd (omega (arith, e)), λ e. cc))
refusal_cases (rejected unavailable) nobody = (inr refl, (λ e. refl, λ e. refl))
refusal_cases (identified agent) nobody = absurd (nobody agent refl)

module _ (env : Env) (rt : Router) (req : Request) where
  stop-IsTurnedAway :
      (status : ℕ) (h : Headers) (message : String)
      → handle env (entered rt) req
        ≡ stop (entered rt) "_unauthenticated" "other" (answered status h message)
      → status_label (capture 200 (status ∷ [])) ≡ show_ℕ status
      → IsTurnedAway env rt req status
  unfolding serve_http record_request
  stop-IsTurnedAway status h message e label = record {
    answer = (h, message, rw e refl);
    limiter = rw e refl;
    server_labels = rw e refl;
    agent_labels = rw e refl;
    rate_limited = rw e refl;
    requests = rw (e, label) refl;
    durations = rw e refl;
    in_flight = rw e (omega arith);
  }

  label_401 : status_label (capture 200 (401 ∷ [])) ≡ show_ℕ 401
  unfolding status_label capture
  label_401 = refl

  label_503 : status_label (capture 200 (503 ∷ [])) ≡ show_ℕ 503
  unfolding status_label capture
  label_503 = refl

  -- A request without a user that has a name is turned away, whatever the reason.
  nameless-IsTurnedAway :
      (v : AuthResult)
      → verdict env.auth req.headers ≡ v
      → ((agent : String) → v ≡ identified agent → agent ≡ "")
      → IsTurnedAway env rt req (refusal v)
  unfolding handle by_verdict
  nameless-IsTurnedAway (rejected unauthenticated) e nameless =
      stop-IsTurnedAway 401 _ _ (ap (by_verdict env (entered rt) req) e) label_401
  nameless-IsTurnedAway (rejected unavailable) e nameless =
      stop-IsTurnedAway 503 _ _ (ap (by_verdict env (entered rt) req) e) label_503
  nameless-IsTurnedAway (identified agent) e nameless =
      stop-IsTurnedAway 503 (("Retry-After", "5") ∷ []) "authentication service unavailable"
        (ap (by_verdict env (entered rt) req) e
          ∙ if_true _ _ ((string_equal.equal_iff agent "").1 (nameless agent refl)))
        label_503

  -- The gateway's authenticator at a request for which Kubernetes does not vouch: it is turned away, and
  -- answered 503 exactly if it presents a token and no slot for a review is free or the review fails, and
  -- else 401.
  pub unauthenticated_serve_http :
      (rules : NameRules) (a : ServiceAccountAuthenticator)
      → env.auth ≡ some (authenticate rules a)
      → ((username : String) → IsVerified rules a (values "Authorization" req.headers) username → ⊥)
      → (status : ℕ) × IsTurnedAway env rt req status
        × ((status ≡ 401) ⊎ (status ≡ 503))
        × ((status ≡ 503) ↔ (
            (token : String) × Presents (values "Authorization" req.headers) token
            × ((max_inflight ≤ a.inflight) ⊎ (a.reviewer token (a.audience ∷ []) ≡ failed))))
  unauthenticated_serve_http rules a set unverified =
      let v = authenticate rules a (values "Authorization" req.headers) in
      let same : verdict env.auth req.headers ≡ v =
        unfold verdict in
        ap (λ (o : Option (List String → AuthResult)). verdict o req.headers) set in
      let nobody : (agent : String) → v ≡ identified agent → ⊥ = λ agent e.
        unverified agent
          ((authenticate_iff rules a (values "Authorization" req.headers) agent).0 e) in
      let (status, unavailable_iff) = refusal_cases v nobody in
      let down = authenticate-unavailable_iff rules a (values "Authorization" req.headers) in
      (
        refusal v,
        nameless-IsTurnedAway v same (λ agent e. absurd (nobody agent e)),
        status,
        (λ e. down.0 (unavailable_iff.0 e), λ t. unavailable_iff.1 (down.1 t)),
      )
