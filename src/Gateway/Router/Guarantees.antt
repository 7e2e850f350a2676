-- ===== src/Gateway/Router/Guarantees.antt =====
-- The gateway as a whole: the authenticator and the registry of the program behind the router.
use portkeeper.Common.{
  ℕ, ◌+◌, ◌<◌, String, ◌≡◌, ◌≢◌, sym, ap, ◌∙◌, Option, none, some, List, arith, true,
}
use portkeeper.Api.{Condition}
use portkeeper.Common.Dict.{Values-lookup}
use portkeeper.Gateway.Headers.{values}
use portkeeper.Gateway.Accounts.{
  NameRules, AuthResult, identified, valid_service_account, ServiceAccountAuthenticator,
  authenticate,
}
use portkeeper.Gateway.Accounts.Names.{IsAccount, valid_service_account_iff}
use portkeeper.Gateway.Accounts.Verdicts.{IsVerified, authenticate_iff}
use portkeeper.Gateway.Accounts.Policy.{Lists, allows_iff}
use portkeeper.Gateway.Registry.{name_equal, Registry, new_registry, policy_max_age, resolve}
use portkeeper.Gateway.Registry.Resolve.{resolve-found}
use portkeeper.Gateway.Registry.Refresh.{Poll, last_success, poll_all, polls-IsSnapshot}
use portkeeper.Gateway.Router.{Env, Router, Request, Outbound, proxied, serve_http, verdict}
use portkeeper.Gateway.Router.Admission.{IsAdmitted, serve_http-proxied_iff}

-- No request is sent upstream once more than 15 seconds have passed since the last successful poll
-- of the registry began, or if none succeeded.
pub stale_registry-closed :
    (find : List Condition → String → Option Condition) (host : String) (ps : List Poll) (env : Env)
    (rt : Router) (req : Request) (out : Outbound)
    → rt.registry ≡ poll_all find host ps new_registry
    → ((at : ℕ) → last_success none ps ≡ some at → at + policy_max_age < env.checked_at)
    → (serve_http env rt req).1 ≢ proxied out
stale_registry-closed find host ps env rt req out same late h =
    let a = (serve_http-proxied_iff env rt req out).0 h in
    let s = polls-IsSnapshot find host ps in
    let (k, present) =
      resolve-found (poll_all find host ps new_registry) a.target.namespace a.target.server
        a.backend s.distinct
        (ap (λ (r : Registry). resolve r a.target.namespace a.target.server) (sym same)
          ∙ a.resolves) in
    let observed =
      Values-lookup (λ b. last_success none ps ≡ some b.policy_observed_at) k a.backend
        (poll_all find host ps new_registry).backends s.observed present in
    absurd (omega (arith, late a.backend.policy_observed_at observed, a.is_open.fresh))

-- A request that is sent upstream carries a token that Kubernetes has just vouched for at the
-- audience of the gateway, for a ServiceAccount that the policy of the backend lists.
pub proxied-Lists :
    (rules : NameRules) (auth : ServiceAccountAuthenticator) (env : Env) (rt : Router)
    (req : Request) (out : Outbound)
    → env.auth ≡ some (authenticate rules auth)
    → (serve_http env rt req).1 ≡ proxied out
    → (a : IsAdmitted env rt req out) × IsVerified rules auth
        (values "Authorization" req.headers)
        a.agent
      × ((namespace : String) × (name : String) × IsAccount rules a.agent namespace name
          × Lists namespace name a.backend.allowed_service_accounts)
proxied-Lists rules auth env rt req out set h =
    let a = (serve_http-proxied_iff env rt req out).0 h in
    let verified : authenticate rules auth (values "Authorization" req.headers)
        ≡ identified a.agent =
      unfold verdict in
      (sym (ap (λ (o : Option (List String → AuthResult)). verdict o req.headers) set)
        ∙ a.verified) in
    let v = (authenticate_iff rules auth (values "Authorization" req.headers) a.agent).0 verified in
    let valid : valid_service_account rules a.agent ≡ true = rw v.vouched.user at v.vouched.valid in
    let (namespace, name, account) = (valid_service_account_iff rules a.agent).0 valid in
    (
      a,
      v,
      (
        namespace,
        name,
        account,
        (allows_iff rules a.backend a.agent namespace name account).0 a.is_open.allowed,
      ),
    )
