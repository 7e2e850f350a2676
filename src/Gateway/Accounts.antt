-- ===== src/Gateway/Accounts.antt =====
-- internal/gateway/auth.go: a bearer token is reviewed by Kubernetes, and the answer must name a
-- ServiceAccount. The reviewer and the two name checks of k8s.io/apimachinery are parameters.
pub mod Names
pub mod Policy
pub mod Verdicts
pub mod Inflight
use portkeeper.Common.{
  ℕ, suc, ◌-◌, String, Bool, true, false, ◌&&◌, ◌||◌, not, Option, none, some, List, [], ◌∷◌, ltb,
  any, ◌==◌, if◌then◌else◌, string_equal,
}
use portkeeper.Common.Text.{split, fields, equal_fold, trim, is_space}
use Prim.Native.String.{len}

-- `ErrUnauthenticated` and `ErrAuthenticationUnavailable`
pub data AuthError : Type 0 where
  unauthenticated unavailable : AuthError

pub data AuthResult : Type 0 where
  identified : String → AuthResult
  rejected : AuthError → AuthResult

-- The fields of a TokenReview's status that are read.
pub record Review : Type 0 where
  pub authenticated : Bool
  pub error : String
  pub audiences : List String
  pub uid : String
  pub username : String

-- The reply of the API: an error, or a review, which may be nil.
pub data Reply : Type 0 where
  failed : Reply
  reviewed : Option Review → Reply

pub record NameRules : Type 0 where
  pub is_label : String → Bool
  pub is_subdomain : String → Bool

unfoldable pub account_parts : NameRules → List String → Bool
account_parts rules (system ∷ kind ∷ namespace ∷ name ∷ []) =
    system == "system"
    && kind == "serviceaccount"
    && rules.is_label namespace
    && rules.is_subdomain name
account_parts rules _ = false

unfoldable pub valid_service_account : NameRules → String → Bool
valid_service_account rules username = account_parts rules (split ":" username)

abbrev pub max_header : ℕ
max_header = 16384

abbrev pub max_inflight : ℕ
max_inflight = 32

bearer_token : List String → Option String
bearer_token (scheme ∷ token ∷ []) = if equal_fold scheme "Bearer" then some token else none
bearer_token _ = none

-- The token of the one Authorization header.
unfoldable pub token_of : List String → Option String
unfolding bearer_token
token_of (header ∷ []) = if ltb max_header (len header) then none else bearer_token (fields header)
token_of _ = none

unfoldable pub accept : NameRules → String → Option Review → AuthResult
accept rules audience none = rejected unauthenticated
accept rules audience (some review) =
    if not review.authenticated
      || not (review.error == "")
      || not (any (λ a. a == audience) review.audiences)
      || review.uid == ""
      || not (valid_service_account rules review.username)
    then rejected unauthenticated
    else identified review.username

conclude : NameRules → String → Reply → AuthResult
conclude rules audience failed = rejected unavailable
conclude rules audience (reviewed review) = accept rules audience review

-- `inflight` is the number of messages in the channel.
pub record ServiceAccountAuthenticator : Type 0 where
  pub reviewer : String → List String → Reply
  pub audience : String
  pub inflight : ℕ

-- A nil reviewer is `none`, and so is the error.
unfoldable pub new_authenticator :
    Option (String → List String → Reply) → String → Option ServiceAccountAuthenticator
new_authenticator none audience = none
new_authenticator (some reviewer) audience =
    if audience == "" || not (trim is_space audience == audience)
    then none
    else some (record { reviewer = reviewer; audience = audience; inflight = 0 })

-- The send to the channel, which fails at once if that is full, and the deferred receive.
unfoldable pub enter : ServiceAccountAuthenticator → Option ServiceAccountAuthenticator
enter a =
    if ltb a.inflight max_inflight then some (record a { inflight = suc a.inflight }) else none

unfoldable pub leave : ServiceAccountAuthenticator → ServiceAccountAuthenticator
leave a = record a { inflight = a.inflight - 1 }

review_with : NameRules → String → Option ServiceAccountAuthenticator → AuthResult
unfolding conclude
review_with rules token none = rejected unavailable
review_with rules token (some a) = conclude rules a.audience (a.reviewer token (a.audience ∷ []))

with_token : NameRules → ServiceAccountAuthenticator → Option String → AuthResult
unfolding review_with enter
with_token rules a none = rejected unauthenticated
with_token rules a (some token) = review_with rules token (enter a)

unfoldable pub authenticate : NameRules → ServiceAccountAuthenticator → List String → AuthResult
unfolding with_token
authenticate rules a headers = with_token rules a (token_of headers)
