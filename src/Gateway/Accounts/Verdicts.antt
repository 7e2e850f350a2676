-- ===== src/Gateway/Accounts/Verdicts.antt =====
-- What the authenticator establishes before it lets a user through.
use Prim.Native.String.{len}
use text.Mathlib.TextEquality.{eq_iff}
use portkeeper.Common.{
  String, true, false, ◌≡◌, ◌≢◌, ◌≤◌, ◌<◌, ◌↔◌, ◌⊎◌, refl, sym, ◌∙◌, Option, none, some, List, [],
  ◌∷◌, arith, ◌==◌, if◌then◌else◌, any, ltb, string_equal, Bool-cases, inl, inr,
}
use portkeeper.Common.Text.{fields, equal_fold}
use portkeeper.Gateway.Accounts.{
  unavailable, identified, rejected, Review, Reply, failed, reviewed, NameRules,
  valid_service_account, token_of, bearer_token, accept, conclude, max_header, max_inflight,
  ServiceAccountAuthenticator, enter, review_with, with_token, authenticate,
}

-- The request has one Authorization header, not too long, of the form "Bearer <token>".
pub record Presents (headers : List String) (token : String) : Type 0 where
  pub header : String
  pub scheme : String
  pub only : headers ≡ header ∷ []
  pub short : len header ≤ max_header
  pub words : fields header ≡ scheme ∷ token ∷ []
  pub bearer : equal_fold scheme "Bearer" ≡ true

-- The review vouches for the user at the audience.
pub record Vouches (rules : NameRules) (audience username : String) (review : Review) : Type 0 where
  pub authenticated : review.authenticated ≡ true
  pub no_error : review.error ≡ ""
  pub intended : any (λ a. a == audience) review.audiences ≡ true
  pub uid : review.uid ≢ ""
  pub valid : valid_service_account rules review.username ≡ true
  pub user : review.username ≡ username

accept_iff :
    (rules : NameRules) (audience username : String) (review : Review)
    → (accept rules audience (some review) ≡ identified username)
      ↔ Vouches rules audience username review
unfolding accept
accept_iff rules audience username review = (
  λ h. record {
    authenticated = ground (arith, text);
    no_error = ground (arith, text);
    intended = ground (arith, text);
    uid = ground (arith, text, eq_iff review.uid "");
    valid = ground (arith, text);
    user = ground (arith, text);
  },
  λ v. ground (arith, v, text, eq_iff review.uid ""),
)
  where
    text : ((review.error == "") ≡ true) ↔ (review.error ≡ "")
    text = eq_iff review.error ""

words_token :
    (words : List String) (token : String)
    → bearer_token words ≡ some token
    → (scheme : String) × (words ≡ scheme ∷ token ∷ []) × (equal_fold scheme "Bearer" ≡ true)
unfolding bearer_token
words_token (scheme ∷ t ∷ []) token h = (scheme, ground arith, ground arith)
words_token _ token h = cc

token_of-Presents :
    (headers : List String) (token : String)
    → token_of headers ≡ some token
    → Presents headers token
unfolding token_of
token_of-Presents (header ∷ []) token h =
    let short : ltb max_header (len header) ≡ false = ground arith in
    let (scheme, words, bearer) = words_token (fields header) token (ground arith) in
    record {
      header = header;
      scheme = scheme;
      only = refl;
      short = ground arith;
      words = words;
      bearer = bearer;
    }
token_of-Presents _ token h = cc

pub Presents-token_of :
    (headers : List String) (token : String)
    → Presents headers token
    → token_of headers ≡ some token
unfolding token_of bearer_token
Presents-token_of headers token p =
    let short : ltb max_header (len p.header) ≡ false = ground (arith, p.short) in
    rw (p.only, short, p.words, p.bearer) refl

-- What stands behind a user name that the authenticator gives.
pub record IsVerified (rules : NameRules) (a : ServiceAccountAuthenticator) (headers : List String)
    (username : String) : Type 0 where
  pub token : String
  pub presented : Presents headers token
  pub free : a.inflight < max_inflight
  pub review : Review
  pub reply : a.reviewer token (a.audience ∷ []) ≡ reviewed (some review)
  pub vouched : Vouches rules a.audience username review

conclude-identified :
    (rules : NameRules) (audience username : String) (reply : Reply)
    → conclude rules audience reply ≡ identified username
    → (review : Review) × (reply ≡ reviewed (some review)) × Vouches rules audience username review
unfolding conclude
conclude-identified rules audience username failed h = cc
conclude-identified rules audience username (reviewed none) h = unfold accept in cc
conclude-identified rules audience username (reviewed (some review)) h =
    (review, refl, (accept_iff rules audience username review).0 h)

-- With a token, the call goes to the API if a slot is free.
data Asked (rules : NameRules) (a : ServiceAccountAuthenticator) (token : String) : Type 0 where
  went :
      a.inflight < max_inflight
      → with_token rules a (some token)
        ≡ conclude rules a.audience (a.reviewer token (a.audience ∷ []))
      → Asked rules a token
  full :
      max_inflight ≤ a.inflight
      → with_token rules a (some token) ≡ rejected unavailable
      → Asked rules a token

with_token-Asked :
    (rules : NameRules) (a : ServiceAccountAuthenticator) (token : String) → Asked rules a token
unfolding with_token review_with enter
with_token-Asked rules a token = elim (Bool-cases (ltb a.inflight max_inflight)) [
  | inl free ↦ went (ground arith) (rw (free, if◌then◌else◌) refl)
  | inr busy ↦ full (ground arith) (rw (busy, if◌then◌else◌) refl)
]

with_token-identified :
    (rules : NameRules) (a : ServiceAccountAuthenticator) (headers : List String)
    (username : String) (o : Option String)
    → token_of headers ≡ o
    → with_token rules a o ≡ identified username
    → IsVerified rules a headers username
with_token-identified rules a headers username none e h = unfold with_token in cc
with_token-identified rules a headers username (some token) e h =
    elim (with_token-Asked rules a token) [
      | went free same ↦
          let (review, reply, vouched) =
            conclude-identified rules a.audience username (a.reviewer token (a.audience ∷ []))
              (sym same ∙ h) in
          record {
            token = token;
            presented = token_of-Presents headers token e;
            free = free;
            review = review;
            reply = reply;
            vouched = vouched;
          }
      | full busy same ↦ cc
    ]

-- A user is identified exactly if the request presents one bearer token, a slot for a review is free,
-- and Kubernetes vouches for that token at the audience of the gateway, under a ServiceAccount's name.
pub authenticate_iff :
    (rules : NameRules) (a : ServiceAccountAuthenticator) (headers : List String)
    (username : String)
    → (authenticate rules a headers ≡ identified username) ↔ IsVerified rules a headers username
unfolding authenticate
authenticate_iff rules a headers username =
    (with_token-identified rules a headers username (token_of headers) refl, back)
  where
    back :
        IsVerified rules a headers username
        → with_token rules a (token_of headers) ≡ identified username
    back v =
        rw (Presents-token_of headers v.token v.presented)
          (elim (with_token-Asked rules a v.token) [
            | went free same ↦
                same
                ∙ rw v.reply
                    (unfold conclude in (accept_iff rules a.audience username v.review).1 v.vouched)
            | full busy same ↦ absurd (omega (arith, v.free))
          ])

conclude-unavailable :
    (rules : NameRules) (audience : String) (reply : Reply)
    → conclude rules audience reply ≡ rejected unavailable
    → reply ≡ failed
unfolding conclude accept
conclude-unavailable rules audience failed h = refl
conclude-unavailable rules audience (reviewed none) h = cc
conclude-unavailable rules audience (reviewed (some review)) h = ground arith

with_token-unavailable :
    (rules : NameRules) (a : ServiceAccountAuthenticator) (headers : List String)
    (o : Option String)
    → token_of headers ≡ o
    → with_token rules a o ≡ rejected unavailable
    → (token : String) × Presents headers token
      × ((max_inflight ≤ a.inflight) ⊎ (a.reviewer token (a.audience ∷ []) ≡ failed))
with_token-unavailable rules a headers none e h = unfold with_token in cc
with_token-unavailable rules a headers (some token) e h = (
  token,
  token_of-Presents headers token e,
  elim (with_token-Asked rules a token) [
    | went free same ↦ inr (conclude-unavailable rules a.audience _ (sym same ∙ h))
    | full busy same ↦ inl busy
  ],
)

-- The service is reported unavailable exactly if a token was presented, and no slot was free or the
-- API failed.
pub authenticate-unavailable_iff :
    (rules : NameRules) (a : ServiceAccountAuthenticator) (headers : List String)
    → (authenticate rules a headers ≡ rejected unavailable) ↔ (
        (token : String) × Presents headers token
        × ((max_inflight ≤ a.inflight) ⊎ (a.reviewer token (a.audience ∷ []) ≡ failed)))
unfolding authenticate
authenticate-unavailable_iff rules a headers =
    (with_token-unavailable rules a headers (token_of headers) refl, back)
  where
    back :
        ((token : String) × Presents headers token
          × ((max_inflight ≤ a.inflight) ⊎ (a.reviewer token (a.audience ∷ []) ≡ failed)))
        → with_token rules a (token_of headers) ≡ rejected unavailable
    back (token, p, why) =
        rw (Presents-token_of headers token p) (elim (with_token-Asked rules a token) [
          | went free same ↦ elim why [
            | inl busy ↦ absurd (omega arith)
            | inr down ↦ same ∙ rw down (unfold conclude in refl)
          ]
          | full busy same ↦ same
        ])
