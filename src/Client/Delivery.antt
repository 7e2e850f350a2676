-- ===== src/Client/Delivery.antt =====
-- The token of the client at the gateway: `RoundTrip` of internal/democlient/client.go in front of
-- `Authenticate` of internal/gateway/auth.go.
use Prim.Native.String.{len}
use text.Mathlib.TextLemmas.{nil-append, cons-append, append_assoc}
use portkeeper.Common.{
  String, ◌<◌, ◌≤◌, ◌≡◌, ◌≢◌, ◌↔◌, refl, ap, ◌∙◌, [], ◌∷◌, List, Option, some, string_equal,
}
use portkeeper.Common.Text.{append, trim, is_space, fields, equal_fold}
use portkeeper.Common.Text.Fields.{IsWord, fields-append}
use portkeeper.Gateway.Headers.{Headers, values}
use portkeeper.Gateway.Accounts.{
  NameRules, Review, reviewed, identified, max_header, max_inflight, ServiceAccountAuthenticator,
  authenticate,
}
use portkeeper.Gateway.Accounts.Verdicts.{Presents, Vouches, Presents-token_of, authenticate_iff}
use portkeeper.Client.{Credentials, sent, round_trip}
use portkeeper.Client.Tokens.{bare, bearer, round_trip-Bears}

bearer-IsWord : IsWord "Bearer"
unfolding is_space
bearer-IsWord = (refl, (refl, (refl, (refl, (refl, (refl, tt))))))

bearer_parts : (t : String) → append "Bearer " t ≡ append "Bearer" (String.◌∷◌ " " t)
bearer_parts t =
    append_assoc "Bearer" " " t
    ∙ ap (append "Bearer") (cons-append " " "" t ∙ ap (String.◌∷◌ " ") (nil-append t))

fields_bearer : (t : String) → IsWord t → t ≢ "" → fields (append "Bearer " t) ≡ "Bearer" ∷ t ∷ []
fields_bearer t word full =
    ap fields (bearer_parts t) ∙ fields-append "Bearer" t bearer-IsWord word (λ e. cc) full

-- A token of the client, not longer than a header may be, is what the gateway reads from the request.
round_trip-Presents :
    (read_file : String → Option String) (c : Credentials) (h out : Headers) (content : String)
    → c.token_file ≢ ""
    → read_file c.token_file ≡ some content
    → IsWord (trim is_space content)
    → len (append "Bearer " (trim is_space content)) ≤ max_header
    → round_trip read_file c h ≡ sent out
    → Presents (values "Authorization" out) (trim is_space content)
round_trip-Presents read_file c h out content given read word short e =
    elim ((round_trip-Bears read_file c h out e).0) [
      | bare blank only ↦ absurd (given blank)
      | bearer found read_found full solid only ↦
          let same : found ≡ content = cc (read, read_found) in
          record {
            header = append "Bearer " (trim is_space content);
            scheme = "Bearer";
            only = rw same at only;
            short = short;
            words = fields_bearer (trim is_space content) word (rw same at full);
            bearer = unfold equal_fold in refl;
          }
    ]

-- The token of a file that is one word, at the gateway: a user is identified by it exactly if a slot for a
-- review is free and Kubernetes vouches for that very token, whatever headers the caller of the client set.
pub round_trip-identifies :
    (read_file : String → Option String) (c : Credentials) (h out : Headers) (content : String)
    (rules : NameRules) (a : ServiceAccountAuthenticator) (username : String)
    → c.token_file ≢ ""
    → read_file c.token_file ≡ some content
    → IsWord (trim is_space content)
    → len (append "Bearer " (trim is_space content)) ≤ max_header
    → round_trip read_file c h ≡ sent out
    → (authenticate rules a (values "Authorization" out) ≡ identified username) ↔ (
        (a.inflight < max_inflight)
        × ((review : Review) × (a.reviewer (trim is_space content) (a.audience ∷ [])
              ≡ reviewed (some review))
            × Vouches rules a.audience username review))
round_trip-identifies read_file c h out content rules a username given read word short e =
    let headers : List String = values "Authorization" out in
    let presents = round_trip-Presents read_file c h out content given read word short e in
    let verified = authenticate_iff rules a headers username in
    (
      (λ user.
          let v = verified.0 user in
          let same : v.token ≡ trim is_space content = cc (
            Presents-token_of headers v.token v.presented,
            Presents-token_of headers (trim is_space content) presents,
          ) in
          (v.free, (v.review, rw same at v.reply, v.vouched))),
      λ (free, asked). verified.1 (record {
        token = trim is_space content;
        presented = presents;
        free = free;
        review = asked.0;
        reply = asked.1;
        vouched = asked.2;
      }),
    )
