-- ===== src/Client/Tokens.antt =====
-- Which credentials a request of the client carries, and what the gateway reads from them.
use text.Mathlib.TextEquality.{eq_iff}
use portkeeper.Common.{
  String, false, ◌||◌, ◌≡◌, ◌≢◌, inl, inr, refl, sym, ◌∙◌, [], ◌∷◌, Option, none, some, ◌==◌,
  if◌then◌else◌, if_true, if_false, string_equal, nat_equal, Bool-cases, arith,
}
use portkeeper.Common.Text.{append, trim, is_space}
use portkeeper.Gateway.Headers.{
  Headers, values, set, del, values-set_self, values-set_other, values-del_self, values-del_other,
}
use portkeeper.Client.{Credentials, sent, contains_blank, with_agent, with_token, round_trip}

ne_headers : ◌≢◌ {A = String} "Authorization" "X-Agent-Id"
ne_headers = ground (arith, eq_iff "Authorization" "X-Agent-Id")

with_agent_lem :
    (agent : String) (h : Headers)
    → values "Authorization" h ≡ []
    → values "X-Agent-Id" h ≡ []
    → (values "Authorization" (with_agent agent h) ≡ [])
      × (values "X-Agent-Id" (with_agent agent h) ≡ (if agent == "" then [] else agent ∷ []))
unfolding with_agent
with_agent_lem agent h bare anonymous = elim (Bool-cases (agent == "")) [
  | inl blank ↦ rw (blank, if◌then◌else◌) (bare, anonymous)
  | inr named ↦
      rw (named, if◌then◌else◌)
        (
          values-set_other "X-Agent-Id" "Authorization" agent h ne_headers ∙ bare,
          values-set_self "X-Agent-Id" agent h,
        )
]

cleared :
    (h : Headers)
    → (values "Authorization" (del "X-Agent-Id" (del "Authorization" h)) ≡ [])
      × (values "X-Agent-Id" (del "X-Agent-Id" (del "Authorization" h)) ≡ [])
cleared h = (
  values-del_other "X-Agent-Id" "Authorization" (del "Authorization" h) ne_headers
      ∙ values-del_self "Authorization" h,
  values-del_self "X-Agent-Id" (del "Authorization" h),
)

-- The Authorization of a request that is sent.
pub data Bears (read_file : String → Option String) (c : Credentials) (h : Headers) : Type 0 where
  bare : c.token_file ≡ "" → values "Authorization" h ≡ [] → Bears read_file c h
  bearer :
      (content : String)
      → read_file c.token_file ≡ some content
      → trim is_space content ≢ ""
      → contains_blank (trim is_space content) ≡ false
      → values "Authorization" h ≡ append "Bearer " (trim is_space content) ∷ []
      → Bears read_file c h

with_token-sent :
    (o : Option String) (h out : Headers)
    → with_token o h ≡ sent out
    → (content : String) × (o ≡ some content)
      × (trim is_space content ≢ "")
      × (contains_blank (trim is_space content) ≡ false)
      × (out ≡ set "Authorization" (append "Bearer " (trim is_space content)) h)
unfolding with_token
with_token-sent none h out e = cc
with_token-sent (some content) h out e =
    elim (Bool-cases (trim is_space content == "" || contains_blank (trim is_space content))) [
      | inl bad ↦ cc (rw (bad, if◌then◌else◌) at e)
      | inr good ↦ (
        content,
        refl,
        ground (arith, eq_iff (trim is_space content) ""),
        ground arith,
        cc (rw (good, if◌then◌else◌) at e),
      )
    ]

-- Whatever headers a caller sets, a request that the client sends carries no Authorization if there is
-- no token file, and otherwise exactly the bearer token that the file holds at that moment, trimmed,
-- not empty and without blanks; and it carries the agent of the credentials or none.
pub round_trip-Bears :
    (read_file : String → Option String) (c : Credentials) (h out : Headers)
    → round_trip read_file c h ≡ sent out
    → Bears read_file c out
      × (values "X-Agent-Id" out ≡ (if c.agent_id == "" then [] else c.agent_id ∷ []))
unfolding round_trip
round_trip-Bears read_file c h out e =
    let base : Headers = del "X-Agent-Id" (del "Authorization" h) in
    let (no_auth, agent) = with_agent_lem c.agent_id base (cleared h).0 (cleared h).1 in
    elim (Bool-cases (c.token_file == "")) [
      | inl none_given ↦
          let same : with_agent c.agent_id base ≡ out = cc (sym (if_true _ _ none_given) ∙ e) in
          (bare ((eq_iff c.token_file "").0 none_given) (rw (← same) no_auth), rw (← same) agent)
      | inr given ↦
          let (content, read, full, solid, same) =
            with_token-sent (read_file c.token_file) (with_agent c.agent_id base) out
              (sym (if_false _ _ given) ∙ e) in
          (
            bearer content read full solid (
                rw same (
                  values-set_self "Authorization" (append "Bearer " (trim is_space content))
                    (with_agent c.agent_id base))),
            rw same (
                values-set_other "Authorization" "X-Agent-Id"
                  (append "Bearer " (trim is_space content)) (with_agent c.agent_id base)
                  (λ k. ne_headers (sym k))
                ∙ agent),
          )
    ]
