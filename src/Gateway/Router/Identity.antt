-- ===== src/Gateway/Router/Identity.antt =====
-- Which identity and which credentials a backend sees.
use text.Mathlib.TextEquality.{eq_iff}
use portkeeper.Common.{String, ◌≡◌, ◌≢◌, ◌∙◌, [], ◌∷◌, arith}
use portkeeper.Gateway.Headers.{
  Headers, values, del, values-del_self, values-del_other, values-set_self, values-set_other,
}
use portkeeper.Gateway.Registry.{Backend}
use portkeeper.Gateway.Router.{Request, rewrite, set_x_forwarded}

distinct :
    (◌≢◌ {A = String} "Authorization" "X-Agent-Id")
    × (◌≢◌ {A = String} "Authorization" "Proxy-Authorization")
    × (◌≢◌ {A = String} "Proxy-Authorization" "X-Agent-Id")
distinct = (
  ground (arith, eq_iff "Authorization" "X-Agent-Id"),
  ground (arith, eq_iff "Authorization" "Proxy-Authorization"),
  ground (arith, eq_iff "Proxy-Authorization" "X-Agent-Id"),
)

-- Whatever headers the client sends and the proxy keeps, the backend is given the verified agent as
-- the only X-Agent-ID, and neither Authorization nor Proxy-Authorization.
pub rewrite_headers :
    (req : Request) (b : Backend) (tool agent : String) (out : Headers)
    → (values "X-Agent-Id" (rewrite req b tool agent out).headers ≡ agent ∷ [])
      × (values "Authorization" (rewrite req b tool agent out).headers ≡ [])
      × (values "Proxy-Authorization" (rewrite req b tool agent out).headers ≡ [])
unfolding rewrite
rewrite_headers req b tool agent out =
    let (auth_agent, auth_proxy, proxy_agent) = distinct in
    let forwarded : Headers = set_x_forwarded req out in
    (
      values-set_self "X-Agent-Id" agent
          (del "Proxy-Authorization" (del "Authorization" forwarded)),
      values-set_other "X-Agent-Id" "Authorization" agent
            (del "Proxy-Authorization" (del "Authorization" forwarded)) auth_agent
          ∙ values-del_other "Proxy-Authorization" "Authorization" (del "Authorization" forwarded)
              auth_proxy
          ∙ values-del_self "Authorization" forwarded,
      values-set_other "X-Agent-Id" "Proxy-Authorization" agent
            (del "Proxy-Authorization" (del "Authorization" forwarded)) proxy_agent
          ∙ values-del_self "Proxy-Authorization" (del "Authorization" forwarded),
    )
