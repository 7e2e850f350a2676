-- ===== src/Command/Gateway.antt =====
-- cmd/gateway/main.go: what the gateway is configured with, and its readiness. Environment variables
-- that are unset are empty. A float64 is a value of `Float`: `strconv.ParseFloat` and the conversion to
-- float32 are parameters, and so are the clients of Kubernetes. `none` is the end by `log.Fatal`.
pub mod Startup
use portkeeper.Common.{
  ℕ, suc, ◌+◌, ◌*◌, String, Bool, true, false, ◌||◌, ◌&&◌, not, Option, none, some, List, ◌==◌,
  if◌then◌else◌, ltb, string_equal,
}
use portkeeper.Common.Int.{ℤ, pos, pos_part, leb_ℤ, ltb_ℤ}
use portkeeper.Common.Text.Number.{atoi}
use portkeeper.Gateway.Limiter.{AgentLimiter, new_agent_limiter}
use portkeeper.Gateway.Accounts.{Reply, ServiceAccountAuthenticator, new_authenticator}
use portkeeper.Gateway.Registry.{Registry, has_synced}

-- `finite n d` is n / (d + 1).
pub data Float : Type 0 where
  nan : Float
  infinite : (negative : Bool) → Float
  finite : ℤ → ℕ → Float

pub record Floats : Type 0 where
  pub parse : String → Option Float
  pub to_float32 : Float → Float

infixl 5 ◌>>=◌ ◌>>◌
abbrev ◌>>=◌ {ℓ κ} : {A : Type ℓ} {B : Type κ} → Option A → (A → Option B) → Option B
none >>= k = none
some a >>= k = k a

abbrev ◌>>◌ {ℓ} : {B : Type ℓ} → Option (Unit {0}) → Option B → Option B
m >> k = m >>= λ _. k

abbrev check : Bool → Option (Unit {0})
check true = some tt
check false = none

-- `v <= 0 || math.IsNaN(v) || math.IsInf(v, 0)` is false.
unfoldable pub is_positive : Float → Bool
is_positive nan = false
is_positive (infinite negative) = false
is_positive (finite n d) = ltb_ℤ (pos 0) n

-- 2 ^ 128 - 2 ^ 104, the largest float32
abbrev pub max_float32 : ℕ
max_float32 = 340_282_346_638_528_859_811_704_183_484_516_925_440

unfoldable pub exceeds_float32 : Float → Bool
exceeds_float32 nan = false
exceeds_float32 (infinite negative) = not negative
exceeds_float32 (finite n d) = ltb (max_float32 * suc d) (pos_part n)

unfoldable pub is_zero : Float → Bool
is_zero nan = false
is_zero (infinite negative) = false
is_zero (finite n d) = leb_ℤ n (pos 0) && leb_ℤ (pos 0) n

module _ (env : String → String) where
  unfoldable pub env_float : Floats → (name : String) (def : Float) → Option Float
  env_float floats name def =
      if env name == ""
      then some def
      else do v ← floats.parse (env name); check (is_positive v); some v

  unfoldable pub env_float32 : Floats → (name : String) (def : Float) → Option Float
  env_float32 floats name def = do
    v ← env_float floats name def
    check (not (exceeds_float32 v || is_zero (floats.to_float32 v)))
    some (floats.to_float32 v)

  unfoldable pub env_int : (name : String) (def : ℤ) → Option ℤ
  env_int name def =
      if env name == ""
      then some def
      else do v ← atoi (env name); check (not (ltb_ℤ v (pos 1))); some v

  abbrev pub env_or : (name def : String) → String
  env_or name def = if env name == "" then def else env name

-- A rate of `rps` tokens in a second, in the units of a nanosecond.
unfoldable pub limiter_of : (rps : Float) (burst : ℤ) → AgentLimiter
limiter_of (finite n d) burst =
    new_agent_limiter (pos_part n) (1_000_000_000 * suc d) (pos_part burst)
limiter_of _ burst = new_agent_limiter 0 1 (pos_part burst)

-- What the gateway is started with.
pub record Started : Type 0 where
  pub addr : String
  pub limiter : AgentLimiter
  pub auth : ServiceAccountAuthenticator
  pub review_qps : Float
  pub review_burst : ℤ

-- The clients of Kubernetes: whether the configuration is found, the TokenReview client that it gives,
-- and whether the registry can be made.
pub record Cluster : Type 0 where
  pub configured : Bool
  pub reviewer : Option (String → List String → Reply)
  pub registry : Bool

unfoldable pub start_gateway : (env : String → String) → Floats → Cluster → Option Started
start_gateway env floats cluster = do
  rps ← env_float env floats "GATEWAY_RATE_LIMIT_RPS" (finite (pos 5) 0)
  burst ← env_int env "GATEWAY_RATE_LIMIT_BURST" (pos 10)
  check cluster.configured
  qps ← env_float32 env floats "GATEWAY_TOKEN_REVIEW_QPS" (finite (pos 5) 0)
  review_burst ← env_int env "GATEWAY_TOKEN_REVIEW_BURST" (pos 10)
  reviewer ← cluster.reviewer
  auth ← new_authenticator (some reviewer) (env_or env "GATEWAY_AUTH_AUDIENCE" "portkeeper")
  check cluster.registry
  some (record {
    addr = env_or env "GATEWAY_ADDR" ":8080";
    limiter = limiter_of rps burst;
    auth = auth;
    review_qps = qps;
    review_burst = review_burst;
  })

-- The status of "/readyz"
unfoldable pub readyz : Registry → ℕ
readyz r = if not (has_synced r) then 503 else 200
