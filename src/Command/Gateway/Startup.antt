-- ===== src/Command/Gateway/Startup.antt =====
-- What a gateway that starts is configured with, and what its limiter then allows.
use portkeeper.Common.{
  ℕ, suc, ◌+◌, ◌-◌, ◌*◌, ◌≤◌, String, Bool, true, false, not, ◌≡◌, ◌≢◌, ◌↔◌, refl, ◌∙◌, ap, sym,
  subst, Option, none, some, List, ◌==◌, string_equal, ◌⊎◌, inl, inr, Bool-cases, Option-cases,
  arith,
}
use portkeeper.Common.Int.{ℤ, pos, pos_part, ltb_ℤ, ◌≤ℤ◌}
use portkeeper.Common.Dict.{lookup}
use portkeeper.Common.Text.Number.{atoi}
use portkeeper.Gateway.Limiter.{AgentLimiter, new_agent_limiter, allow_at}
use portkeeper.Gateway.Limiter.Guarantees.{
  run, new_agent_limiter-IsValid, run-SameConfig, run-new_agent_limiter-IsValid,
  allowed_after_waiting, allowed_bound,
}
use portkeeper.Gateway.Limiter.Calls.{HasRoom}
use portkeeper.Gateway.Limiter.Level.{level}
use portkeeper.Gateway.Limiter.Bounds.{allow_at_iff, IsValid-later}
use portkeeper.Gateway.Limiter.Traces.{Arrival, allowed, Within}
use portkeeper.Api.{Condition}
use portkeeper.Gateway.Registry.{new_registry, has_synced}
use portkeeper.Gateway.Registry.Refresh.{Poll, last_success, poll_all, polls-IsSnapshot}
use portkeeper.Gateway.Accounts.{new_authenticator}
use portkeeper.Command.Gateway.{
  Float, finite, Floats, is_positive, env_float, env_float32, env_int, limiter_of, Started, Cluster,
  start_gateway, readyz, ◌>>=◌, ◌>>◌, check,
}

-- A bind that comes to a value.
bind-some :
    {A B : Type 0} (m : Option A) (k : A → Option B) (b : B)
    → (m >>= k) ≡ some b
    → (a : A) × (m ≡ some a) × (k a ≡ some b)
bind-some none k b h = cc
bind-some (some a) k b h = (a, refl, h)

check-some :
    {B : Type 0} (t : Bool) (k : Option B) (b : B)
    → (check t >> k) ≡ some b
    → (t ≡ true) × (k ≡ some b)
check-some true k b h = (refl, h)
check-some false k b h = cc

env_float-positive :
    (env : String → String) (floats : Floats) (name : String) (def v : Float)
    → is_positive def ≡ true
    → env_float env floats name def ≡ some v
    → is_positive v ≡ true
unfolding env_float
env_float-positive env floats name def v sound h = elim (Bool-cases (env name == "")) [
  | inl unset ↦ let same : def ≡ v = cc (rw unset at h) in rw (← same) sound
  | inr set ↦
      let (u, parsed, checked) = bind-some (floats.parse (env name)) _ v (rw set at h) in
      let (good, same) = check-some (is_positive u) (some u) v checked in
      let u_same : u ≡ v = cc (same) in rw (← u_same) good
]

env_int-positive :
    (env : String → String) (name : String) (def v : ℤ)
    → pos 1 ≤ℤ def
    → env_int env name def ≡ some v
    → pos 1 ≤ℤ v
unfolding env_int
env_int-positive env name def v sound h = elim (Bool-cases (env name == "")) [
  | inl unset ↦ let same : def ≡ v = cc (rw unset at h) in rw (← same) sound
  | inr set ↦
      let (u, parsed, checked) = bind-some (atoi (env name)) _ v (rw set at h) in
      let (good, same) = check-some (not (ltb_ℤ u (pos 1))) (some u) v checked in
      let u_same : u ≡ v = cc (same) in rw (← u_same) (ground arith)
]

five_positive : is_positive (finite (pos 5) 0) ≡ true
unfolding is_positive
five_positive = refl

some_injective : {A : Type 0} (a b : A) → some a ≡ some b → a ≡ b
some_injective a b h = cc

-- The limiter of a gateway that starts is made with the rate and the burst of the environment.
record IsConfigured (l : AgentLimiter) (n : ℤ) (d : ℕ) (burst : ℤ) : Type 0 where
  made : l ≡ new_agent_limiter (pos_part n) (1_000_000_000 * suc d) (pos_part burst)
  gains : 1 ≤ pos_part n
  holds : 1 ≤ pos_part burst

finite_positive : (n : ℤ) (d : ℕ) → is_positive (finite n d) ≡ true → 1 ≤ pos_part n
unfolding is_positive
finite_positive n d h = ground arith

start_gateway-IsConfigured :
    (env : String → String) (floats : Floats) (cluster : Cluster) (s : Started) (n : ℤ) (d : ℕ)
    (burst : ℤ)
    → start_gateway env floats cluster ≡ some s
    → env_float env floats "GATEWAY_RATE_LIMIT_RPS" (finite (pos 5) 0) ≡ some (finite n d)
    → env_int env "GATEWAY_RATE_LIMIT_BURST" (pos 10) ≡ some burst
    → IsConfigured s.limiter n d burst
unfolding start_gateway
start_gateway-IsConfigured env floats cluster s n d burst h configured bursts =
    let (rps, e1, h1) =
      bind-some (env_float env floats "GATEWAY_RATE_LIMIT_RPS" (finite (pos 5) 0)) _ s h in
    let (b, e2, h2) = bind-some (env_int env "GATEWAY_RATE_LIMIT_BURST" (pos 10)) _ s h1 in
    let (c, h3) = check-some cluster.configured _ s h2 in
    let (qps, e4, h4) =
      bind-some (env_float32 env floats "GATEWAY_TOKEN_REVIEW_QPS" (finite (pos 5) 0)) _ s h3 in
    let (rb, e5, h5) = bind-some (env_int env "GATEWAY_TOKEN_REVIEW_BURST" (pos 10)) _ s h4 in
    let (reviewer, e6, h6) = bind-some cluster.reviewer _ s h5 in
    let (auth, e7, h7) = bind-some (new_authenticator (some reviewer) _) _ s h6 in
    let (r, h8) = check-some cluster.registry _ s h7 in
    let same : limiter_of rps b ≡ s.limiter =
      ap (λ (t : Started). t.limiter) (some_injective _ s h8) in
    let rate : rps ≡ finite n d = some_injective rps (finite n d) (sym e1 ∙ configured) in
    let size : b ≡ burst = some_injective b burst (sym e2 ∙ bursts) in
    let at_least : pos 1 ≤ℤ burst = env_int-positive env _ _ burst (omega arith) bursts in
    record {
      made =
          sym same
          ∙ ap (λ v. limiter_of v b) rate
          ∙ ap (limiter_of (finite n d)) size
          ∙ unfold limiter_of in refl;
      gains =
          finite_positive n d
            (env_float-positive env floats _ _ (finite n d) five_positive configured);
      holds = ground arith;
    }

new_fits :
    (rate one burst : ℕ)
    → 1 ≤ burst
    → (new_agent_limiter rate one burst).one ≤ (new_agent_limiter rate one burst).burst
unfolding new_agent_limiter
new_fits rate one burst h = grind arith

-- A new limiter after any calls: an agent that has a bucket, or can get one, is served once it has waited
-- for a token, and no agent was served more than the burst and the rate allow.
new_agent_limiter-serves :
    (rate one burst : ℕ) (agent : String) (from until later : ℕ) (xs : List Arrival)
    → 1 ≤ burst
    → Within from until xs
    → until ≤ later
    → one ≤ (later - until) * rate
    → (lookup agent (run (new_agent_limiter rate one burst) xs).buckets ≢ none)
      ⊎ HasRoom (run (new_agent_limiter rate one burst) xs) later
    → ((allow_at (run (new_agent_limiter rate one burst) xs) agent later).1 ≡ true)
      × (allowed agent (new_agent_limiter rate one burst) xs * one
          ≤ burst * one + (until - from) * rate)
new_agent_limiter-serves rate one burst agent from until later xs holds served after waited place =
    let start = new_agent_limiter rate one burst in
    let l = run start xs in
    let fresh = new_agent_limiter-IsValid rate one burst from in
    let valid = run-new_agent_limiter-IsValid rate one burst from until xs served in
    let same = run-SameConfig start from until xs fresh served in
    let fits : l.one ≤ l.burst = rw (same.0, same.1) (new_fits rate one burst holds) in
    let refilled : l.one ≤ (later - until) * l.rate =
      rw (same.1, same.2) (unfold new_agent_limiter in waited) in
    (
      elim (Option-cases (lookup agent l.buckets)) [
        | inr (b, found) ↦
            allowed_after_waiting l agent until later b valid found after fits refilled
        | inl absent ↦
            (allow_at_iff l agent later (IsValid-later l until later after valid)).1
              (unfold level in rw absent (omega (arith, fits)), place)
      ],
      unfold new_agent_limiter in allowed_bound agent start from until xs fresh served,
    )

-- A gateway that starts holds every agent to the rate that its environment sets, n / (d + 1) tokens in a
-- second, and to the burst, both of which are positive: after any calls in clock order, an agent that has a bucket, or can get one
-- because the limiter is not at its capacity, is allowed once it has waited for one token since; and over
-- the calls it was allowed no more than the burst and what the rate adds in their time.
pub start_gateway-allows :
    (env : String → String) (floats : Floats) (cluster : Cluster) (s : Started) (n : ℤ) (d : ℕ)
    (burst : ℤ) (agent : String) (from until later : ℕ) (xs : List Arrival)
    → start_gateway env floats cluster ≡ some s
    → env_float env floats "GATEWAY_RATE_LIMIT_RPS" (finite (pos 5) 0) ≡ some (finite n d)
    → env_int env "GATEWAY_RATE_LIMIT_BURST" (pos 10) ≡ some burst
    → Within from until xs
    → until ≤ later
    → 1_000_000_000 * suc d ≤ (later - until) * pos_part n
    → (lookup agent (run s.limiter xs).buckets ≢ none) ⊎ HasRoom (run s.limiter xs) later
    → (1 ≤ pos_part n)
      × (1 ≤ pos_part burst)
      × ((allow_at (run s.limiter xs) agent later).1 ≡ true)
      × (allowed agent s.limiter xs * (1_000_000_000 * suc d)
          ≤ pos_part burst * (1_000_000_000 * suc d) + (until - from) * pos_part n)
start_gateway-allows env floats cluster s n d burst agent from until later xs started rate size
      served after waited place =
    let c = start_gateway-IsConfigured env floats cluster s n d burst started rate size in
    let serves =
      subst
        (λ (l : AgentLimiter).
          (lookup agent (run l xs).buckets ≢ none) ⊎ HasRoom (run l xs) later
          → ((allow_at (run l xs) agent later).1 ≡ true)
            × (allowed agent l xs * (1_000_000_000 * suc d)
                ≤ pos_part burst * (1_000_000_000 * suc d) + (until - from) * pos_part n))
        (sym c.made)
        (new_agent_limiter-serves (pos_part n) (1_000_000_000 * suc d) (pos_part burst) agent from
          until later xs c.holds served after waited) in
    (c.gains, c.holds, (serves place).0, (serves place).1)

-- The gateway is ready exactly if a poll of the registry has succeeded.
pub readyz_iff :
    (find : List Condition → String → Option Condition) (host : String) (ps : List Poll)
    → (readyz (poll_all find host ps new_registry) ≡ 200) ↔ (last_success none ps ≢ none)
unfolding readyz has_synced
readyz_iff find host ps =
    let snapshot = (polls-IsSnapshot find host ps).synced in
    elim (Bool-cases (poll_all find host ps new_registry).synced) [
      | inl synced ↦ rw synced ((λ h. snapshot.0 synced), λ h. refl)
      | inr waiting ↦ rw waiting ((λ h. absurd (omega (arith, h))), λ h. cc (snapshot.1 h, waiting))
    ]
