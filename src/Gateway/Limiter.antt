-- ===== src/Gateway/Limiter.antt =====
-- internal/gateway/ratelimit.go: one token bucket for each agent.
-- Tokens are exact: a token is `one` units, and `rate` units are added in a nanosecond, so that every
-- rational rate has a model. Readings of the monotonic clock are in nanoseconds.
pub mod Level
pub mod Calls
pub mod Bounds
pub mod Traces
pub mod Guarantees
mod Tests
use portkeeper.Common.{
  ℕ, ◌*◌, String, Bool, true, false, ◌&&◌, not, Option, none, some, List, [], leb, if◌then◌else◌,
  length, string_equal,
}
use portkeeper.Common.Int.{ℤ, pos, sub_ℕ, ◌+ℤ◌, ◌-ℤ◌, ◌*ℕ◌, leb_ℤ, ltb_ℤ}
use portkeeper.Common.Dict.{lookup, insert, retain}

pub record Bucket : Type 0 where
  pub tokens : ℤ
  pub last : ℕ

pub record AgentLimiter : Type 0 where
  pub buckets : List (String × Bucket)
  pub rate : ℕ
  pub one : ℕ
  pub burst : ℕ
  pub max_agents : ℕ
  pub idle_ttl : ℕ

abbrev pub max_limiter_agents : ℕ
max_limiter_agents = 10000

-- 15 minutes
abbrev pub default_idle_ttl : ℕ
default_idle_ttl = 900_000_000_000

-- `rps` is the ratio of `rate` to `one`, in units of a nanosecond.
unfoldable pub new_agent_limiter : (rate one burst : ℕ) → AgentLimiter
new_agent_limiter rate one burst = record {
  buckets = [];
  rate = rate;
  one = one;
  burst = burst * one;
  max_agents = max_limiter_agents;
  idle_ttl = default_idle_ttl;
}

-- `tokens + now.Sub(last).Seconds()*rate`
unfoldable pub accrued : AgentLimiter → ℕ → Bucket → ℤ
accrued l now b = b.tokens +ℤ sub_ℕ now b.last *ℕ l.rate

-- The condition under which the sweep deletes an entry.
unfoldable pub is_replenished : AgentLimiter → ℕ → Bucket → Bool
is_replenished l now b =
    leb_ℤ (pos l.idle_ttl) (sub_ℕ now b.last) && leb_ℤ (pos l.burst) (accrued l now b)

-- The sweep over all buckets.
unfoldable pub evict : AgentLimiter → ℕ → AgentLimiter
evict l now = record l { buckets = retain (λ b. not (is_replenished l now b)) l.buckets }

-- The bucket of the agent, found or made, after the sweep that a new agent may need.
unfoldable pub bucket_for : AgentLimiter → String → ℕ → AgentLimiter × Option Bucket
bucket_for l agent now = elim (lookup agent l.buckets) [
  | some b ↦ (l, some b)
  | none ↦
      let fresh : Bucket = record { tokens = pos l.burst; last = now } in
      if leb l.max_agents (length l.buckets)
      then (if leb l.max_agents (length (evict l now).buckets)
          then (evict l now, none)
          else (evict l now, some fresh))
      else (l, some fresh)
]

-- Refill, capped at burst.
unfoldable pub refill : AgentLimiter → ℕ → Bucket → Bucket
refill l now b = record {
  tokens = if ltb_ℤ (pos l.burst) (accrued l now b) then pos l.burst else accrued l now b;
  last = now;
}

-- The bucket of the agent is refilled in place, and gives a token if it has one.
unfoldable pub consume : AgentLimiter → String → ℕ → Bucket → AgentLimiter × Bool
consume l agent now b =
    let full = refill l now b in
    if ltb_ℤ full.tokens (pos l.one)
    then (record l { buckets = insert agent full l.buckets }, false)
    else (
      record l {
        buckets = insert agent (record full { tokens = full.tokens -ℤ pos l.one }) l.buckets;
      },
      true,
    )

use_bucket : String → ℕ → AgentLimiter × Option Bucket → AgentLimiter × Bool
use_bucket agent now (l, none) = (l, false)
use_bucket agent now (l, some b) = consume l agent now b

unfoldable pub allow_at : AgentLimiter → String → ℕ → AgentLimiter × Bool
unfolding use_bucket
allow_at l agent now = use_bucket agent now (bucket_for l agent now)
