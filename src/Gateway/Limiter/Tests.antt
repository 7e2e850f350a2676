-- ===== src/Gateway/Limiter/Tests.antt =====
-- Runs of the rate limiter, and its theorems at concrete inputs.
use portkeeper.Common.{
  ◌+◌, ◌-◌, ◌*◌, ◌≤◌, String, true, false, ◌≡◌, ◌≢◌, ◌↔◌, ◌⊎◌, refl, none, some, List, [], ◌∷◌,
  arith, string_equal,
}
use portkeeper.Common.Int.{pos, ◌≤ℤ◌, ◌+ℤ◌, ◌-ℤ◌, ◌*ℕ◌}
use portkeeper.Common.Dict.{lookup, insert, retain}
use text.Mathlib.TextEquality.{eq_iff}
use portkeeper.Gateway.Limiter.{
  Bucket, AgentLimiter, new_agent_limiter, accrued, is_replenished, evict, bucket_for, refill,
  consume, allow_at,
}
use portkeeper.Gateway.Limiter.Level.{level}
use portkeeper.Gateway.Limiter.Calls.{IsValid, HasRoom}
use portkeeper.Gateway.Limiter.Bounds.{allow_at_iff}
use portkeeper.Gateway.Limiter.Traces.{Arrival, allowed}
use portkeeper.Gateway.Limiter.Guarantees.{
  run, run-new_agent_limiter-IsValid, allowed_bound, other_agents_kept, allowed_after_waiting,
}

limiter_code : Unit {0}
unfolding new_agent_limiter allow_at bucket_for consume refill accrued evict is_replenished lookup
    insert retain ◌+ℤ◌ ◌-ℤ◌ ◌*ℕ◌ allowed level run
limiter_code = tt

-- 2 tokens for each second, and a burst of 2.
abbrev slow : AgentLimiter
slow = record {
  buckets =
      ("ann", record { tokens = pos 0; last = 0 })
      ∷ ("bob", record { tokens = pos 2_000_000_000; last = 0 })
      ∷ [];
  rate = 2;
  one = 1_000_000_000;
  burst = 2_000_000_000;
  max_agents = 2;
  idle_ttl = 900_000_000_000;
}

abbrev arrivals : List Arrival
arrivals =
    record { agent = "ann"; at = 0 }
    ∷ record { agent = "ann"; at = 500_000_000 }
    ∷ record { agent = "ann"; at = 600_000_000 }
    ∷ []

-- Ann is refused, allowed after half a second, and refused at once again.
arrivals-allowed : allowed "ann" slow arrivals ≡ 1
unfolding limiter_code
arrivals-allowed = refl

-- At capacity a new agent is refused while no bucket is idle, and later takes the place of one.
new_agent_refused : (allow_at slow "eve" 1_000_000_000).1 ≡ false
unfolding limiter_code
new_agent_refused = refl

new_agent_admitted : (allow_at slow "eve" 900_000_000_000).1 ≡ true
unfolding limiter_code
new_agent_admitted = refl

slow-IsValid : IsValid 0 slow
unfolding lookup
slow-IsValid = record { distinct = (refl, (refl, tt)); sound = omega arith; bounded = omega arith }

slow_later-IsValid : IsValid 7 slow
slow_later-IsValid = record {
  distinct = slow-IsValid.distinct;
  sound = omega arith;
  bounded = omega arith;
}

allow_at_iff_example : ((allow_at slow "bob" 0).1 ≡ true) ↔ (
    (pos 1_000_000_000 ≤ℤ level slow "bob" 0)
    × ((lookup "bob" slow.buckets ≢ none) ⊎ HasRoom slow 0))
allow_at_iff_example = allow_at_iff slow "bob" 0 slow-IsValid

run-new_agent_limiter-IsValid_example :
    IsValid 700_000_000 (run (new_agent_limiter 5 1_000_000_000 10) arrivals)
run-new_agent_limiter-IsValid_example =
    run-new_agent_limiter-IsValid 5 1_000_000_000 10 0 700_000_000 arrivals (omega arith)

allowed_bound_example :
    allowed "ann" slow arrivals * 1_000_000_000 ≤ 2_000_000_000 + (700_000_000 - 0) * 2
allowed_bound_example = allowed_bound "ann" slow 0 700_000_000 arrivals slow-IsValid (omega arith)

ann-ne-bob : ◌≢◌ {A = String} "ann" "bob"
ann-ne-bob = ground (arith, eq_iff "ann" "bob")

other_agents_kept_example :
    (level (allow_at slow "ann" 7).0 "bob" 7 ≡ level slow "bob" 7)
    × ((x : Bucket)
        → lookup "bob" slow.buckets ≡ some x
        → is_replenished slow 7 x ≡ false
        → lookup "bob" (allow_at slow "ann" 7).0.buckets ≡ some x)
other_agents_kept_example = other_agents_kept slow "ann" "bob" 7 slow_later-IsValid ann-ne-bob

allowed_after_waiting_example : (allow_at slow "ann" 500_000_000).1 ≡ true
unfolding lookup
allowed_after_waiting_example =
    allowed_after_waiting slow "ann" 0 500_000_000 (record { tokens = pos 0; last = 0 })
      slow-IsValid refl (omega arith) (omega arith) (omega arith)
