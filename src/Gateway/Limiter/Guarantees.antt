-- ===== src/Gateway/Limiter/Guarantees.antt =====
-- What the limiter promises over whole sequences of calls.
use portkeeper.Common.{
  refl, ℕ, ◌+◌, ◌-◌, ◌*◌, ◌≤◌, String, true, false, ◌≡◌, ◌∙◌, ◌≢◌, some, List, [], ◌∷◌, arith, ◌==◌,
  Bool-cases, inl, inr, string_equal,
}
use portkeeper.Common.Int.{pos, ◌≤ℤ◌, ◌-ℤ◌, +ℤ_parts}
use portkeeper.Common.Dict.{lookup, lookup-insert, Values-lookup}
use portkeeper.Gateway.Limiter.{
  Bucket, AgentLimiter, new_agent_limiter, is_replenished, refill, consume, allow_at,
}
use portkeeper.Gateway.Limiter.Level.{IsSound, level, refill-Refilled, accrued_parts}
use portkeeper.Gateway.Limiter.Calls.{IsValid, drawn, refused, Call-cases, evict-kept}
use portkeeper.Gateway.Limiter.Bounds.{
  SameConfig, allow_at-SameConfig, allow_at-IsValid, allow_at_iff, level-allow_at, IsValid-later,
  level_bounds,
}
use portkeeper.Gateway.Limiter.Traces.{Arrival, allowed, Within, allowed-le-level}

pub new_agent_limiter-IsValid :
    (rate one burst now : ℕ) → IsValid now (new_agent_limiter rate one burst)
unfolding new_agent_limiter
new_agent_limiter-IsValid rate one burst now = record {
  distinct = tt;
  sound = tt;
  bounded = omega arith;
}

-- The limiter after a sequence of calls.
unfoldable pub run : AgentLimiter → List Arrival → AgentLimiter
run l [] = l
run l (x ∷ xs) = run (allow_at l x.agent x.at).0 xs

run-IsValid :
    (l : AgentLimiter) (from until : ℕ) (xs : List Arrival)
    → IsValid from l
    → Within from until xs
    → IsValid until (run l xs)
unfolding run
run-IsValid l from until [] v h = IsValid-later l from until h v
run-IsValid l from until (x ∷ xs) v (h, hs) =
    run-IsValid (allow_at l x.agent x.at).0 x.at until xs
      (allow_at-IsValid l x.agent x.at (IsValid-later l from x.at h v)) hs

-- No sequence of calls changes what a limiter was made with.
pub run-SameConfig :
    (l : AgentLimiter) (from until : ℕ) (xs : List Arrival)
    → IsValid from l
    → Within from until xs
    → SameConfig (run l xs) l
unfolding run
run-SameConfig l from until [] v h = (refl, refl, refl, refl)
run-SameConfig l from until (x ∷ xs) v (h, hs) =
    let now = IsValid-later l from x.at h v in
    let rest =
      run-SameConfig (allow_at l x.agent x.at).0 x.at until xs (allow_at-IsValid l x.agent x.at now)
        hs in
    let first = allow_at-SameConfig l x.agent x.at now in
    (rest.0 ∙ first.0, rest.1 ∙ first.1, rest.2 ∙ first.2, rest.3 ∙ first.3)

-- After any sequence of calls of a new limiter at clock readings that do not fall, the keys are
-- distinct, every bucket holds between 0 and `burst` tokens and was refilled in the past, and there
-- are at most `max_agents` buckets.
pub run-new_agent_limiter-IsValid :
    (rate one burst from until : ℕ) (xs : List Arrival)
    → Within from until xs
    → IsValid until (run (new_agent_limiter rate one burst) xs)
run-new_agent_limiter-IsValid rate one burst from until xs h =
    run-IsValid (new_agent_limiter rate one burst) from until xs
      (new_agent_limiter-IsValid rate one burst from) h

-- In any window of calls that a valid limiter serves in clock order, sweeps included, one agent is
-- allowed no more than the burst and what the rate adds over the length of the window.
pub allowed_bound :
    (c : String) (l : AgentLimiter) (from until : ℕ) (xs : List Arrival)
    → IsValid from l
    → Within from until xs
    → allowed c l xs * l.one ≤ l.burst + (until - from) * l.rate
allowed_bound c l from until xs v h = omega (
  arith,
  allowed-le-level c l from until xs v h,
  level_bounds l c from v,
  +ℤ_parts (level l c from) (pos ((until - from) * l.rate)),
)

consume-kept :
    (k : AgentLimiter) (agent c : String) (now : ℕ) (b : Bucket)
    → agent ≢ c
    → lookup c (consume k agent now b).0.buckets ≡ lookup c k.buckets
unfolding consume
consume-kept k agent c now b ne = elim (Bool-cases (agent == c)) [
  | inl e ↦ absurd (ne ((string_equal.equal_iff agent c).0 e))
  | inr e ↦
      let put = λ (x : Bucket). lookup-insert agent c x k.buckets in
      ground (
        arith,
        put (refill k now b),
        e,
        put (record (refill k now b) { tokens = (refill k now b).tokens -ℤ pos k.one }),
      )
]

-- A call of one agent at a valid limiter leaves the level of every other agent as it was, and
-- keeps its bucket as it was unless that is idle and replenished.
pub other_agents_kept :
    (l : AgentLimiter) (agent c : String) (now : ℕ)
    → IsValid now l
    → agent ≢ c
    → (level (allow_at l agent now).0 c now ≡ level l c now)
      × ((x : Bucket)
          → lookup c l.buckets ≡ some x
          → is_replenished l now x ≡ false
          → lookup c (allow_at l agent now).0.buckets ≡ some x)
other_agents_kept l agent c now v ne = (
  ground (arith, level-allow_at l agent now v c, string_equal.equal_iff agent c),
  λ x found active. elim (Call-cases l agent now v) [
    | drawn k b d e ↦ rw (e, consume-kept k agent c now b ne) (d.kept c x found active)
    | refused absent crowded e ↦ rw e (evict-kept l agent now v c x found active)
  ],
)

-- The tokens of a sound bucket after a wait.
refill_waited :
    (l : AgentLimiter) (now later : ℕ) (b : Bucket)
    → IsSound l.burst now b
    → now ≤ later
    → l.one ≤ l.burst
    → l.one ≤ (later - now) * l.rate
    → pos l.one ≤ℤ (refill l later b).tokens
refill_waited l now later b sound h fits waited =
    let split : later * l.rate ≡ now * l.rate + (later - now) * l.rate = grind arith in
    let past : b.last * l.rate ≤ now * l.rate = grind (arith, sound.past) in
    ground (arith, refill-Refilled l later b, accrued_parts l later b, sound)

-- An agent with a bucket is allowed once it has waited for one token, whatever it was refused before,
-- if the burst holds a token.
pub allowed_after_waiting :
    (l : AgentLimiter) (agent : String) (now later : ℕ) (b : Bucket)
    → IsValid now l
    → lookup agent l.buckets ≡ some b
    → now ≤ later
    → l.one ≤ l.burst
    → l.one ≤ (later - now) * l.rate
    → (allow_at l agent later).1 ≡ true
unfolding level
allowed_after_waiting l agent now later b v found h fits waited =
    let sound = Values-lookup (IsSound l.burst now) agent b l.buckets v.sound found in
    (allow_at_iff l agent later (IsValid-later l now later h v)).1
      (rw found (refill_waited l now later b sound h fits waited), inl (rw found (λ e. cc)))
