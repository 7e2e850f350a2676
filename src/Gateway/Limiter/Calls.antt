-- ===== src/Gateway/Limiter/Calls.antt =====
-- What one call of the limiter does, on each of its branches.
use portkeeper.Common.{
  ℕ, ◌≤◌, ◌<◌, String, false, ◌≡◌, refl, none, some, ◌⊎◌, inl, inr, arith, length, leb,
  if◌then◌else◌, Bool-cases, Option-cases, string_equal, not,
}
use portkeeper.Common.Int.{pos}
use portkeeper.Common.Dict.{
  lookup, IsDistinct, Values, Values-retain, Values-lookup, retain-IsDistinct, keep,
  length-retain-le, lookup-retain,
}
use portkeeper.Gateway.Limiter.{
  Bucket, AgentLimiter, evict, refill, is_replenished, consume, bucket_for, allow_at,
}
use portkeeper.Gateway.Limiter.Level.{IsSound, level, level-evict, refill_again}

-- The state that the limiter is in after a call at `now` or earlier.
pub record IsValid (now : ℕ) (l : AgentLimiter) : Type 0 where
  pub distinct : IsDistinct l.buckets
  pub sound : Values (IsSound l.burst now) l.buckets
  pub bounded : length l.buckets ≤ l.max_agents

-- A new agent can be given a bucket, if need be after a sweep.
abbrev pub HasRoom : AgentLimiter → ℕ → Type 0
HasRoom l now = (length l.buckets < l.max_agents) ⊎ (length (evict l now).buckets < l.max_agents)

pub evict-IsValid : (now : ℕ) (l : AgentLimiter) → IsValid now l → IsValid now (evict l now)
unfolding evict
evict-IsValid now l v = record {
  distinct = retain-IsDistinct _ l.buckets v.distinct;
  sound = Values-retain (IsSound l.burst now) _ l.buckets v.sound;
  bounded =
      omega (arith, length-retain-le (λ b. not (is_replenished l now b)) l.buckets, v.bounded);
}

-- The bucket `b` that a call draws on, in the limiter `k` that the sweep has left.
pub record Drawn (l : AgentLimiter) (agent : String) (now : ℕ) (k : AgentLimiter) (b : Bucket)
    : Type 0 where
  pub valid : IsValid now k
  pub sound : IsSound k.burst now b
  pub same :
      (k.burst ≡ l.burst) × (k.one ≡ l.one) × (k.rate ≡ l.rate) × (k.max_agents ≡ l.max_agents)
  pub levels : (c : String) → level k c now ≡ level l c now
  pub kept :
      (c : String) (x : Bucket)
      → lookup c l.buckets ≡ some x
      → is_replenished l now x ≡ false
      → lookup c k.buckets ≡ some x
  pub holds : (refill k now b).tokens ≡ level l agent now
  pub place :
      (lookup agent k.buckets ≡ some b)
      ⊎ ((lookup agent k.buckets ≡ none) × (length k.buckets < k.max_agents))
  pub entitled :
      (lookup agent l.buckets ≡ some b) ⊎ ((lookup agent l.buckets ≡ none) × HasRoom l now)

pub data Call (l : AgentLimiter) (agent : String) (now : ℕ) : Type 0 where
  drawn :
      (k : AgentLimiter) (b : Bucket)
      → Drawn l agent now k b
      → allow_at l agent now ≡ consume k agent now b
      → Call l agent now
  refused :
      lookup agent l.buckets ≡ none
      → ¬ HasRoom l now
      → allow_at l agent now ≡ (evict l now, false)
      → Call l agent now

fresh_bucket : AgentLimiter → ℕ → Bucket
fresh_bucket l now = record { tokens = pos l.burst; last = now }

module _ (l : AgentLimiter) (agent : String) (now : ℕ) (v : IsValid now l) where
  known-Call : (b : Bucket) → lookup agent l.buckets ≡ some b → Call l agent now
  unfolding allow_at bucket_for level
  known-Call b e =
      drawn l b
        (record {
          valid = v;
          sound = Values-lookup (IsSound l.burst now) agent b l.buckets v.sound e;
          same = (refl, refl, refl, refl);
          levels = λ c. refl;
          kept = λ c x found active. found;
          holds = rw e refl;
          place = inl e;
          entitled = inl e;
        })
        (rw (e, bucket_for) refl)

  new-Call :
      (k : AgentLimiter)
      → lookup agent l.buckets ≡ none
      → HasRoom l now
      → lookup agent k.buckets ≡ none
      → length k.buckets < k.max_agents
      → IsValid now k
      → (k.burst ≡ l.burst) × (k.one ≡ l.one) × (k.rate ≡ l.rate) × (k.max_agents ≡ l.max_agents)
      → ((c : String) → level k c now ≡ level l c now)
      → ((c : String) (x : Bucket)
          → lookup c l.buckets ≡ some x
          → is_replenished l now x ≡ false
          → lookup c k.buckets ≡ some x)
      → allow_at l agent now ≡ consume k agent now (fresh_bucket k now)
      → Call l agent now
  unfolding fresh_bucket level
  new-Call k absent room gone space valid same levels kept result =
      drawn k (fresh_bucket k now)
        (record {
          valid = valid;
          sound = omega arith;
          same = same;
          levels = levels;
          kept = kept;
          holds =
              rw absent
                (ground (arith, refill_again k now (record { tokens = pos k.burst; last = now })));
          place = inr (gone, space);
          entitled = inr (absent, room);
        })
        result

  evict-absent : lookup agent l.buckets ≡ none → lookup agent (evict l now).buckets ≡ none
  unfolding evict
  evict-absent absent = rw (lookup-retain _ agent l.buckets v.distinct, absent) refl

  -- The sweep spares every bucket that is not replenished.
  pub evict-kept :
      (c : String) (x : Bucket)
      → lookup c l.buckets ≡ some x
      → is_replenished l now x ≡ false
      → lookup c (evict l now).buckets ≡ some x
  unfolding evict
  evict-kept c x found active =
      rw (lookup-retain (λ b. not (is_replenished l now b)) c l.buckets v.distinct, found, keep)
        (rw (active, if◌then◌else◌) refl)

  swept-Call : lookup agent l.buckets ≡ none → l.max_agents ≤ length l.buckets → Call l agent now
  unfolding allow_at bucket_for fresh_bucket
  swept-Call absent crowded = elim (Bool-cases (leb l.max_agents (length (evict l now).buckets))) [
    | inl still ↦ refused absent (λ room. ground arith) (ground arith)
    | inr space ↦
        new-Call (evict l now) absent (inr (ground arith)) (evict-absent absent)
          (unfold evict in ground arith) (evict-IsValid now l v)
          (unfold evict in (refl, refl, refl, refl)) (λ c. level-evict l c now v.distinct)
          evict-kept (unfold evict in ground arith)
  ]

  pub Call-cases : Call l agent now
  unfolding allow_at bucket_for fresh_bucket
  Call-cases = elim (Option-cases (lookup agent l.buckets)) [
    | inr (b, e) ↦ known-Call b e
    | inl absent ↦ elim (Bool-cases (leb l.max_agents (length l.buckets))) [
      | inl crowded ↦ swept-Call absent (ground arith)
      | inr space ↦
          new-Call l absent (inl (ground arith)) absent (ground arith) v (refl, refl, refl, refl)
            (λ c. refl) (λ c x found active. found) (ground arith)
    ]
  ]
