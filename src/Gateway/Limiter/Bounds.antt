-- ===== src/Gateway/Limiter/Bounds.antt =====
-- The rate that the limiter enforces, and what one agent's calls do to another's.
use portkeeper.Common.{
  ℕ, ◌-◌, ◌*◌, ◌≤◌, String, true, ◌≡◌, ◌≢◌, ◌↔◌, refl, ap, ◌∙◌, none, ◌⊎◌, inl, inr, List, [], ◌∷◌,
  arith, if◌then◌else◌, ◌==◌, Bool-cases, Option-cases, string_equal,
}
use portkeeper.Common.Int.{ℤ, pos, ◌≤ℤ◌, ◌+ℤ◌, ◌-ℤ◌, ltb_ℤ, +ℤ_parts, -ℤ_parts}
use portkeeper.Common.Dict.{
  lookup, insert, Values, Values-insert, Values-lookup, insert-IsDistinct, length-insert_new,
  length-insert_old, lookup-insert,
}
use portkeeper.Gateway.Limiter.{Bucket, AgentLimiter, accrued, evict, refill, consume, allow_at}
use portkeeper.Gateway.Limiter.Level.{
  IsSound, level, level-evict, refill_again, refill_grows, refill-IsSound,
}
use portkeeper.Gateway.Limiter.Calls.{
  IsValid, HasRoom, Drawn, drawn, refused, Call-cases, evict-IsValid,
}

-- What stays fixed in every call.
abbrev pub SameConfig : AgentLimiter → AgentLimiter → Type 0
SameConfig k l =
    (k.burst ≡ l.burst) × (k.one ≡ l.one) × (k.rate ≡ l.rate) × (k.max_agents ≡ l.max_agents)

module _ (k : AgentLimiter) (agent : String) (now : ℕ) (b : Bucket) where
  consume-SameConfig : SameConfig (consume k agent now b).0 k
  unfolding consume
  consume-SameConfig = ground arith

  consume_iff : ((consume k agent now b).1 ≡ true) ↔ (pos k.one ≤ℤ (refill k now b).tokens)
  unfolding consume
  consume_iff = ground arith

  put-level :
      (x : Bucket) (c : String)
      → level (record k { buckets = insert agent x k.buckets }) c now
        ≡ (if agent == c then (refill k now x).tokens else level k c now)
  unfolding level refill accrued
  put-level x c = rw (lookup-insert agent c x k.buckets) (elim (Bool-cases (agent == c)) [
    | inl e ↦ rw (e, if◌then◌else◌) refl
    | inr e ↦ rw (e, if◌then◌else◌) refl
  ])

  -- The level of the agent falls by a token if one is given, and no other level changes.
  consume-level :
      IsSound k.burst now b
      → (c : String)
      → level (consume k agent now b).0 c now ≡ (
          if agent == c
          then (if (consume k agent now b).1
              then (refill k now b).tokens -ℤ pos k.one
              else (refill k now b).tokens)
          else level k c now)
  unfolding consume
  consume-level sound c =
      let full = refill-IsSound k now b sound in
      let last : (refill k now b).last ≡ now = unfold refill in refl in
      elim (Bool-cases (ltb_ℤ (refill k now b).tokens (pos k.one))) [
        | inl short ↦
            rw (short, if◌then◌else◌)
              (put-level (refill k now b) c
                ∙ ap (λ (t : ℤ). if agent == c then t else level k c now)
                    (refill_again k now (refill k now b) last full.capped))
        | inr enough ↦
            rw (enough, if◌then◌else◌)
              (put-level _ c
                ∙ ap (λ (t : ℤ). if agent == c then t else level k c now)
                    (refill_again k now _ last
                      (omega (arith, -ℤ_parts (refill k now b).tokens (pos k.one)))))
      ]

  -- Writing a sound bucket back keeps the limiter valid.
  put-IsValid :
      {l : AgentLimiter} (x : Bucket)
      → Drawn l agent now k b
      → IsSound k.burst now x
      → IsValid now (record k { buckets = insert agent x k.buckets })
  put-IsValid x d sound = record {
    distinct = insert-IsDistinct agent x k.buckets d.valid.distinct;
    sound = Values-insert (IsSound k.burst now) agent x k.buckets sound d.valid.sound;
    bounded = elim d.place [
      | inl old ↦ rw (length-insert_old agent x b k.buckets old) d.valid.bounded
      | inr (new, room) ↦ rw (length-insert_new agent x k.buckets new) room
    ];
  }

  consume-IsValid :
      {l : AgentLimiter} → Drawn l agent now k b → IsValid now (consume k agent now b).0
  unfolding consume
  consume-IsValid d =
      let full = refill-IsSound k now b d.sound in
      elim (Bool-cases (ltb_ℤ (refill k now b).tokens (pos k.one))) [
        | inl short ↦ rw (short, if◌then◌else◌) (put-IsValid (refill k now b) d full)
        | inr enough ↦
            let covered : pos k.one ≤ℤ (refill k now b).tokens = ground arith in
            rw (enough, if◌then◌else◌)
              (put-IsValid _ d (omega (arith, -ℤ_parts (refill k now b).tokens (pos k.one), full)))
      ]

module _ (l : AgentLimiter) (agent : String) (now : ℕ) (v : IsValid now l) where
  pub allow_at-SameConfig : SameConfig (allow_at l agent now).0 l
  allow_at-SameConfig = elim (Call-cases l agent now v) [
    | drawn k b d e ↦ rw e (ground (arith, d.same, consume-SameConfig k agent now b))
    | refused absent full e ↦ rw e (unfold evict in (refl, refl, refl, refl))
  ]

  -- Every call leaves the limiter valid.
  pub allow_at-IsValid : IsValid now (allow_at l agent now).0
  allow_at-IsValid = elim (Call-cases l agent now v) [
    | drawn k b d e ↦ rw e (consume-IsValid k agent now b d)
    | refused absent full e ↦ rw e (evict-IsValid now l v)
  ]

  -- A call is allowed exactly when the agent has a token and has, or can get, a bucket.
  pub allow_at_iff :
      ((allow_at l agent now).1 ≡ true)
      ↔ ((pos l.one ≤ℤ level l agent now) × ((lookup agent l.buckets ≢ none) ⊎ HasRoom l now))
  allow_at_iff = elim (Call-cases l agent now v) [
    | drawn k b d e ↦ rw e (ground (arith, consume_iff k agent now b, d.holds, d.same, d.entitled))
    | refused absent crowded e ↦ rw e (
      (λ h. cc),
      λ h. elim h.1 [ inl known ↦ absurd (known absent) | inr room ↦ absurd (crowded room) ],
    )
  ]

  -- A call takes one token from its agent if it is allowed, and none from any other agent.
  pub level-allow_at :
      (c : String)
      → level (allow_at l agent now).0 c now ≡ (
          if agent == c
          then (if (allow_at l agent now).1
              then level l agent now -ℤ pos l.one
              else level l agent now)
          else level l c now)
  level-allow_at c = elim (Call-cases l agent now v) [
    | drawn k b d e ↦
        rw (e, consume-level k agent now b d.sound c, d.holds, d.levels c, d.same.1) refl
    | refused absent crowded e ↦
        rw (e, level-evict l c now v.distinct) (ground (arith, string_equal.equal_iff agent c))
  ]

-- A limiter that is valid at a moment is valid at every later one.
pub IsValid-later :
    (l : AgentLimiter) (now later : ℕ) → now ≤ later → IsValid now l → IsValid later l
IsValid-later l now later h v = record {
  distinct = v.distinct;
  sound = go l.buckets v.sound;
  bounded = v.bounded;
}
  where
    go :
        (m : List (String × Bucket))
        → Values (IsSound l.burst now) m
        → Values (IsSound l.burst later) m
    go [] s = tt
    go (x ∷ m) s = (omega arith, go m s.1)

-- The level of an agent lies between nothing and the burst.
pub level_bounds :
    (l : AgentLimiter) (c : String) (now : ℕ)
    → IsValid now l
    → (pos 0 ≤ℤ level l c now) × (level l c now ≤ℤ pos l.burst)
unfolding level
level_bounds l c now v = elim (Option-cases (lookup c l.buckets)) [
  | inl absent ↦ rw absent (omega arith)
  | inr (b, found) ↦
      let full =
        refill-IsSound l now b (Values-lookup (IsSound l.burst now) c b l.buckets v.sound found) in
      rw found (full.nonneg, full.capped)
]

-- Waiting adds at most `rate` units for each nanosecond.
pub level_grows :
    (l : AgentLimiter) (c : String) (now later : ℕ)
    → now ≤ later
    → level l c later ≤ℤ level l c now +ℤ pos ((later - now) * l.rate)
unfolding level
level_grows l c now later h = elim (Option-cases (lookup c l.buckets)) [
  | inl absent ↦ rw absent (omega (arith, +ℤ_parts (pos l.burst) (pos ((later - now) * l.rate))))
  | inr (b, found) ↦ rw found (refill_grows l now later b h)
]
