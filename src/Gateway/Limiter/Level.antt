-- ===== src/Gateway/Limiter/Level.antt =====
-- The tokens that an agent could draw on at a moment, whether or not it has a bucket.
use portkeeper.Common.{
  ℕ, ◌+◌, ◌-◌, ◌*◌, ◌≤◌, String, true, ◌≡◌, refl, ap, sym, Option, none, some, inl, inr, arith, not,
  if◌then◌else◌, Bool-cases, string_equal,
}
use portkeeper.Common.Int.{
  ℤ, pos, pos_part, neg_part, sub_ℕ, ◌+ℤ◌, ◌*ℕ◌, ◌≤ℤ◌, ltb_ℤ, sub_ℕ-*ℕ, +ℤ_parts, eq_of_parts,
}
use portkeeper.Common.Dict.{lookup, IsDistinct, keep, lookup-retain}
use portkeeper.Gateway.Limiter.{Bucket, AgentLimiter, accrued, is_replenished, evict, refill}

-- A bucket in the state that every call leaves it in.
pub record IsSound (burst now : ℕ) (b : Bucket) : Type 0 where
  pub nonneg : pos 0 ≤ℤ b.tokens
  pub capped : b.tokens ≤ℤ pos burst
  pub past : b.last ≤ now

abbrev pub level_of : AgentLimiter → ℕ → Option Bucket → ℤ
level_of l now none = pos l.burst
level_of l now (some b) = (refill l now b).tokens

-- An agent without a bucket would get a full one.
unfoldable pub level : AgentLimiter → String → ℕ → ℤ
level l agent now = level_of l now (lookup agent l.buckets)

pub accrued_parts :
    (l : AgentLimiter) (now : ℕ) (b : Bucket)
    → pos_part (accrued l now b) + neg_part b.tokens + b.last * l.rate
      ≡ neg_part (accrued l now b) + pos_part b.tokens + now * l.rate
unfolding accrued
accrued_parts l now b =
    omega (arith, +ℤ_parts b.tokens (sub_ℕ now b.last *ℕ l.rate), sub_ℕ-*ℕ now b.last l.rate)

-- The refilled tokens are the smaller of the accrued tokens and the burst.
pub data Refilled (l : AgentLimiter) (now : ℕ) (b : Bucket) : Type 0 where
  full : pos l.burst ≤ℤ accrued l now b → (refill l now b).tokens ≡ pos l.burst → Refilled l now b
  below :
      accrued l now b ≤ℤ pos l.burst → (refill l now b).tokens ≡ accrued l now b → Refilled l now b

pub refill-Refilled : (l : AgentLimiter) (now : ℕ) (b : Bucket) → Refilled l now b
unfolding refill
refill-Refilled l now b = elim (Bool-cases (ltb_ℤ (pos l.burst) (accrued l now b))) [
  | inl over ↦ full (ground arith) (ground arith)
  | inr under ↦ below (ground arith) (ground arith)
]

module _ (l : AgentLimiter) (now : ℕ) (b : Bucket) (sound : IsSound l.burst now b) where
  mul_le : b.last * l.rate ≤ now * l.rate
  mul_le = grind (arith, sound.past)

  -- Between two calls the tokens of a bucket only grow.
  accrued_ge : b.tokens ≤ℤ accrued l now b
  accrued_ge = omega (arith, accrued_parts l now b, mul_le)

  pub refill-IsSound : IsSound l.burst now (refill l now b)
  unfolding refill
  refill-IsSound =
      let ge = accrued_ge in
      let nn = sound.nonneg in
      record { nonneg = ground arith; capped = ground arith; past = omega arith }

-- Waiting adds at most `rate` units for each nanosecond.
pub refill_grows :
    (l : AgentLimiter) (now later : ℕ) (b : Bucket)
    → now ≤ later
    → (refill l later b).tokens ≤ℤ (refill l now b).tokens +ℤ pos ((later - now) * l.rate)
refill_grows l now later b h =
    let split : later * l.rate ≡ now * l.rate + (later - now) * l.rate = grind arith in
    let parts = +ℤ_parts (refill l now b).tokens (pos ((later - now) * l.rate)) in
    ground (
      arith,
      refill-Refilled l now b,
      refill-Refilled l later b,
      accrued_parts l now b,
      accrued_parts l later b,
    )

-- A bucket that has just been refilled gains nothing from a second refill at the same moment.
pub refill_again :
    (l : AgentLimiter) (now : ℕ) (b : Bucket)
    → b.last ≡ now
    → b.tokens ≤ℤ pos l.burst
    → (refill l now b).tokens ≡ b.tokens
refill_again l now b at h =
    let same : b.last * l.rate ≡ now * l.rate = ap (λ (t : ℕ). t * l.rate) at in
    ground (
      arith,
      refill-Refilled l now b,
      accrued_parts l now b,
      eq_of_parts (accrued l now b) b.tokens,
    )

-- The sweep deletes a bucket only if a new one would hold as much.
pub refill_replenished :
    (l : AgentLimiter) (now : ℕ) (b : Bucket)
    → is_replenished l now b ≡ true
    → (refill l now b).tokens ≡ pos l.burst
unfolding is_replenished refill
refill_replenished l now b h = ground (arith, eq_of_parts (accrued l now b) (pos l.burst))

level_of-keep :
    (l : AgentLimiter) (now : ℕ) (o : Option Bucket)
    → level_of l now (keep (λ b. not (is_replenished l now b)) o) ≡ level_of l now o
level_of-keep l now none = refl
level_of-keep l now (some b) = elim (Bool-cases (is_replenished l now b)) [
  | inl idle ↦ rw (idle, if◌then◌else◌) (sym (refill_replenished l now b idle))
  | inr active ↦ rw (active, if◌then◌else◌) refl
]

-- So the sweep changes no agent's level.
pub level-evict :
    (l : AgentLimiter) (agent : String) (now : ℕ)
    → IsDistinct l.buckets
    → level (evict l now) agent now ≡ level l agent now
unfolding level evict refill accrued
level-evict l agent now d =
    rw (lookup-retain (λ b. not (is_replenished l now b)) agent l.buckets d)
      (level_of-keep l now (lookup agent l.buckets))
