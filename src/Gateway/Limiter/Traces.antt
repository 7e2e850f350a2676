-- ===== src/Gateway/Limiter/Traces.antt =====
-- Sequences of calls, in the order in which the mutex admits them.
use portkeeper.Common.{
  ℕ, ◌+◌, ◌-◌, ◌*◌, ◌≤◌, String, ◌≡◌, ap, List, [], ◌∷◌, arith, ◌&&◌, ◌==◌, if◌then◌else◌,
  Bool-cases, inl, inr, string_equal,
}
use portkeeper.Common.Int.{pos, pos_part, neg_part, ◌≤ℤ◌, ◌+ℤ◌, +ℤ_parts, -ℤ_parts}
use portkeeper.Gateway.Limiter.{AgentLimiter, allow_at}
use portkeeper.Gateway.Limiter.Level.{level}
use portkeeper.Gateway.Limiter.Calls.{IsValid}
use portkeeper.Gateway.Limiter.Bounds.{
  allow_at-SameConfig, allow_at-IsValid, level-allow_at, IsValid-later, level_bounds, level_grows,
}

-- A call of `Allow`: the agent, and the reading of the clock.
pub record Arrival : Type 0 where
  pub agent : String
  pub at : ℕ

-- How many of the calls of agent `c` are allowed.
unfoldable pub allowed : String → AgentLimiter → List Arrival → ℕ
allowed c l [] = 0
allowed c l (x ∷ xs) =
    (if x.agent == c && (allow_at l x.agent x.at).1 then 1 else 0)
    + allowed c (allow_at l x.agent x.at).0 xs

-- The clock readings do not fall, and lie between `from` and `until`.
abbrev pub Within : ℕ → ℕ → List Arrival → Type 0
Within from until [] = from ≤ until
Within from until (x ∷ xs) = (from ≤ x.at) × Within x.at until xs

Within-le : (from until : ℕ) (xs : List Arrival) → Within from until xs → from ≤ until
Within-le from until [] h = h
Within-le from until (x ∷ xs) (h, hs) = omega (arith, Within-le x.at until xs hs)

mul_split :
    (from at until rate : ℕ)
    → from ≤ at
    → at ≤ until
    → (until - from) * rate ≡ (at - from) * rate + (until - at) * rate
mul_split from at until rate h k = grind arith

-- One call and the calls after it, against the level before.
charge :
    (c : String) (l : AgentLimiter) (x : Arrival)
    → IsValid x.at l
    → pos_part (level l c x.at) + neg_part (level (allow_at l x.agent x.at).0 c x.at)
      ≡ neg_part (level l c x.at)
        + pos_part (level (allow_at l x.agent x.at).0 c x.at)
        + (if x.agent == c && (allow_at l x.agent x.at).1 then 1 else 0) * l.one
charge c l x v =
    let took = -ℤ_parts (level l x.agent x.at) (pos l.one) in
    elim (Bool-cases (x.agent == c)) [
      | inl e ↦
          let same : level l x.agent x.at ≡ level l c x.at =
            ap (λ (a : String). level l a x.at) ((string_equal.equal_iff x.agent c).0 e) in
          rw (level-allow_at l x.agent x.at v c, e) (ground (arith, same, took))
      | inr e ↦ rw (level-allow_at l x.agent x.at v c, e) (omega arith)
    ]

pub allowed-le-level :
    (c : String) (l : AgentLimiter) (from until : ℕ) (xs : List Arrival)
    → IsValid from l
    → Within from until xs
    → pos (allowed c l xs * l.one) ≤ℤ level l c from +ℤ pos ((until - from) * l.rate)
unfolding allowed
allowed-le-level c l from until [] v h =
    omega
      (arith, level_bounds l c from v, +ℤ_parts (level l c from) (pos ((until - from) * l.rate)))
allowed-le-level c l from until (x ∷ xs) v (h, hs) =
    let now : IsValid x.at l = IsValid-later l from x.at h v in
    let (_, same_one, same_rate, _) = allow_at-SameConfig l x.agent x.at now in
    let later = allow_at-IsValid l x.agent x.at now in
    let rest = allowed-le-level c (allow_at l x.agent x.at).0 x.at until xs later hs in
    let step : ℕ = if x.agent == c && (allow_at l x.agent x.at).1 then 1 else 0 in
    let more : ℕ = allowed c (allow_at l x.agent x.at).0 xs in
    omega (
      arith,
      charge c l x now,
      level_grows l c from x.at h,
      rw (same_one, same_rate) at rest,
      mul_split from x.at until l.rate h (Within-le x.at until xs hs),
      +ℤ_parts (level l c from) (pos ((x.at - from) * l.rate)),
      +ℤ_parts (level l c from) (pos ((until - from) * l.rate)),
      +ℤ_parts (level (allow_at l x.agent x.at).0 c x.at) (pos ((until - x.at) * l.rate)),
    )
