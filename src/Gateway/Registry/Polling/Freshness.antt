-- ===== src/Gateway/Registry/Polling/Freshness.antt =====
-- How old a policy can get while the API answers.
use portkeeper.Common.{
  ℕ, String, ◌+◌, ◌*◌, ◌≤◌, ◌<◌, Bool, true, false, ◌≡◌, refl, ap, ◌∙◌, Option, none, some, List,
  [], ◌∷◌, if◌then◌else◌, leb, ◌||◌, ◌⊎◌, arith, inl, inr, Bool-cases, All-imp,
}
use portkeeper.Common.Dict.{Values}
use portkeeper.Api.{Condition, McpServer}
use portkeeper.Gateway.Registry.{policy_max_age, name_equal, new_registry}
use portkeeper.Gateway.Registry.Refresh.{last_success, poll_all, polls-IsSnapshot}
use portkeeper.Gateway.Registry.Polling.{poll_interval, ListCall, next_poll, polls_by, start}

abbrev pub answers : Option (List McpServer) → Bool
answers none = false
answers (some _) = true

-- No call takes longer than the interval, less a delay, and none fails after one that failed.
unfoldable pub IsSteady : (delay : ℕ) (before : Bool) → List ListCall → Type 0
IsSteady delay before [] = Unit
IsSteady delay before (c ∷ cs) =
    (c.took + delay ≤ poll_interval)
    × ((before || answers c.items) ≡ true)
    × IsSteady delay (answers c.items) cs

-- Not all of the calls have ended by `now`.
unfoldable pub IsRunning : (now at : ℕ) → List ListCall → Type 0
IsRunning now at [] = ⊥
IsRunning now at (c ∷ cs) = (now < at + c.took) ⊎ IsRunning now (next_poll at c.took) cs

next_poll-le : (at took : ℕ) → took ≤ poll_interval → next_poll at took ≤ at + poll_interval
unfolding next_poll
next_poll-le at took h = ground arith

-- How long after the last success a poll can begin.
abbrev slack : (before : Bool) → ℕ
slack before = if before then poll_interval else 2 * poll_interval

still :
    (now at took : ℕ) (cs : List ListCall)
    → (now < at + took) ⊎ IsRunning now (next_poll at took) cs
    → at + took ≤ now
    → IsRunning now (next_poll at took) cs
still now at took cs (inl short) ended = absurd (omega arith)
still now at took cs (inr going) ended = going

slack_bound : (before : Bool) → slack before ≤ 2 * poll_interval
slack_bound true = omega arith
slack_bound false = omega arith

-- What one call leaves: the last success, and when the next poll begins.
next_poll-slack :
    (since at took : ℕ) (before : Bool) (items : Option (List McpServer))
    → at ≤ since + slack before
    → took ≤ poll_interval
    → (before || answers items) ≡ true
    → (seen : ℕ) × (◌≡◌ {A = Option ℕ}
        (elim items [ none ↦ some since | some _ ↦ some at ])
        (some seen))
      × (next_poll at took ≤ seen + slack (answers items))
next_poll-slack since at took true none recent quick kept =
    (since, refl, omega (arith, next_poll-le at took quick))
next_poll-slack since at took false none recent quick kept = cc
next_poll-slack since at took before (some items) recent quick kept =
    (at, refl, next_poll-le at took quick)

polls_by-fresh :
    (delay now at since : ℕ) (before : Bool) (cs : List ListCall)
    → at ≤ since + slack before
    → IsSteady delay before cs
    → IsRunning now at cs
    → (seen : ℕ) × (last_success (some since) (polls_by now at cs) ≡ some seen)
      × (now + delay ≤ seen + policy_max_age)
unfolding polls_by last_success IsSteady IsRunning
polls_by-fresh delay now at since before [] recent steady running = absurd running
polls_by-fresh delay now at since before (c ∷ cs) recent (quick, kept, steady) running =
    elim (Bool-cases (leb (at + c.took) now)) [
      | inr unfinished ↦ rw unfinished (since, refl, ground (arith, slack_bound before))
      | inl finished ↦
          let (last, e, soon) =
            next_poll-slack since at c.took before c.items recent (omega (arith, quick)) kept in
          let going = still now at c.took cs running (ground arith) in
          let (seen, e_seen, fresh) =
            polls_by-fresh delay now (next_poll at c.took) last (answers c.items) cs soon steady
              going in
          rw finished (
            seen,
            ap (λ o. last_success o (polls_by now (next_poll at c.took) cs)) e ∙ e_seen,
            fresh,
          )
    ]

answers_lem :
    (items : Option (List McpServer)) (at : ℕ)
    → answers items ≡ true
    → ◌≡◌ {A = Option ℕ} (elim items [ none ↦ none | some _ ↦ some at ]) (some at)
answers_lem none at h = cc
answers_lem (some items) at h = refl

start-last :
    (delay now : ℕ) (first : ListCall) (calls : List ListCall)
    → first.took + delay ≤ poll_interval
    → answers first.items ≡ true
    → IsSteady delay true calls
    → first.took ≤ now
    → IsRunning now (next_poll 0 first.took) calls
    → (seen : ℕ) × (last_success none (start now (first ∷ calls)) ≡ some seen)
      × (now + delay ≤ seen + policy_max_age)
unfolding polls_by last_success
start-last delay now first calls quick answered steady ended running =
    let (seen, e, fresh) =
      polls_by-fresh delay now (next_poll 0 first.took) 0 true calls
        (next_poll-le 0 first.took (omega (arith, quick))) steady running in
    let done : leb (0 + first.took) now ≡ true = ground arith in
    rw done (
      seen,
      ap (λ o. last_success o (polls_by now (next_poll 0 first.took) calls))
            (answers_lem first.items 0 answered)
          ∙ e,
      fresh,
    )

-- While calls go on that, with a delay, take 5 seconds at most, and of which no two in a row fail, a policy
-- is never older than the router accepts: once the first call has succeeded, every backend of the registry
-- was observed 15 seconds ago or later, even when the delay has passed, whatever the instant.
pub start-fresh :
    (find : List Condition → String → Option Condition) (host : String) (delay now : ℕ)
    (first : ListCall) (calls : List ListCall)
    → first.took + delay ≤ poll_interval
    → answers first.items ≡ true
    → IsSteady delay true calls
    → first.took ≤ now
    → IsRunning now (next_poll 0 first.took) calls
    → ((poll_all find host (start now (first ∷ calls)) new_registry).synced ≡ true)
      × Values
          (λ b. now + delay ≤ b.policy_observed_at + policy_max_age)
          (poll_all find host (start now (first ∷ calls)) new_registry).backends
start-fresh find host delay now first calls quick answered steady ended running =
    let polls = start now (first ∷ calls) in
    let (seen, last, fresh) =
      start-last delay now first calls quick answered steady ended running in
    let s = polls-IsSnapshot find host polls in
    (
      s.synced.1 (λ e. cc (last, e)),
      All-imp (λ entry. last_success none polls ≡ some (entry.1).policy_observed_at)
          (λ entry. now + delay ≤ (entry.1).policy_observed_at + policy_max_age)
          (λ entry e.
            let same : seen ≡ (entry.1).policy_observed_at = cc (last, e) in rw (← same) fresh)
          (poll_all find host polls new_registry).backends s.observed,
    )
