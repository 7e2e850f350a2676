-- ===== src/Gateway/Registry/Polling.antt =====
-- `Start` of internal/gateway/registry.go: the loop of polls behind a ticker of 5 seconds. The ticker
-- holds one tick at most, so that a poll that takes longer than the interval is followed at once by the
-- next one, and further ticks are dropped. Times are nanoseconds since the ticker was made.
pub mod Freshness
use portkeeper.Common.{
  ℕ, ◌+◌, ◌*◌, ◌/◌, ◌≤◌, Bool, true, false, ◌≡◌, Option, none, some, List, [], ◌∷◌, if◌then◌else◌,
  leb, ltb, ◌||◌, arith,
}
use portkeeper.Api.{McpServer}
use portkeeper.Gateway.Registry.Refresh.{Poll}

-- 5 seconds
abbrev pub poll_interval : ℕ
poll_interval = 5_000_000_000

-- A list call: how long the poll takes with it, and what it returns.
pub record ListCall : Type 0 where
  pub took : ℕ
  pub items : Option (List McpServer)

-- The first tick after a time.
abbrev pub next_tick : ℕ → ℕ
next_tick t = (t / poll_interval + 1) * poll_interval

abbrev pub later : ℕ → ℕ → ℕ
later a b = if leb a b then b else a

-- When the poll after one that began at `at` begins.
unfoldable pub next_poll : (at took : ℕ) → ℕ
next_poll at took = later (at + took) (next_tick at)

-- The polls that have ended by `now`, of those that begin at `at`.
unfoldable pub polls_by : (now at : ℕ) → List ListCall → List Poll
polls_by now at [] = []
polls_by now at (c ∷ cs) =
    let rest = record { at = at; items = c.items } ∷ polls_by now (next_poll at c.took) cs in
    if leb (at + c.took) now then rest else []

-- The polls of `Start`, which begins the first one at once.
abbrev pub start : (now : ℕ) → List ListCall → List Poll
start now calls = polls_by now 0 calls
