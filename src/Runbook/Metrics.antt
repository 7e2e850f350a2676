-- ===== src/Runbook/Metrics.antt =====
-- `observe` of internal/runbookmcp/metrics.go. A handler that panics returns nothing; the readings of
-- the clock are arguments.
pub mod Counting
use portkeeper.Common.{
  ℕ, String, Bool, true, false, ◌&&◌, ◌||◌, Option, none, some, List, [], ◌∷◌, ◌==◌, if◌then◌else◌,
  string_equal, count,
}
use portkeeper.Common.Int.{ℤ, sub_ℕ}
use portkeeper.Benchmark.Calls.{ToolResult}
use portkeeper.Runbook.{
  ServerError, unknown_runbook, unreadable_runbook, context_ended, notify_failed, Completed,
}

pub record Labels : Type 0 where
  pub tool : String
  pub outcome : String

pub record Observed : Type 0 where
  pub labels : Labels
  pub duration : ℤ

-- The increments of the counter, and the observations of the histogram.
pub record ToolMetrics : Type 0 where
  pub invocations : List Labels
  pub durations : List Observed

abbrev pub new_tool_metrics : ToolMetrics
new_tool_metrics = record { invocations = []; durations = [] }

-- `errors.Is(err, context.Canceled) || errors.Is(err, context.DeadlineExceeded)`
unfoldable pub is_cancellation : Option ServerError → Bool
is_cancellation none = false
is_cancellation (some unknown_runbook) = false
is_cancellation (some unreadable_runbook) = false
is_cancellation (some context_ended) = true
is_cancellation (some (notify_failed cancelled)) = cancelled

is_failed : Option ServerError → Bool
is_failed none = false
is_failed (some e) = true

is_tool_error : Option ToolResult → Bool
is_tool_error none = false
is_tool_error (some r) = r.is_error

-- `none` is a handler that panicked, whose error is nil.
unfoldable pub outcome_of : (over : Bool) → Option Completed → String
unfolding is_failed is_tool_error
outcome_of over none = if over then "cancelled" else "error"
outcome_of over (some c) =
    if over || is_cancellation c.error
    then "cancelled"
    else if is_failed c.error || is_tool_error c.result
    then "error"
    else "success"

-- The state of the metrics after a call, of which the handler came to `c`.
unfoldable pub observe :
    (tool : String) (over : Bool) (start end : ℕ) → Option Completed → ToolMetrics → ToolMetrics
observe tool over start end c m =
    let labels : Labels = record { tool = tool; outcome = outcome_of over c } in
    record {
      invocations = labels ∷ m.invocations;
      durations = record { labels = labels; duration = sub_ℕ end start } ∷ m.durations;
    }

-- The value of a counter, and the number of samples of a histogram.
abbrev pub has_labels : (tool outcome : String) → Labels → Bool
has_labels tool outcome l = l.tool == tool && l.outcome == outcome

abbrev pub invocations_of : (tool outcome : String) → ToolMetrics → ℕ
invocations_of tool outcome m = count (has_labels tool outcome) m.invocations

abbrev pub samples_of : (tool outcome : String) → ToolMetrics → ℕ
samples_of tool outcome m = count (λ o. has_labels tool outcome o.labels) m.durations
