-- ===== src/Runbook/Metrics/Counting.antt =====
-- What the metrics of the tools say of the executions.
use portkeeper.Common.{
  ℕ, String, Bool, ◌&&◌, ◌≡◌, refl, Option, List, [], ◌∷◌, ◌==◌, string_equal, count, arith,
}
use portkeeper.Runbook.{Completed}
use portkeeper.Runbook.Metrics.{
  ToolMetrics, outcome_of, new_tool_metrics, observe, invocations_of, samples_of,
}

-- A call as the metrics see it.
pub record Execution : Type 0 where
  pub tool : String
  pub over : Bool
  pub start : ℕ
  pub end : ℕ
  pub completed : Option Completed

abbrev pub labelled : (tool outcome : String) → Execution → Bool
labelled tool outcome e = e.tool == tool && outcome_of e.over e.completed == outcome

unfoldable pub observe_all : List Execution → ToolMetrics → ToolMetrics
observe_all [] m = m
observe_all (e ∷ es) m = observe e.tool e.over e.start e.end e.completed (observe_all es m)

-- From fresh metrics on, a counter and its histogram both hold the number of the executions with that
-- tool and that outcome, however they ended.
pub observe_all-counts :
    (es : List Execution) (tool outcome : String)
    → (invocations_of tool outcome (observe_all es new_tool_metrics)
        ≡ count (labelled tool outcome) es)
      × (samples_of tool outcome (observe_all es new_tool_metrics)
          ≡ count (labelled tool outcome) es)
unfolding observe_all observe
observe_all-counts [] tool outcome = (refl, refl)
observe_all-counts (e ∷ es) tool outcome =
    let ih = observe_all-counts es tool outcome in (omega (arith, ih.0), omega (arith, ih.1))
