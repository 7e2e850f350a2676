-- ===== src/Benchmark/Examples.antt =====
-- The theorems about the benchmark at concrete inputs.
use portkeeper.Common.{◌*◌, ◌≤◌, ◌≡◌, ◌↔◌, List, [], ◌∷◌, length, inr, string_equal}
use portkeeper.Common.Int.{ℤ, pos, pos_part, ◌≤ℤ◌}
use portkeeper.Benchmark.Bounds.{IsWithin}
use portkeeper.Benchmark.Latency.{latency_summary}
use portkeeper.Benchmark.Latency.Ranks.{Summarises, latency_summary-Summarises}
use portkeeper.Benchmark.Calls.{stream_tool, call_token, call}
use portkeeper.Benchmark.Calls.Streams.{IsAnswer, IsTimely, stream_call_iff}
use portkeeper.Benchmark.Phase.{PhaseSpec}
use portkeeper.Common.{refl, some}
use portkeeper.Benchmark.Transport.{
  new_transport, response, failed_reply, Event, sent, context_ends, replied, closed, update, occur,
  occur_all,
}
use portkeeper.Benchmark.Transport.{InFlight}
use portkeeper.Benchmark.Transport.Fate.{HasFate, occur_all-HasFate}
use portkeeper.Common.{get_elem?}
use portkeeper.Benchmark.Run.Success.{attempts_of, benchmark-bounded}
use portkeeper.Benchmark.Scenario.{
  small, nonempty, good_reply, good_run, small_report, small_passes,
}

abbrev latencies : List ℤ
latencies = pos 30 ∷ pos 10 ∷ pos 20 ∷ []

latency_summary-Summarises_example :
    Summarises latencies (latency_summary latencies)
    × ((latency_summary latencies).p50 ≤ℤ (latency_summary latencies).p95)
    × ((latency_summary latencies).p95 ≤ℤ (latency_summary latencies).p99)
latency_summary-Summarises_example = latency_summary-Summarises (pos 30) (pos 10 ∷ pos 20 ∷ [])

stream_call_iff_example :
    ((call stream_tool "measured" 0 0 (good_reply "measured-0-0")).error_category ≡ "") ↔ (
      IsAnswer (good_reply "measured-0-0").reply
      × IsTimely (call_token "measured" 0 0) (good_reply "measured-0-0"))
stream_call_iff_example = stream_call_iff "measured" 0 0 (good_reply "measured-0-0")

abbrev direct : PhaseSpec
direct = record { target = "direct"; tool = stream_tool; concurrency = pos 1; repetition = 1 }

benchmark-bounded_example :
    IsWithin small_report.config
    × (length small_report.measurements
        ≤ length small_report.config.concurrency * (4 * pos_part small_report.config.repetitions))
    × (attempts_of small_report.measurements ≤ 100_000)
benchmark-bounded_example =
    benchmark-bounded nonempty good_run small small_report (inr small_passes)

-- A request that is answered and closed, one that is refused, and one that the benchmark's context cuts off.
abbrev events : List Event
events =
    sent
    ∷ sent
    ∷ replied 0 (response 200)
    ∷ replied 1 (failed_reply (some 401))
    ∷ closed 0
    ∷ sent
    ∷ context_ends
    ∷ []

-- The second request, after which come a refusal and what happens to the others.
abbrev later_events : List Event
later_events =
    replied 0 (response 200)
    ∷ replied 1 (failed_reply (some 401))
    ∷ closed 0
    ∷ sent
    ∷ context_ends
    ∷ []

occur_all-HasFate_example :
    (r : InFlight) × (get_elem? (occur_all (sent ∷ sent ∷ later_events) new_transport).requests 1
      ≡ some r)
    × HasFate (sent ∷ []) later_events r
occur_all-HasFate_example = occur_all-HasFate (sent ∷ []) later_events

refused_status : (occur_all events new_transport).status ≡ 401
unfolding occur_all occur update
refused_status = refl
