-- ===== src/Benchmark/Phase/Isolation.antt =====
-- What the direct endpoint is given.
use portkeeper.Common.{String, ◌≡◌, ◌≢◌, refl, ◌==◌, string_equal, Bool-cases, inl, inr}
use portkeeper.Client.{Credentials}
use portkeeper.Benchmark.{BenchmarkConfig}
use portkeeper.Benchmark.Phase.{
  PhaseEnv, Connection, PhaseSpec, connection_of, new_measurement, run_workers, benchmark_phase,
}

-- Against any target but the gateway, nothing of a phase depends on the credentials or on the gateway's
-- endpoint: with others the workers meet the same, and measure the same.
pub benchmark_phase-credentials :
    (world : Connection → PhaseEnv) (c : BenchmarkConfig) (spec : PhaseSpec) (other : Credentials)
    (endpoint : String)
    → spec.target ≢ "gateway"
    → (connection_of c spec.target ≡ record {
      endpoint = c.direct_endpoint;
      credentials = record { token_file = ""; agent_id = "" };
    })
      × (benchmark_phase world (record c { credentials = other; gateway_endpoint = endpoint }) spec
          ≡ benchmark_phase world c spec)
unfolding benchmark_phase connection_of new_measurement run_workers
benchmark_phase-credentials world c spec other endpoint direct =
    elim (Bool-cases (spec.target == "gateway")) [
      | inl gateway ↦ absurd (direct ((string_equal.equal_iff spec.target "gateway").0 gateway))
      | inr elsewhere ↦ rw elsewhere (refl, refl)
    ]
