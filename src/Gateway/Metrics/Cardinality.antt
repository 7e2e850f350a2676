-- ===== src/Gateway/Metrics/Cardinality.antt =====
-- The labels of the metrics from bounded sets.
use portkeeper.Common.{
  ℕ, ◌≤◌, String, true, ◌≡◌, ◌⊎◌, inl, inr, refl, ◌∙◌, ◌==◌, any, arith, All, All-imp, length,
  Bool-cases, string_equal,
}
use portkeeper.Gateway.Metrics.{
  BoundedLabels, RequestLabels, Metrics, new_metrics, admit, record_rate_limit,
}
use portkeeper.Gateway.Metrics.Statuses.{status_labels}
use portkeeper.Gateway.Metrics.Labels.{Admitted, admit_lem, admit-limit}
use portkeeper.Common.Text.{append}

-- A label pair of a server: one that was admitted, or one of three fixed pairs.
abbrev pub IsServerLabel : BoundedLabels → String → String → Type 0
IsServerLabel servers namespace server =
    Admitted servers (append (append namespace "/") server)
    ⊎ ((namespace ≡ "_overflow") × (server ≡ "_overflow"))
    ⊎ ((namespace ≡ "") × ((server ≡ "_unauthenticated") ⊎ (server ≡ "_unresolved")))

-- The labels of one counted request, all from bounded sets.
pub record IsBoundedEntry (servers : BoundedLabels) (x : RequestLabels) : Type 0 where
  pub server : IsServerLabel servers x.namespace x.server
  pub endpoint : (x.endpoint ≡ "mcp") ⊎ (x.endpoint ≡ "other")
  pub status : any (λ l. l == x.status) status_labels ≡ true
  pub result : (x.result ≡ "complete") ⊎ (x.result ≡ "aborted")

-- The labels of one observed duration.
pub record IsBoundedTiming (servers : BoundedLabels) (x : (String × String × String) × ℕ)
    : Type 0 where
  pub server : IsServerLabel servers x.0.0 x.0.1
  pub endpoint : (x.0.2 ≡ "mcp") ⊎ (x.0.2 ≡ "other")

abbrev pub IsRateLabel : BoundedLabels → String → Type 0
IsRateLabel agents x = (x ≡ "_overflow") ⊎ Admitted agents x

-- Every label in the metrics, of the requests, of their durations and of the rate limits, is from a bounded set; the limits are those of the program.
pub record IsBounded (m : Metrics) : Type 0 where
  pub server_limit : m.server_labels.limit ≡ 256
  pub agent_limit : m.agent_labels.limit ≡ 128
  pub servers : length m.server_labels.values ≤ m.server_labels.limit
  pub agents : length m.agent_labels.values ≤ m.agent_labels.limit
  pub entries : All (IsBoundedEntry m.server_labels) m.requests
  pub timings : All (IsBoundedTiming m.server_labels) m.durations
  pub rates : All (IsRateLabel m.agent_labels) m.rate_limited

pub new_metrics-IsBounded : IsBounded new_metrics
unfolding new_metrics
new_metrics-IsBounded = record {
  server_limit = refl;
  agent_limit = refl;
  servers = omega arith;
  agents = omega arith;
  entries = tt;
  timings = tt;
  rates = tt;
}

pub IsServerLabel-admit :
    (b : BoundedLabels) (value namespace server : String)
    → IsServerLabel b namespace server
    → IsServerLabel (admit b value).0 namespace server
IsServerLabel-admit b value namespace server (inl known) = inl ((admit_lem b value).1 _ known)
IsServerLabel-admit b value namespace server (inr special) = inr special

pub IsBoundedEntry-admit :
    (b : BoundedLabels) (value : String) (x : RequestLabels)
    → IsBoundedEntry b x
    → IsBoundedEntry (admit b value).0 x
IsBoundedEntry-admit b value x e = record {
  server = IsServerLabel-admit b value x.namespace x.server e.server;
  endpoint = e.endpoint;
  status = e.status;
  result = e.result;
}

pub IsBoundedTiming-admit :
    (b : BoundedLabels) (value : String) (x : (String × String × String) × ℕ)
    → IsBoundedTiming b x
    → IsBoundedTiming (admit b value).0 x
IsBoundedTiming-admit b value x e = record {
  server = IsServerLabel-admit b value x.0.0 x.0.1 e.server;
  endpoint = e.endpoint;
}

pub record_rate_limit-IsBounded :
    (m : Metrics) (agent : String) → IsBounded m → IsBounded (record_rate_limit m agent)
unfolding record_rate_limit
record_rate_limit-IsBounded m agent v =
    let (same, bound) = admit-limit m.agent_labels agent v.agents in
    record {
      server_limit = v.server_limit;
      agent_limit = same ∙ v.agent_limit;
      servers = v.servers;
      agents = rw same bound;
      entries = v.entries;
      timings = v.timings;
      rates = (
        elim (Bool-cases (admit m.agent_labels agent).1) [
          | inl known ↦ rw known (inr ((admit_lem m.agent_labels agent).0.0 known))
          | inr full ↦ rw full (inl refl)
        ],
        All-imp (IsRateLabel m.agent_labels) (IsRateLabel (admit m.agent_labels agent).0)
            (λ x h. elim h [
              | inl o ↦ inl o
              | inr known ↦ inr ((admit_lem m.agent_labels agent).1 x known)
            ])
            m.rate_limited v.rates,
      );
    }
