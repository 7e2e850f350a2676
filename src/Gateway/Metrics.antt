-- ===== src/Gateway/Metrics.antt =====
-- internal/gateway/metrics.go: the labels under which requests are counted. The Prometheus vectors
-- are the sequences of their increments and observations, newest first.
pub mod Labels
pub mod Statuses
pub mod Cardinality
use portkeeper.Common.{
  ℕ, suc, ◌/◌, String, Bool, true, false, ◌&&◌, List, [], ◌∷◌, ◌==◌, if◌then◌else◌, leb, any,
  length, string_equal, nat_equal,
}
use portkeeper.Common.Text.{append}
use portkeeper.Common.Text.Decimal.{show_ℕ}
use portkeeper.Gateway.Registry.{Backend}

-- The keys of `values`.
pub record BoundedLabels : Type 0 where
  pub limit : ℕ
  pub values : List String

unfoldable pub admit : BoundedLabels → String → BoundedLabels × Bool
admit b value =
    if any (λ v. v == value) b.values
    then (b, true)
    else if leb b.limit (length b.values)
    then (b, false)
    else (record b { values = value ∷ b.values }, true)

pub record RequestLabels : Type 0 where
  pub namespace : String
  pub server : String
  pub endpoint : String
  pub status : String
  pub result : String

pub record Metrics : Type 0 where
  pub server_labels : BoundedLabels
  pub agent_labels : BoundedLabels
  pub requests : List RequestLabels
  pub durations : List ((String × String × String) × ℕ)
  pub rate_limited : List String
  pub in_flight : ℕ

unfoldable pub new_metrics : Metrics
new_metrics = record {
  server_labels = record { limit = 256; values = [] };
  agent_labels = record { limit = 128; values = [] };
  requests = [];
  durations = [];
  rate_limited = [];
  in_flight = 0;
}

abbrev pub server_key : Backend → String
server_key b = append (append b.namespace "/") b.name

unfoldable pub observed_server : Metrics → Backend → Metrics × (String × String)
observed_server m b =
    let (labels, admitted) = admit m.server_labels (server_key b) in
    (
      record m { server_labels = labels },
      (if admitted then (b.namespace, b.name) else ("_overflow", "_overflow")),
    )

unfoldable pub observed_endpoint : String → String
observed_endpoint endpoint = if endpoint == "mcp" then "mcp" else "other"

unfoldable pub record_rate_limit : Metrics → String → Metrics
record_rate_limit m agent =
    let (labels, admitted) = admit m.agent_labels agent in
    record m {
      agent_labels = labels;
      rate_limited = (if admitted then agent else "_overflow") ∷ m.rate_limited;
    }

abbrev pub known_statuses : List ℕ
known_statuses =
    200 ∷ 201 ∷ 202 ∷ 204 ∷ 400 ∷ 401 ∷ 403 ∷ 404 ∷ 405 ∷ 409 ∷ 429 ∷ 500 ∷ 502 ∷ 503 ∷ 504 ∷ []

unfoldable pub status_label : ℕ → String
status_label status =
    if any (λ s. s == status) known_statuses
    then show_ℕ status
    else if leb 100 status && leb status 599
    then append (show_ℕ (status / 100)) "xx"
    else "other"

unfoldable pub record_request :
    Metrics
    → (namespace server endpoint : String) → (status : ℕ) → (completed : Bool) → (elapsed : ℕ)
    → Metrics
record_request m namespace server endpoint status completed elapsed = record m {
  requests =
      record {
        namespace = namespace;
        server = server;
        endpoint = endpoint;
        status = status_label status;
        result = if completed then "complete" else "aborted";
      }
      ∷ m.requests;
  durations = ((namespace, server, endpoint), elapsed) ∷ m.durations;
}
