-- ===== src/Runbook/Topics.antt =====
-- Which files the tool `read_runbook` can read.
use portkeeper.Common.{
  String, true, ◌≡◌, ◌↔◌, refl, ◌⊎◌, Option, some, string_equal, inl, inr, Bool-cases, Option-cases,
  arith,
}
use portkeeper.Benchmark.Calls.{ToolResult}
use portkeeper.Runbook.{succeeded, text_result, is_topic, file_of, of_file, read_runbook}

-- A read is answered exactly if the topic is one of the two and its file is embedded. The answer is
-- then the content of that file.
pub record IsRead (read_file : String → Option String) (topic : String) (result : ToolResult)
    : Type 0 where
  pub known : (topic ≡ "gateway-routing") ⊎ (topic ≡ "rate-limiting")
  pub content : String
  pub found : read_file (file_of topic) ≡ some content
  pub whole : result ≡ text_result content

is_topic_iff :
    (topic : String)
    → (is_topic topic ≡ true) ↔ ((topic ≡ "gateway-routing") ⊎ (topic ≡ "rate-limiting"))
is_topic_iff topic = ground (
  arith,
  string_equal.equal_iff topic "gateway-routing",
  string_equal.equal_iff topic "rate-limiting",
)

pub read_runbook_iff :
    (read_file : String → Option String) (topic : String) (result : ToolResult)
    → (read_runbook read_file topic ≡ succeeded result) ↔ IsRead read_file topic result
unfolding read_runbook of_file
read_runbook_iff read_file topic result = elim (Bool-cases (is_topic topic)) [
  | inr unknown ↦ rw unknown ((λ h. cc), λ r. absurd (cc ((is_topic_iff topic).1 r.known)))
  | inl known ↦ elim (Option-cases (read_file (file_of topic))) [
    | inl missing ↦ rw (known, missing) ((λ h. cc), λ r. cc (r.found))
    | inr (content, found) ↦
        rw (known, found)
          (
            (λ h. record {
              known = (is_topic_iff topic).0 known;
              content = content;
              found = found;
              whole = cc (h);
            }),
            λ r. let same : content ≡ r.content = cc (r.found) in rw (same, r.whole) refl,
          )
  ]
]

-- Whatever the topic that a client asks for, nothing that is read depends on a file other than the two
-- runbooks.
pub read_runbook-confined :
    (read_file other : String → Option String)
    → read_file "runbooks/gateway-routing.md" ≡ other "runbooks/gateway-routing.md"
    → read_file "runbooks/rate-limiting.md" ≡ other "runbooks/rate-limiting.md"
    → (topic : String) → read_runbook read_file topic ≡ read_runbook other topic
unfolding read_runbook
read_runbook-confined read_file other routing limiting topic = elim (Bool-cases (is_topic topic)) [
  | inr unknown ↦ rw unknown refl
  | inl known ↦ elim ((is_topic_iff topic).0 known) [
    | inl at_routing ↦ rw (known, at_routing, routing) refl
    | inr at_limiting ↦ rw (known, at_limiting, limiting) refl
  ]
]
