-- ===== src/Client/Examples.antt =====
-- The theorems about the client at concrete inputs.
use portkeeper.Common.{
  String, Bool, true, false, ◌≡◌, ◌↔◌, refl, Option, none, some, List, [], ◌∷◌, All,
}
use portkeeper.Common.Int.{pos, ◌≤ℤ◌}
use portkeeper.Common.Text.{trim, trim_left, trim_right, is_space}
use portkeeper.Gateway.Headers.{Headers, values, set, del}
use portkeeper.Client.{Credentials, sent, round_trip, contains_blank, Url, validate_target}
use Prim.Native.String.{len}
use portkeeper.Common.{◌<◌, ◌≤◌, arith}
use portkeeper.Common.Text.{append}
use portkeeper.Common.Text.Fields.{IsWord}
use portkeeper.Gateway.Accounts.{
  NameRules, Review, reviewed, identified, max_header, max_inflight, ServiceAccountAuthenticator,
  authenticate,
}
use portkeeper.Gateway.Accounts.Verdicts.{Vouches}
use portkeeper.Client.Delivery.{round_trip-identifies}
use portkeeper.Client.Tokens.{Bears, round_trip-Bears}
use portkeeper.Client.Waiting.{answered, no_answer, Attempt, observed, wait_for_status}
use portkeeper.Client.Waiting.Ending.{Sees, wait_for_status-Sees_iff}
use portkeeper.Benchmark.Calls.{text}
use portkeeper.Client.Workflow.{
  Session, run, read_through, write, after_error, by_tools, write_tools, by_call, complete,
  write_answer, write_contents, write_content,
}
use portkeeper.Client.Workflow.Completion.{IsCompleted, run_iff}
use portkeeper.Client.Probe.{Dial, dial_failed, passed, probe_network, port_of}
use portkeeper.Client.Probe.Verdicts.{IsReachable, expected, probe_network_iff}

abbrev token_file : String → Option String
token_file path = some "t1\n"

abbrev credentials : Credentials
credentials = record { token_file = "/var/run/token"; agent_id = "" }

abbrev spoofed : Headers
spoofed = ("Authorization", "Bearer stolen") ∷ ("X-Agent-Id", "root") ∷ []

abbrev authorized : Headers
authorized = ("Authorization", "Bearer t1") ∷ []

token_sent : round_trip token_file credentials spoofed ≡ sent authorized
unfolding round_trip contains_blank trim trim_left trim_right is_space set del
token_sent = refl

round_trip-Bears_example :
    Bears token_file credentials authorized × (values "X-Agent-Id" authorized ≡ [])
round_trip-Bears_example = round_trip-Bears token_file credentials spoofed authorized token_sent

abbrev parse : String → Option Url
parse s = some (record {
  scheme = "http";
  user = false;
  host = "gateway:8080";
  port = "8080";
  hostname = "gateway";
  raw_query = "";
  fragment = "";
})

abbrev attempts : List Attempt
attempts =
    record { built = true; answer = no_answer "refused"; ended = false }
    ∷ record { built = true; answer = answered (pos 503) "503" true; ended = false }
    ∷ record { built = true; answer = answered (pos 200) "200" true; ended = true }
    ∷ []

wait_for_status-Sees_iff_example :
    (wait_for_status parse "http://gateway:8080" true (pos 200) attempts ≡ observed) ↔ (
      (validate_target parse "http://gateway:8080" ≡ none)
      × (pos 100 ≤ℤ pos 200)
      × (pos 200 ≤ℤ pos 599)
      × (◌≡◌ {A = Bool} true true)
      × Sees (pos 200) attempts)
wait_for_status-Sees_iff_example =
    wait_for_status-Sees_iff parse "http://gateway:8080" true (pos 200) attempts

abbrev lookup_ip : String → Option (List String)
lookup_ip host = some ("10.0.0.1" ∷ "10.0.0.2" ∷ [])

abbrev silent : (address port : String) → Dial
silent address port = dial_failed true false

probe_network_iff_example :
    (probe_network parse lookup_ip silent true true "http://gateway:8080" ≡ passed) ↔ (
      (u : Url) × (addresses : List String) × IsReachable parse lookup_ip true "http://gateway:8080"
        u addresses
      × All (λ a. silent a (port_of u) ≡ expected true) addresses)
probe_network_iff_example = probe_network_iff parse lookup_ip silent true true "http://gateway:8080"

abbrev session : Session
session = record {
  list_tools = some ("read_runbook" ∷ "stream_runbook" ∷ []);
  call_tool = λ name topic.
      some
        (record { is_error = false; needs_input = false; content = text "# Gateway routing" ∷ [] });
  closes = true;
}

abbrev printed : List String
printed =
    "Connected to http://gateway:8080" ∷ "Discovered tool: read_runbook"
    ∷ "Discovered tool: stream_runbook" ∷ "# Gateway routing"
    ∷ "MCP discovery and tool call completed." ∷ []

run_iff_example :
    (run parse
        (λ lines. true)
        (λ endpoint c. some session)
        "http://gateway:8080"
        credentials
        "gateway-routing"
      ≡ record { lines = printed; errors = [] })
    ↔ IsCompleted parse
        (λ lines. true)
        (λ endpoint c. some session)
        "http://gateway:8080"
        credentials
        "gateway-routing"
        printed
run_iff_example =
    run_iff parse (λ lines. true) (λ endpoint c. some session) "http://gateway:8080" credentials
      "gateway-routing" printed

session_prints :
    run parse
      (λ lines. true)
      (λ endpoint c. some session)
      "http://gateway:8080"
      credentials
      "gateway-routing"
    ≡ record { lines = printed; errors = [] }
unfolding run validate_target read_through write after_error by_tools write_tools by_call complete
    write_answer write_contents write_content
session_prints = refl

abbrev lax_rules : NameRules
lax_rules = record { is_label = λ s. true; is_subdomain = λ s. true }

abbrev any_token : ServiceAccountAuthenticator
any_token = record {
  reviewer = λ token audiences. reviewed (
      some (record {
        authenticated = true;
        error = "";
        audiences = audiences;
        uid = "7";
        username = "system:serviceaccount:agents:ann";
      }));
  audience = "portkeeper";
  inflight = 31;
}

token-IsWord : IsWord (trim is_space "t1\n")
unfolding trim trim_left trim_right is_space
token-IsWord = (refl, (refl, tt))

token_short : len (append "Bearer " (trim is_space "t1\n")) ≤ max_header
unfolding trim trim_left trim_right is_space
token_short = omega arith

round_trip-identifies_example :
    (authenticate lax_rules any_token (values "Authorization" authorized)
      ≡ identified "system:serviceaccount:agents:ann")
    ↔ ((31 < max_inflight)
        × ((review : Review) × (any_token.reviewer (trim is_space "t1\n") (any_token.audience ∷ [])
              ≡ reviewed (some review))
            × Vouches lax_rules any_token.audience "system:serviceaccount:agents:ann" review))
round_trip-identifies_example =
    round_trip-identifies token_file credentials spoofed authorized "t1\n" lax_rules any_token
      "system:serviceaccount:agents:ann" (λ e. cc) refl token-IsWord token_short token_sent
