-- ===== src/Client.antt =====
-- internal/democlient/client.go: the client that the demo and the benchmark use. `url.Parse` and the
-- file system are parameters, and so is the transport that the request is handed to.
pub mod Tokens
pub mod Delivery
pub mod Waiting
pub mod Probe
pub mod Workflow
mod Examples
use Prim.Native.Char.{Char, code}
use Prim.Native.String
use portkeeper.Common.{
  ℕ, String, Bool, true, false, ◌&&◌, ◌||◌, not, Option, none, some, ◌==◌, if◌then◌else◌,
  string_equal, nat_equal,
}
use portkeeper.Common.Text.{append, trim, is_space}
use portkeeper.Gateway.Headers.{Headers, set, del}

pub record Credentials : Type 0 where
  pub token_file : String
  pub agent_id : String

-- What `RoundTrip` hands to the default transport, or its error.
pub data RoundTrip : Type 0 where
  sent : Headers → RoundTrip
  unreadable_token malformed_token : RoundTrip

-- `strings.ContainsAny(s, " \t\r\n")`
abbrev pub is_blank : Char → Bool
is_blank c = code c == 32 || code c == 9 || code c == 13 || code c == 10

unfoldable pub contains_blank : String → Bool
contains_blank String.[] = false
contains_blank (String.◌∷◌ c s) = is_blank c || contains_blank s

with_agent : String → Headers → Headers
with_agent agent h = if agent == "" then h else set "X-Agent-Id" agent h

with_token : Option String → Headers → RoundTrip
with_token none h = unreadable_token
with_token (some content) h =
    let token = trim is_space content in
    if token == "" || contains_blank token
    then malformed_token
    else sent (set "Authorization" (append "Bearer " token) h)

unfoldable pub round_trip : (read_file : String → Option String) → Credentials → Headers → RoundTrip
unfolding with_agent with_token
round_trip read_file credentials h =
    let out = with_agent credentials.agent_id (del "X-Agent-Id" (del "Authorization" h)) in
    if credentials.token_file == ""
    then sent out
    else with_token (read_file credentials.token_file) out

-- The fields of a parsed URL that are read; `user` tells whether there are credentials in it.
pub record Url : Type 0 where
  pub scheme : String
  pub user : Bool
  pub host : String
  pub port : String
  pub hostname : String
  pub raw_query : String
  pub fragment : String

pub data TargetError : Type 0 where
  not_absolute not_plain : TargetError

check_url : Option Url → Option TargetError
check_url none = some not_absolute
check_url (some u) =
    if u.host == "" || (not (u.scheme == "http") && not (u.scheme == "https"))
    then some not_absolute
    else if u.user || not (u.raw_query == "") || not (u.fragment == "")
    then some not_plain
    else none

-- `none` is the nil error.
unfoldable pub validate_target : (parse_url : String → Option Url) → String → Option TargetError
unfolding check_url
validate_target parse_url endpoint = check_url (parse_url endpoint)

is_none : Option TargetError → Bool
is_none none = true
is_none (some e) = false

unfoldable pub valid_target : (parse_url : String → Option Url) → String → Bool
unfolding is_none
valid_target parse_url endpoint = is_none (validate_target parse_url endpoint)
