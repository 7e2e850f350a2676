-- ===== src/Client/Probe.antt =====
-- `ProbeNetwork` of internal/democlient/client.go: a TCP connection to every address of a host. The
-- resolver and the dialer are what they answer.
pub mod Verdicts
use portkeeper.Common.{
  String, Bool, true, false, ◌||◌, not, Option, none, some, List, [], ◌∷◌, ◌==◌, if◌then◌else◌,
  string_equal,
}
use portkeeper.Client.{Url, TargetError, validate_target}

-- The end of a dial: a connection, or an error, of which it matters whether it is a timeout of the dial
-- itself, and whether the context had ended.
pub data Dial : Type 0 where
  connected : Dial
  dial_failed : (dial_timeout context_ended : Bool) → Dial

pub data Probed : Type 0 where
  bad_target : TargetError → Probed
  unresolved no_addresses not_connected not_isolated not_timeout write_failed passed : Probed

unfoldable pub port_of : Url → String
port_of u = if u.port == "" then (if u.scheme == "https" then "443" else "80") else u.port

-- One turn of the loop, with what the rest of it comes to.
unfoldable pub after_dial : (blocked : Bool) → Dial → (rest : Probed) → Probed
after_dial blocked connected rest = if not blocked then rest else not_isolated
after_dial blocked (dial_failed timeout over) rest =
    if not blocked then not_connected else if over || not timeout then not_timeout else rest

unfoldable pub dial_all : (blocked writes : Bool) (dial : String → Dial) → List String → Probed
dial_all blocked writes dial [] = if writes then passed else write_failed
dial_all blocked writes dial (address ∷ addresses) =
    after_dial blocked (dial address) (dial_all blocked writes dial addresses)

probe_addresses : (blocked writes : Bool) (dial : String → Dial) → Option (List String) → Probed
probe_addresses blocked writes dial none = unresolved
probe_addresses blocked writes dial (some []) = no_addresses
probe_addresses blocked writes dial (some (a ∷ as')) = dial_all blocked writes dial (a ∷ as')

probe_url :
    (lookup_ip : String → Option (List String)) (dial : (address port : String) → Dial)
    (blocked writes : Bool)
    → Option Url
    → Option TargetError
    → Probed
unfolding probe_addresses port_of
probe_url lookup_ip dial blocked writes u (some e) = bad_target e
probe_url lookup_ip dial blocked writes none none = unresolved
probe_url lookup_ip dial blocked writes (some u) none =
    probe_addresses blocked writes (λ a. dial a (port_of u)) (lookup_ip u.hostname)

unfoldable pub probe_network :
    (parse_url : String → Option Url) (lookup_ip : String → Option (List String))
    (dial : (address port : String) → Dial) (blocked writes : Bool)
    → (endpoint : String) → Probed
unfolding probe_url
probe_network parse_url lookup_ip dial blocked writes endpoint =
    probe_url lookup_ip dial blocked writes (parse_url endpoint)
      (validate_target parse_url endpoint)
