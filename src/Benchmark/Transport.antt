-- ===== src/Benchmark/Transport.antt =====
-- `statusTransport` and `benchmarkBody` of internal/democlient/benchmark.go: requests whose contexts end
-- with that of the benchmark, which every phase hands to its transports, and the status that was seen last.
-- What happens to the transport is a sequence of events; the function that `AfterFunc` runs in a goroutine
-- of its own takes effect at once.
pub mod Tidy
pub mod Tracking
pub mod Fate
use portkeeper.Common.{
  ℕ, zero, suc, Bool, true, false, ◌||◌, ◌&&◌, not, Option, none, some, List, [], ◌∷◌, ◌++◌,
  if◌then◌else◌, map, get_elem?,
}

-- A request waits for its response, has an open body, or is over.
pub data Stage : Type 0 where
  waiting reading over : Stage

-- The context of a request: whether it is cancelled, whether that of the caller has ended, and whether
-- the function that cancels it with the context of the benchmark is still registered.
pub record InFlight : Type 0 where
  pub stage : Stage
  pub cancelled : Bool
  pub caller_ended : Bool
  pub registered : Bool

pub record StatusTransport : Type 0 where
  pub ended : Bool
  pub status : ℕ
  pub requests : List InFlight

abbrev pub new_transport : StatusTransport
new_transport = record { ended = false; status = 0; requests = [] }

-- What `RoundTrip` of the base returns: a response, or an error, which may come with a response.
pub data BaseReply : Type 0 where
  response : (status : ℕ) → BaseReply
  failed_reply : Option ℕ → BaseReply

pub data Event : Type 0 where
  sent context_ends reset : Event
  replied : (i : ℕ) → BaseReply → Event
  closed caller_ends : (i : ℕ) → Event

-- `RoundTrip` up to the call of the base
abbrev pub opened : (context_ended : Bool) → InFlight
opened context_ended = record {
  stage = waiting;
  cancelled = context_ended;
  caller_ended = false;
  registered = not context_ended;
}

-- `stop()` and `cancel()`
abbrev pub released : InFlight → InFlight
released r = record r { stage = over; cancelled = true; registered = false }

abbrev pub with_reply : BaseReply → InFlight → InFlight
with_reply (response status) r = record r { stage = reading }
with_reply (failed_reply status) r = released r

-- The function that `AfterFunc` registered
abbrev pub fire : InFlight → InFlight
fire r = if r.registered then record r { cancelled = true; registered = false } else r

abbrev pub caller_gone : InFlight → InFlight
caller_gone r = record r { caller_ended = true; cancelled = true }

abbrev pub status_after : BaseReply → ℕ → ℕ
status_after (response status) old = status
status_after (failed_reply (some status)) old = status
status_after (failed_reply none) old = old

-- An event of a request in the wrong stage does not occur.
abbrev pub in_stage : Stage → (InFlight → InFlight) → InFlight → InFlight
in_stage waiting f r = elim (r.stage) [ waiting ↦ f r | _ ↦ r ]
in_stage reading f r = elim (r.stage) [ reading ↦ f r | _ ↦ r ]
in_stage over f r = r

awaits : Option InFlight → Bool
awaits none = false
awaits (some r) = elim (r.stage) [ waiting ↦ true | _ ↦ false ]

unfoldable pub update : ℕ → (InFlight → InFlight) → List InFlight → List InFlight
update i f [] = []
update zero f (r ∷ rs) = f r ∷ rs
update (suc i) f (r ∷ rs) = r ∷ update i f rs

unfoldable pub occur : Event → StatusTransport → StatusTransport
unfolding awaits
occur sent t = record t { requests = t.requests ++ opened t.ended ∷ [] }
occur context_ends t = record t { ended = true; requests = map fire t.requests }
occur reset t = record t { status = 0 }
occur (replied i reply) t = record t {
  status = if awaits (get_elem? t.requests i) then status_after reply t.status else t.status;
  requests = update i (in_stage waiting (with_reply reply)) t.requests;
}
occur (closed i) t = record t { requests = update i (in_stage reading released) t.requests }
occur (caller_ends i) t = record t { requests = update i caller_gone t.requests }

-- The transport after a sequence of events.
unfoldable pub occur_all : List Event → StatusTransport → StatusTransport
occur_all [] t = t
occur_all (e ∷ es) t = occur_all es (occur e t)
