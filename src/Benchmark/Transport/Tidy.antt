-- ===== src/Benchmark/Transport/Tidy.antt =====
-- How the flags of a request's context hang together.
use portkeeper.Common.{
  ℕ, zero, suc, Bool, true, false, ◌||◌, not, ◌≡◌, List, [], ◌∷◌, ◌++◌, map, All, arith,
}
use portkeeper.Benchmark.Transport.{
  Stage, waiting, reading, over, InFlight, StatusTransport, new_transport, BaseReply, Event, sent,
  context_ends, reset, replied, closed, caller_ends, opened, released, with_reply, fire,
  caller_gone, in_stage, update, occur, occur_all,
}

abbrev pub is_over : Stage → Bool
is_over over = true
is_over _ = false

-- The context of a request is cancelled exactly if the benchmark's context, the caller or the request is at
-- its end, and the function that would cancel it is registered exactly while the first and the last of
-- these are not.
pub record IsTidy (context_ended : Bool) (r : InFlight) : Type 0 where
  pub cancels : r.cancelled ≡ (context_ended || r.caller_ended || is_over r.stage)
  pub registers : r.registered ≡ not (context_ended || is_over r.stage)

opened-IsTidy : (e : Bool) → IsTidy e (opened e)
opened-IsTidy e = ground arith

with_reply-IsTidy :
    (e : Bool) (reply : BaseReply) (r : InFlight)
    → IsTidy e r
    → IsTidy e (in_stage waiting (with_reply reply) r)
with_reply-IsTidy e reply r h = ground arith

released-IsTidy : (e : Bool) (r : InFlight) → IsTidy e r → IsTidy e (in_stage reading released r)
released-IsTidy e r h = ground arith

caller_gone-IsTidy : (e : Bool) (r : InFlight) → IsTidy e r → IsTidy e (caller_gone r)
caller_gone-IsTidy e r h = ground arith

fire-IsTidy : (e : Bool) (r : InFlight) → IsTidy e r → IsTidy true (fire r)
fire-IsTidy e r h = ground arith

module _ (e : Bool) where
  update-IsTidy :
      (i : ℕ) (f : InFlight → InFlight) (rs : List InFlight)
      → ((r : InFlight) → IsTidy e r → IsTidy e (f r))
      → All (IsTidy e) rs
      → All (IsTidy e) (update i f rs)
  unfolding update
  update-IsTidy i f [] keep h = tt
  update-IsTidy zero f (r ∷ rs) keep h = (keep r h.0, h.1)
  update-IsTidy (suc i) f (r ∷ rs) keep h = (h.0, update-IsTidy i f rs keep h.1)

  fire-All : (rs : List InFlight) → All (IsTidy e) rs → All (IsTidy true) (map fire rs)
  fire-All [] h = tt
  fire-All (r ∷ rs) h = (fire-IsTidy e r h.0, fire-All rs h.1)

  opened-All : (rs : List InFlight) → All (IsTidy e) rs → All (IsTidy e) (rs ++ opened e ∷ [])
  opened-All [] h = (opened-IsTidy e, tt)
  opened-All (r ∷ rs) h = (h.0, opened-All rs h.1)

occur-IsTidy :
    (ev : Event) (t : StatusTransport)
    → All (IsTidy t.ended) t.requests
    → All (IsTidy (occur ev t).ended) (occur ev t).requests
unfolding occur
occur-IsTidy sent t h = opened-All t.ended t.requests h
occur-IsTidy context_ends t h = fire-All t.ended t.requests h
occur-IsTidy reset t h = h
occur-IsTidy (replied i reply) t h =
    update-IsTidy t.ended i (in_stage waiting (with_reply reply)) t.requests
      (with_reply-IsTidy t.ended reply) h
occur-IsTidy (closed i) t h =
    update-IsTidy t.ended i (in_stage reading released) t.requests (released-IsTidy t.ended) h
occur-IsTidy (caller_ends i) t h =
    update-IsTidy t.ended i caller_gone t.requests (caller_gone-IsTidy t.ended) h

occur_all-All :
    (es : List Event) (t : StatusTransport)
    → All (IsTidy t.ended) t.requests
    → All (IsTidy (occur_all es t).ended) (occur_all es t).requests
unfolding occur_all
occur_all-All [] t h = h
occur_all-All (e ∷ es) t h = occur_all-All es (occur e t) (occur-IsTidy e t h)

-- The requests of a new transport are so after any sequence of events.
pub occur_all-IsTidy :
    (es : List Event)
    → All (IsTidy (occur_all es new_transport).ended) (occur_all es new_transport).requests
occur_all-IsTidy es = occur_all-All es new_transport tt
