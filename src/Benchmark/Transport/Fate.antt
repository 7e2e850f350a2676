-- ===== src/Benchmark/Transport/Fate.antt =====
-- What becomes of a request, told from the events alone.
use portkeeper.Common.{
  ◌||◌, not, ◌≡◌, refl, ap, sym, ◌∙◌, some, List, [], ◌∷◌, ◌++◌, any, count, length, get_elem?,
  nat_equal, arith,
}
use portkeeper.Benchmark.Transport.{
  InFlight, StatusTransport, new_transport, Event, sent, opened, occur, occur_all,
}
use portkeeper.Benchmark.Transport.Tidy.{occur_all-IsTidy}
use portkeeper.Benchmark.Transport.Tracking.{
  is_sent, is_end, is_caller_end, is_finished, get-length, occur_all-Tracked, occur_all-ended,
  length-occur_all, occur_all-append, All-get,
}

-- What became of the request that was sent after `pre`, when `es` have happened since.
pub record HasFate (pre es : List Event) (r : InFlight) : Type 0 where
  pub cancelled : r.cancelled ≡ (
      any is_end (pre ++ sent ∷ es)
      || any (is_caller_end (count is_sent pre)) es
      || is_finished (count is_sent pre) es)
  pub registered :
      r.registered ≡ not (any is_end (pre ++ sent ∷ es) || is_finished (count is_sent pre) es)

sent_place : (pre : List Event) → length (occur_all pre new_transport).requests ≡ count is_sent pre
sent_place pre = omega (arith, length-occur_all pre new_transport)

sent_there :
    (pre : List Event)
    → (let t = occur_all pre new_transport in
        get_elem? (occur sent t).requests (count is_sent pre) ≡ some (opened t.ended))
unfolding occur
sent_there pre =
    let t = occur_all pre new_transport in
    ap (get_elem? (t.requests ++ opened t.ended ∷ [])) (sym (sent_place pre))
    ∙ get-length t.requests (opened t.ended)

-- Each request of a new transport, whatever happens before and after it is sent: its context is cancelled
-- exactly if the context of the benchmark has ended, its caller has, or the first reply to it was an error,
-- or a response whose body has been closed since; and the function that would cancel it with the context of
-- the benchmark is registered exactly while that has not ended and the request is not over in one of these
-- two ways, so that none is left behind.
pub occur_all-HasFate :
    (pre es : List Event)
    → (r : InFlight) × (get_elem?
          (occur_all (pre ++ sent ∷ es) new_transport).requests
          (count is_sent pre)
        ≡ some r)
      × HasFate pre es r
unfolding occur_all
occur_all-HasFate pre es =
    let all = pre ++ sent ∷ es in
    let i = count is_sent pre in
    let t = occur_all pre new_transport in
    let k = occur_all-Tracked i es (occur sent t) (opened t.ended) (sent_there pre) in
    let whole : occur_all all new_transport ≡ occur_all es (occur sent t) =
      occur_all-append pre (sent ∷ es) new_transport in
    let place = ap (λ (s : StatusTransport). get_elem? s.requests i) whole ∙ k.there in
    let tidy =
      All-get (occur_all all new_transport).ended i (occur_all all new_transport).requests k.last
        (occur_all-IsTidy all) place in
    let ended = occur_all-ended all new_transport in
    (
      k.last,
      place,
      record {
        cancelled = tidy.cancels ∙ rw (ended, k.left, k.finished) refl;
        registered = tidy.registers ∙ rw (ended, k.finished) refl;
      },
    )
