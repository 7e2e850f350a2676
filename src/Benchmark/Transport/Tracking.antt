-- ===== src/Benchmark/Transport/Tracking.antt =====
-- One request through a sequence of events, and what the events alone say of it.
use portkeeper.Common.{
  ℕ, zero, suc, ◌+◌, Bool, true, false, ◌||◌, ◌≡◌, refl, ap, sym, ◌∙◌, some, List, [], ◌∷◌, ◌++◌,
  map, All, any, count, length, get_elem?, ◌==◌, if◌then◌else◌, if_false, nat_equal, length-append,
  arith,
}
use portkeeper.Benchmark.Transport.{
  Stage, waiting, reading, over, InFlight, StatusTransport, BaseReply, response, failed_reply,
  Event, sent, context_ends, reset, replied, closed, caller_ends, opened, released, with_reply,
  fire, caller_gone, in_stage, update, occur, occur_all,
}
use portkeeper.Benchmark.Transport.Tidy.{is_over, IsTidy}

abbrev pub is_sent : Event → Bool
is_sent sent = true
is_sent _ = false

abbrev pub is_end : Event → Bool
is_end context_ends = true
is_end _ = false

abbrev pub is_caller_end : ℕ → Event → Bool
is_caller_end i (caller_ends j) = j == i
is_caller_end i _ = false

abbrev pub is_close : ℕ → Event → Bool
is_close i (closed j) = j == i
is_close i _ = false

-- What the first reply to a request makes of it, and what comes after.
abbrev after_reply : BaseReply → (closes : Bool) → Bool
after_reply (response status) closes = closes
after_reply (failed_reply status) closes = true

-- The first reply to the request is an error, or it is a response whose body is closed later.
unfoldable pub is_finished : ℕ → List Event → Bool
is_finished i [] = false
is_finished i (replied j reply ∷ es) =
    let rest = is_finished i es in if j == i then after_reply reply (any (is_close i) es) else rest
is_finished i (e ∷ es) = is_finished i es

abbrev finished_from : Stage → ℕ → List Event → Bool
finished_from waiting i es = is_finished i es
finished_from reading i es = any (is_close i) es
finished_from over i es = true

-- What an event does to one request.
abbrev step : ℕ → Event → InFlight → InFlight
step i sent r = r
step i context_ends r = fire r
step i reset r = r
step i (replied j reply) r = if j == i then in_stage waiting (with_reply reply) r else r
step i (closed j) r = if j == i then in_stage reading released r else r
step i (caller_ends j) r = if j == i then caller_gone r else r

get-update :
    (f : InFlight → InFlight) (j i : ℕ) (rs : List InFlight) (r : InFlight)
    → get_elem? rs i ≡ some r
    → get_elem? (update j f rs) i ≡ some (if j == i then f r else r)
unfolding update
get-update f j i [] r h = cc
get-update f zero zero (x ∷ rs) r h = let same : x ≡ r = cc (h) in ap (λ q. some (f q)) same
get-update f zero (suc i) (x ∷ rs) r h =
    h ∙ ap (λ q. some q) (sym (if_false (f r) r (ground arith)))
get-update f (suc j) zero (x ∷ rs) r h =
    h ∙ ap (λ q. some q) (sym (if_false (f r) r (ground arith)))
get-update f (suc j) (suc i) (x ∷ rs) r h =
    let same : (j == i) ≡ (suc j == suc i) = ground arith in
    get-update f j i rs r h ∙ ap (λ b. some (if b then f r else r)) same

get-map :
    (f : InFlight → InFlight) (i : ℕ) (rs : List InFlight) (r : InFlight)
    → get_elem? rs i ≡ some r
    → get_elem? (map f rs) i ≡ some (f r)
get-map f i [] r h = cc
get-map f zero (x ∷ rs) r h = let same : x ≡ r = cc (h) in ap (λ q. some (f q)) same
get-map f (suc i) (x ∷ rs) r h = get-map f i rs r h

get-append :
    (i : ℕ) (rs qs : List InFlight) (r : InFlight)
    → get_elem? rs i ≡ some r
    → get_elem? (rs ++ qs) i ≡ some r
get-append i [] qs r h = cc
get-append zero (x ∷ rs) qs r h = h
get-append (suc i) (x ∷ rs) qs r h = get-append i rs qs r h

pub get-length : (rs : List InFlight) (r : InFlight) → get_elem? (rs ++ r ∷ []) (length rs) ≡ some r
get-length [] r = refl
get-length (x ∷ rs) r = get-length rs r

get-occur :
    (e : Event) (i : ℕ) (t : StatusTransport) (r : InFlight)
    → get_elem? t.requests i ≡ some r
    → get_elem? (occur e t).requests i ≡ some (step i e r)
unfolding occur
get-occur sent i t r h = get-append i t.requests (opened t.ended ∷ []) r h
get-occur context_ends i t r h = get-map fire i t.requests r h
get-occur reset i t r h = h
get-occur (replied j reply) i t r h =
    get-update (in_stage waiting (with_reply reply)) j i t.requests r h
get-occur (closed j) i t r h = get-update (in_stage reading released) j i t.requests r h
get-occur (caller_ends j) i t r h = get-update caller_gone j i t.requests r h

step-caller_ended :
    (i : ℕ) (e : Event) (r : InFlight)
    → (step i e r).caller_ended ≡ (r.caller_ended || is_caller_end i e)
step-caller_ended i e r = ground arith

step-finished :
    (i : ℕ) (e : Event) (es : List Event) (r : InFlight)
    → finished_from (step i e r).stage i es ≡ finished_from r.stage i (e ∷ es)
unfolding is_finished
step-finished i e es r = ground arith

-- Where a request is after a sequence of events.
pub record Tracked (i : ℕ) (es : List Event) (t : StatusTransport) (r : InFlight) : Type 0 where
  pub last : InFlight
  pub there : get_elem? (occur_all es t).requests i ≡ some last
  pub left : last.caller_ended ≡ (r.caller_ended || any (is_caller_end i) es)
  pub finished : is_over last.stage ≡ finished_from r.stage i es

over_finished : (i : ℕ) (s : Stage) → is_over s ≡ finished_from s i []
unfolding is_finished
over_finished i s = ground arith

or_assoc : (a b c : Bool) → ((a || b) || c) ≡ (a || (b || c))
or_assoc a b c = ground arith

pub occur_all-Tracked :
    (i : ℕ) (es : List Event) (t : StatusTransport) (r : InFlight)
    → get_elem? t.requests i ≡ some r
    → Tracked i es t r
unfolding occur_all
occur_all-Tracked i [] t r h = record {
  last = r;
  there = h;
  left = ground arith;
  finished = over_finished i r.stage;
}
occur_all-Tracked i (e ∷ es) t r h =
    let rest = occur_all-Tracked i es (occur e t) (step i e r) (get-occur e i t r h) in
    record {
      last = rest.last;
      there = rest.there;
      left =
          rest.left
          ∙ ap (λ b. b || any (is_caller_end i) es) (step-caller_ended i e r)
          ∙ or_assoc r.caller_ended (is_caller_end i e) (any (is_caller_end i) es);
      finished = rest.finished ∙ step-finished i e es r;
    }

occur-ended : (e : Event) (t : StatusTransport) → (occur e t).ended ≡ (t.ended || is_end e)
unfolding occur
occur-ended e t = ground arith

pub occur_all-ended :
    (es : List Event) (t : StatusTransport) → (occur_all es t).ended ≡ (t.ended || any is_end es)
unfolding occur_all
occur_all-ended [] t = ground arith
occur_all-ended (e ∷ es) t =
    occur_all-ended es (occur e t)
    ∙ ap (λ b. b || any is_end es) (occur-ended e t)
    ∙ or_assoc t.ended (is_end e) (any is_end es)

length-update :
    (j : ℕ) (f : InFlight → InFlight) (rs : List InFlight) → length (update j f rs) ≡ length rs
unfolding update
length-update j f [] = refl
length-update zero f (x ∷ rs) = refl
length-update (suc j) f (x ∷ rs) = ap suc (length-update j f rs)

length-map : (f : InFlight → InFlight) (rs : List InFlight) → length (map f rs) ≡ length rs
length-map f [] = refl
length-map f (x ∷ rs) = ap suc (length-map f rs)

length-occur :
    (e : Event) (t : StatusTransport)
    → length (occur e t).requests ≡ length t.requests + (if is_sent e then 1 else 0)
unfolding occur
length-occur sent t = length-append t.requests (opened t.ended ∷ [])
length-occur context_ends t = omega (arith, length-map fire t.requests)
length-occur reset t = omega arith
length-occur (replied j reply) t =
    omega (arith, length-update j (in_stage waiting (with_reply reply)) t.requests)
length-occur (closed j) t = omega (arith, length-update j (in_stage reading released) t.requests)
length-occur (caller_ends j) t = omega (arith, length-update j caller_gone t.requests)

pub length-occur_all :
    (es : List Event) (t : StatusTransport)
    → length (occur_all es t).requests ≡ length t.requests + count is_sent es
unfolding occur_all
length-occur_all [] t = omega arith
length-occur_all (e ∷ es) t = omega (arith, length-occur_all es (occur e t), length-occur e t)

pub occur_all-append :
    (pre es : List Event) (t : StatusTransport)
    → occur_all (pre ++ es) t ≡ occur_all es (occur_all pre t)
unfolding occur_all
occur_all-append [] es t = refl
occur_all-append (e ∷ pre) es t = occur_all-append pre es (occur e t)

pub All-get :
    (b : Bool) (i : ℕ) (rs : List InFlight) (r : InFlight)
    → All (IsTidy b) rs
    → get_elem? rs i ≡ some r
    → IsTidy b r
All-get b i [] r h e = cc
All-get b zero (x ∷ rs) r h e = let same : x ≡ r = cc (e) in rw (← same) (h.0)
All-get b (suc i) (x ∷ rs) r h e = All-get b i rs r h.1 e
