-- ===== src/Client/Waiting/Ending.antt =====
-- When the wait for a status ends, and how.
use portkeeper.Common.{
  String, Bool, true, false, ◌||◌, ◌≡◌, ◌≢◌, ◌↔◌, ◌⊎◌, inl, inr, refl, sym, ap, ◌∙◌, Option, none,
  some, List, [], ◌∷◌, ◌==◌, if◌then◌else◌, any, nat_equal, Bool-cases, arith,
}
use portkeeper.Common.Int.{ℤ, pos, int_equal, ltb_ℤ, ◌≤ℤ◌}
use portkeeper.Client.{Url, TargetError, validate_target}
use portkeeper.Client.Waiting.{
  Answer, no_answer, answered, Attempt, Waited, waiting, observed, attempt_once, judge, turn, wait,
  checked, wait_for_status,
}

-- The attempt is answered with the wanted status, and its body is closed.
pub record IsHit (want : ℤ) (a : Attempt) : Type 0 where
  pub built : a.built ≡ true
  pub text : String
  pub answer : a.answer ≡ answered want text true

-- No answer, or one with another status.
abbrev pub IsOther : ℤ → Answer → Type 0
IsOther want answer =
    ((error : String) × (answer ≡ no_answer error))
    ⊎ ((status : ℤ) × (text : String) × (answer ≡ answered status text true) × (status ≢ want))

-- The attempt is not answered, or with another status, and the wait goes on.
pub record IsMiss (want : ℤ) (a : Attempt) : Type 0 where
  pub built : a.built ≡ true
  pub going : a.ended ≡ false
  pub other : IsOther want a.answer

-- Misses, and then a hit.
abbrev pub Sees : ℤ → List Attempt → Type 0
Sees want [] = ⊥
Sees want (a ∷ rest) = IsHit want a ⊎ (IsMiss want a × Sees want rest)

-- A turn that ends in success is a hit, or a miss before the success of the rest.
turn-observed :
    (writes ended built : Bool) (rest : String → Waited) (want : ℤ) (a : Answer)
    → turn ended rest (attempt_once writes want built a) ≡ observed
    → (built ≡ true)
      × (((writes ≡ true) × ((text : String) × (a ≡ answered want text true)))
          ⊎ ((ended ≡ false) × IsOther want a × ((last : String) × (rest last ≡ observed))))
unfolding turn judge attempt_once
turn-observed writes ended false rest want a h = cc
turn-observed writes true true rest want (no_answer error) h = cc
turn-observed writes false true rest want (no_answer error) h =
    (refl, inr (refl, inl (error, refl), (error, h)))
turn-observed writes ended true rest want (answered status text false) h = cc
turn-observed writes ended true rest want (answered status text true) h =
    elim (Bool-cases (status == want)) [
      | inl hit ↦ elim (Bool-cases writes) [
        | inl good ↦ (
          refl,
          inl (
            good,
            (text, ap (λ s. answered s text true) ((int_equal.equal_iff status want).0 hit)),
          ),
        )
        | inr broken ↦ cc (rw (hit, broken, if◌then◌else◌) at h)
      ]
      | inr miss ↦
          let differs : status ≢ want = λ e. cc ((int_equal.equal_iff status want).1 e) in
          elim (Bool-cases ended) [
            | inl over ↦ cc (rw (miss, over, if◌then◌else◌) at h)
            | inr going ↦ (
              refl,
              inr (
                going,
                inr (status, text, refl, differs),
                (text, rw (miss, going, if◌then◌else◌) at h),
              ),
            )
          ]
    ]

wait-Sees :
    (writes : Bool) (want : ℤ) (last : String) (attempts : List Attempt)
    → wait writes want last attempts ≡ observed
    → (writes ≡ true) × Sees want attempts
unfolding wait
wait-Sees writes want last [] h = cc
wait-Sees writes want last (a ∷ rest) h =
    let (built, way) =
      turn-observed writes a.ended a.built (λ l. wait writes want l rest) want a.answer h in
    elim way [
      | inl (good, (text, answer)) ↦
          (good, inl (record { built = built; text = text; answer = answer }))
      | inr (going, other, (l, more)) ↦
          let (good, sees) = wait-Sees writes want l rest more in
          (good, inr (record { built = built; going = going; other = other }, sees))
    ]

-- A miss leads on to the rest.
turn-miss :
    (writes : Bool) (rest : String → Waited) (want : ℤ) (a : Answer)
    → IsOther want a
    → (last : String) × (turn false rest (attempt_once writes want true a) ≡ rest last)
unfolding turn judge attempt_once
turn-miss writes rest want a (inl (error, e)) = (error, rw e refl)
turn-miss writes rest want a (inr (status, text, e, differs)) = elim (Bool-cases (status == want)) [
  | inl hit ↦ absurd (differs ((int_equal.equal_iff status want).0 hit))
  | inr miss ↦ (text, rw e (rw miss refl))
]

Sees-wait :
    (want : ℤ) (last : String) (attempts : List Attempt)
    → Sees want attempts
    → wait true want last attempts ≡ observed
unfolding wait
Sees-wait want last [] h = absurd h
Sees-wait want last (a ∷ rest) (inl hit) =
    let same : (want == want) ≡ true = (int_equal.equal_iff want want).1 refl in
    rw (hit.built, hit.answer) (unfold turn judge attempt_once in rw same refl)
Sees-wait want last (a ∷ rest) (inr (miss, more)) =
    let (l, e) = turn-miss true (λ t. wait true want t rest) want a.answer miss.other in
    rw (miss.built, miss.going) (e ∙ Sees-wait want l rest more)

checked_iff :
    (o : Option TargetError) (writes : Bool) (want : ℤ) (attempts : List Attempt)
    → (checked o writes want attempts ≡ observed)
      ↔ ((o ≡ none) × (pos 100 ≤ℤ want) × (want ≤ℤ pos 599) × (writes ≡ true) × Sees want attempts)
unfolding checked
checked_iff (some e) writes want attempts = ((λ h. cc), λ h. cc (h.0))
checked_iff none writes want attempts =
    elim (Bool-cases (ltb_ℤ want (pos 100) || ltb_ℤ (pos 599) want)) [
      | inl outside ↦
          rw (outside, if◌then◌else◌) ((λ h. cc), λ h. absurd (ground (arith, h.1, h.2)))
      | inr inside ↦
          rw (inside, if◌then◌else◌)
            (
              (λ h.
                  let (good, sees) = wait-Sees writes want "no response" attempts h in
                  (refl, ground arith, ground arith, good, sees)),
              λ h.
                  ap (λ (w : Bool). wait w want "no response" attempts) (h.3)
                  ∙ Sees-wait want "no response" attempts (h.4),
            )
    ]

-- The wait for a status succeeds exactly if the target is valid, the status is one of HTTP, the output
-- can be written, and among the attempts comes one that is answered with that status, after attempts
-- that were not answered or answered otherwise while the context lasted.
pub wait_for_status-Sees_iff :
    (parse_url : String → Option Url) (endpoint : String) (writes : Bool) (want : ℤ)
    (attempts : List Attempt)
    → (wait_for_status parse_url endpoint writes want attempts ≡ observed) ↔ (
        (validate_target parse_url endpoint ≡ none)
        × (pos 100 ≤ℤ want)
        × (want ≤ℤ pos 599)
        × (writes ≡ true)
        × Sees want attempts)
unfolding wait_for_status
wait_for_status-Sees_iff parse_url endpoint writes want attempts =
    checked_iff (validate_target parse_url endpoint) writes want attempts

turn-ends :
    (writes built : Bool) (rest : String → Waited) (want : ℤ) (a : Answer) (l : String)
    → turn true rest (attempt_once writes want built a) ≢ waiting l
unfolding turn judge attempt_once
turn-ends writes false rest want a l e = cc
turn-ends writes true rest want (no_answer error) l e = cc
turn-ends writes true rest want (answered status text closes) l e = ground arith

turn-goes :
    (writes built : Bool) (rest : String → Waited) (want : ℤ) (a : Answer) (l : String)
    → turn false rest (attempt_once writes want built a) ≡ waiting l
    → (last : String) × (rest last ≡ waiting l)
unfolding turn judge attempt_once
turn-goes writes false rest want a l e = cc
turn-goes writes true rest want (no_answer error) l e = (error, e)
turn-goes writes true rest want (answered status text closes) l e = (text, ground arith)

wait-ends :
    (writes : Bool) (want : ℤ) (last l : String) (attempts : List Attempt)
    → any (λ a. a.ended) attempts ≡ true
    → wait writes want last attempts ≢ waiting l
unfolding wait
wait-ends writes want last l [] h e = cc
wait-ends writes want last l (a ∷ rest) h e = elim (Bool-cases a.ended) [
  | inl over ↦
      turn-ends writes a.built (λ t. wait writes want t rest) want a.answer l
        (ap
            (λ (b : Bool).
              turn b (λ t. wait writes want t rest) (attempt_once writes want a.built a.answer))
            (sym over)
          ∙ e)
  | inr going ↦
      let (t, more) =
        turn-goes writes a.built (λ t. wait writes want t rest) want a.answer l
          (ap
              (λ (b : Bool).
                turn b (λ t. wait writes want t rest) (attempt_once writes want a.built a.answer))
              (sym going)
            ∙ e) in
      wait-ends writes want t l rest (ground (arith, going)) more
]

-- The wait comes to an end: it is never still waiting once the context has ended after one of the
-- attempts.
pub wait_for_status-ends :
    (parse_url : String → Option Url) (endpoint : String) (writes : Bool) (want : ℤ)
    (attempts : List Attempt) (l : String)
    → any (λ a. a.ended) attempts ≡ true
    → wait_for_status parse_url endpoint writes want attempts ≢ waiting l
unfolding wait_for_status checked
wait_for_status-ends parse_url endpoint writes want attempts l h e =
    by_target (validate_target parse_url endpoint) e
  where
    by_target : (o : Option TargetError) → checked o writes want attempts ≢ waiting l
    by_target (some t) k = cc
    by_target none k = elim (Bool-cases (ltb_ℤ want (pos 100) || ltb_ℤ (pos 599) want)) [
      | inl outside ↦ cc (rw (outside, if◌then◌else◌) at k)
      | inr inside ↦
          wait-ends writes want "no response" l attempts h (rw (inside, if◌then◌else◌) at k)
    ]
