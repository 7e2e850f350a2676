-- ===== src/Client/Workflow/Transcript.antt =====
-- Steps that write lines, and what a sequence of them writes.
use portkeeper.Common.{
  String, Bool, true, ◌≡◌, ◌↔◌, refl, ◌∙◌, sym, ap, Option, none, some, List, [], ◌∷◌, ◌++◌,
  string_equal,
}
use mathlib.Core.List.{append-nil, append_assoc}
use portkeeper.Client.Workflow.{WorkflowError, Output, done, after_error, after}

pub after_iff :
    (error : Option WorkflowError) (lines : List String) (next : List String → Output)
    (end : List String)
    → (after_error error lines next ≡ done end) ↔ (
        (written : List String) × (◌≡◌ {A = Output}
          (record { lines = lines; error = error })
          (done written))
        × (next written ≡ done end))
unfolding after_error
after_iff (some e) lines next end = ((λ h. cc), λ h. cc (h.1))
after_iff none lines next end = (
  (λ h. (lines, refl, h)),
  λ (written, same, h).
      let lines-same : lines ≡ written = ap (λ o. o.lines) same in rw (lines-same) h,
)

module _ (accepts : List String → Bool) where
  -- The writer accepts all of the lines, after those written before.
  abbrev pub Accepted : (lines todo : List String) → Type 0
  Accepted lines [] = Unit
  Accepted lines (t ∷ ts) = (accepts lines ≡ true) × Accepted (lines ++ t ∷ []) ts

  -- A step of the workflow succeeds exactly if `P` holds and the writer accepts `todo`, which it then
  -- has written.
  abbrev pub Prints : Type 0 → List String → (List String → Output) → Type 0
  Prints P todo step =
      (lines after : List String)
      → (step lines ≡ done after) ↔ (P × Accepted lines todo × (after ≡ lines ++ todo))

  Accepted-append :
      (xs ys lines : List String)
      → Accepted lines (xs ++ ys) ↔ (Accepted lines xs × Accepted (lines ++ xs) ys)
  Accepted-append [] ys lines = rw (append-nil lines) ((λ h. (tt, h)), λ h. h.1)
  Accepted-append (x ∷ xs) ys lines =
      let rest = Accepted-append xs ys (lines ++ x ∷ []) in
      let same = append_assoc lines (x ∷ []) xs in
      (
        (λ h. ((h.0, (rest.0 h.1).0), rw same at (rest.0 h.1).1)),
        λ h. (h.0.0, rest.1 (h.0.1, rw same (h.1))),
      )

  pub Prints-after :
      (P Q : Type 0) (xs ys : List String) (step next : List String → Output)
      → Prints P xs step
      → Prints Q ys next
      → Prints (P × Q) (xs ++ ys) (λ lines. after (step lines) next)
  Prints-after P Q xs ys step next first second lines end =
      let chain = after_iff (step lines).error (step lines).lines next end in
      let accepted = Accepted-append xs ys lines in
      (
        (λ h.
            let (written, stepped, rest) = chain.0 h in
            let (p, taken, e) = (first lines written).0 stepped in
            let (q, taken_after, e_after) = (second written end).0 rest in
            (
              (p, q),
              accepted.1 (taken, rw e at taken_after),
              e_after ∙ ap (λ l. l ++ ys) e ∙ append_assoc lines xs ys,
            )),
        λ h.
            let (taken, taken_after) = accepted.0 (h.1) in
            chain.1 (
              lines ++ xs,
              (first lines (lines ++ xs)).1 (h.0.0, taken, refl),
              (second (lines ++ xs) end).1
                  (h.0.1, taken_after, h.2 ∙ sym (append_assoc lines xs ys)),
            ),
      )
