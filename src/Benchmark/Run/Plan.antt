-- ===== src/Benchmark/Run/Plan.antt =====
-- How many phases and calls the nested loops come to.
use portkeeper.Common.{
  ℕ, zero, suc, ◌+◌, ◌*◌, ◌%◌, ◌≡◌, refl, String, List, [], ◌∷◌, ◌++◌, arith, length, length-append,
  ◌==◌, Bool-cases, inl, inr, nat_equal,
}
use portkeeper.Common.Int.{ℤ, pos_part}
use portkeeper.Benchmark.{BenchmarkConfig}
use portkeeper.Benchmark.Bounds.{measured}
use portkeeper.Benchmark.Phase.{PhaseSpec}
use portkeeper.Benchmark.Calls.{read_tool, stream_tool}
use portkeeper.Benchmark.Run.{targets_of, repetitions_from, plan}

-- The calls of the phases, with `calls` for each worker.
abbrev pub planned : (calls : ℕ) → List PhaseSpec → ℕ
planned calls [] = 0
planned calls (spec ∷ specs) = pos_part spec.concurrency * calls + planned calls specs

planned-append :
    (calls : ℕ) (xs ys : List PhaseSpec)
    → planned calls (xs ++ ys) ≡ planned calls xs + planned calls ys
planned-append calls [] ys = omega arith
planned-append calls (x ∷ xs) ys = omega (arith, planned-append calls xs ys)

targets_of_lem :
    (calls : ℕ) (tool : String) (n : ℤ) (r : ℕ)
    → (length (targets_of tool n r) ≡ 2)
      × (planned calls (targets_of tool n r) ≡ 2 * (pos_part n * calls))
unfolding targets_of
targets_of_lem calls tool n r = elim (Bool-cases (r % 2 == 0)) [
  | inl even ↦ rw even (refl, omega arith)
  | inr odd ↦ rw odd (refl, omega arith)
]

repetitions_from_lem :
    (calls : ℕ) (tool : String) (n : ℤ) (r left : ℕ)
    → (length (repetitions_from tool n r left) ≡ left * 2)
      × (planned calls (repetitions_from tool n r left) ≡ left * (2 * (pos_part n * calls)))
unfolding repetitions_from
repetitions_from_lem calls tool n r zero = (omega arith, omega arith)
repetitions_from_lem calls tool n r (suc left) =
    let (two, pair) = targets_of_lem calls tool n r in
    let (more, rest) = repetitions_from_lem calls tool n (suc r) left in
    let later = repetitions_from tool n (suc r) left in
    (
      omega (arith, two, more, length-append (targets_of tool n r) later),
      grind (arith, pair, rest, planned-append calls (targets_of tool n r) later),
    )

pub plan_lem :
    (c : BenchmarkConfig) (ns : List ℤ)
    → (length (plan (pos_part c.repetitions) ns) ≡ length ns * (4 * pos_part c.repetitions))
      × (planned (pos_part c.calls_per_worker) (plan (pos_part c.repetitions) ns) ≡ measured c ns)
unfolding plan
plan_lem c [] = (omega arith, refl)
plan_lem c (n ∷ ns) =
    let reps = pos_part c.repetitions in
    let calls = pos_part c.calls_per_worker in
    let reads = repetitions_from read_tool n 1 reps in
    let streams = repetitions_from stream_tool n 1 reps in
    let (r1, r2) = repetitions_from_lem calls read_tool n 1 reps in
    let (s1, s2) = repetitions_from_lem calls stream_tool n 1 reps in
    let (p1, p2) = plan_lem c ns in
    (
      grind (
        arith,
        r1,
        s1,
        p1,
        length-append reads (streams ++ plan reps ns),
        length-append streams (plan reps ns),
      ),
      grind (
        arith,
        r2,
        s2,
        p2,
        planned-append calls reads (streams ++ plan reps ns),
        planned-append calls streams (plan reps ns),
      ),
    )
