-- ===== src/Benchmark/Measurement/Totals.antt =====
-- What the counters of a measurement say of its samples.
use portkeeper.Common.{
  ℕ, suc, ◌+◌, ◌≤◌, String, Bool, not, ◌≡◌, refl, sym, ap, ◌∙◌, List, [], ◌∷◌, Option, none, some,
  ◌==◌, if◌then◌else◌, string_equal, length, length-append, count, arith, inl, inr, Bool-cases,
}
use portkeeper.Common.Dict.{lookup, insert}
use portkeeper.Common.Int.{ℤ, pos, ltb_ℤ}
use portkeeper.Benchmark.Latency.{latency_summary}
use portkeeper.Benchmark.Latency.Order.{length-sort}
use portkeeper.Benchmark.Measurement.{
  BenchmarkSample, BenchmarkMeasurement, Counts, Progress, next_count, tally, count_sample,
  count_samples, with_rates, aggregate_measurement,
}

abbrev pub total : Counts → ℕ
total [] = 0
total ((category, n) ∷ m) = n + total m

found_count : Option ℕ → ℕ
found_count none = 0
found_count (some n) = n

total-insert :
    (category : String) (v : ℕ) (m : Counts)
    → total (insert category v m) + found_count (lookup category m) ≡ total m + v
unfolding lookup insert found_count
total-insert category v [] = omega arith
total-insert category v ((first, n) ∷ m) = ground (arith, total-insert category v m)

next_count_lem : (o : Option ℕ) → next_count o ≡ suc (found_count o)
unfolding next_count found_count
next_count_lem none = refl
next_count_lem (some n) = refl

pub total-tally : (category : String) (m : Counts) → total (tally category m) ≡ suc (total m)
unfolding tally
total-tally category m = omega (
  arith,
  total-insert category (next_count (lookup category m)) m,
  next_count_lem (lookup category m),
)

abbrev pub is_failed : BenchmarkSample → Bool
is_failed x = not (x.error_category == "")

-- After `seen` samples, of which `bad` failed.
record IsTallied (seen bad : ℕ) (p : Progress) : Type 0 where
  attempts : p.measurement.attempts ≡ seen
  errors : p.measurement.errors ≡ bad
  split : p.measurement.successes + bad ≡ seen
  categories : total p.measurement.error_categories ≡ bad
  completed : length p.completed ≡ seen
  successful : length p.successful ≡ p.measurement.successes
  progress : length p.progress ≤ p.measurement.successes

step-IsTallied :
    (x : BenchmarkSample) (seen bad : ℕ) (p : Progress)
    → IsTallied seen bad p
    → IsTallied (suc seen) ((if is_failed x then 1 else 0) + bad) (count_sample x p)
unfolding count_sample
step-IsTallied x seen bad p v = elim (Bool-cases (is_failed x)) [
  | inl failed ↦ rw failed (record {
    attempts = omega (arith, v.attempts);
    errors = omega (arith, v.errors);
    split = omega (arith, v.split);
    categories =
        omega (arith, v.categories, total-tally x.error_category p.measurement.error_categories);
    completed = omega (arith, v.completed, length-append p.completed (x.duration ∷ []));
    successful = v.successful;
    progress = v.progress;
  })
  | inr good ↦ rw good (record {
    attempts = omega (arith, v.attempts);
    errors = omega (arith, v.errors);
    split = omega (arith, v.split);
    categories = omega (arith, v.categories);
    completed = omega (arith, v.completed, length-append p.completed (x.duration ∷ []));
    successful = omega (arith, v.successful, length-append p.successful (x.duration ∷ []));
    progress = ground (arith, v.progress, length-append p.progress (x.first_progress ∷ []));
  })
]

cast_IsTallied : (n m b c : ℕ) (p : Progress) → m ≡ n → c ≡ b → IsTallied n b p → IsTallied m c p
cast_IsTallied n m b c p e f v = rw (e, f) v

count_samples-IsTallied :
    (xs : List BenchmarkSample) (seen bad : ℕ) (p : Progress)
    → IsTallied seen bad p
    → IsTallied (length xs + seen) (count is_failed xs + bad) (count_samples xs p)
unfolding count_samples
count_samples-IsTallied [] seen bad p v =
    cast_IsTallied seen (0 + seen) bad (0 + bad) p (omega arith) (omega arith) v
count_samples-IsTallied (x ∷ xs) seen bad p v =
    let one : ℕ = if is_failed x then 1 else 0 in
    let next : Progress = count_sample x p in
    cast_IsTallied (length xs + suc seen) (suc (length xs) + seen)
      (count is_failed xs + (one + bad)) (one + count is_failed xs + bad) (count_samples xs next)
      (omega arith) (omega arith)
      (count_samples-IsTallied xs (suc seen) (one + bad) next (step-IsTallied x seen bad p v))

samples-latency_summary : (xs : List ℤ) → (latency_summary xs).samples ≡ length xs
unfolding latency_summary
samples-latency_summary [] = refl
samples-latency_summary (x ∷ xs) = length-sort (x ∷ xs)

-- The loop leaves the samples and the plan alone.
count_sample-kept :
    (x : BenchmarkSample) (p : Progress)
    → ((count_sample x p).measurement.samples ≡ p.measurement.samples)
      × ((count_sample x p).measurement.planned_calls ≡ p.measurement.planned_calls)
unfolding count_sample
count_sample-kept x p = elim (Bool-cases (is_failed x)) [
  | inl failed ↦ rw failed (refl, refl)
  | inr good ↦ rw good (refl, refl)
]

count_samples-kept :
    (xs : List BenchmarkSample) (p : Progress)
    → ((count_samples xs p).measurement.samples ≡ p.measurement.samples)
      × ((count_samples xs p).measurement.planned_calls ≡ p.measurement.planned_calls)
unfolding count_samples
count_samples-kept [] p = (refl, refl)
count_samples-kept (x ∷ xs) p =
    let (samples, planned) = count_samples-kept xs (count_sample x p) in
    let (same, plan) = count_sample-kept x p in (samples ∙ same, planned ∙ plan)

-- The counters agree with the samples, with one another and with the summaries.
pub record IsConsistent (m : BenchmarkMeasurement) : Type 0 where
  pub attempts : m.attempts ≡ length m.samples
  pub errors : m.errors ≡ count is_failed m.samples
  pub split : m.successes + m.errors ≡ m.attempts
  pub categories : total m.error_categories ≡ m.errors
  pub completed : m.completion_latency.samples ≡ m.attempts
  pub successful : m.success_latency.samples ≡ m.successes
  pub progress : m.first_progress_latency.samples ≤ m.successes

-- The counters that the aggregation starts from.
pub record IsFresh (m : BenchmarkMeasurement) : Type 0 where
  pub attempts : m.attempts ≡ 0
  pub successes : m.successes ≡ 0
  pub errors : m.errors ≡ 0
  pub categories : total m.error_categories ≡ 0

start-IsTallied :
    (m : BenchmarkMeasurement)
    → IsFresh m
    → IsTallied 0 0 (record { measurement = m; completed = []; successful = []; progress = [] })
start-IsTallied m f = record {
  attempts = f.attempts;
  errors = f.errors;
  split = omega (arith, f.successes);
  categories = f.categories;
  completed = refl;
  successful = sym f.successes;
  progress = omega arith;
}

with_rates-kept :
    (m : BenchmarkMeasurement)
    → (IsConsistent m → IsConsistent (with_rates m))
      × ((with_rates m).samples ≡ m.samples)
      × ((with_rates m).planned_calls ≡ m.planned_calls)
unfolding with_rates
with_rates-kept m = elim (Bool-cases (ltb_ℤ (pos 0) m.wall)) [
  | inl timed ↦ rw timed (
    (λ c. record {
      attempts = c.attempts;
      errors = c.errors;
      split = c.split;
      categories = c.categories;
      completed = c.completed;
      successful = c.successful;
      progress = c.progress;
    }),
    refl,
    refl,
  )
  | inr instant ↦ rw instant ((λ c. c), refl, refl)
]

-- From fresh counters the aggregation makes a measurement whose attempts are its samples, each either a
-- success or an error with a category that is counted, and whose summaries cover the attempts, the
-- successes, and no more than the successes. The samples and the plan stay as they are.
pub aggregate_measurement-IsConsistent :
    (m : BenchmarkMeasurement)
    → IsFresh m
    → IsConsistent (aggregate_measurement m)
      × ((aggregate_measurement m).samples ≡ m.samples)
      × ((aggregate_measurement m).planned_calls ≡ m.planned_calls)
unfolding aggregate_measurement
aggregate_measurement-IsConsistent m f =
    let start : Progress = record {
      measurement = m;
      completed = [];
      successful = [];
      progress = [];
    } in
    let v = count_samples-IsTallied m.samples 0 0 start (start-IsTallied m f) in
    let (samples, planned) = count_samples-kept m.samples start in
    let p : Progress = count_samples m.samples start in
    let (kept, same_samples, same_plan) = with_rates-kept (record p.measurement {
      completion_latency = latency_summary p.completed;
      success_latency = latency_summary p.successful;
      first_progress_latency = latency_summary p.progress;
    }) in
    (
      kept (record {
        attempts = omega (arith, v.attempts, ap (λ (l : List BenchmarkSample). length l) samples);
        errors =
            omega (arith, v.errors, ap (λ (l : List BenchmarkSample). count is_failed l) samples);
        split = omega (arith, v.split, v.attempts, v.errors);
        categories = omega (arith, v.categories, v.errors);
        completed = omega (arith, samples-latency_summary p.completed, v.completed, v.attempts);
        successful = omega (arith, samples-latency_summary p.successful, v.successful);
        progress = omega (arith, samples-latency_summary p.progress, v.progress);
      }),
      same_samples ∙ samples,
      same_plan ∙ planned,
    )
