-- ===== src/Tests/Runs.antt =====
-- The step DAG and the policy of crates/run at the sample plan.
use helixflow.Base.{
  [], ◌∷◌, ◌≡◌, ◌≢◌, ◌⊎◌, ◌↔◌, ◌≤◌, err, true, false, some, all, refl, ok, same, before,
}
use helixflow.Json.{F64, ℤ, f64_of, ltb_F64, is_finite}
use helixflow.Run.Errors.{RunResult}
use helixflow.Registry.Names.{codes}
use helixflow.Run.Policy.{
  CostSummary, zero_amount, run_requires_confirmation, parse_max_run_retries, retry_limit_error,
  run_requires_confirmation-false, is_digit, decimal, digits_of, parse_max_run_retries_iff,
}
use helixflow.Run.StepDag.{StepDag, from_plan}
use helixflow.Run.StepDag.Total.{IsDagOf, from_plan-IsDagOf}
use helixflow.Tests.Graphs.{sorted_names}
use helixflow.Tests.Proposals.{plan, plan_runs}
use helixflow.Tests.Samples.{reg, graph}

from_plan_runs :
    from_plan plan ≡ ok (record { upstream_counts = 0 ∷ 1 ∷ []; downstream = (1 ∷ []) ∷ [] ∷ [] })
unfolding from_plan same before
from_plan_runs = refl

from_plan-IsDagOf_example : (dag : StepDag) × (from_plan plan ≡ ok dag) × IsDagOf graph plan dag
from_plan-IsDagOf_example = from_plan-IsDagOf reg graph "v1" "fal" plan sorted_names plan_runs

abbrev one_dollar : CostSummary
one_dollar = record {
  amount = f64_of (ℤ.pos 1);
  currency = "USD";
  estimated = true;
  unknown = false;
}

abbrev limit : RunResult F64
limit = ok (f64_of (ℤ.pos 2))

confirmation_runs :
    (run_requires_confirmation limit one_dollar ≡ ok false)
    × (run_requires_confirmation limit (record one_dollar { unknown = true }) ≡ ok true)
    × (run_requires_confirmation limit (record one_dollar { currency = "EUR" }) ≡ ok true)
    × (run_requires_confirmation limit (record one_dollar { amount = F64.nan }) ≡ ok true)
unfolding run_requires_confirmation f64_of same
confirmation_runs = (refl, refl, refl, refl)

run_requires_confirmation-false_example :
    (one_dollar.unknown ≡ false)
    × (is_finite one_dollar.amount ≡ true)
    × (ltb_F64 one_dollar.amount zero_amount ≡ false)
    × (((one_dollar.currency ≡ "USD")
          × ((l : F64) × (limit ≡ ok l) × (ltb_F64 l one_dollar.amount ≡ false)))
        ⊎ (ltb_F64 zero_amount one_dollar.amount ≡ false))
run_requires_confirmation-false_example =
    run_requires_confirmation-false limit one_dollar confirmation_runs.0

retries_run :
    (parse_max_run_retries (some "+7") ≡ ok 7)
    × (parse_max_run_retries (some "11") ≡ err retry_limit_error)
    × (parse_max_run_retries (some "-1") ≡ err retry_limit_error)
    × (parse_max_run_retries (some "4294967296") ≡ err retry_limit_error)
unfolding parse_max_run_retries
retries_run = (refl, refl, refl, refl)

parse_max_run_retries_iff_example : (parse_max_run_retries (some "+7") ≡ ok 7) ↔ (
    (codes "+7" ≢ [])
    × (all is_digit (digits_of (codes "+7")) ≡ true)
    × (decimal 0 (digits_of (codes "+7")) ≡ 7)
    × (7 ≤ 10))
parse_max_run_retries_iff_example = parse_max_run_retries_iff "+7" 7
