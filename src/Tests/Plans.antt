-- ===== src/Tests/Plans.antt =====
-- The theorems on plans, at a plan whose second step fails.
use hyprfast.Base.{
  ℕ, suc, ◌+◌, ◌≤◌, ◌≡◌, ◌↔◌, refl, String, false, Option, none, some, List, [], ◌∷◌, length, ltb,
}
use hyprfast.Plans.{Outside, PlanStep, valid, validate, tabs, press, go_back}
use hyprfast.Plans.Validated.{AllValid, validate_lem}
use hyprfast.Plans.Execution.{
  StepResult, succeeded, failed, execute, execute_lem, until_failure, outcomes_from, succeed_all,
  browser_after,
}
use hyprfast.Tests.Data.{Value, json, uint}

-- Times in whole seconds.
abbrev outside : Outside ℕ
outside = record {
  parse_url = λ url. none;
  is_negative = λ t. false;
  is_over_300 = λ t. ltb 300 t;
  display = λ t. "";
  debug = λ s. s;
}

-- The browser counts the steps; keys are not accepted.
abbrev count_step : PlanStep ℕ → ℕ → ℕ × StepResult Value
count_step (press key) n = (n + 1, failed "no keyboard")
count_step _ n = (n + 1, succeeded (uint n))

abbrev steps : List (PlanStep ℕ)
steps = tabs ∷ press "Enter" ∷ go_back ∷ []

validate_lem_example :
    (validate outside steps ≡ valid) ↔ ((1 ≤ 3) × (3 ≤ 100) × AllValid outside steps)
validate_lem_example = validate_lem outside steps

execute_lem_example :
    let (w, r) = execute json outside count_step steps 0 in
    (r.results
      ≡ until_failure json outside count_step (outcomes_from json outside count_step 0 steps 0))
    × (r.all_ok
        ≡ succeed_all json outside count_step (outcomes_from json outside count_step 0 steps 0))
    × (r.steps_executed ≡ length r.results)
    × (w ≡ browser_after json outside count_step r.steps_executed steps 0)
unfolding validate hyprfast.Base.Text.is_blank hyprfast.Base.Text.is_whitespace
execute_lem_example = execute_lem json outside count_step steps 0 refl

test_execute : (execute json outside count_step steps 0).1.steps_executed ≡ 2
unfolding execute validate hyprfast.Base.Text.is_blank hyprfast.Base.Text.is_whitespace
test_execute = refl
