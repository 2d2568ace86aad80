-- ===== src/Plans/Execution.antt =====
-- src/browser_runtime/plan.rs: the loop that executes a plan. What a step does to the browser
-- (`execute_step`) is a parameter, on browsers of states `W`; latencies, and what the browser shows
-- at the end, are left out.
use hyprfast.Base.{
  zero, suc, ◌⊎◌, suc, ℕ, ◌+◌, String, ◌≡◌, refl, Bool, true, false, ◌&&◌, Option, none, some, List,
  [], ◌∷◌, if◌then◌else◌, length, inl, inr,
}
use hyprfast.Json.{Json}
use hyprfast.Plans.{Outside, PlanStep, valid, invalid, validate, tag, capability, as_str}

-- `Result<Value, String>`
pub data StepResult (V : Type 0) : Type 0 where
  succeeded : V → StepResult V
  failed : String → StepResult V

pub record StepOutcome (V : Type 0) : Type 0 where
  pub step_index : ℕ
  pub step_type : String
  pub capability_name : String
  pub is_ok : Bool
  pub result : V
  pub error : Option String

pub record PlanExecutionResult (V : Type 0) : Type 0 where
  pub all_ok : Bool
  pub steps_executed : ℕ
  pub total_steps : ℕ
  pub results : List (StepOutcome V)

module _ {V F W : Type 0} (J : Json V) (O : Outside F)
    (execute_step : PlanStep F → W → W × StepResult V) where
  unfoldable pub outcome_of : ℕ → PlanStep F → StepResult V → StepOutcome V
  unfolding tag capability as_str
  outcome_of i s (succeeded v) = record {
    step_index = i;
    step_type = tag s;
    capability_name = as_str (capability s);
    is_ok = true;
    result = v;
    error = none;
  }
  outcome_of i s (failed e) = record {
    step_index = i;
    step_type = tag s;
    capability_name = as_str (capability s);
    is_ok = false;
    result = J.null;
    error = some e;
  }

  -- The browser afterwards, the outcomes, and whether all succeeded; a failure ends the loop.
  unfoldable pub run_steps : ℕ → List (PlanStep F) → W → W × List (StepOutcome V) × Bool
  unfolding outcome_of
  run_steps i [] w = (w, [], true)
  run_steps i (s ∷ steps) w =
      let (w', r) = execute_step s w in
      elim r [
        | succeeded v ↦
            let (w'', outcomes, ok) = run_steps (i + 1) steps w' in
            (w'', outcome_of i s (succeeded v) ∷ outcomes, ok)
        | failed e ↦ (w', outcome_of i s (failed e) ∷ [], false)
      ]

  -- A plan that is not valid is refused before its first step.
  unfoldable pub execute : List (PlanStep F) → W → W × PlanExecutionResult V
  unfolding run_steps validate
  execute steps w = elim (validate O steps) [
    | invalid e ↦ (
      w,
      record {
        all_ok = false;
        steps_executed = 0;
        total_steps = length steps;
        results =
            (record {
              step_index = 0;
              step_type = "validate";
              capability_name = "none";
              is_ok = false;
              result = J.null;
              error = some e;
            })
            ∷ [];
      },
    )
    | valid ↦
        let (w', outcomes, ok) = run_steps 0 steps w in
        (
          w',
          record {
            all_ok = ok;
            steps_executed = length outcomes;
            total_steps = length steps;
            results = outcomes;
          },
        )
  ]

  -- The outcomes of all steps, none left out, and the browser after the first of them.
  unfoldable pub outcomes_from : ℕ → List (PlanStep F) → W → List (StepOutcome V)
  outcomes_from i [] w = []
  outcomes_from i (s ∷ steps) w =
      let (w', r) = execute_step s w in outcome_of i s r ∷ outcomes_from (i + 1) steps w'

  unfoldable pub browser_after : ℕ → List (PlanStep F) → W → W
  browser_after zero steps w = w
  browser_after (suc n) [] w = w
  browser_after (suc n) (s ∷ steps) w = browser_after n steps (execute_step s w).0

  abbrev pub until_failure : List (StepOutcome V) → List (StepOutcome V)
  until_failure [] = []
  until_failure (o ∷ os) = let rest = until_failure os in if o.is_ok then o ∷ rest else o ∷ []

  abbrev pub succeed_all : List (StepOutcome V) → Bool
  succeed_all [] = true
  succeed_all (o ∷ os) = o.is_ok && succeed_all os

  Result-cases :
      (r : StepResult V) → ((v : V) × (r ≡ succeeded v)) ⊎ ((e : String) × (r ≡ failed e))
  Result-cases (succeeded v) = inl (v, refl)
  Result-cases (failed e) = inr (e, refl)

  run_steps_lem :
      (i : ℕ) (steps : List (PlanStep F)) (w : W)
      → let (w', outcomes, ok) = run_steps i steps w in
        (outcomes ≡ until_failure (outcomes_from i steps w))
        × (ok ≡ succeed_all (outcomes_from i steps w))
        × (w' ≡ browser_after (length outcomes) steps w)
  unfolding run_steps outcomes_from browser_after outcome_of
  run_steps_lem i [] w = (refl, refl, refl)
  run_steps_lem i (s ∷ steps) w =
      let rest = run_steps_lem (i + 1) steps (execute_step s w).0 in
      elim (Result-cases (execute_step s w).1) [
        | inl done ↦ rw (done.1, run_steps) (rw rest.0 refl, rest.1, rest.2)
        | inr gone ↦ rw (gone.1, run_steps) (refl, refl, refl)
      ]

  -- A valid plan is executed up to its first failure: its results are the outcomes of its steps, one
  -- after the other on the browser that the steps before left, as far as the first that failed, with
  -- that one; it is reported as successful exactly if no step of it would fail; and the browser is
  -- the one after the steps reported, so no step after a failure touches it.
  pub execute_lem :
      (steps : List (PlanStep F)) (w : W)
      → validate O steps ≡ valid
      → let (w', r) = execute steps w in
        (r.results ≡ until_failure (outcomes_from 0 steps w))
        × (r.all_ok ≡ succeed_all (outcomes_from 0 steps w))
        × (r.steps_executed ≡ length r.results)
        × (w' ≡ browser_after r.steps_executed steps w)
  unfolding execute
  execute_lem steps w h = let r = run_steps_lem 0 steps w in rw (h, execute) (r.0, r.1, refl, r.2)
