-- ===== src/Actions.antt =====
-- src/browser_runtime/action.rs: the states of an action, the outcome of a step, and the record of
-- an action in the journal. Clocks and the counter of action ids are left out: what they give is an
-- argument.
pub mod Machine
pub mod Journal
use hyprfast.Base.{ℕ, ◌-◌, String, Bool, true, false, Option, none, some}

-- `V` is the type of JSON values.
pub data VerificationResult (V : Type 0) : Type 0 where
  verified : V → VerificationResult V
  contradicted : String → VerificationResult V
  inconclusive : String → VerificationResult V

pub data StepOutcome (V : Type 0) : Type 0 where
  ok : VerificationResult V → StepOutcome V
  failed : String → StepOutcome V
  skipped : String → StepOutcome V

unfoldable pub should_cascade_skip : {V : Type 0} → StepOutcome V → Bool
should_cascade_skip (failed _) = true
should_cascade_skip (ok (VerificationResult.contradicted _)) = true
should_cascade_skip (ok (VerificationResult.verified _)) = false
should_cascade_skip (ok (VerificationResult.inconclusive _)) = false
should_cascade_skip (skipped _) = false

pub data ActionState : Type 0 where
  accepted resolving resolved precondition_check dispatching dispatched verifying : ActionState
  completed failed contradicted inconclusive unknown cancelled : ActionState

unfoldable pub name : ActionState → String
name ActionState.accepted = "Accepted"
name ActionState.resolving = "Resolving"
name ActionState.resolved = "Resolved"
name ActionState.precondition_check = "PreconditionCheck"
name ActionState.dispatching = "Dispatching"
name ActionState.dispatched = "Dispatched"
name ActionState.verifying = "Verifying"
name ActionState.completed = "Completed"
name ActionState.failed = "Failed"
name ActionState.contradicted = "Contradicted"
name ActionState.inconclusive = "Inconclusive"
name ActionState.unknown = "Unknown"
name ActionState.cancelled = "Cancelled"

unfoldable pub is_terminal : ActionState → Bool
is_terminal ActionState.completed = true
is_terminal ActionState.failed = true
is_terminal ActionState.contradicted = true
is_terminal ActionState.inconclusive = true
is_terminal ActionState.unknown = true
is_terminal ActionState.cancelled = true
is_terminal _ = false

unfoldable pub is_cancellable : ActionState → Bool
is_cancellable ActionState.accepted = true
is_cancellable ActionState.resolving = true
is_cancellable ActionState.resolved = true
is_cancellable ActionState.precondition_check = true
is_cancellable _ = false

unfoldable pub can_transition_to : ActionState → ActionState → Bool
can_transition_to ActionState.accepted ActionState.resolving = true
can_transition_to ActionState.resolving ActionState.resolved = true
can_transition_to ActionState.resolving ActionState.failed = true
can_transition_to ActionState.resolving ActionState.cancelled = true
can_transition_to ActionState.resolved ActionState.precondition_check = true
can_transition_to ActionState.resolved ActionState.failed = true
can_transition_to ActionState.precondition_check ActionState.dispatching = true
can_transition_to ActionState.precondition_check ActionState.failed = true
can_transition_to ActionState.precondition_check ActionState.cancelled = true
can_transition_to ActionState.dispatching ActionState.dispatched = true
can_transition_to ActionState.dispatching ActionState.unknown = true
can_transition_to ActionState.dispatching ActionState.failed = true
can_transition_to ActionState.dispatched ActionState.verifying = true
can_transition_to ActionState.verifying ActionState.completed = true
can_transition_to ActionState.verifying ActionState.failed = true
can_transition_to ActionState.verifying ActionState.contradicted = true
can_transition_to ActionState.verifying ActionState.inconclusive = true
can_transition_to ActionState.verifying ActionState.unknown = true
can_transition_to ActionState.accepted ActionState.cancelled = true
can_transition_to ActionState.accepted ActionState.failed = true
can_transition_to _ _ = false

pub record ActionRecord (V : Type 0) : Type 0 where
  pub action_id : String
  pub target_id : String
  pub target_generation : ℕ
  pub session_id : Option String
  pub step_index : ℕ
  pub action : String
  pub capability_class : String
  pub started_at : ℕ
  pub completed_at : Option ℕ
  pub runtime_generation : ℕ
  pub dom_version_before : ℕ
  pub dom_version_after : ℕ
  pub frame_tree_version_before : ℕ
  pub frame_tree_version_after : ℕ
  pub resolution_method : String
  pub verification : Option (VerificationResult V)
  pub outcome : StepOutcome V
  pub state : ActionState
  pub production_profile : Bool
  pub latency_ms : ℕ
  pub error_detail : Option String

-- `now` is the clock; the subtraction saturates, as that of ℕ does.
unfoldable pub complete : {V : Type 0} → ActionRecord V → ℕ → ℕ → ℕ → ActionRecord V
complete r now dom_after frame_after = record r {
  completed_at = some now;
  dom_version_after = dom_after;
  frame_tree_version_after = frame_after;
  latency_ms = now - r.started_at;
}
