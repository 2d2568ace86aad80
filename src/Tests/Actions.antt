-- ===== src/Tests/Actions.antt =====
-- The theorems on actions and their journal, at concrete inputs.
use hyprfast.Base.{String, ◌≡◌, true, not, ◌&&◌, none, [], ◌∷◌, arith}
use hyprfast.Actions.{ActionState, ActionRecord, StepOutcome, is_cancellable, can_transition_to}
use hyprfast.Actions.Machine.{is_resolved, is_cancellable_lem}
use hyprfast.Actions.Journal.{ActionJournal, appends, appends-entries}
use hyprfast.Tests.Data.{Value}

is_cancellable_lem_example :
    can_transition_to ActionState.resolving ActionState.cancelled
    ≡ (is_cancellable ActionState.resolving && not (is_resolved ActionState.resolving))
is_cancellable_lem_example = is_cancellable_lem ActionState.resolving

abbrev entry : String → ActionRecord Value
entry id = record {
  action_id = id;
  target_id = "page";
  target_generation = 1;
  session_id = none;
  step_index = 0;
  action = "click";
  capability_class = "interact";
  started_at = 10;
  completed_at = none;
  runtime_generation = 1;
  dom_version_before = 3;
  dom_version_after = 3;
  frame_tree_version_before = 2;
  frame_tree_version_after = 2;
  resolution_method = "";
  verification = none;
  outcome = StepOutcome.failed "not yet completed";
  state = ActionState.accepted;
  production_profile = true;
  latency_ms = 0;
  error_detail = none;
}

abbrev journal : ActionJournal Value
journal = record { entries = entry "act-1" ∷ []; max_entries = 2 }

appends-entries_example :
    (appends journal (entry "act-2" ∷ entry "act-3" ∷ [])).entries
    ≡ entry "act-2" ∷ entry "act-3" ∷ []
appends-entries_example =
    appends-entries journal (entry "act-2" ∷ entry "act-3" ∷ []) (omega arith) (omega arith)
