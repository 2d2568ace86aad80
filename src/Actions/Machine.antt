-- ===== src/Actions/Machine.antt =====
-- src/browser_runtime/action.rs: the table of transitions against the two tests of a state.
use hyprfast.Base.{◌≡◌, Bool, true, false, not, ◌&&◌, List, [], ◌∷◌, arith, any}
use hyprfast.Actions.{ActionState, is_terminal, is_cancellable, can_transition_to}

abbrev pub all_states : List ActionState
all_states =
    ActionState.accepted ∷ ActionState.resolving ∷ ActionState.resolved
    ∷ ActionState.precondition_check ∷ ActionState.dispatching ∷ ActionState.dispatched
    ∷ ActionState.verifying ∷ ActionState.completed ∷ ActionState.failed ∷ ActionState.contradicted
    ∷ ActionState.inconclusive ∷ ActionState.unknown ∷ ActionState.cancelled ∷ []

-- The terminal states are exactly those that no transition leaves.
is_terminal_lem : (s : ActionState) → is_terminal s ≡ not (any (can_transition_to s) all_states)
unfolding is_terminal can_transition_to
is_terminal_lem s = ground arith

abbrev pub is_resolved : ActionState → Bool
is_resolved ActionState.resolved = true
is_resolved _ = false

-- The states with a transition to the cancelled one are those that count as cancellable, but for
-- the resolved one.
pub is_cancellable_lem :
    (s : ActionState)
    → can_transition_to s ActionState.cancelled ≡ (is_cancellable s && not (is_resolved s))
unfolding is_cancellable can_transition_to
is_cancellable_lem s = ground arith
