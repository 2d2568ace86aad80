-- ===== src/Lifecycle/Reach.antt =====
-- src/browser_runtime/state.rs: histories of transitions.
use hyprfast.Base.{◌≡◌, ◌≢◌, ◌⊎◌, List, [], ◌∷◌, arith}
use hyprfast.Error.{ok}
use hyprfast.Lifecycle.{LifecycleState, stopping, stopped, check, transition_to, state_changing}

-- The state after a history of requested transitions, each refused or taken.
pub run : LifecycleState → List LifecycleState → LifecycleState
run s [] = s
run s (next ∷ rest) = run (transition_to s next).0 rest

-- `s` is past the point of no return.
abbrev pub IsFinal : LifecycleState → Type 0
IsFinal s = (s ≡ stopping) ⊎ (s ≡ stopped)

transition_to-IsFinal : (s next : LifecycleState) → IsFinal s → IsFinal (transition_to s next).0
unfolding transition_to
transition_to-IsFinal s next h = ground arith

-- Once the runtime is stopping or stopped, no history of transitions leaves these two states, and
-- no state-changing request passes the gate any more.
pub shutdown-IsFinal :
    (s : LifecycleState) (history : List LifecycleState)
    → IsFinal s
    → IsFinal (run s history) × (check (run s history) state_changing ≢ ok tt)
unfolding run check
shutdown-IsFinal s [] h = (h, ground arith)
shutdown-IsFinal s (next ∷ rest) h =
    shutdown-IsFinal (transition_to s next).0 rest (transition_to-IsFinal s next h)
