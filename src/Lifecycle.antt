-- ===== src/Lifecycle.antt =====
-- src/browser_runtime/state.rs: the lifecycle of the runtime and its permission table.
pub mod Gate
pub mod Reach
use hyprfast.Base.{String, ◌<>◌, Bool, true, false, not, ◌&&◌, ◌||◌, if◌then◌else◌}
use hyprfast.Error.{
  RuntimeError, RuntimeResult, ok, err, not_ready, runtime_dead, shutting_down, invalid_response,
}

pub data RequestKind : Type 0 where
  read state_changing : RequestKind

pub data LifecycleState : Type 0 where
  starting connecting connected degraded reconnecting disconnected : LifecycleState
  stopping stopped : LifecycleState
  failed : String → LifecycleState

unfoldable pub name : LifecycleState → String
name starting = "Starting"
name connecting = "Connecting"
name connected = "Connected"
name degraded = "Degraded"
name reconnecting = "Reconnecting"
name disconnected = "Disconnected"
name stopping = "Stopping"
name stopped = "Stopped"
name (failed _) = "Failed"

unfoldable pub check : LifecycleState → RequestKind → RuntimeResult (Unit {0})
check connected _ = ok tt
check starting read = ok tt
check connecting read = ok tt
check starting state_changing =
    err (not_ready "runtime is starting; browser actions not accepted yet")
check connecting state_changing =
    err (not_ready "runtime is connecting to the browser; try again shortly")
check degraded read = ok tt
check degraded state_changing = err (
    RuntimeError.degraded "runtime is degraded; state-changing dispatch paused, reads still served")
check reconnecting read = ok tt
check reconnecting state_changing =
    err (RuntimeError.reconnecting "runtime is reconnecting; retry after it returns to Connected")
check disconnected read = ok tt
check (failed _) read = ok tt
check disconnected state_changing =
    err (runtime_dead "runtime is disconnected; no browser actions possible")
check (failed reason) state_changing =
    err (runtime_dead ("runtime failed and is not usable: " <> reason))
check stopping read = ok tt
check stopping state_changing = err (shutting_down "runtime is stopping; no new actions accepted")
check stopped _ = err (runtime_dead "runtime is stopped")

abbrev is_stopping : LifecycleState → Bool
is_stopping stopping = true
is_stopping _ = false

abbrev is_stopped : LifecycleState → Bool
is_stopped stopped = true
is_stopped _ = false

abbrev is_failed : LifecycleState → Bool
is_failed (failed _) = true
is_failed _ = false

-- The edges that the last `matches!` lists.
abbrev is_edge : LifecycleState → LifecycleState → Bool
is_edge starting connecting = true
is_edge connecting connected = true
is_edge connecting disconnected = true
is_edge connected degraded = true
is_edge connected disconnected = true
is_edge connected reconnecting = true
is_edge degraded connected = true
is_edge degraded reconnecting = true
is_edge degraded disconnected = true
is_edge reconnecting connected = true
is_edge reconnecting disconnected = true
is_edge disconnected reconnecting = true
is_edge _ _ = false

unfoldable pub can_transition_to : LifecycleState → LifecycleState → Bool
can_transition_to s next =
    if is_stopping next
    then not (is_stopped s)
    else if is_stopped next
    then is_stopping s
    else if is_failed next
    then not (is_stopped s || is_stopping s)
    else if is_stopped s || is_stopping s || is_failed s
    then false
    else is_edge s next

-- The new state and the result.
unfoldable pub transition_to :
    LifecycleState → LifecycleState → LifecycleState × RuntimeResult (Unit {0})
unfolding can_transition_to name
transition_to s next = if can_transition_to s next then (next, ok tt) else (
  s,
  err (invalid_response ("illegal lifecycle transition " <> name s <> " -> " <> name next)),
)
