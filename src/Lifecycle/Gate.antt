-- ===== src/Lifecycle/Gate.antt =====
-- src/browser_runtime/state.rs: what the gate lets through.
use mathlib.Core.Path.{subst}
use hyprfast.Base.{String, ◌≡◌, ◌≢◌, ◌↔◌, refl, arith}
use hyprfast.Error.{RuntimeError, RuntimeResult, ok, err, wire_type}
use hyprfast.Lifecycle.{
  LifecycleState, RequestKind, starting, connecting, connected, degraded, reconnecting,
  disconnected, stopping, stopped, failed, read, state_changing, check,
}

-- A state-changing request passes exactly when the runtime is connected, and a read passes exactly
-- when it is not stopped.
pub check_gate :
    (s : LifecycleState)
    → ((check s state_changing ≡ ok tt) ↔ (s ≡ connected))
      × ((check s read ≡ ok tt) ↔ (s ≢ stopped))
unfolding check
check_gate s = ((λ h. ground arith, λ h. ground arith), (λ h. ground arith, λ h. ground arith))

-- The variant with which a refused request is answered, by its state and kind.
abbrev pub refusal : LifecycleState → String
refusal starting = "NotReady"
refusal connecting = "NotReady"
refusal degraded = "Degraded"
refusal reconnecting = "Reconnecting"
refusal stopping = "ShuttingDown"
refusal _ = "RuntimeDead"

abbrev Answers : String → RuntimeResult (Unit {0}) → Type 0
Answers t (ok x) = Unit {0}
Answers t (err e) = wire_type e ≡ t

check-Answers : (s : LifecycleState) (k : RequestKind) → Answers (refusal s) (check s k)
unfolding check wire_type
check-Answers starting read = tt
check-Answers starting state_changing = refl
check-Answers connecting read = tt
check-Answers connecting state_changing = refl
check-Answers connected k = tt
check-Answers degraded read = tt
check-Answers degraded state_changing = refl
check-Answers reconnecting read = tt
check-Answers reconnecting state_changing = refl
check-Answers disconnected read = tt
check-Answers disconnected state_changing = refl
check-Answers stopping read = tt
check-Answers stopping state_changing = refl
check-Answers stopped k = refl
check-Answers (failed reason) read = tt
check-Answers (failed reason) state_changing = refl

-- A request that the gate refuses is answered with the variant of the state, whatever its kind.
pub check-refusal :
    (s : LifecycleState) (k : RequestKind) (e : RuntimeError)
    → check s k ≡ err e
    → wire_type e ≡ refusal s
check-refusal s k e h = subst (Answers (refusal s)) h (check-Answers s k)
