-- ===== src/Wait.antt =====
-- src/browser_runtime/wait.rs: the one loop that waits for a condition of the page.
pub mod Awake
use hyprfast.Base.{ℕ, Bool, true, false, ◌||◌, Option, none, some, List, [], ◌∷◌, if◌then◌else◌}
use hyprfast.Error.{RuntimeResult, ok, err, timeout, runtime_dead}
use hyprfast.DomState.{CdpEvent}

-- What ends a turn of the loop, with the state of the page that the check after it sees: an event, a
-- lag of the receiver, or a tick; or the channel is closed, or the deadline has passed.
pub data Wake (V S : Type 0) : Type 0 where
  arrived : CdpEvent V → S → Wake V S
  lagged : ℕ → S → Wake V S
  ticked : S → Wake V S
  closed : Wake V S
  expired : Wake V S

module _ {V S : Type 0} (check : S → Bool) (predicate : CdpEvent V → Bool) (timeout_ms : ℕ) where
  -- Nothing, while the loop waits still.
  unfoldable pub wait_loop : List (Wake V S) → Option (RuntimeResult (Option (CdpEvent V)))
  wait_loop [] = none
  wait_loop (arrived ev s ∷ ws) =
      let rest = wait_loop ws in
      if predicate ev then some (ok (some ev)) else if check s then some (ok (some ev)) else rest
  wait_loop (lagged n s ∷ ws) = let rest = wait_loop ws in if check s then some (ok none) else rest
  wait_loop (ticked s ∷ ws) = let rest = wait_loop ws in if check s then some (ok none) else rest
  wait_loop (closed ∷ ws) = some (err (runtime_dead "event channel closed while waiting"))
  wait_loop (expired ∷ ws) = some (err (timeout "wait_for" timeout_ms))

  -- The state is checked before the subscription and after it.
  unfoldable pub wait_for : S → S → List (Wake V S) → Option (RuntimeResult (Option (CdpEvent V)))
  unfolding wait_loop
  wait_for before after ws =
      if check before then some (ok none) else if check after then some (ok none) else wait_loop ws
