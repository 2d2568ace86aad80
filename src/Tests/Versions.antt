-- ===== src/Tests/Versions.antt =====
-- The theorems on versions, frames, the gate and the wire, at concrete inputs.
use hyprfast.Base.Map
use hyprfast.Base.{
  Bool-cases, inr, ◌==◌, string_eq, ◌≡◌, ◌≢◌, ◌↔◌, refl, inl, not, any, nat_beq, some, [], ◌∷◌,
  arith,
}
use hyprfast.Error.{RuntimeError, ok, to_wire, from_wire}
use hyprfast.Error.Wire.{from_wire-to_wire}
use hyprfast.Lifecycle.{
  stopping, connected, starting, reconnecting, stopped, read, state_changing, check,
}
use hyprfast.Lifecycle.Gate.{check_gate}
use hyprfast.Lifecycle.Reach
use hyprfast.Lifecycle.Reach.{IsFinal, shutdown-IsFinal}
use hyprfast.DomState.Versions
use hyprfast.DomState.Parents.{IsSmall, run-IsSmall}
use hyprfast.Frames.{FrameManager, frame_version, is_stale_for_frame, handle_reconnect}
use hyprfast.Frames
use hyprfast.Frames.Invariant
use hyprfast.Frames.Invariant.{IsOrdered, new-IsOrdered}
use hyprfast.Frames.Stale.{touches, frame_ref_stale, handle_reconnect_stale}
use hyprfast.Tests.Data.{json, json-IsLawful, page, frame_manager, history}

from_wire-to_wire_example :
    from_wire json (to_wire json (RuntimeError.timeout "Page.navigate" 30000))
    ≡ some (RuntimeError.timeout "Page.navigate" 30000)
from_wire-to_wire_example =
    from_wire-to_wire json json-IsLawful (RuntimeError.timeout "Page.navigate" 30000) (omega arith)

check_gate_example :
    ((check reconnecting state_changing ≡ ok tt) ↔ (reconnecting ≡ connected))
    × ((check reconnecting read ≡ ok tt) ↔ (reconnecting ≢ stopped))
check_gate_example = check_gate reconnecting

shutdown-IsFinal_example :
    IsFinal (Reach.run stopping (connected ∷ stopped ∷ starting ∷ []))
    × (check (Reach.run stopping (connected ∷ stopped ∷ starting ∷ [])) state_changing ≢ ok tt)
shutdown-IsFinal_example =
    shutdown-IsFinal stopping (connected ∷ stopped ∷ starting ∷ []) (inl refl)

run-IsSmall_example : IsSmall (Versions.run json page history).affected_parents
run-IsSmall_example = run-IsSmall json page history (omega arith, (refl, (refl, tt)))

frame_manager-IsOrdered : IsOrdered frame_manager
unfolding Frames.frame_version Map.get
frame_manager-IsOrdered f = elim (Bool-cases ("main" == f)) [
  | inl e ↦ rw e (omega arith)
  | inr e ↦ elim (Bool-cases ("ads" == f)) [
    | inl e' ↦ rw (e, e') (omega arith)
    | inr e' ↦ rw (e, e') (omega arith)
  ]
]

frame_ref_stale_example :
    is_stale_for_frame
      (Invariant.run json frame_manager history)
      "ads"
      (frame_version frame_manager "ads")
    ≡ any (touches json "ads") history
frame_ref_stale_example =
    frame_ref_stale json frame_manager history "ads" (omega arith) frame_manager-IsOrdered

handle_reconnect_stale_example :
    is_stale_for_frame (handle_reconnect frame_manager 4) "main" 1 ≡ not (nat_beq 1 0)
handle_reconnect_stale_example = handle_reconnect_stale frame_manager 4 "main" 1
