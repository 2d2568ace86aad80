-- ===== src/Frames/Invariant.antt =====
-- src/browser_runtime/frames.rs: no frame is ahead of the tree, over any history of events.
use hyprfast.Base.{
  ℕ, ◌+◌, ◌≤◌, ◌<◌, String, List, [], ◌∷◌, arith, string_eq, bump, bump-lt, u64_mod, length, Option,
  none, some, if◌then◌else◌,
}
use hyprfast.Base.Map
use hyprfast.Json.{Json}
use hyprfast.DomState.{CdpEvent, DomState}
use hyprfast.Frames.{
  FrameManager, FrameEvent, apply, frame_event, on_event, frame_version, new, handle_reconnect,
}
use hyprfast.Frames.Step.{bumped, is_frame, is_any, frame_version-apply, frame_tree_version-apply}

-- The version of every frame is at most the global one.
abbrev pub IsOrdered : FrameManager → Type 0
IsOrdered m = (f : String) → frame_version m f ≤ m.frame_tree_version

pub apply-IsOrdered :
    (e : FrameEvent) (m : FrameManager)
    → m.frame_tree_version + 1 < u64_mod
    → IsOrdered m
    → IsOrdered (apply e m)
apply-IsOrdered e m h v f =
    rw (frame_version-apply e m f, frame_tree_version-apply e m) (split (bumped e))
  where
    split :
        (o : Option String)
        → (if is_frame f o then bump m.frame_tree_version else frame_version m f)
          ≤ (if is_any o then bump m.frame_tree_version else m.frame_tree_version)
    split none = v f
    split (some g) = ground (arith, v f, bump-lt m.frame_tree_version h)

module _ {V : Type 0} (J : Json V) where
  unfoldable pub run : FrameManager → List (CdpEvent V) → FrameManager
  run m [] = m
  run m (ev ∷ evs) = run (on_event J m ev) evs

  pub frame_tree_version-on_event :
      (m : FrameManager) (ev : CdpEvent V)
      → m.frame_tree_version + 1 < u64_mod
      → (on_event J m ev).frame_tree_version ≤ m.frame_tree_version + 1
  unfolding on_event
  frame_tree_version-on_event m ev h =
      ground (arith, frame_tree_version-apply (frame_event J ev) m, bump-lt m.frame_tree_version h)

  -- After any history of events no frame is ahead of the global version, if it was so before and
  -- the counter does not wrap.
  run-IsOrdered :
      (m : FrameManager) (evs : List (CdpEvent V))
      → m.frame_tree_version + length evs < u64_mod
      → IsOrdered m
      → IsOrdered (run m evs)
  unfolding run
  run-IsOrdered m [] h v = v
  run-IsOrdered m (ev ∷ evs) h v =
      run-IsOrdered (on_event J m ev) evs
        (omega (arith, frame_tree_version-on_event m ev (omega arith)))
        (unfold on_event in apply-IsOrdered (frame_event J ev) m (omega arith) v)

pub new-IsOrdered : (d : DomState) → IsOrdered (new d)
unfolding new frame_version
new-IsOrdered d f = rw Map.get-empty (omega arith)

pub handle_reconnect-IsOrdered : (m : FrameManager) (n : ℕ) → IsOrdered (handle_reconnect m n)
unfolding handle_reconnect frame_version
handle_reconnect-IsOrdered m n f = rw Map.get-empty (omega arith)
