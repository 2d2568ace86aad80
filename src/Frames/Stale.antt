-- ===== src/Frames/Stale.antt =====
-- src/browser_runtime/frames.rs: a reference goes stale with its own frame, and with no other.
use hyprfast.Base.{
  string_eq, ℕ, ◌+◌, ◌<◌, String, ◌≡◌, refl, Bool, true, false, not, List, [], ◌∷◌, arith, bump,
  bump-lt, u64_mod, length, Bool-cases, inl, inr, if◌then◌else◌, any, nat_beq, ◌||◌,
}
use hyprfast.Base.Map
use hyprfast.Json.{Json}
use hyprfast.DomState.{CdpEvent}
use hyprfast.Frames.{
  FrameManager, frame_event, on_event, frame_version, is_stale_for_frame, handle_reconnect,
}
use hyprfast.Frames.Moved.{moved_frame, bumped-frame_event}
use hyprfast.Frames.Step.{is_frame, frame_version-apply}
use hyprfast.Frames.Invariant.{IsOrdered, apply-IsOrdered, run, frame_tree_version-on_event}

module _ {V : Type 0} (J : Json V) where
  -- The event attaches, navigates or detaches the frame, by its method and its parameters.
  abbrev pub touches : String → CdpEvent V → Bool
  touches f ev = is_frame f (moved_frame J ev)

  frame_version-on_event :
      (m : FrameManager) (ev : CdpEvent V) (f : String)
      → frame_version (on_event J m ev) f
        ≡ (if touches f ev then bump m.frame_tree_version else frame_version m f)
  unfolding on_event
  frame_version-on_event m ev f =
      rw (← bumped-frame_event J ev) (frame_version-apply (frame_event J ev) m f)

  on_event-IsOrdered :
      (m : FrameManager) (ev : CdpEvent V)
      → m.frame_tree_version + 1 < u64_mod
      → IsOrdered m
      → IsOrdered (on_event J m ev)
  unfolding on_event
  on_event-IsOrdered m ev h v = apply-IsOrdered (frame_event J ev) m h v

  abbrev Outcome : Bool → ℕ → ℕ → Type 0
  Outcome true old new = old < new
  Outcome false old new = new ≡ old

  join_Outcome : (b c : Bool) (x y z : ℕ) → Outcome b x y → Outcome c y z → Outcome (b || c) x z
  join_Outcome true true x y z p q = omega arith
  join_Outcome true false x y z p q = omega arith
  join_Outcome false true x y z p q = omega arith
  join_Outcome false false x y z p q = omega arith

  on_event-Outcome :
      (m : FrameManager) (ev : CdpEvent V) (f : String)
      → m.frame_tree_version + 1 < u64_mod
      → IsOrdered m
      → Outcome (touches f ev) (frame_version m f) (frame_version (on_event J m ev) f)
  on_event-Outcome m ev f h v = elim (Bool-cases (touches f ev)) [
    | inl e ↦ rw e (
        omega (arith, v f, rw e at (frame_version-on_event m ev f), bump-lt m.frame_tree_version h))
    | inr e ↦ rw e (rw e at (frame_version-on_event m ev f))
  ]

  run-Outcome :
      (m : FrameManager) (evs : List (CdpEvent V)) (f : String)
      → m.frame_tree_version + length evs < u64_mod
      → IsOrdered m
      → Outcome (any (touches f) evs) (frame_version m f) (frame_version (run J m evs) f)
  unfolding run
  run-Outcome m [] f h v = refl
  run-Outcome m (ev ∷ evs) f h v =
      join_Outcome (touches f ev) (any (touches f) evs) (frame_version m f)
        (frame_version (on_event J m ev) f) (frame_version (run J (on_event J m ev) evs) f)
        (on_event-Outcome m ev f (omega arith) v)
        (run-Outcome (on_event J m ev) evs f
          (omega (arith, frame_tree_version-on_event J m ev (omega arith)))
          (on_event-IsOrdered m ev (omega arith) v))

  is_stale_of_Outcome :
      (m : FrameManager) (f : String) (b : Bool) (old : ℕ)
      → Outcome b old (frame_version m f)
      → is_stale_for_frame m f old ≡ b
  unfolding is_stale_for_frame
  is_stale_of_Outcome m f true old h = ground arith
  is_stale_of_Outcome m f false old h = ground arith

  -- The check of the version of a frame finds the present version of the frame out of date after a
  -- history of events exactly if some event of the history, by its method and its parameters,
  -- attaches, navigates or detaches that frame: the events of other frames and of execution contexts
  -- leave it valid. No frame is ahead of the tree, and the counter does not wrap.
  pub frame_ref_stale :
      (m : FrameManager) (evs : List (CdpEvent V)) (f : String)
      → m.frame_tree_version + length evs < u64_mod
      → IsOrdered m
      → is_stale_for_frame (run J m evs) f (frame_version m f) ≡ any (touches f) evs
  frame_ref_stale m evs f h v =
      is_stale_of_Outcome (run J m evs) f (any (touches f) evs) (frame_version m f)
        (run-Outcome m evs f h v)

-- After a reconnection the check of a frame's version, which is one part of the check of a
-- reference, refuses exactly the versions other than 0: a version 0, which a frame that is unknown
-- has, passes this part.
pub handle_reconnect_stale :
    (m : FrameManager) (new_global : ℕ) (f : String) (stored : ℕ)
    → is_stale_for_frame (handle_reconnect m new_global) f stored ≡ not (nat_beq stored 0)
unfolding is_stale_for_frame handle_reconnect frame_version
handle_reconnect_stale m new_global f stored = rw Map.get-empty (ground arith)
