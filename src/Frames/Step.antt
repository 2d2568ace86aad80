-- ===== src/Frames/Step.antt =====
-- src/browser_runtime/frames.rs: what one event does to the versions.
use hyprfast.Base.{
  String, ◌≡◌, refl, Bool, true, false, Option, none, some, arith, ◌==◌, string_eq, bump,
  if◌then◌else◌,
}
use hyprfast.Base.Map
use hyprfast.Frames.{
  FrameEvent, FrameManager, attach, navigate, detach, apply, frame_version, bump_for_frame,
}

-- The frame whose version an event moves: attaching, navigating and detaching do.
abbrev pub bumped : FrameEvent → Option String
bumped (attach f _ _) = some f
bumped (navigate f _ _ _ _) = some f
bumped (detach f) = some f
bumped _ = none

abbrev pub is_frame : String → Option String → Bool
is_frame f none = false
is_frame f (some g) = g == f

abbrev pub is_any : Option String → Bool
is_any none = false
is_any (some g) = true

frame_version-bump_for_frame :
    (m : FrameManager) (f g : String)
    → frame_version (bump_for_frame m g) f
      ≡ (if g == f then bump m.frame_tree_version else frame_version m f)
unfolding frame_version bump_for_frame
frame_version-bump_for_frame m f g = rw Map.get-insert (ground arith)

-- Only the frame that an event moves gets a new version, the next global one.
pub frame_version-apply :
    (e : FrameEvent) (m : FrameManager) (f : String)
    → frame_version (apply e m) f
      ≡ (if is_frame f (bumped e) then bump m.frame_tree_version else frame_version m f)
unfolding apply frame_version
frame_version-apply (attach g p s) m f = rw Map.get-insert (ground arith)
frame_version-apply (navigate g p u n s) m f = rw Map.get-insert (ground arith)
frame_version-apply (detach g) m f = rw Map.get-insert (ground arith)
frame_version-apply _ m f = refl

pub frame_tree_version-apply :
    (e : FrameEvent) (m : FrameManager)
    → (apply e m).frame_tree_version
      ≡ (if is_any (bumped e) then bump m.frame_tree_version else m.frame_tree_version)
unfolding apply
frame_tree_version-apply (attach g p s) m = refl
frame_tree_version-apply _ m = refl
