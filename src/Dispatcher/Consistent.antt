-- ===== src/Dispatcher/Consistent.antt =====
-- src/browser_runtime/events.rs: what every sequence of events keeps.
use hyprfast.Base.{◌+◌, ◌≤◌, ◌<◌, sym, subst, List, [], ◌∷◌, arith, u64_mod, length}
use hyprfast.Base.Text.{Unicode}
use hyprfast.Json.{Json}
use hyprfast.DomState
use hyprfast.DomState.{DomState, CdpEvent}
use hyprfast.DomState.Versions.{on_event_versions}
use hyprfast.Frames
use hyprfast.Frames.{FrameManager, frame_version, frame_event}
use hyprfast.Frames.Invariant.{IsOrdered, apply-IsOrdered, frame_tree_version-on_event}
use hyprfast.Targets.Known.{IsKnown}
use hyprfast.Targets.Invariant.{on_event-IsKnown}
use hyprfast.Elements.Store.Consistent.{IsKeyed}
use hyprfast.DomDiff.Reports.{on_event_with_pre-Sound}
use hyprfast.Dispatcher.{Received, event, lagged, Dispatched, dispatch, dispatch_loop}

abbrev frames_of : Dispatched → FrameManager
frames_of s = s.dom_diff.element_index.frame_manager

-- The index knows each element by its own id, once; the active target and every mapped session have
-- a record; and no frame is ahead of the tree.
abbrev pub IsConsistent : Dispatched → Type 0
IsConsistent s =
    IsKeyed s.dom_diff.element_index × IsKnown s.target_manager × IsOrdered (frames_of s)

-- Consistent, and the tree has moved by one at most.
abbrev Follows : Dispatched → Dispatched → Type 0
Follows s t =
    IsConsistent t
    × ((frames_of t).dom_state.frame_tree_version ≤ (frames_of s).dom_state.frame_tree_version + 1)

module _ {V : Type 0} (J : Json V) (u : Unicode) where
  -- The frames after the page's state has seen the event.
  seen-IsOrdered :
      (m : FrameManager) (ev : CdpEvent V)
      → IsOrdered m
      → IsOrdered (record m { dom_state = DomState.on_event J m.dom_state ev })
  unfolding frame_version
  seen-IsOrdered m ev o f =
      subst (λ n. frame_version m f ≤ n) (sym (on_event_versions J m.dom_state ev).1) (o f)

  framed :
      (m : FrameManager) (ev : CdpEvent V)
      → m.dom_state.frame_tree_version + 1 < u64_mod
      → IsOrdered m
      → let m' =
          Frames.on_event J (record m { dom_state = DomState.on_event J m.dom_state ev }) ev in
        IsOrdered m' × (m'.dom_state.frame_tree_version ≤ m.dom_state.frame_tree_version + 1)
  unfolding Frames.on_event
  framed m ev h o =
      let v = (on_event_versions J m.dom_state ev).1 in
      let h' = subst (λ n. n + 1 < u64_mod) (sym v) h in
      let m1 = record m { dom_state = DomState.on_event J m.dom_state ev } in
      (
        apply-IsOrdered (frame_event J ev) m1 h' (seen-IsOrdered m ev o),
        subst (λ n. (Frames.on_event J m1 ev).dom_state.frame_tree_version ≤ n + 1) v
            (frame_tree_version-on_event J m1 ev h'),
      )

  dispatch-Follows :
      (s : Dispatched) (ev : CdpEvent V)
      → (frames_of s).dom_state.frame_tree_version + 1 < u64_mod
      → IsConsistent s
      → Follows s (dispatch J u s ev)
  unfolding dispatch
  dispatch-Follows s ev h c =
      let m = frames_of s in
      let f = framed m ev h c.2 in
      let e = record s.dom_diff {
        element_index = record s.dom_diff.element_index {
          frame_manager =
              Frames.on_event J (record m { dom_state = DomState.on_event J m.dom_state ev }) ev;
        };
      } in
      let r =
        on_event_with_pre-Sound J u e ev m.dom_state.dom_version m.dom_state.element_index_version
          c.0 in
      (
        (
          r.0,
          on_event-IsKnown J (DomState.on_event J m.dom_state ev) s.target_manager ev c.1,
          subst IsOrdered (sym r.1) f.0,
        ),
        subst (λ x. x.dom_state.frame_tree_version ≤ m.dom_state.frame_tree_version + 1) (sym r.1)
            f.1,
      )

  -- Whatever the loop receives, of events and lags, as long as the version of the frame tree does
  -- not wrap: the index knows each element by its own id, once, the active target and the target of
  -- every mapped session have a record, and no frame is ahead of the tree, if it was so before.
  pub dispatch_loop-IsConsistent :
      (s : Dispatched) (rs : List (Received V))
      → (frames_of s).dom_state.frame_tree_version + length rs < u64_mod
      → IsConsistent s
      → IsConsistent (dispatch_loop J u s rs)
  unfolding dispatch_loop
  dispatch_loop-IsConsistent s [] h c = c
  dispatch_loop-IsConsistent s (event ev ∷ rs) h c =
      let f = dispatch-Follows s ev (omega arith) c in
      dispatch_loop-IsConsistent (dispatch J u s ev) rs (omega (arith, f.1)) f.0
  dispatch_loop-IsConsistent s (lagged n ∷ rs) h c = dispatch_loop-IsConsistent s rs (omega arith) c
