-- ===== src/Dispatcher.antt =====
-- src/browser_runtime/events.rs: the loop that hands each event of the browser, in wire order, to
-- the parts of the server. The calls that it spawns to the browser are left out.
pub mod Consistent
pub mod Snapshots
use hyprfast.Base.{ℕ, List, [], ◌∷◌}
use hyprfast.Base.Text.{Unicode}
use hyprfast.Json.{Json}
use hyprfast.DomState
use hyprfast.DomState.{DomState, CdpEvent}
use hyprfast.Frames
use hyprfast.Targets.{BrowserTargetManager}
use hyprfast.Targets.Events
use hyprfast.DomDiff.{DomDiffEngine}
use hyprfast.DomDiff.Events.{on_event_with_pre}

-- What the receiver of the loop gets. A lag drops events, and nothing else happens.
pub data Received (V : Type 0) : Type 0 where
  event : CdpEvent V → Received V
  lagged : ℕ → Received V

-- The targets, and the engine with the index, the frames and the state of the page. The server makes
-- its dispatcher with all of them, which the code would also run without.
pub record Dispatched : Type 0 where
  pub target_manager : BrowserTargetManager
  pub dom_diff : DomDiffEngine

module _ {V : Type 0} (J : Json V) (u : Unicode) where
  -- The page's state has seen the event when the targets, the frames and the engine see it.
  unfoldable pub dispatch : Dispatched → CdpEvent V → Dispatched
  unfolding DomState.on_event Events.on_event Frames.on_event on_event_with_pre
  dispatch s ev =
      let m = s.dom_diff.element_index.frame_manager in
      let d = DomState.on_event J m.dom_state ev in
      let m' = Frames.on_event J (record m { dom_state = d }) ev in
      let e = record s.dom_diff {
        element_index = record s.dom_diff.element_index { frame_manager = m' };
      } in
      record {
        target_manager = Events.on_event J d s.target_manager ev;
        dom_diff =
            (on_event_with_pre J u e ev m.dom_state.dom_version
              m.dom_state.element_index_version).0;
      }

  -- The loop ends when the channel closes.
  unfoldable pub dispatch_loop : Dispatched → List (Received V) → Dispatched
  unfolding dispatch
  dispatch_loop s [] = s
  dispatch_loop s (event ev ∷ rs) = dispatch_loop (dispatch s ev) rs
  dispatch_loop s (lagged n ∷ rs) = dispatch_loop s rs
