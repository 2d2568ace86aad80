-- ===== src/Tests/Dispatch.antt =====
-- The theorem on the loop of the dispatcher, at an insertion, a lag and a navigation of a frame.
use hyprfast.Base.{◌≡◌, any, List, [], ◌∷◌, arith}
use hyprfast.Frames
use hyprfast.Frames.Invariant.{new-IsOrdered}
use hyprfast.Targets
use hyprfast.Elements
use hyprfast.DomDiff
use hyprfast.Dispatcher.{Received, event, lagged, Dispatched, dispatch_loop}
use hyprfast.Dispatcher.Consistent.{IsConsistent, dispatch_loop-IsConsistent}
use hyprfast.DomState.{is_stale}
use hyprfast.Dispatcher.Snapshots.{page_of, outdates, snapshot_stale}
use hyprfast.Tests.Data.{Value, json, unicode, page, insertion, navigation}

abbrev start : Dispatched
start = record {
  target_manager = Targets.new;
  dom_diff = DomDiff.new (Elements.new (Frames.new page));
}

abbrev arrivals : List (Received Value)
arrivals = event insertion ∷ lagged 3 ∷ event navigation ∷ []

dispatch_loop-IsConsistent_example : IsConsistent (dispatch_loop json unicode start arrivals)
unfolding Targets.new DomDiff.new Elements.new Frames.new
dispatch_loop-IsConsistent_example =
    dispatch_loop-IsConsistent json unicode start arrivals (omega arith)
      (tt, (tt, tt), new-IsOrdered page)

snapshot_stale_example :
    is_stale (page_of (dispatch_loop json unicode start arrivals)) 3 2
    ≡ any (outdates json unicode) arrivals
unfolding Targets.new DomDiff.new Elements.new Frames.new
snapshot_stale_example = snapshot_stale json unicode start arrivals (omega arith) (omega arith)
