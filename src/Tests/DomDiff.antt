-- ===== src/Tests/DomDiff.antt =====
-- The theorems on diffs, at a node that takes the place of the second button.
use mathlib.Core.Option.{or_else}
use hyprfast.Base.{some, String, ◌∷◌, arith, string_eq, ◌≡◌, refl, true, Option, none, [], pos}
use hyprfast.Base.Map
use hyprfast.DomState
use hyprfast.DomState.{DomState, CdpEvent}
use hyprfast.DomDiff.Events.{on_event}
use hyprfast.DomDiff.Guess.{on_event-guesses}
use hyprfast.Elements.Store.Consistent.{IsKeyed}
use hyprfast.DomDiff
use hyprfast.DomDiff.{parse_dom_node, DomDiff, DomDiffEngine, ParsedNode}
use hyprfast.DomDiff.Handlers.{handle_insert}
use hyprfast.DomDiff.Events.{on_event_with_pre}
use hyprfast.DomDiff.Reports.{Told, on_event_with_pre-Sound}
use hyprfast.DomDiff.Inserted.{Stands, handle_insert_stale}
use hyprfast.Tests.Data.{
  page, frame_manager, Value, json, unicode, index, index-IsKeyed, event, obj, field, int, str, end,
}

abbrev engine : DomDiffEngine
engine = DomDiff.new index

abbrev node_value : Value
node_value = obj (
    field "nodeId" (int (pos 31))
      (field "backendNodeId" (int (pos 12)) (field "localName" (str "button") end)))

abbrev replaced : CdpEvent Value
replaced =
    event 6 "DOM.childNodeInserted"
      (field "parentNodeId" (int (pos 7)) (field "node" node_value end))

abbrev after : DomDiffEngine × Option DomDiff
after = on_event_with_pre json unicode engine replaced 2 1

abbrev node : ParsedNode
node = record {
  node_id = pos 31;
  backend_node_id = pos 12;
  tag_name = "button";
  dom_id = "";
  classes = [];
  text = "";
}

on_event_with_pre-Sound_example :
    IsKeyed after.0.element_index
    × (after.0.element_index.frame_manager ≡ index.frame_manager)
    × Told engine replaced 2 1 after.0 after.1
unfolding DomDiff.new
on_event_with_pre-Sound_example =
    on_event_with_pre-Sound json unicode engine replaced 2 1 index-IsKeyed

unknown_frame : Map.get "" index.frame_versions ≡ none
unfolding Map.get
unknown_frame = refl

parsed : parse_dom_node json unicode node_value ≡ some node
unfolding parse_dom_node or_else
parsed = refl

handle_insert_stale_example :
    let (e', d) = handle_insert json unicode engine replaced 2 1 in
    (id : String) × (d.added ≡ id ∷ []) × Stands e'.element_index id (pos 12) true
unfolding DomDiff.new
handle_insert_stale_example =
    handle_insert_stale json unicode engine replaced 2 1 node_value node refl parsed unknown_frame

-- The engine after the page has seen the event.
abbrev seen : DomState
seen = DomState.on_event json page replaced

abbrev told_engine : DomDiffEngine
told_engine = record engine {
  element_index = record index { frame_manager = record frame_manager { dom_state = seen } };
}

on_event-guesses_example :
    on_event json unicode told_engine replaced
    ≡ on_event_with_pre json unicode told_engine replaced 3 1
on_event-guesses_example =
    on_event-guesses json unicode page replaced told_engine refl (omega arith) (omega arith)
