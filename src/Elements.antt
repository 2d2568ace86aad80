-- ===== src/Elements.antt =====
-- src/browser_runtime/element_index.rs: the references to elements of the page, the requests that
-- look for one, and the three maps of the index. The index shares one `FrameManager` and one
-- `DomState` with the rest of the server: its record holds the frame manager, and that the state.
pub mod Selector
pub mod Store
pub mod Query
pub mod Merge
pub mod Resolve
use hyprfast.Base.{ℕ, String, Bool, Option, List, ℤ, [], none}
use hyprfast.Base.Map.{Map}
use hyprfast.Frames.{FrameManager}

-- Four `f64`, by their bit patterns: the code stores them and does not compute with them.
pub record BoundingBox : Type 0 where
  pub x : ℕ
  pub y : ℕ
  pub width : ℕ
  pub height : ℕ

pub record ElementRef : Type 0 where
  pub id : String
  pub backend_node_id : ℤ
  pub node_id : ℤ
  pub target_id : String
  pub target_generation : ℕ
  pub frame_id : String
  pub frame_tree_version : ℕ
  pub role : String
  pub name : String
  pub tag_name : String
  pub dom_id : String
  pub classes : List String
  pub selector : String
  pub text_content : String
  pub bounding_box : Option BoundingBox
  pub visible : Bool
  pub enabled : Bool
  pub dom_version_created : ℕ

pub record ResolveRequest : Type 0 where
  pub ref_id : Option String
  pub backend_node_id : Option ℤ
  pub selector : Option String
  pub dom_id : Option String
  pub name : Option String
  pub role : Option String
  pub accessible_name : Option String
  pub text : Option String
  pub tag_name : Option String
  pub target_id : Option String
  pub frame_id : Option String

-- `ResolveRequest::default()`
abbrev pub no_request : ResolveRequest
no_request = record {
  ref_id = none;
  backend_node_id = none;
  selector = none;
  dom_id = none;
  name = none;
  role = none;
  accessible_name = none;
  text = none;
  tag_name = none;
  target_id = none;
  frame_id = none;
}

pub record ElementIndex : Type 0 where
  pub elements : Map String ElementRef
  pub backend_map : Map ℤ String
  pub selector_map : Map String String
  pub next_id : ℕ
  pub frame_manager : FrameManager
  pub open frame_manager use *

unfoldable pub new : FrameManager → ElementIndex
new m = record {
  elements = [];
  backend_map = [];
  selector_map = [];
  next_id = 1;
  frame_manager = m;
}
