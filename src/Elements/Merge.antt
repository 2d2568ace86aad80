-- ===== src/Elements/Merge.antt =====
-- src/browser_runtime/element_index.rs: a reference made of a DOM node and its accessibility node.
pub mod Fresh
use hyprfast.Base.{ℕ, String, Bool, Option, none, some, List, ℤ, if◌then◌else◌}
use hyprfast.Base.Map.{Map}
use hyprfast.Base.Text.{is_empty}
use hyprfast.Frames.{unwrap_or}
use hyprfast.Elements.{BoundingBox, ElementRef, ElementIndex}
use hyprfast.Elements.Store.{version_or_global}

pub record DomNodeInfo : Type 0 where
  pub backend_node_id : ℤ
  pub node_id : ℤ
  pub tag_name : String
  pub dom_id : String
  pub classes : List String
  pub selector : String
  pub text : String
  pub bounding_box : Option BoundingBox
  pub visible : Bool
  pub enabled : Bool
  pub attributes : Map String String

pub record AxNodeInfo : Type 0 where
  pub role : String
  pub name : Option String
  pub description : Option String
  pub ignored : Bool

abbrev ax_role : Option AxNodeInfo → String
ax_role none = ""
ax_role (some ax) = ax.role

abbrev ax_name : Option AxNodeInfo → Option String
ax_name none = none
ax_name (some ax) = ax.name

unfoldable pub merge_dom_ax :
    ElementIndex → DomNodeInfo → Option AxNodeInfo → String → String → ElementRef
merge_dom_ax ix dom ax target_id frame_id = record {
  id = "";
  backend_node_id = dom.backend_node_id;
  node_id = dom.node_id;
  target_id = target_id;
  target_generation = ix.target_generation;
  frame_id = frame_id;
  frame_tree_version =
      if is_empty frame_id
      then ix.frame_tree_version
      else version_or_global ix.frame_manager frame_id;
  role = ax_role ax;
  name = unwrap_or (ax_name ax) dom.text;
  tag_name = dom.tag_name;
  dom_id = dom.dom_id;
  classes = dom.classes;
  selector = dom.selector;
  text_content = dom.text;
  bounding_box = dom.bounding_box;
  visible = dom.visible;
  enabled = dom.enabled;
  dom_version_created = ix.dom_version;
}
