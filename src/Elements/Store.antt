-- ===== src/Elements/Store.antt =====
-- src/browser_runtime/element_index.rs: storing, reading and removing references, and the checks
-- that a reference passes before it is used.
pub mod Consistent
pub mod Fresh
pub mod Faults
use hyprfast.Base.{
  ℕ, String, ◌<>◌, Bool, true, false, not, ◌&&◌, ◌||◌, Option, none, some, List, [], ◌∷◌, ℤ, pos,
  ◌==◌, string_eq, int_eq, int_beq, nat_beq, if◌then◌else◌, ◌>>=◌, bump,
}
use hyprfast.Base.Map
use hyprfast.Base.Map.{Map}
use hyprfast.Base.Text.{Unicode, is_empty, decimal, decimal_3}
use hyprfast.Error.{RuntimeResult, ok, err, stale_element_ref, element_not_interactable}
use hyprfast.Frames.{FrameManager, frame_version, is_stale_for_frame, unwrap_or}
use hyprfast.Elements.{BoundingBox, ElementRef, ElementIndex}
use hyprfast.Elements.Selector.{build_selector}

-- Is a version that the reference carries behind?
unfoldable pub is_stale_against : FrameManager → ElementRef → Bool
is_stale_against m r =
    not (nat_beq r.dom_version_created m.dom_version)
    || is_stale_for_frame m r.frame_id r.frame_tree_version

unfoldable pub is_stale : ElementIndex → ElementRef → Bool
unfolding is_stale_against
is_stale ix r =
    not (nat_beq r.target_generation ix.target_generation) || is_stale_against ix.frame_manager r

unfoldable pub verify_snapshot : ElementIndex → ElementRef → RuntimeResult (Unit {0})
unfolding is_stale
verify_snapshot ix r =
    if is_stale ix r
    then err (
        stale_element_ref (
          "ElementRef "
          <> r.id
          <> " stale: dom "
          <> decimal r.dom_version_created
          <> " vs "
          <> decimal ix.dom_version
          <> ", frame "
          <> r.frame_id
          <> " vs "
          <> decimal r.frame_tree_version
          <> "::"
          <> decimal (frame_version ix.frame_manager r.frame_id)))
    else if not (nat_beq r.target_generation ix.target_generation)
    then err (
        stale_element_ref (
          "ElementRef "
          <> r.id
          <> " stale target_generation "
          <> decimal r.target_generation
          <> " vs "
          <> decimal ix.target_generation))
    else ok tt

unfoldable pub check_interactable : ElementRef → RuntimeResult (Unit {0})
check_interactable r =
    if not r.visible
    then err (element_not_interactable ("element " <> r.id <> " not visible"))
    else if not r.enabled
    then err (element_not_interactable ("element " <> r.id <> " disabled"))
    else ok tt

-- The version that `insert` and `merge_dom_ax` pin for a frame: the global one if it has none.
abbrev pub version_or_global : FrameManager → String → ℕ
version_or_global m f = let v = frame_version m f in if nat_beq v 0 then m.frame_tree_version else v

-- The fields that the caller left unset.
unfoldable pub pin : Unicode → ElementIndex → ElementRef → ElementRef
pin u ix r = record r {
  dom_version_created =
      if nat_beq r.dom_version_created 0 then ix.dom_version else r.dom_version_created;
  frame_tree_version =
      if nat_beq r.frame_tree_version 0 && not (is_empty r.frame_id)
      then version_or_global ix.frame_manager r.frame_id
      else r.frame_tree_version;
  target_generation =
      if nat_beq r.target_generation 0 then ix.target_generation else r.target_generation;
  selector =
      if is_empty r.selector then build_selector u r.tag_name r.dom_id r.classes else r.selector;
}

-- The three maps with a reference whose fields are set.
unfoldable pub store : ElementIndex → ElementRef → ElementIndex
store ix r = record ix {
  backend_map =
      if int_beq r.backend_node_id (pos 0)
      then ix.backend_map
      else Map.insert r.backend_node_id r.id ix.backend_map;
  selector_map =
      if is_empty r.selector then ix.selector_map else Map.insert r.selector r.id ix.selector_map;
  elements = Map.insert r.id r ix.elements;
}

-- `format!("e_{n:03}")`
abbrev pub element_id : ℕ → String
element_id n = "e_" <> decimal_3 n

-- The new index and the id.
unfoldable pub insert : Unicode → ElementIndex → ElementRef → ElementIndex × String
unfolding pin store
insert u ix r =
    if is_empty r.id
    then (
      store (record ix { next_id = bump ix.next_id })
          (pin u ix (record r { id = element_id ix.next_id })),
      element_id ix.next_id,
    )
    else (store ix (pin u ix r), r.id)

unfoldable pub get : ElementIndex → String → Option ElementRef
get ix id = Map.get id ix.elements

unfoldable pub get_by_backend : ElementIndex → ℤ → Option ElementRef
unfolding get
get_by_backend ix backend = do id ← Map.get backend ix.backend_map; get ix id

unfoldable pub clear : ElementIndex → ElementIndex
clear ix = record ix { elements = []; backend_map = []; selector_map = [] }

unfoldable pub invalidate_all : ElementIndex → ElementIndex
unfolding clear
invalidate_all ix = clear ix

-- `m.get(&key).map(|v| v == id).unwrap_or(false)`
abbrev pub points_to : String → Option String → Bool
points_to id none = false
points_to id (some v) = v == id

-- A selector's entry goes only if it is the one of this id.
abbrev pub unlink : String → String → Map String String → Map String String
unlink selector id m = if points_to id (Map.get selector m) then Map.remove selector m else m

-- The maps after the removal of a reference; a node's entry goes whatever id it has.
unfoldable pub forget : ElementIndex → String → Option ElementRef → ElementIndex
forget ix id none = ix
forget ix id (some r) = record ix {
  elements = Map.remove id ix.elements;
  backend_map =
      if int_beq r.backend_node_id (pos 0)
      then ix.backend_map
      else Map.remove r.backend_node_id ix.backend_map;
  selector_map =
      if is_empty r.selector then ix.selector_map else unlink r.selector id ix.selector_map;
}

-- The new index and the removed reference.
unfoldable pub remove_by_id : ElementIndex → String → ElementIndex × Option ElementRef
unfolding forget
remove_by_id ix id = let r = Map.get id ix.elements in (forget ix id r, r)

-- The selectors when an element's selector changes; nothing happens for an unknown element.
unfoldable pub relink : Option ElementRef → ElementRef → Map String String → Map String String
relink none r m = m
relink (some old) r m =
    if old.selector == r.selector
    then m
    else let m' = unlink old.selector r.id m in
      if is_empty r.selector then m' else Map.insert r.selector r.id m'

unfoldable pub update_in_place : ElementIndex → ElementRef → ElementIndex
unfolding relink
update_in_place ix r = record ix {
  selector_map = relink (Map.get r.id ix.elements) r ix.selector_map;
  backend_map =
      if int_beq r.backend_node_id (pos 0)
      then ix.backend_map
      else Map.insert r.backend_node_id r.id ix.backend_map;
  elements = Map.insert r.id r ix.elements;
}
