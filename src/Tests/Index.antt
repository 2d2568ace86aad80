-- ===== src/Tests/Index.antt =====
-- The theorems on the index of elements, at concrete inputs.
use hyprfast.Base.{true, String, ◌<>◌, ◌≡◌, refl, some, none, [], ◌∷◌, pos, string_eq}
use hyprfast.Base.Map
use hyprfast.Error.{ok, err, invalid_selector}
use hyprfast.Elements.{ElementRef, ResolveRequest}
use hyprfast.Elements.Selector.{build_selector, validate_selector}
use hyprfast.Elements.Selector.Laws.{build_selector-injective, validate_selector-build_selector}
use hyprfast.Elements.Store
use hyprfast.Elements.Store.{get, get_by_backend, insert, remove_by_id, update_in_place, is_stale}
use hyprfast.Elements.Store.Consistent.{
  IsKeyed, inserts, removes, invalidates, writes, writes-IsKeyed,
}
use hyprfast.Elements.Store.Fresh.{is_unknown, insert_stale, Finds}
use hyprfast.Elements.Store.Faults.{get_by_backend-remove_by_id, get_by_backend-update_in_place}
use hyprfast.Elements.Merge.{DomNodeInfo, merge_dom_ax}
use hyprfast.Elements.Merge.Fresh.{merge_dom_ax_stale}
use hyprfast.Elements.Resolve.{resolve, by_ref_id, accept}
use hyprfast.Frames.{is_stale_for_frame}
use hyprfast.Elements.Resolve.Sound.{IsNamed, IsJustified, resolve-IsJustified}
use hyprfast.Elements.Resolve.Total.{Returns, resolve-Returns}
use hyprfast.Tests.Data.{
  json, unicode, button, first_button, second_button, index, index-IsKeyed, first_request,
  frame_manager,
}

writes-IsKeyed_example :
    IsKeyed (writes unicode index (inserts second_button ∷ removes "e_001" ∷ invalidates ∷ []))
writes-IsKeyed_example =
    writes-IsKeyed unicode index (inserts second_button ∷ removes "e_001" ∷ invalidates ∷ [])
      index-IsKeyed

-- A reference of a frame that the manager has never seen.
abbrev unseen : ElementRef
unseen = record (button "" "new" (pos 13) 0) {
  frame_id = "popup";
  frame_tree_version = 0;
  target_generation = 0;
}

insert_stale_example :
    Finds
      (insert unicode index unseen).0
      (insert unicode index unseen).1
      (is_unknown frame_manager "popup")
insert_stale_example = insert_stale unicode index unseen refl refl refl refl

get_by_backend-remove_by_id_example : get_by_backend (remove_by_id index "e_001").0 (pos 11) ≡ none
unfolding get Map.get
get_by_backend-remove_by_id_example =
    get_by_backend-remove_by_id index "e_001" first_button refl refl

get_by_backend-update_in_place_example :
    get_by_backend (update_in_place index (button "e_002" "save" (pos 14) 3)) (pos 12)
    ≡ some (button "e_002" "save" (pos 14) 3)
unfolding Map.get
get_by_backend-update_in_place_example =
    get_by_backend-update_in_place index (button "e_002" "save" (pos 14) 3) (pos 12) refl refl

build_selector-injective_example : ◌≡◌ {A = String} "save" "save"
unfolding build_selector
build_selector-injective_example =
    build_selector-injective unicode "button" "a" "save" "save" [] ("x" ∷ []) refl refl refl

validate_selector-build_selector_example :
    validate_selector (build_selector unicode "div" ("x" <> (":contains" <> "y")) [])
    ≡ err (invalid_selector "selector contains :contains() — invalid CSS, use text tier instead")
validate_selector-build_selector_example = validate_selector-build_selector unicode "div" "x" "y" []

resolve-Returns_example : Returns (resolve json unicode index (first_request "save"))
resolve-Returns_example = resolve-Returns json unicode index (first_request "save") tt tt

abbrev second_request : ResolveRequest
second_request = record (first_request "save") { ref_id = some "e_002" }

resolve-IsJustified_example :
    IsJustified index (IsNamed unicode index second_request) (ok second_button)
unfolding resolve by_ref_id get Map.get accept Store.verify_snapshot is_stale_for_frame
    Store.check_interactable
resolve-IsJustified_example =
    resolve-IsJustified json unicode index second_request (ok second_button) refl

abbrev link : DomNodeInfo
link = record {
  backend_node_id = pos 21;
  node_id = pos 22;
  tag_name = "a";
  dom_id = "";
  classes = "nav" ∷ [];
  selector = "a.nav";
  text = "Home";
  bounding_box = none;
  visible = true;
  enabled = true;
  attributes = [];
}

merge_dom_ax_stale_example :
    is_stale index (merge_dom_ax index link none "page" "main") ≡ is_unknown frame_manager "main"
merge_dom_ax_stale_example = merge_dom_ax_stale index link none "page" "main" refl
