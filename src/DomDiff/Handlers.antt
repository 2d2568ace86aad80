-- ===== src/DomDiff/Handlers.antt =====
-- src/browser_runtime/dom_diff.rs: what an event does to the index, and the diff that it leaves.
use mathlib.Core.Option.{or_else}
use hyprfast.Base.{
  ℕ, String, ◌<>◌, Bool, true, false, ◌||◌, Option, none, some, List, [], ◌∷◌, map, ℤ, pos, ◌==◌,
  string_eq, int_beq, if◌then◌else◌, ◌>>=◌, bump, length,
}
use hyprfast.Base.Text.{Unicode, is_empty, decimal, decimal_ℤ}
use hyprfast.Json.{Json}
use hyprfast.DomState.{CdpEvent}
use hyprfast.Frames.{unwrap_or}
use hyprfast.Elements.{ElementRef, ElementIndex}
use hyprfast.Elements.Store.{
  insert, get, get_by_backend, remove_by_id, update_in_place, invalidate_all,
}
use hyprfast.Elements.Query.{find_all}
use hyprfast.DomDiff.{
  DiffKind, incremental, full_rebuild, DomDiff, DomDiffEngine, ParsedNode, parse_dom_node,
  build_selector_incremental, split_whitespace, before_dash, int_of, text_of,
}

-- The versions and the count of now, in a diff of nothing.
unfoldable pub blank_diff : DomDiffEngine → DiffKind → ℕ → ℕ → ℕ → Option String → DomDiff
blank_diff e kind seq dom_before eiv_before reason = record {
  kind = kind;
  sequence = seq;
  dom_version_before = dom_before;
  dom_version_after = e.element_index.dom_version;
  element_index_version_before = eiv_before;
  element_index_version_after = e.element_index.element_index_version;
  added = [];
  removed = [];
  changed = [];
  invalidated_refs = [];
  affected_parents = [];
  element_count_after = length e.element_index.elements;
  invalidate_reason = reason;
}

unfoldable pub build_full_diff :
    DomDiffEngine → ℕ → ℕ → ℕ → String → Option String → DomDiffEngine × DomDiff
unfolding blank_diff
build_full_diff e seq dom_before eiv_before reason invalidate_reason = (
  record e { rebuild_count = bump e.rebuild_count },
  blank_diff e full_rebuild seq dom_before eiv_before
      (some (reason <> (": " <> unwrap_or invalidate_reason ""))),
)

-- The ids other than 0.
abbrev pub affected : ℤ → List ℤ
affected node = if int_beq node (pos 0) then [] else node ∷ []

abbrev pub ids : Option ElementRef → List String
ids none = []
ids (some r) = r.id ∷ []

abbrev pub remove_any : ElementIndex → Option ElementRef → ElementIndex
remove_any ix none = ix
remove_any ix (some r) = (remove_by_id ix r.id).0

abbrev pub counted : DomDiffEngine → ElementIndex → DomDiffEngine
counted e ix = record e { element_index = ix; incremental_count = bump e.incremental_count }

-- The first reference to a node, in the order of the map.
unfoldable pub find_node : ℤ → List ElementRef → Option ElementRef
find_node node [] = none
find_node node (r ∷ rs) =
    let rest = find_node node rs in if int_beq r.node_id node then some r else rest

-- The reference that an inserted node gets; its frame is left unknown.
unfoldable pub inserted_ref : Unicode → ElementIndex → Option String → ParsedNode → ElementRef
unfolding before_dash build_selector_incremental
inserted_ref u ix session_id p = record {
  id = "";
  backend_node_id = p.backend_node_id;
  node_id = p.node_id;
  target_id = before_dash (unwrap_or session_id "t1");
  target_generation = ix.target_generation;
  frame_id = "";
  frame_tree_version = ix.frame_manager.frame_tree_version;
  role = "";
  name = p.text;
  tag_name = p.tag_name;
  dom_id = p.dom_id;
  classes = p.classes;
  selector = build_selector_incremental u p.tag_name p.dom_id p.classes;
  text_content = p.text;
  bounding_box = none;
  visible = true;
  enabled = true;
  dom_version_created = ix.dom_version;
}

-- The reference that stood for the node goes first.
unfoldable pub replace_ref :
    Unicode → ElementIndex → ElementRef → ElementIndex × String × List String
unfolding get_by_backend remove_by_id insert
replace_ref u ix r =
    let old = get_by_backend ix r.backend_node_id in
    let (ix', id) = insert u (remove_any ix old) r in (ix', id, ids old)

-- What an attribute changes of a reference.
unfoldable pub with_value : Unicode → String → String → ElementRef → ElementRef
unfolding build_selector_incremental split_whitespace
with_value u name value r =
    let off = is_empty value || value == "false" in
    if name == "id"
    then record r {
      dom_id = value;
      selector = build_selector_incremental u r.tag_name value r.classes;
    }
    else if name == "class"
    then record r {
      classes = split_whitespace value;
      selector = build_selector_incremental u r.tag_name r.dom_id (split_whitespace value);
    }
    else if name == "data-version" || (name == "data-state" || name == "data-*")
    then record r { text_content = name <> (":" <> value) }
    else if name == "disabled"
    then record r { enabled = off }
    else if name == "hidden" || name == "aria-hidden"
    then record r { visible = off }
    else r

-- The reference that `find_all` found is read once more by its id.
unfoldable pub modify_ref :
    Unicode → ElementIndex → String → String → Option ElementRef → ElementIndex × List String
unfolding with_value get update_in_place
modify_ref u ix name value none = (ix, [])
modify_ref u ix name value (some found) = elim (get ix found.id) [
  | none ↦ (ix, [])
  | some r ↦ (
    update_in_place ix
        (record (with_value u name value r) { dom_version_created = ix.dom_version }),
    r.id ∷ [],
  )
]

-- `Some(reason)` when nothing was found.
abbrev pub unless_found : Option ElementRef → String → Option String
unless_found none reason = some reason
unless_found (some r) reason = none

module _ {V : Type 0} (J : Json V) where
  open J use {get, as_i64, as_array}

  abbrev pub has_children : V → Bool
  has_children node = elim (get node "children" >>= as_array) [
    | none ↦ false
    | some [] ↦ false
    | some (c ∷ cs) ↦ true
  ]

  unfoldable pub handle_node :
      Unicode → DomDiffEngine → CdpEvent V → ℕ → ℕ → V → Option ParsedNode → DomDiffEngine × DomDiff
  unfolding blank_diff build_full_diff inserted_ref replace_ref
  handle_node u e ev dom_before eiv_before node none =
      build_full_diff e ev.sequence dom_before eiv_before "childNodeInserted-unparseable"
        (some "childNodeInserted node missing backendNodeId/nodeId — full invalidation")
  handle_node u e ev dom_before eiv_before node (some p) =
      let (ix, id, removed) =
        replace_ref u e.element_index (inserted_ref u e.element_index ev.session_id p) in
      let reason =
        if has_children node
        then some
            "inserted subtree has children — only root inserted incrementally; descendants require fresh traversal (invalidate-rather-than-guess)"
        else none in
      let e' = counted e ix in
      (
        e',
        record (blank_diff e' incremental ev.sequence dom_before eiv_before reason) {
          added = id ∷ [];
          removed = removed;
          invalidated_refs = removed;
          affected_parents = affected (int_of J ev.params "parentNodeId");
        },
      )

  unfoldable pub handle_insert :
      Unicode → DomDiffEngine → CdpEvent V → ℕ → ℕ → DomDiffEngine × DomDiff
  unfolding handle_node blank_diff parse_dom_node
  handle_insert u e ev dom_before eiv_before = elim (get ev.params "node") [
    | none ↦ (
      e,
      record (blank_diff e incremental ev.sequence dom_before eiv_before
          (some "childNodeInserted missing node payload — invalidate rather than guess")) {
            affected_parents = affected (int_of J ev.params "parentNodeId");
          },
    )
    | some node ↦ handle_node u e ev dom_before eiv_before node (parse_dom_node J u node)
  ]

  -- By the node's id first, then by the back end's.
  unfoldable pub find_removed : ElementIndex → V → Option ElementRef
  unfolding find_node find_all get_by_backend
  find_removed ix params =
      let node = int_of J params "nodeId" in
      let by_backend = (get params "backendNodeId" >>= as_i64) >>= get_by_backend ix in
      if int_beq node (pos 0) then by_backend else or_else (find_node node (find_all ix)) by_backend

  unfoldable pub handle_remove : DomDiffEngine → CdpEvent V → ℕ → ℕ → DomDiffEngine × DomDiff
  unfolding find_removed blank_diff remove_by_id
  handle_remove e ev dom_before eiv_before =
      let found = find_removed e.element_index ev.params in
      let parent = int_of J ev.params "parentNodeId" in
      let reason =
        "childNodeRemoved nodeId="
        <> decimal_ℤ (int_of J ev.params "nodeId")
        <> " parentId="
        <> decimal_ℤ parent
        <> " not found in index — no guess (likely text node or already invalidated)" in
      let e' = counted e (remove_any e.element_index found) in
      (
        e',
        record (blank_diff e' incremental ev.sequence dom_before eiv_before
            (unless_found found reason)) {
              removed = ids found;
              invalidated_refs = ids found;
              affected_parents = affected parent;
            },
      )

  unfoldable pub handle_attribute_modified :
      Unicode → DomDiffEngine → CdpEvent V → ℕ → ℕ → DomDiffEngine × DomDiff
  unfolding blank_diff find_node find_all modify_ref
  handle_attribute_modified u e ev dom_before eiv_before =
      let node = int_of J ev.params "nodeId" in
      let name = unwrap_or (text_of J ev.params "name") "" in
      let value = unwrap_or (text_of J ev.params "value") "" in
      let found = find_node node (find_all e.element_index) in
      let (ix, changed) = modify_ref u e.element_index name value found in
      let reason =
        "attributeModified nodeId="
        <> decimal_ℤ node
        <> " name="
        <> name
        <> " not found in index — invalidate rather than guess (node not indexed or text node)" in
      let e' = counted e ix in
      (
        e',
        record (blank_diff e' incremental ev.sequence dom_before eiv_before
            (unless_found found reason)) {
              changed = changed;
              invalidated_refs = changed;
              affected_parents = affected node;
            },
      )

  unfoldable pub handle_full_rebuild :
      DomDiffEngine → CdpEvent V → ℕ → ℕ → String → DomDiffEngine × DomDiff
  unfolding find_all invalidate_all build_full_diff
  handle_full_rebuild e ev dom_before eiv_before reason =
      let count_before = length (map (λ r. r.id) (find_all e.element_index)) in
      build_full_diff (record e { element_index = invalidate_all e.element_index }) ev.sequence
        dom_before eiv_before reason
        (some (
          "full rebuild (documentUpdated/navigation/recovery) — invalidated "
          <> decimal count_before
          <> " refs"))
