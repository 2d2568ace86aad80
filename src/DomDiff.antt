-- ===== src/DomDiff.antt =====
-- src/browser_runtime/dom_diff.rs: the diffs that the engine publishes, and what it reads from an
-- inserted node. Times are left out. The engine shares the index, and with it the frame manager and
-- the state of the page, with the rest of the server: its record holds the index.
pub mod Handlers
pub mod Events
pub mod Reports
pub mod Inserted
pub mod Guess
use mathlib.Core.Option.{or_else}
use Prim.Native.Char.{Char, code}
use hyprfast.Base.{
  ℕ, String, ◌<>◌, Bool, true, false, not, Option, none, some, List, [], ◌∷◌, ℤ, pos, ◌==◌,
  string_eq, int_beq, nat_beq, ◌&&◌, if◌then◌else◌, ◌>>=◌,
}
use hyprfast.Base.Text.{Unicode, is_empty, is_whitespace, is_blank, word}
use hyprfast.Json.{Json}
use hyprfast.Frames.{unwrap_or}
use hyprfast.Elements.{ElementIndex}
use hyprfast.Elements.Selector.{build_selector}

pub data DiffKind : Type 0 where
  incremental full_rebuild : DiffKind

pub record DomDiff : Type 0 where
  pub kind : DiffKind
  pub sequence : ℕ
  pub dom_version_before : ℕ
  pub dom_version_after : ℕ
  pub element_index_version_before : ℕ
  pub element_index_version_after : ℕ
  pub added : List String
  pub removed : List String
  pub changed : List String
  pub invalidated_refs : List String
  pub affected_parents : List ℤ
  pub element_count_after : ℕ
  pub invalidate_reason : Option String

pub record DomDiffEngine : Type 0 where
  pub element_index : ElementIndex
  pub last_diff : Option DomDiff
  pub incremental_count : ℕ
  pub rebuild_count : ℕ

unfoldable pub new : ElementIndex → DomDiffEngine
new ix = record { element_index = ix; last_diff = none; incremental_count = 0; rebuild_count = 0 }

-- A word for word copy of `build_selector` of element_index.rs.
unfoldable pub build_selector_incremental : Unicode → String → String → List String → String
build_selector_incremental u tag dom_id classes = build_selector u tag dom_id classes

-- `s.split_whitespace()`; `acc` is the word that has begun.
rest_words : String → String → List String
rest_words acc String.[] = if is_empty acc then [] else acc ∷ []
rest_words acc (String.◌∷◌ c s) =
    let next = rest_words "" s in
    let more = rest_words (acc <> String.◌∷◌ c "") s in
    if is_whitespace c then (if is_empty acc then next else acc ∷ next) else more

unfoldable pub split_whitespace : String → List String
unfolding rest_words is_whitespace
split_whitespace s = rest_words "" s

-- `s.split('-').next()`
unfoldable pub before_dash : String → String
before_dash String.[] = ""
before_dash (String.◌∷◌ c s) =
    let rest = before_dash s in if nat_beq (code c) b'-' then "" else String.◌∷◌ c rest

pub record ParsedNode : Type 0 where
  pub node_id : ℤ
  pub backend_node_id : ℤ
  pub tag_name : String
  pub dom_id : String
  pub classes : List String
  pub text : String

-- The DOM id and the classes: of a repeated attribute the last one counts.
abbrev with_attribute : String → String → String × List String → String × List String
with_attribute k v (dom_id, classes) =
    if k == "id"
    then (v, classes)
    else if k == "class"
    then (dom_id, split_whitespace v)
    else (dom_id, classes)

module _ {V : Type 0} (J : Json V) where
  open J use {get, as_str, as_i64, as_array}

  abbrev pub text_of : V → String → Option String
  text_of v k = get v k >>= as_str

  -- 0 for a number that is missing.
  abbrev pub int_of : V → String → ℤ
  int_of v k = unwrap_or (get v k >>= as_i64) (pos 0)

  -- Names and values alternate; a last name without a value is passed over.
  unfoldable pub attributes : List V → String × List String → String × List String
  attributes [] found = found
  attributes (k ∷ []) found = found
  attributes (k ∷ v ∷ rest) found =
      attributes rest (with_attribute (unwrap_or (as_str k) "") (unwrap_or (as_str v) "") found)

  unfoldable pub extract_attrs : V → String × List String × String
  unfolding attributes
  extract_attrs node =
      let (dom_id, classes) =
        attributes (unwrap_or (get node "attributes" >>= as_array) []) ("", []) in
      let text = unwrap_or (text_of node "nodeValue") "" in
      (dom_id, classes, if is_empty text then unwrap_or (text_of node "textContent") text else text)

  unfoldable pub parse_dom_node : Unicode → V → Option ParsedNode
  unfolding extract_attrs
  parse_dom_node u node =
      let node_id = int_of node "nodeId" in
      let backend = int_of node "backendNodeId" in
      let tag =
        u.to_lowercase
          (unwrap_or (or_else (text_of node "localName") (text_of node "nodeName")) "") in
      let (dom_id, classes, text) = extract_attrs node in
      if int_beq backend (pos 0) && int_beq node_id (pos 0)
      then none
      else some (record {
        node_id = node_id;
        backend_node_id = backend;
        tag_name = if is_empty tag then "div" else tag;
        dom_id = dom_id;
        classes = classes;
        text = text;
      })
