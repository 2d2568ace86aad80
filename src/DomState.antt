-- ===== src/DomState.antt =====
-- src/browser_runtime/dom_state.rs: the version counters of the live page and the events that
-- move them. Times are the order of the calls; the counters are `AtomicU64`, which wrap.
pub mod Versions
pub mod Parents
use hyprfast.Base.{
  ℕ, ◌+◌, ◌-◌, ◌/◌, ◌%◌, String, Bool, true, false, not, ◌&&◌, ◌||◌, Option, none, some, List, [],
  ◌∷◌, ◌++◌, ℤ, ◌==◌, string_eq, int_eq, nat_beq, ltb, leb, if◌then◌else◌, ◌>>=◌, bump, u64_mod,
  length, drop, any,
}
use hyprfast.Json.{Json}

-- src/browser_runtime/connection.rs: one event of the browser, numbered in wire order. Its arrival
-- time, which no modelled operation reads, is left out.
pub record CdpEvent (V : Type 0) : Type 0 where
  pub sequence : ℕ
  pub session_id : Option String
  pub method : String
  pub params : V

pub record DomState : Type 0 where
  pub runtime_generation : ℕ
  pub navigation_generation : ℕ
  pub dom_version : ℕ
  pub element_index_version : ℕ
  pub frame_tree_version : ℕ
  pub target_generation : ℕ
  pub ready_state : String
  pub lifecycle_state : String
  pub affected_parents : List ℤ
  pub last_sequence : ℕ

unfoldable pub new : DomState
new = record {
  runtime_generation = 0;
  navigation_generation = 0;
  dom_version = 0;
  element_index_version = 0;
  frame_tree_version = 0;
  target_generation = 0;
  ready_state = "unknown";
  lifecycle_state = "init";
  affected_parents = [];
  last_sequence = 0;
}

-- Each bump returns the new value too.
unfoldable pub bump_target_generation : DomState → DomState × ℕ
bump_target_generation s =
    (record s { target_generation = bump s.target_generation }, bump s.target_generation)

unfoldable pub bump_connection_generation : DomState → DomState × ℕ
bump_connection_generation s =
    (record s { runtime_generation = bump s.runtime_generation }, bump s.runtime_generation)

unfoldable pub is_stale : DomState → ℕ → ℕ → Bool
is_stale s dom_version_created frame_tree_version_created =
    not (nat_beq dom_version_created s.dom_version)
    || not (nat_beq frame_tree_version_created s.frame_tree_version)

unfoldable pub on_connected : DomState → DomState
on_connected s = record s { runtime_generation = bump s.runtime_generation }

-- The new state, the new target generation and the new connection generation.
unfoldable pub on_reconnected : DomState → DomState × ℕ × ℕ
unfolding bump_target_generation bump_connection_generation
on_reconnected s =
    let (s1, new_tg) = bump_target_generation s in
    let (s2, new_cg) = bump_connection_generation s1 in
    (
      record s2 {
        dom_version = bump s2.dom_version;
        element_index_version = bump s2.element_index_version;
        affected_parents = [];
      },
      new_tg,
      new_cg,
    )

abbrev pub cap : ℕ
cap = 512

-- `HashSet::insert`, on a list without repetition.
unfoldable pub set_insert : ℤ → List ℤ → List ℤ
set_insert k set = if any (λ j. j == k) set then set else k ∷ set

-- Which half of the set goes is not specified: the model drops the first entries of its list.
unfoldable pub prune_affected : List ℤ → List ℤ
prune_affected set = if ltb cap (length set) then drop (length set - cap / 2) set else set

-- The `readyState` that stands for a lifecycle event.
unfoldable pub ready_of : String → String
ready_of name =
    if name == "init"
    then "loading"
    else if name == "DOMContentLoaded"
    then "interactive"
    else if name == "load"
    then "complete"
    else if name == "networkAlmostIdle" || name == "networkIdle"
    then "complete"
    else name

-- What an event does to the page: it replaces the document, touches a node (named or not), is a
-- navigation of the main frame or a lifecycle event (named or not), or does nothing here.
pub data Change : Type 0 where
  document_updated : Change
  node_touched : Option ℤ → Change
  main_frame_navigated : Change
  lifecycle_event : Option String → Change
  no_change : Change

unfoldable pub apply : Change → DomState → DomState
unfolding set_insert prune_affected ready_of
apply document_updated s = record s {
  dom_version = bump s.dom_version;
  element_index_version = bump s.element_index_version;
  affected_parents = [];
}
apply (node_touched none) s = record s { dom_version = bump s.dom_version }
apply (node_touched (some node)) s = record s {
  dom_version = bump s.dom_version;
  affected_parents = prune_affected (set_insert node s.affected_parents);
}
apply main_frame_navigated s = record s {
  navigation_generation = bump s.navigation_generation;
  dom_version = bump s.dom_version;
}
apply (lifecycle_event none) s = s
apply (lifecycle_event (some name)) s = record s {
  lifecycle_state = name;
  ready_state = ready_of name;
}
apply no_change s = s

-- The last sequence number is never taken back.
abbrev pub sequenced : ℕ → DomState → DomState
sequenced seq s =
    if leb s.last_sequence seq then record s { last_sequence = (seq + 1) % u64_mod } else s

module _ {V : Type 0} (J : Json V) where
  abbrev is_none : Option V → Bool
  is_none none = true
  is_none (some v) = false

  -- Has the `frame` of the parameters no `parentId`?
  unfoldable pub is_main_frame : V → Bool
  is_main_frame params = is_none (J.get params "frame" >>= λ f. J.get f "parentId")

  -- The match on the method's name.
  unfoldable pub change_of : CdpEvent V → Change
  unfolding is_main_frame
  change_of ev =
      if ev.method == "DOM.documentUpdated"
      then document_updated
      else if ev.method == "DOM.childNodeInserted"
      then node_touched (J.get ev.params "parentNodeId" >>= J.as_i64)
      else if ev.method == "DOM.childNodeRemoved"
      then node_touched (J.get ev.params "parentNodeId" >>= J.as_i64)
      else if ev.method == "DOM.attributeModified"
      then node_touched (J.get ev.params "nodeId" >>= J.as_i64)
      else if ev.method == "Page.frameNavigated"
      then (if is_main_frame ev.params then main_frame_navigated else no_change)
      else if ev.method == "Page.lifecycleEvent"
      then lifecycle_event (J.get ev.params "name" >>= J.as_str)
      else no_change

  -- An event out of order is logged and applied all the same.
  unfoldable pub on_event : DomState → CdpEvent V → DomState
  unfolding apply change_of
  on_event s ev = apply (change_of ev) (sequenced ev.sequence s)
