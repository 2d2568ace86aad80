-- ===== src/Frames.antt =====
-- src/browser_runtime/frames.rs: the frame tree. Its global version is the counter of the shared
-- `DomState`, which the record holds; a version is kept for each frame besides.
pub mod Step
pub mod Moved
pub mod Invariant
pub mod Stale
use mathlib.Core.Option.{or_else}
use hyprfast.Base.{
  ℕ, String, Bool, true, false, not, ◌&&◌, Option, none, some, List, [], ◌∷◌, ℤ, ◌==◌, string_eq,
  int_beq, nat_beq, if◌then◌else◌, ◌>>=◌, bump,
}
use hyprfast.Base.Text.{is_empty}
use hyprfast.Base.Map
use hyprfast.Base.Map.{Map}
use hyprfast.Json.{Json}
use hyprfast.DomState.{DomState, CdpEvent}

pub record FrameRecord : Type 0 where
  pub frame_id : String
  pub parent_frame : Option String
  pub execution_context_id : Option ℤ
  pub target_id : Option String
  pub session_id : Option String
  pub url : String
  pub name : String
  pub is_main : Bool

pub record FrameManager : Type 0 where
  pub frames : Map String FrameRecord
  pub frame_versions : Map String ℕ
  pub dom_state : DomState
  pub open dom_state use *

unfoldable pub new : DomState → FrameManager
new d = record { frames = []; frame_versions = []; dom_state = d }

abbrev pub unwrap_or {ℓ} : {A : Type ℓ} → Option A → A → A
unwrap_or none d = d
unwrap_or (some a) d = a

-- 0 if the frame was never seen.
unfoldable pub frame_version : FrameManager → String → ℕ
frame_version m f = unwrap_or (Map.get f m.frame_versions) 0

unfoldable pub get_frame : FrameManager → String → Option FrameRecord
get_frame m f = Map.get f m.frames

unfoldable pub bump_for_frame : FrameManager → String → FrameManager
bump_for_frame m f = record m {
  dom_state = record m.dom_state { frame_tree_version = bump m.frame_tree_version };
  frame_versions = Map.insert f (bump m.frame_tree_version) m.frame_versions;
}

abbrev is_none {ℓ} : {A : Type ℓ} → Option A → Bool
is_none none = true
is_none (some a) = false

-- A session that was known stays.
abbrev session_or : Option String → Option String → Option String
session_or none new = new
session_or (some s) new = some s

abbrev attached : String → Option String → Option String → Option FrameRecord → FrameRecord
attached f parent session (some r) = record r {
  parent_frame = parent;
  is_main = is_none parent;
  session_id = session_or r.session_id session;
}
attached f parent session none = record {
  frame_id = f;
  parent_frame = parent;
  execution_context_id = none;
  target_id = none;
  session_id = session;
  url = "";
  name = "";
  is_main = is_none parent;
}

abbrev navigated :
    String → Option String → String → String → Option String → Option FrameRecord → FrameRecord
navigated f parent url name session (some r) = record r {
  parent_frame = parent;
  url = url;
  name = if is_empty name then r.name else name;
  is_main = is_none parent;
  session_id = session_or r.session_id session;
}
navigated f parent url name session none = record {
  frame_id = f;
  parent_frame = parent;
  execution_context_id = none;
  target_id = none;
  session_id = session;
  url = url;
  name = name;
  is_main = is_none parent;
}

-- A context of a frame that no `Page` event has named makes a placeholder.
abbrev with_context : String → ℤ → Option String → Option FrameRecord → FrameRecord
with_context f ctx session (some r) = record r { execution_context_id = some ctx }
with_context f ctx session none = record {
  frame_id = f;
  parent_frame = none;
  execution_context_id = some ctx;
  target_id = none;
  session_id = session;
  url = "";
  name = "";
  is_main = false;
}

-- `for rec in g.values_mut()`
unfoldable pub map_values :
    (FrameRecord → FrameRecord) → Map String FrameRecord → Map String FrameRecord
map_values g [] = []
map_values g ((f, r) ∷ m) = (f, g r) ∷ map_values g m

abbrev without_context : FrameRecord → FrameRecord
without_context r = record r { execution_context_id = none }

abbrev is_context : ℤ → Option ℤ → Bool
is_context ctx none = false
is_context ctx (some c) = int_beq c ctx

abbrev drop_context : ℤ → FrameRecord → FrameRecord
drop_context ctx r = if is_context ctx r.execution_context_id then without_context r else r

-- What an event asks of the frame tree; a frame event without a frame id asks nothing.
pub data FrameEvent : Type 0 where
  attach : String → Option String → Option String → FrameEvent
  navigate : String → Option String → String → String → Option String → FrameEvent
  detach : String → FrameEvent
  create_context : String → ℤ → Option String → FrameEvent
  destroy_context : ℤ → FrameEvent
  clear_contexts : FrameEvent
  nothing : FrameEvent

unfoldable pub apply : FrameEvent → FrameManager → FrameManager
unfolding bump_for_frame map_values
apply (attach f parent session) m =
    bump_for_frame
      (record m { frames = Map.insert f (attached f parent session (Map.get f m.frames)) m.frames })
      f
apply (navigate f parent url name session) m =
    bump_for_frame
      (record m {
        frames = Map.insert f (navigated f parent url name session (Map.get f m.frames)) m.frames;
      })
      f
apply (detach f) m = let m' = bump_for_frame m f in record m' { frames = Map.remove f m'.frames }
apply (create_context f ctx session) m = record m {
  frames = Map.insert f (with_context f ctx session (Map.get f m.frames)) m.frames;
}
apply (destroy_context ctx) m = record m { frames = map_values (drop_context ctx) m.frames }
apply clear_contexts m = record m { frames = map_values without_context m.frames }
apply nothing m = m

unfoldable pub is_stale_for_frame : FrameManager → String → ℕ → Bool
unfolding frame_version
is_stale_for_frame m f stored =
    let cur = frame_version m f in
    if nat_beq cur 0 && nat_beq stored 0 then false else not (nat_beq cur stored)

unfoldable pub handle_reconnect : FrameManager → ℕ → FrameManager
handle_reconnect m new_global = record m { frames = []; frame_versions = [] }

module _ {V : Type 0} (J : Json V) where
  open J use {get, as_str, as_i64}

  abbrev text : V → String → Option String
  text v k = get v k >>= as_str

  -- A frame id that is missing or empty ends the handler.
  abbrev for_frame : String → FrameEvent → FrameEvent
  for_frame f e = if is_empty f then nothing else e

  abbrev attach_event : CdpEvent V → FrameEvent
  attach_event ev =
      let f = unwrap_or (text ev.params "frameId") "" in
      for_frame f (attach f (text ev.params "parentFrameId") ev.session_id)

  abbrev navigate_event : CdpEvent V → FrameEvent
  navigate_event ev =
      let frame = get ev.params "frame" in
      let f = unwrap_or (or_else (frame >>= λ v. text v "id") (text ev.params "frameId")) "" in
      for_frame f (
        navigate f (frame >>= λ v. text v "parentId") (unwrap_or (frame >>= λ v. text v "url") "")
          (unwrap_or (frame >>= λ v. text v "name") "") ev.session_id)

  abbrev detach_event : CdpEvent V → FrameEvent
  detach_event ev = let f = unwrap_or (text ev.params "frameId") "" in for_frame f (detach f)

  abbrev context_event : Option String → Option ℤ → Option String → FrameEvent
  context_event none ctx session = nothing
  context_event (some f) none session = nothing
  context_event (some f) (some ctx) session = create_context f ctx session

  abbrev create_context_event : CdpEvent V → FrameEvent
  create_context_event ev =
      let ctx = get ev.params "context" in
      context_event (ctx >>= λ c. get c "auxData" >>= λ a. text a "frameId")
        (ctx >>= λ c. get c "id" >>= as_i64) ev.session_id

  abbrev destroy_context_event : CdpEvent V → FrameEvent
  destroy_context_event ev = elim (get ev.params "executionContextId" >>= as_i64) [
    | none ↦ nothing
    | some ctx ↦ destroy_context ctx
  ]

  -- The match on the method's name, with the parameters that each handler reads.
  unfoldable pub frame_event : CdpEvent V → FrameEvent
  frame_event ev =
      if ev.method == "Page.frameAttached"
      then attach_event ev
      else if ev.method == "Page.frameNavigated"
      then navigate_event ev
      else if ev.method == "Page.frameDetached"
      then detach_event ev
      else if ev.method == "Runtime.executionContextCreated"
      then create_context_event ev
      else if ev.method == "Runtime.executionContextDestroyed"
      then destroy_context_event ev
      else if ev.method == "Runtime.executionContextsCleared"
      then clear_contexts
      else nothing

  unfoldable pub on_event : FrameManager → CdpEvent V → FrameManager
  unfolding apply frame_event
  on_event m ev = apply (frame_event ev) m
