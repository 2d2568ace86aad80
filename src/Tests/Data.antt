-- ===== src/Tests/Data.antt =====
-- Data for the runs: a type of JSON trees, a page of two frames, and an index of its elements.
use hyprfast.Base.{
  ℕ, String, ◌≡◌, refl, Bool, true, false, Option, none, some, List, [], ◌∷◌, ℤ, pos,
}
use hyprfast.Base.Map
use hyprfast.Base.Text.{Unicode}
use hyprfast.Json.{Json, IsLawful, entry}
use hyprfast.DomState.{DomState, CdpEvent}
use hyprfast.Frames.{FrameManager}
use hyprfast.Elements.{ElementRef, ElementIndex, ResolveRequest, no_request}
use hyprfast.Elements.Store.Consistent.{IsKeyed}
use hyprfast.Recovery.{RecoveryOptions}

mutual
  pub data Value : Type 0 where
    str : String → Value
    int : ℤ → Value
    uint : ℕ → Value
    obj : Fields → Value
    arr : Items → Value
    bool : Bool → Value
    null : Value

  pub data Fields : Type 0 where
    end : Fields
    field : String → Value → Fields → Fields

  pub data Items : Type 0 where
    nil : Items
    cons : Value → Items → Items

abbrev items : List Value → Items
items [] = nil
items (v ∷ vs) = cons v (items vs)

abbrev list : Items → List Value
list nil = []
list (cons v vs) = v ∷ list vs

abbrev fields : List (String × Value) → Fields
fields [] = end
fields ((k, v) ∷ fs) = field k v (fields fs)

abbrev pairs : Fields → List (String × Value)
pairs end = []
pairs (field k v fs) = (k, v) ∷ pairs fs

list-items : (vs : List Value) → list (items vs) ≡ vs
list-items [] = refl
list-items (v ∷ vs) = rw (list-items vs) refl

pairs-fields : (fs : List (String × Value)) → pairs (fields fs) ≡ fs
pairs-fields [] = refl
pairs-fields ((k, v) ∷ fs) = rw (pairs-fields fs) refl

abbrev get : Value → String → Option Value
get (obj fs) k = entry k (pairs fs)
get _ k = none

abbrev as_str : Value → Option String
as_str (str s) = some s
as_str _ = none

abbrev as_u64 : Value → Option ℕ
as_u64 (uint n) = some n
as_u64 _ = none

abbrev as_i64 : Value → Option ℤ
as_i64 (int z) = some z
as_i64 (uint n) = some (pos n)
as_i64 _ = none

abbrev as_array : Value → Option (List Value)
as_array (arr vs) = some (list vs)
as_array _ = none

abbrev as_bool : Value → Option Bool
as_bool (bool b) = some b
as_bool _ = none

abbrev is_null : Value → Bool
is_null null = true
is_null _ = false

-- A text stands for the event of that method, and the empty text for no value.
abbrev from_str : String → Option Value
from_str String.[] = none
from_str (String.◌∷◌ c s) = some (obj (field "method" (str (String.◌∷◌ c s)) end))

abbrev pub json : Json Value
json = record {
  null = null;
  str = str;
  uint = uint;
  int = int;
  arr = λ vs. arr (items vs);
  obj = λ fs. obj (fields fs);
  get = get;
  as_str = as_str;
  as_u64 = as_u64;
  as_i64 = as_i64;
  as_array = as_array;
  as_bool = as_bool;
  is_null = is_null;
  from_str = from_str;
  debug = λ v. "Object {..}";
}

pub json-IsLawful : IsLawful json
json-IsLawful = record {
  get-obj = λ fs k. rw (pairs-fields fs) refl;
  as_str-str = λ s. refl;
  as_u64-uint = λ n h. refl;
  as_i64-int = λ z h. refl;
  as_array-arr = λ vs. rw (list-items vs) refl;
}

abbrev pub unicode : Unicode
unicode = record { to_lowercase = λ s. s; debug = λ s. s }

-- The page has seen three changes of its document and two of its frames.
abbrev pub page : DomState
page = record {
  runtime_generation = 1;
  navigation_generation = 1;
  dom_version = 3;
  element_index_version = 1;
  frame_tree_version = 2;
  target_generation = 1;
  ready_state = "complete";
  lifecycle_state = "load";
  affected_parents = pos 7 ∷ pos 9 ∷ [];
  last_sequence = 5;
}

abbrev pub frame_manager : FrameManager
frame_manager = record {
  frames = [];
  frame_versions = ("main", 1) ∷ ("ads", 2) ∷ [];
  dom_state = page;
}

-- A button of the frame `main`, current unless a version says otherwise.
abbrev pub button : String → String → ℤ → ℕ → ElementRef
button id dom_id backend version = record {
  id = id;
  backend_node_id = backend;
  node_id = backend;
  target_id = "page";
  target_generation = 1;
  frame_id = "main";
  frame_tree_version = 1;
  role = "button";
  name = "Save";
  tag_name = "button";
  dom_id = dom_id;
  classes = [];
  selector = "button";
  text_content = "Save";
  bounding_box = none;
  visible = true;
  enabled = true;
  dom_version_created = version;
}

-- The first button is out of date, the second is current.
abbrev pub first_button : ElementRef
first_button = button "e_001" "save" (pos 11) 2

abbrev pub second_button : ElementRef
second_button = button "e_002" "save" (pos 12) 3

abbrev pub index : ElementIndex
index = record {
  elements = ("e_001", first_button) ∷ ("e_002", second_button) ∷ [];
  backend_map = (pos 11, "e_001") ∷ (pos 12, "e_002") ∷ [];
  selector_map = ("button", "e_002") ∷ [];
  next_id = 3;
  frame_manager = frame_manager;
}

-- The reference of the first button, with its DOM id.
abbrev pub first_request : String → ResolveRequest
first_request id = record no_request { ref_id = some "e_001"; dom_id = some id }

abbrev pub no_vision : RecoveryOptions
no_vision = record { allow_vision = false; is_visual_context = false; pierce_shadow = true }

abbrev pub event : ℕ → String → Fields → CdpEvent Value
event seq method params = record {
  sequence = seq;
  session_id = none;
  method = method;
  params = obj params;
}

-- A node is inserted below the node 7.
abbrev pub insertion : CdpEvent Value
insertion = event 6 "DOM.childNodeInserted" (field "parentNodeId" (int (pos 7)) end)

abbrev pub navigation : CdpEvent Value
navigation =
    event 7 "Page.frameNavigated"
      (field "frame" (obj (field "id" (str "ads") (field "parentId" (str "main") end))) end)

abbrev pub history : List (CdpEvent Value)
history = insertion ∷ navigation ∷ []

pub index-IsKeyed : IsKeyed index
unfolding Map.get
index-IsKeyed = (refl, refl, (refl, refl, tt))
