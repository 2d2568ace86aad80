-- ===== src/Targets.antt =====
-- src/browser_runtime/targets.rs: the pages and other targets of the browser, their flat sessions,
-- and which target is active. The generations are read from the shared `DomState`, an argument
-- here; the creation time of a record is left out. An operation that fails leaves the state alone.
pub mod Events
pub mod Refs
pub mod Known
pub mod Invariant
pub mod Switch
pub mod Reconnect
use mathlib.Core.Option.{or_else}
use hyprfast.Base.{
  ℕ, String, Bool, true, false, not, ◌&&◌, ◌||◌, Option, none, some, List, [], ◌∷◌, ◌==◌, string_eq,
  nat_beq, if◌then◌else◌, ◌>>=◌, keep, length,
}
use hyprfast.Base.Map
use hyprfast.Base.Map.{Map}
use hyprfast.Base.Text.{is_empty, is_some}
use hyprfast.Json.{Json}
use hyprfast.DomState.{DomState, CdpEvent, is_main_frame}
use hyprfast.Frames.{unwrap_or}

pub record TargetRef : Type 0 where
  pub target_id : String
  pub target_generation : ℕ

pub record SessionRef : Type 0 where
  pub session_id : String
  pub connection_generation : ℕ

pub data TargetLifecycle : Type 0 where
  created attached detached destroyed crashed navigated : TargetLifecycle

pub record TargetRecord : Type 0 where
  pub target_id : String
  pub target_generation : ℕ
  pub session_id : Option String
  pub connection_generation : ℕ
  pub url : String
  pub title : String
  pub target_type : String
  pub active : Bool
  pub lifecycle : TargetLifecycle
  pub is_crashed : Bool

unfoldable pub target_ref : TargetRecord → TargetRef
target_ref r = record { target_id = r.target_id; target_generation = r.target_generation }

pub record BrowserTargetManager : Type 0 where
  pub targets : Map String TargetRecord
  pub session_to_target : Map String String
  pub active_target_id : Option String

unfoldable pub new : BrowserTargetManager
new = record { targets = []; session_to_target = []; active_target_id = none }

abbrev pub is_destroyed : TargetLifecycle → Bool
is_destroyed destroyed = true
is_destroyed _ = false

abbrev is_over : TargetLifecycle → Bool
is_over destroyed = true
is_over crashed = true
is_over _ = false

-- `active.as_deref() == Some(id)`
abbrev pub is_id : String → Option String → Bool
is_id id none = false
is_id id (some t) = t == id

-- A record of the generations of now, without a session.
abbrev pub fresh :
    DomState → String → String → String → String → TargetLifecycle → Bool → TargetRecord
fresh d id kind url title lifecycle down = record {
  target_id = id;
  target_generation = d.target_generation;
  session_id = none;
  connection_generation = d.runtime_generation;
  url = url;
  title = title;
  target_type = kind;
  active = false;
  lifecycle = lifecycle;
  is_crashed = down;
}

abbrev pub activated : TargetRecord → TargetRecord
activated r = record r { active = true }

abbrev pub deactivated : TargetRecord → TargetRecord
deactivated r = record r { active = false }

-- A target becomes active, and its record is flagged.
unfoldable pub activate : String → BrowserTargetManager → BrowserTargetManager
activate id m = record m { active_target_id = some id; targets = Map.update id activated m.targets }

unfoldable pub activate_any : Option String → BrowserTargetManager → BrowserTargetManager
unfolding activate
activate_any none m = m
activate_any (some id) m = activate id m

-- Only if no target is active.
unfoldable pub activate_first : Option String → BrowserTargetManager → BrowserTargetManager
unfolding activate_any
activate_first candidate m = elim m.active_target_id [
  | none ↦ activate_any candidate m
  | some t ↦ m
]

-- A target that is seen again; a destroyed one comes back as created, of the generations of now.
abbrev refreshed : DomState → String → String → String → TargetRecord → TargetRecord
refreshed d kind url title r =
    let r' = record r { url = url; title = title; target_type = kind } in
    if is_destroyed r.lifecycle
    then record r' {
      lifecycle = created;
      is_crashed = false;
      target_generation = d.target_generation;
      connection_generation = d.runtime_generation;
    }
    else r'

unfoldable pub create :
    DomState → String → String → String → String → BrowserTargetManager → BrowserTargetManager
unfolding activate_first
create d id kind url title m = activate_first (some id) (record m {
  targets =
      Map.upsert id (refreshed d kind url title) (fresh d id kind url title created false)
        m.targets;
})

abbrev pub session_of : Option TargetRecord → Option String
session_of none = none
session_of (some r) = r.session_id

abbrev pub unmap_session : Option String → Map String String → Map String String
unmap_session none sessions = sessions
unmap_session (some s) sessions = Map.remove s sessions

-- The record goes; if it was the active one, the first that remains becomes active.
unfoldable pub destroy : String → BrowserTargetManager → BrowserTargetManager
unfolding activate_any
destroy id m =
    let targets' = Map.remove id m.targets in
    let sessions' =
      keep (λ e. not (e.1 == id))
        (unmap_session (session_of (Map.get id m.targets)) m.session_to_target) in
    if is_id id m.active_target_id
    then activate_any (Map.first_key targets')
        (record { targets = targets'; session_to_target = sessions'; active_target_id = none })
    else record m { targets = targets'; session_to_target = sessions' }

-- An unknown target that crashes leaves a record.
unfoldable pub crash : DomState → String → BrowserTargetManager → BrowserTargetManager
crash d id m = record m {
  targets =
      Map.upsert id (λ r. record r { is_crashed = true; lifecycle = crashed; active = false })
        (fresh d id "page" "" "" crashed true) m.targets;
  active_target_id = if is_id id m.active_target_id then none else m.active_target_id;
}

abbrev pub with_session : DomState → String → TargetRecord → TargetRecord
with_session d session r = record r {
  session_id = some session;
  connection_generation = d.runtime_generation;
  lifecycle = attached;
}

-- A session of a target that no event has created makes a record for it.
unfoldable pub attach :
    DomState
    → String
    → String
    → String
    → String
    → String
    → BrowserTargetManager
    → BrowserTargetManager
unfolding activate_first
attach d session id kind url title m = activate_first (some id) (record m {
  targets =
      Map.upsert id (with_session d session)
        (with_session d session (fresh d id kind url title created false)) m.targets;
  session_to_target = Map.insert session id m.session_to_target;
})

abbrev pub without_session : String → TargetRecord → TargetRecord
without_session session r =
    if is_id session r.session_id
    then record r { session_id = none; lifecycle = detached; active = false }
    else r

-- The first target that has a session.
unfoldable pub first_attached : Map String TargetRecord → Option String
first_attached [] = none
first_attached ((id, r) ∷ rest) =
    let next = first_attached rest in if is_some r.session_id then some id else next

unfoldable pub detach : String → Option String → BrowserTargetManager → BrowserTargetManager
unfolding first_attached activate_any
detach session none m = record m { session_to_target = Map.remove session m.session_to_target }
detach session (some id) m =
    let targets' = Map.update id (without_session session) m.targets in
    let sessions' = Map.remove session m.session_to_target in
    if is_id id m.active_target_id
    then activate_any (or_else (first_attached targets') (Map.first_key targets'))
        (record { targets = targets'; session_to_target = sessions'; active_target_id = none })
    else record m { targets = targets'; session_to_target = sessions' }

abbrev or_old : String → String → String
or_old new old = if is_empty new then old else new

abbrev navigated_to : String → String → TargetRecord → TargetRecord
navigated_to url title r = record r {
  url = or_old url r.url;
  title = or_old title r.title;
  lifecycle = if is_over r.lifecycle then r.lifecycle else navigated;
}

abbrev with_url : String → TargetRecord → TargetRecord
with_url url r = record r { url = or_old url r.url }

abbrev pub update_any :
    Option String → (TargetRecord → TargetRecord) → BrowserTargetManager → BrowserTargetManager
update_any none f m = m
update_any (some id) f m = record m { targets = Map.update id f m.targets }

-- The session's target; without a session, the active one.
unfoldable pub navigate :
    Option String → String → String → BrowserTargetManager → BrowserTargetManager
navigate none url title m = update_any m.active_target_id (with_url url) m
navigate (some session) url title m =
    update_any (Map.get session m.session_to_target) (navigated_to url title) m
