-- ===== src/Crash.antt =====
-- src/browser_runtime/crash_recovery.rs and server.rs: what a loss of the connection does to the
-- server's state. What the browser and the system answer to the recovery is an argument.
pub mod Settled
use hyprfast.Base.{
  not, ℕ, String, ◌<>◌, Bool, true, false, ◌&&◌, ◌||◌, Option, none, some, List, [], ◌∷◌, ◌==◌,
  string_eq, if◌then◌else◌, ◌>>=◌, bump,
}
use hyprfast.Base.Text.{Unicode}
use hyprfast.Json.{Json}
use hyprfast.Error.{RuntimeError, RuntimeResult, ok, err, connection_failed, display}
use hyprfast.Lifecycle.{LifecycleState, connected, reconnecting, disconnected, name, transition_to}
use hyprfast.DomState.{DomState, on_reconnected}
use hyprfast.Frames
use hyprfast.Targets.{BrowserTargetManager}
use hyprfast.Targets.Events.{sync_from_target_infos}
use hyprfast.Targets.Reconnect
use hyprfast.Elements.{ElementIndex}
use hyprfast.Elements.Store.{invalidate_all}
use hyprfast.DomDiff.{DomDiffEngine}
use hyprfast.DomDiff.Events.{on_recovery_invalidation}

-- The parts of `BrowserRuntimeServer` that a recovery changes.
pub record BrowserRuntimeServer : Type 0 where
  pub state : LifecycleState
  pub target_manager : BrowserTargetManager
  pub dom_diff : DomDiffEngine

-- The address of the browser, that the answers stand for, is left out.
pub record CrashPolicy : Type 0 where
  pub restart_on_crash : Bool
  pub launched_by_hyprfast : Bool
  pub launch_params : Option (List String)
  pub ws_url : Option String

pub data CrashRecoveryOutcome : Type 0 where
  reconnected restarted : CrashRecoveryOutcome
  lost : String → CrashRecoveryOutcome
  failed : String → CrashRecoveryOutcome

pub record CrashRecoveryResult : Type 0 where
  pub outcome : CrashRecoveryOutcome
  pub new_target_generation : ℕ
  pub new_connection_generation : ℕ
  pub new_frame_tree_version : ℕ
  pub new_dom_version : ℕ
  pub details : String

-- What the outside answers: is the browser alive at first, and when a known address is tried again;
-- the address that it gives; does a connection to an address succeed; the targets that it lists, if
-- it does; the error of starting the browser; and is it reachable within the deadline.
pub record Answers (V : Type 0) : Type 0 where
  pub is_browser_alive : Bool
  pub is_still_alive : Bool
  pub discover_ws_url : RuntimeResult String
  pub connect : String → RuntimeResult (Unit {0})
  pub target_infos : Option (List V)
  pub spawn : Option String
  pub is_reachable : Bool

abbrev pub with_dom_state : DomState → DomDiffEngine → DomDiffEngine
with_dom_state d e = record e {
  element_index = record e.element_index {
    frame_manager = record e.element_index.frame_manager { dom_state = d };
  };
}

abbrev pub dom_state_of : BrowserRuntimeServer → DomState
dom_state_of s = s.dom_diff.element_index.frame_manager.dom_state

abbrev with_index : (ElementIndex → ElementIndex) → DomDiffEngine → DomDiffEngine
with_index f e = record e { element_index = f e.element_index }

abbrev reconnect_frames : ℕ → ElementIndex → ElementIndex
reconnect_frames v ix = record ix { frame_manager = Frames.handle_reconnect ix.frame_manager v }

-- The new server, the generations of the target and of the connection, and the versions of the frame
-- tree and of the document. The order is the one of `handle_cdp_disconnect`.
unfoldable pub invalidate_refs : BrowserRuntimeServer → BrowserRuntimeServer × ℕ × ℕ × ℕ × ℕ
unfolding on_reconnected invalidate_all on_recovery_invalidation Frames.handle_reconnect
    Reconnect.handle_reconnect
invalidate_refs s =
    let (d, new_tg, new_cg) = on_reconnected (dom_state_of s) in
    let d' = record d { frame_tree_version = bump d.frame_tree_version } in
    let e1 = with_index invalidate_all (with_dom_state d' s.dom_diff) in
    let e2 = (on_recovery_invalidation e1).0 in
    (
      record s {
        dom_diff = with_index (reconnect_frames d'.frame_tree_version) e2;
        target_manager = Reconnect.handle_reconnect new_tg new_cg s.target_manager;
      },
      new_tg,
      new_cg,
      d'.frame_tree_version,
      d'.dom_version,
    )

-- server.rs: the same, in the order of its own.
unfoldable pub handle_crash_generation_bump :
    BrowserRuntimeServer → BrowserRuntimeServer × ℕ × ℕ × ℕ × ℕ
unfolding on_reconnected invalidate_all on_recovery_invalidation Frames.handle_reconnect
    Reconnect.handle_reconnect
handle_crash_generation_bump s =
    let (d, new_tg, new_cg) = on_reconnected (dom_state_of s) in
    let d' = record d { frame_tree_version = bump d.frame_tree_version } in
    let m = Reconnect.handle_reconnect new_tg new_cg s.target_manager in
    let e1 = with_index (reconnect_frames d'.frame_tree_version) (with_dom_state d' s.dom_diff) in
    let e2 = (on_recovery_invalidation (with_index invalidate_all e1)).0 in
    (
      record s { dom_diff = e2; target_manager = m },
      new_tg,
      new_cg,
      d'.frame_tree_version,
      d'.dom_version,
    )

-- A transition that is not allowed is logged, and the state stays.
abbrev pub transition : LifecycleState → BrowserRuntimeServer → BrowserRuntimeServer
transition next s = record s { state = (transition_to s.state next).0 }

-- The name of the state is "Unknown" while another task holds its lock.
abbrev pub current_lifecycle_name : Bool → BrowserRuntimeServer → String
current_lifecycle_name contended s = if contended then "Unknown" else name s.state

unfoldable pub begin_recovery : Bool → BrowserRuntimeServer → BrowserRuntimeServer
unfolding transition_to name
begin_recovery contended s =
    let current = current_lifecycle_name contended s in
    if current == "Connected" || current == "Degraded"
    then transition reconnecting s
    else if current == "Reconnecting"
    then s
    else transition reconnecting s

module _ {V : Type 0} (J : Json V) (u : Unicode) (a : Answers V) (policy : CrashPolicy) where
  -- A known address is used if the browser gives no fresh one.
  abbrev pub ws_url : RuntimeResult String
  ws_url = elim policy.ws_url [
    | none ↦ a.discover_ws_url
    | some url ↦
        if a.is_still_alive
        then elim a.discover_ws_url [ ok fresh ↦ ok fresh | err e ↦ ok url ]
        else ok url
  ]

  abbrev pub synced : Option (List V) → BrowserRuntimeServer → BrowserRuntimeServer
  synced none s = s
  synced (some infos) s = record s {
    target_manager = sync_from_target_infos J (dom_state_of s) infos s.target_manager;
  }

  abbrev pub on_connected :
      RuntimeResult (Unit {0})
      → BrowserRuntimeServer
      → BrowserRuntimeServer × RuntimeResult (Unit {0})
  on_connected (ok _) s = (synced a.target_infos s, ok tt)
  on_connected (err e) s = (s, err e)

  abbrev pub connect_to :
      RuntimeResult String → BrowserRuntimeServer → BrowserRuntimeServer × RuntimeResult (Unit {0})
  connect_to (ok url) s = on_connected (a.connect url) s
  connect_to (err e) s = (s, err e)

  -- The dispatcher of the new connection, which the code starts last, is left out: its events are
  -- taken to come after the recovery.
  unfoldable pub reconnect_browser :
      BrowserRuntimeServer → BrowserRuntimeServer × RuntimeResult (Unit {0})
  unfolding sync_from_target_infos
  reconnect_browser s = connect_to ws_url s

  abbrev pub has_no_command : Option (List String) → Bool
  has_no_command (some []) = true
  has_no_command _ = false

  abbrev pub on_spawned :
      Option String → BrowserRuntimeServer → BrowserRuntimeServer × RuntimeResult (Unit {0})
  on_spawned (some e) s = (s, err (connection_failed ("restart spawn failed: " <> e)))
  on_spawned none s =
      if a.is_reachable
      then reconnect_browser s
      else (s, err (connection_failed "restarted browser not reachable after 15s"))

  unfoldable pub restart_browser_and_reconnect :
      BrowserRuntimeServer → BrowserRuntimeServer × RuntimeResult (Unit {0})
  unfolding reconnect_browser
  restart_browser_and_reconnect s =
      if has_no_command policy.launch_params
      then (s, err (connection_failed "no launch params for restart"))
      else on_spawned a.spawn s

  -- The state after an attempt to connect, the outcome and the details.
  abbrev pub after_attempt :
      CrashRecoveryOutcome
      → String
      → String
      → String
      → BrowserRuntimeServer × RuntimeResult (Unit {0})
      → BrowserRuntimeServer × CrashRecoveryOutcome × String
  after_attempt success told outcome_prefix details_prefix (s, ok _) =
      (transition connected s, success, told)
  after_attempt success told outcome_prefix details_prefix (s, err e) = (
    transition disconnected s,
    failed (outcome_prefix <> display u e),
    details_prefix <> display u e,
  )

  -- Steps 6 to 10, after the generations have been bumped.
  unfoldable pub settle :
      BrowserRuntimeServer → BrowserRuntimeServer × CrashRecoveryOutcome × String
  unfolding reconnect_browser restart_browser_and_reconnect transition_to display
  settle s =
      if a.is_browser_alive
      then after_attempt reconnected "reconnected to still-alive browser" "" "reconnect failed: "
          (reconnect_browser s)
      else if not policy.restart_on_crash
      then (
        transition disconnected s,
        lost "restart_on_crash=false",
        "browser died, restart disabled → Disconnected",
      )
      else if not policy.launched_by_hyprfast
      then (
        transition disconnected s,
        lost "attached-only browser never restarted",
        "attached browser never restarted regardless of restart_on_crash",
      )
      else after_attempt restarted "browser restarted and reconnected" "restart failed: "
          "restart failed: " (restart_browser_and_reconnect s)

  unfoldable pub handle_cdp_disconnect :
      Bool → BrowserRuntimeServer → BrowserRuntimeServer × CrashRecoveryResult
  unfolding begin_recovery invalidate_refs settle
  handle_cdp_disconnect contended s =
      let (s1, new_tg, new_cg, new_ftv, new_dom) = invalidate_refs (begin_recovery contended s) in
      let (s2, outcome, details) = settle s1 in
      (
        s2,
        record {
          outcome = outcome;
          new_target_generation = new_tg;
          new_connection_generation = new_cg;
          new_frame_tree_version = new_ftv;
          new_dom_version = new_dom;
          details = details;
        },
      )
