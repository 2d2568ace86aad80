-- ===== src/Targets/Events.antt =====
-- src/browser_runtime/targets.rs: the events that the target manager handles, and the list of
-- targets that it is told after a connection.
use mathlib.Core.Option.{or_else}
use hyprfast.Base.{
  String, false, Option, none, some, List, [], ◌∷◌, ◌==◌, string_eq, if◌then◌else◌, ◌>>=◌,
}
use hyprfast.Base.Map
use hyprfast.Base.Map.{Map}
use hyprfast.Base.Text.{is_empty}
use hyprfast.Json.{Json}
use hyprfast.DomState.{DomState, CdpEvent, is_main_frame}
use hyprfast.Frames.{unwrap_or}
use hyprfast.Targets.{
  BrowserTargetManager, TargetRecord, created, fresh, create, destroy, crash, attach, detach,
  navigate, activate_first,
}

module _ {V : Type 0} (J : Json V) where
  open J use {get, as_str, null}

  abbrev text : V → String → Option String
  text v k = get v k >>= as_str

  abbrev nested : V → String → String → Option String
  nested v k j = get v k >>= λ w. text w j

  abbrev text_or : V → String → String → String
  text_or v k default = unwrap_or (text v k) default

  -- A handler does nothing without the id that it needs.
  abbrev pub for_id : String → BrowserTargetManager → BrowserTargetManager → BrowserTargetManager
  for_id id m m' = if is_empty id then m else m'

  unfoldable pub on_target_created : DomState → V → BrowserTargetManager → BrowserTargetManager
  unfolding create
  on_target_created d params m =
      let info = unwrap_or (get params "targetInfo") null in
      let id = unwrap_or (or_else (text info "targetId") (text params "targetId")) "" in
      for_id id m (
        create d id (text_or info "type" "page") (text_or info "url" "") (text_or info "title" "")
          m)

  unfoldable pub on_target_destroyed : V → BrowserTargetManager → BrowserTargetManager
  unfolding destroy
  on_target_destroyed params m = let id = text_or params "targetId" "" in for_id id m (destroy id m)

  unfoldable pub on_target_crashed : DomState → V → BrowserTargetManager → BrowserTargetManager
  unfolding crash
  on_target_crashed d params m = let id = text_or params "targetId" "" in for_id id m (crash d id m)

  unfoldable pub on_attached : DomState → V → BrowserTargetManager → BrowserTargetManager
  unfolding attach
  on_attached d params m =
      let session = text_or params "sessionId" "" in
      let id =
        unwrap_or (or_else (nested params "targetInfo" "targetId") (text params "targetId")) "" in
      for_id session m (
        for_id id m (
          attach d session id (unwrap_or (nested params "targetInfo" "type") "page")
            (unwrap_or (nested params "targetInfo" "url") "")
            (unwrap_or (nested params "targetInfo" "title") "") m))

  unfoldable pub on_detached : V → BrowserTargetManager → BrowserTargetManager
  unfolding detach
  on_detached params m =
      let session = text_or params "sessionId" "" in
      for_id session m
        (detach session (or_else (Map.get session m.session_to_target) (text params "targetId")) m)

  unfoldable pub on_frame_navigated :
      Option String → V → BrowserTargetManager → BrowserTargetManager
  unfolding navigate
  on_frame_navigated session params m =
      if is_main_frame J params
      then navigate session (unwrap_or (nested params "frame" "url") "")
          (unwrap_or (nested params "frame" "name") "") m
      else m

  -- The match on the method's name.
  unfoldable pub on_event : DomState → BrowserTargetManager → CdpEvent V → BrowserTargetManager
  unfolding on_target_created on_target_destroyed on_target_crashed on_attached on_detached
      on_frame_navigated
  on_event d m ev =
      if ev.method == "Target.targetCreated"
      then on_target_created d ev.params m
      else if ev.method == "Target.targetDestroyed"
      then on_target_destroyed ev.params m
      else if ev.method == "Target.targetCrashed"
      then on_target_crashed d ev.params m
      else if ev.method == "Target.attachedToTarget"
      then on_attached d ev.params m
      else if ev.method == "Target.detachedFromTarget"
      then on_detached ev.params m
      else if ev.method == "Page.frameNavigated"
      then on_frame_navigated ev.session_id ev.params m
      else m

  -- One entry of `Target.getTargets`; an entry without an id is passed over.
  unfoldable pub sync_one : DomState → V → Map String TargetRecord → Map String TargetRecord
  sync_one d info targets = elim (text info "targetId") [
    | none ↦ targets
    | some id ↦
        let kind = text_or info "type" "page" in
        let url = text_or info "url" "" in
        let title = text_or info "title" "" in
        Map.upsert id (λ r. record r { url = url; title = title; target_type = kind })
          (fresh d id kind url title created false) targets
  ]

  unfoldable pub sync_all : DomState → List V → Map String TargetRecord → Map String TargetRecord
  unfolding sync_one
  sync_all d [] targets = targets
  sync_all d (info ∷ infos) targets = sync_all d infos (sync_one d info targets)

  unfoldable pub sync_from_target_infos :
      DomState → List V → BrowserTargetManager → BrowserTargetManager
  unfolding sync_all activate_first
  sync_from_target_infos d infos m =
      let targets' = sync_all d infos m.targets in
      activate_first (Map.first_key targets') (record m { targets = targets' })
