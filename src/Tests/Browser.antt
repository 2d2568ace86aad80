-- ===== src/Tests/Browser.antt =====
-- The theorems on targets, at a browser with a page and a popup.
use hyprfast.Base.{String, ◌≡◌, ◌≤◌, Bool, true, false, some, List, [], ◌∷◌, arith}
use hyprfast.DomState.{DomState, CdpEvent, on_reconnected}
use hyprfast.Targets
use hyprfast.Targets.{TargetRef, SessionRef, TargetRecord, BrowserTargetManager, attached}
use hyprfast.Targets.Known.{IsActive, IsKnown}
use hyprfast.Targets.Invariant
use hyprfast.Targets.Invariant.{run-IsKnown}
use hyprfast.Targets.Refs.{
  switch_target, is_target_ref_valid, is_session_ref_valid, is_session_id_valid,
}
use hyprfast.Targets.Switch.{Switched, switch_target_lem}
use hyprfast.Targets.Reconnect.{handle_reconnect, count_generation_mismatches, handle_reconnect_lem}
use hyprfast.Tests.Data.{Value, json, page, str, obj, field, end, event}

abbrev attachment : String → String → CdpEvent Value
attachment session target = event 3 "Target.attachedToTarget" (
    field "sessionId" (str session)
      (field "targetInfo" (obj (field "targetId" (str target) end)) end))

abbrev closing : CdpEvent Value
closing = event 5 "Target.targetDestroyed" (field "targetId" (str "page") end)

abbrev arrivals : List (DomState × CdpEvent Value)
arrivals = (page, attachment "s1" "page") ∷ (page, attachment "s2" "popup") ∷ (page, closing) ∷ []

run-IsKnown_example : IsKnown (Invariant.run json Targets.new arrivals)
unfolding Targets.new
run-IsKnown_example = run-IsKnown json Targets.new arrivals (tt, tt)

abbrev target : String → String → Bool → TargetRecord
target id session active = record {
  target_id = id;
  target_generation = 1;
  session_id = some session;
  connection_generation = 1;
  url = "";
  title = "";
  target_type = "page";
  active = active;
  lifecycle = attached;
  is_crashed = false;
}

abbrev pub manager : BrowserTargetManager
manager = record {
  targets = ("page", target "page" "s1" true) ∷ ("popup", target "popup" "s2" false) ∷ [];
  session_to_target = ("s1", "page") ∷ ("s2", "popup") ∷ [];
  active_target_id = some "page";
}

switch_target_lem_example :
    let r = switch_target page manager "popup" in Switched page "popup" manager r.0 r.1
switch_target_lem_example = switch_target_lem page "popup" manager

handle_reconnect_lem_example :
    let (d', tg, cg) = on_reconnected page in
    let m' = handle_reconnect tg cg manager in
    ((r : TargetRef) → r.target_generation ≤ 1 → is_target_ref_valid d' m' r ≡ false)
    × ((r : SessionRef) → is_session_ref_valid d' m' r ≡ false)
    × ((session : String) → is_session_id_valid d' m' session ≡ false)
    × (count_generation_mismatches tg m' ≡ 0)
    × IsActive m'.active_target_id m'.targets
handle_reconnect_lem_example = handle_reconnect_lem page manager (omega arith) (omega arith)
