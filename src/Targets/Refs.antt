-- ===== src/Targets/Refs.antt =====
-- src/browser_runtime/targets.rs: the checks that a captured reference passes, and switching the
-- active target.
use hyprfast.Base.{
  ℕ, String, ◌<>◌, Bool, true, false, not, Option, none, some, List, [], ◌∷◌, string_eq, nat_beq,
  if◌then◌else◌, ◌>>=◌,
}
use hyprfast.Base.Map
use hyprfast.Base.Map.{Map}
use hyprfast.Base.Text.{decimal, is_some}
use hyprfast.DomState.{DomState}
use hyprfast.Error.{RuntimeResult, ok, err, invalid_response}
use hyprfast.Targets.{
  TargetRef, SessionRef, TargetRecord, BrowserTargetManager, is_destroyed, is_id, activated,
  deactivated,
}

unfoldable pub active_target : BrowserTargetManager → Option TargetRecord
active_target m = do id ← m.active_target_id; Map.get id m.targets

unfoldable pub get_target : BrowserTargetManager → String → Option TargetRecord
get_target m id = Map.get id m.targets

unfoldable pub is_target_ref_valid : DomState → BrowserTargetManager → TargetRef → Bool
is_target_ref_valid d m r =
    if not (nat_beq r.target_generation d.target_generation)
    then false
    else is_some (Map.get r.target_id m.targets)

unfoldable pub is_session_ref_valid : DomState → BrowserTargetManager → SessionRef → Bool
is_session_ref_valid d m r =
    if not (nat_beq r.connection_generation d.runtime_generation)
    then false
    else is_some (Map.get r.session_id m.session_to_target)

abbrev unknown_session : String → RuntimeResult (Unit {0})
unknown_session session = err (invalid_response ("unknown session " <> session))

unfoldable pub check_session_ref :
    DomState → BrowserTargetManager → SessionRef → RuntimeResult (Unit {0})
check_session_ref d m r =
    if not (nat_beq r.connection_generation d.runtime_generation)
    then err (
        invalid_response (
          "stale SessionRef: session "
          <> r.session_id
          <> " generation "
          <> decimal r.connection_generation
          <> " != current "
          <> decimal d.runtime_generation))
    else if not (is_some (Map.get r.session_id m.session_to_target))
    then unknown_session r.session_id
    else ok tt

-- The connection generation of the first record that holds the session.
unfoldable pub scan : String → List TargetRecord → Option ℕ
scan session [] = none
scan session (r ∷ rs) =
    let rest = scan session rs in
    if is_id session r.session_id then some r.connection_generation else rest

-- The one of the record that the session is mapped to, if that record holds it.
unfoldable pub mapped : BrowserTargetManager → String → Option ℕ
mapped m session = do
  id ← Map.get session m.session_to_target
  r ← Map.get id m.targets
  if is_id session r.session_id then some r.connection_generation else none

unfoldable pub check_session_id :
    DomState → BrowserTargetManager → String → RuntimeResult (Unit {0})
unfolding scan mapped check_session_ref
check_session_id d m session = elim (mapped m session) [
  | some g ↦ check_session_ref d m (record { session_id = session; connection_generation = g })
  | none ↦ elim (scan session (Map.values m.targets)) [
    | some g ↦ check_session_ref d m (record { session_id = session; connection_generation = g })
    | none ↦ unknown_session session
  ]
]

abbrev pub is_ok : RuntimeResult (Unit {0}) → Bool
is_ok (ok _) = true
is_ok (err _) = false

unfoldable pub is_session_id_valid : DomState → BrowserTargetManager → String → Bool
unfolding check_session_id
is_session_id_valid d m session = is_ok (check_session_id d m session)

unfoldable pub check_target_ref :
    DomState → BrowserTargetManager → TargetRef → RuntimeResult (Unit {0})
check_target_ref d m r =
    if not (nat_beq r.target_generation d.target_generation)
    then err (
        invalid_response (
          "stale TargetRef: target "
          <> r.target_id
          <> " generation "
          <> decimal r.target_generation
          <> " != current "
          <> decimal d.target_generation))
    else if not (is_some (Map.get r.target_id m.targets))
    then err (invalid_response ("unknown target " <> r.target_id))
    else ok tt

abbrev pub deactivate_any : Option String → Map String TargetRecord → Map String TargetRecord
deactivate_any none targets = targets
deactivate_any (some id) targets = Map.update id deactivated targets

-- The old active record loses its flag, then the new one gets it.
unfoldable pub make_active : String → BrowserTargetManager → BrowserTargetManager
make_active id m = record m {
  active_target_id = some id;
  targets = Map.update id activated (deactivate_any m.active_target_id m.targets);
}

abbrev pub found : String → Option TargetRecord → RuntimeResult TargetRecord
found id none = err (invalid_response ("target " <> id <> " vanished during switch"))
found id (some r) = ok r

-- Why a target cannot become active.
unfoldable pub obstacle : DomState → String → TargetRecord → Option String
obstacle d id r =
    if r.is_crashed
    then some ("target " <> id <> " is crashed")
    else if is_destroyed r.lifecycle
    then some ("target " <> id <> " is destroyed")
    else if not (nat_beq r.target_generation d.target_generation)
    then some (
        "stale target generation: target "
        <> id
        <> " gen "
        <> decimal r.target_generation
        <> " != current "
        <> decimal d.target_generation)
    else none

-- The new state and the record of the target.
unfoldable pub switch_target :
    DomState → BrowserTargetManager → String → BrowserTargetManager × RuntimeResult TargetRecord
unfolding obstacle make_active get_target
switch_target d m id = elim (Map.get id m.targets) [
  | none ↦ (m, err (invalid_response ("unknown target " <> id)))
  | some r ↦ elim (obstacle d id r) [
    | some why ↦ (m, err (invalid_response why))
    | none ↦ (make_active id m, found id (get_target (make_active id m) id))
  ]
]

unfoldable pub switch_target_ref :
    DomState → BrowserTargetManager → TargetRef → BrowserTargetManager × RuntimeResult TargetRecord
unfolding check_target_ref switch_target
switch_target_ref d m r = elim (check_target_ref d m r) [
  | ok _ ↦ switch_target d m r.target_id
  | err e ↦ (m, err e)
]
