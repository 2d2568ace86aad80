-- ===== src/Targets/Reconnect.antt =====
-- src/browser_runtime/targets.rs: a reconnection gives every live record the new generations and forgets
-- the sessions, so no reference that was captured before it passes a check.
use hyprfast.Base.{
  ℕ, ◌+◌, ◌≤◌, ◌<◌, String, ◌≡◌, refl, ◌∙◌, Bool, true, false, not, ◌&&◌, none, [], ◌∷◌, string_eq,
  inl, inr, Bool-cases, Option-cases, if◌then◌else◌, beq_refl, nat_beq, arith, keep, length,
  u64_mod, bump-lt, bump,
}
use hyprfast.Base.Map
use hyprfast.Base.Map.{Map}
use hyprfast.DomState.{DomState, on_reconnected}
use hyprfast.Targets.{
  TargetRef, SessionRef, TargetRecord, BrowserTargetManager, is_destroyed, activated, activate,
  activate_any,
}
use hyprfast.Targets.Refs.{
  is_target_ref_valid, is_session_ref_valid, is_session_id_valid, check_session_id,
  check_session_ref, mapped, scan, is_ok,
}
use hyprfast.Targets.Known.{IsActive}

-- A record takes on the new generations; a destroyed one is passed over.
unfoldable pub readopt : ℕ → ℕ → TargetRecord → TargetRecord
readopt tg cg r =
    if is_destroyed r.lifecycle
    then r
    else record r { target_generation = tg; connection_generation = cg; session_id = none }

unfoldable pub handle_reconnect : ℕ → ℕ → BrowserTargetManager → BrowserTargetManager
unfolding readopt activate_any
handle_reconnect tg cg m =
    let targets' = Map.map_values (readopt tg cg) m.targets in
    activate_any (Map.first_key targets')
      (record { targets = targets'; session_to_target = []; active_target_id = none })

unfoldable pub count_generation_mismatches : ℕ → BrowserTargetManager → ℕ
count_generation_mismatches expected m = length (
    keep (λ r. not (is_destroyed r.lifecycle) && not (nat_beq r.target_generation expected))
      (Map.values m.targets))

abbrev is_behind : ℕ → TargetRecord → Bool
is_behind expected r = not (is_destroyed r.lifecycle) && not (nat_beq r.target_generation expected)

is_behind-readopt : (tg cg : ℕ) (r : TargetRecord) → is_behind tg (readopt tg cg r) ≡ false
unfolding readopt
is_behind-readopt tg cg r = elim (Bool-cases (is_destroyed r.lifecycle)) [
  | inl e ↦ rw e (ground arith)
  | inr e ↦ rw e (ground arith)
]

none_behind :
    (tg cg : ℕ) (t : Map String TargetRecord)
    → keep (is_behind tg) (Map.values (Map.map_values (readopt tg cg) t)) ≡ []
unfolding Map.map_values
none_behind tg cg [] = refl
none_behind tg cg ((id, r) ∷ t) = simp (is_behind-readopt tg cg r) (none_behind tg cg t)

-- After a reconnection, when the first record becomes active.
module _ (expected : ℕ) where
  abbrev promoted : Map String TargetRecord → BrowserTargetManager
  promoted t =
      activate_any (Map.first_key t)
        (record { targets = t; session_to_target = []; active_target_id = none })

  promoted_lem :
      (t : Map String TargetRecord)
      → ((promoted t).session_to_target ≡ [])
        × IsActive (promoted t).active_target_id (promoted t).targets
        × (length (keep (is_behind expected) (Map.values (promoted t).targets))
            ≡ length (keep (is_behind expected) (Map.values t)))
  unfolding activate_any activate Map.get
  promoted_lem [] = (refl, tt, refl)
  promoted_lem ((id, r) ∷ t) = (
    refl,
    rw (Map.update-head id activated r t) (activated r, rw (beq_refl id) refl),
    rw (Map.update-head id activated r t) (ground arith),
  )

-- Without mapped sessions, no session id is valid.
no_sessions :
    (d : DomState) (m : BrowserTargetManager) (session : String)
    → m.session_to_target ≡ []
    → is_session_id_valid d m session ≡ false
unfolding is_session_id_valid check_session_id check_session_ref mapped
no_sessions d m session e =
    let unmapped : mapped m session ≡ none =
      simp (e, mapped, Map.get-empty {V = String} session) refl in
    elim (Option-cases (scan session (Map.values m.targets))) [
      | inl gone ↦ simp (unmapped, gone, is_session_id_valid, check_session_id) refl
      | inr found ↦
          simp (unmapped, found.1, is_session_id_valid, check_session_id)
            (refused (record { session_id = session; connection_generation = found.0 }))
    ]
  where
    refused : (r : SessionRef) → is_ok (check_session_ref d m r) ≡ false
    refused r = elim (Bool-cases (not (nat_beq r.connection_generation d.runtime_generation))) [
      | inl b ↦ simp (b, check_session_ref) refl
      | inr b ↦ simp (b, e, check_session_ref, Map.get-empty {V = String} r.session_id) refl
    ]

-- After a reconnection, with the versions that it leaves, as long as the two generations do not
-- wrap: no target reference of a generation before it is valid, no session reference and no session
-- id is; every record that is not destroyed has the new generation of the target; and the active
-- target, if there is one, has a record.
pub handle_reconnect_lem :
    (d : DomState) (m : BrowserTargetManager)
    → d.target_generation + 1 < u64_mod
    → d.runtime_generation + 1 < u64_mod
    → let (d', tg, cg) = on_reconnected d in
      let m' = handle_reconnect tg cg m in
      ((r : TargetRef)
        → r.target_generation ≤ d.target_generation
        → is_target_ref_valid d' m' r ≡ false)
      × ((r : SessionRef) → is_session_ref_valid d' m' r ≡ false)
      × ((session : String) → is_session_id_valid d' m' session ≡ false)
      × (count_generation_mismatches tg m' ≡ 0)
      × IsActive m'.active_target_id m'.targets
unfolding handle_reconnect on_reconnected is_target_ref_valid is_session_ref_valid
    count_generation_mismatches Map.get
handle_reconnect_lem d m small fits =
    let t =
      Map.map_values (readopt (bump d.target_generation) (bump d.runtime_generation)) m.targets in
    let p = promoted_lem (bump d.target_generation) t in
    (
      (λ r old. simp (differs r old) refl),
      (λ r. elim (Bool-cases (not (nat_beq r.connection_generation (bump d.runtime_generation)))) [
        | inl b ↦ simp b refl
        | inr b ↦ simp (b, p.0, Map.get-empty {V = String} r.session_id) refl
      ]),
      (λ session. no_sessions _ _ session p.0),
      p.2 ∙ rw (none_behind (bump d.target_generation) (bump d.runtime_generation) m.targets) refl,
      p.1,
    )
  where
    differs :
        (r : TargetRef)
        → r.target_generation ≤ d.target_generation
        → not (nat_beq r.target_generation (bump d.target_generation)) ≡ true
    differs r old = ground (arith, bump-lt d.target_generation small)
