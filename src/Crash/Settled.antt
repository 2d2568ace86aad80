-- ===== src/Crash/Settled.antt =====
-- src/browser_runtime/crash_recovery.rs: where a recovery ends, and what is left of the references.
use hyprfast.Base.{
  ◌∙◌, sym, arith, subst, bump, u64_mod, ◌<◌, ◌+◌, ◌≤◌, [], ℕ, nat_beq, ◌≡◌, refl, String, Bool,
  true, false, Option, none, some, List, Bool-cases, inl, inr,
}
use hyprfast.Base.Text.{Unicode}
use hyprfast.Json.{Json}
use hyprfast.Error.{RuntimeResult, ok, err}
use hyprfast.Lifecycle.{
  LifecycleState, starting, connecting, connected, degraded, reconnecting, disconnected, stopping,
  stopped, failed, can_transition_to, transition_to, name,
}
use hyprfast.Frames
use hyprfast.DomState.{on_reconnected}
use hyprfast.Elements.{ElementRef, ElementIndex}
use hyprfast.Elements.Store.{is_stale, invalidate_all, clear}
use hyprfast.DomDiff.Handlers.{build_full_diff, blank_diff}
use hyprfast.DomDiff.Events.{on_recovery_invalidation}
use hyprfast.Crash.{
  handle_cdp_disconnect, dom_state_of, ElementIndex, settle, on_reconnected,
  on_recovery_invalidation, BrowserRuntimeServer, CrashPolicy, CrashRecoveryOutcome, reconnected,
  restarted, lost, Answers, invalidate_refs, handle_crash_generation_bump, begin_recovery,
  reconnect_browser, restart_browser_and_reconnect, after_attempt, connect_to, on_connected,
  on_spawned, ws_url, has_no_command,
}

-- The invalidation of a recovery is the one of the server, whatever the order of the calls.
pub invalidate_refs_lem :
    (s : BrowserRuntimeServer) → invalidate_refs s ≡ handle_crash_generation_bump s
unfolding invalidate_refs handle_crash_generation_bump on_recovery_invalidation build_full_diff
    blank_diff invalidate_all clear
invalidate_refs_lem s = refl

-- The states between a connection and the end of the runtime.
abbrev pub IsLive : LifecycleState → Type 0
IsLive connected = Unit
IsLive degraded = Unit
IsLive reconnecting = Unit
IsLive disconnected = Unit
IsLive _ = ⊥

begin_recovery_lem :
    (s : BrowserRuntimeServer) (c : Bool) (st : LifecycleState)
    → IsLive st
    → ((begin_recovery c (record s { state = st })).state ≡ reconnecting)
      × ((begin_recovery c (record s { state = st })).dom_diff ≡ s.dom_diff)
unfolding begin_recovery transition_to can_transition_to name
begin_recovery_lem s c starting h = absurd h
begin_recovery_lem s c connecting h = absurd h
begin_recovery_lem s c stopping h = absurd h
begin_recovery_lem s c stopped h = absurd h
begin_recovery_lem s c (failed _) h = absurd h
begin_recovery_lem s true connected h = (refl, refl)
begin_recovery_lem s false connected h = (refl, refl)
begin_recovery_lem s true degraded h = (refl, refl)
begin_recovery_lem s false degraded h = (refl, refl)
begin_recovery_lem s true reconnecting h = (refl, refl)
begin_recovery_lem s false reconnecting h = (refl, refl)
begin_recovery_lem s true disconnected h = (refl, refl)
begin_recovery_lem s false disconnected h = (refl, refl)

-- The state in which a recovery leaves the server.
abbrev pub ends : CrashRecoveryOutcome → LifecycleState
ends reconnected = connected
ends restarted = connected
ends (lost _) = disconnected
ends (CrashRecoveryOutcome.failed _) = disconnected

-- A browser that is alive is never restarted, nor one that the policy keeps from it.
abbrev pub IsAllowed : {V : Type 0} → Answers V → CrashPolicy → CrashRecoveryOutcome → Type 0
IsAllowed a policy reconnected = a.is_browser_alive ≡ true
IsAllowed a policy restarted =
    (a.is_browser_alive ≡ false)
    × (policy.restart_on_crash ≡ true)
    × (policy.launched_by_hyprfast ≡ true)
IsAllowed a policy _ = Unit

-- An attempt to connect leaves the state and the references alone.
abbrev Keeps : {A : Type 0} → BrowserRuntimeServer → BrowserRuntimeServer × A → Type 0
Keeps s (s', r) = (s'.state ≡ s.state) × (s'.dom_diff ≡ s.dom_diff)

module _ {V : Type 0} (J : Json V) (u : Unicode) (a : Answers V) (policy : CrashPolicy) where
  on_connected-Keeps :
      (r : RuntimeResult (Unit {0})) (o : Option (List V)) (s : BrowserRuntimeServer)
      → Keeps s (on_connected J u (record a { target_infos = o }) policy r s)
  on_connected-Keeps (ok _) none s = (refl, refl)
  on_connected-Keeps (ok _) (some infos) s = (refl, refl)
  on_connected-Keeps (err e) o s = (refl, refl)

  connect_to-Keeps :
      (r : RuntimeResult String) (s : BrowserRuntimeServer) → Keeps s (connect_to J u a policy r s)
  connect_to-Keeps (ok url) s = on_connected-Keeps (a.connect url) a.target_infos s
  connect_to-Keeps (err e) s = (refl, refl)

  reconnect_browser-Keeps : (s : BrowserRuntimeServer) → Keeps s (reconnect_browser J u a policy s)
  unfolding reconnect_browser
  reconnect_browser-Keeps s = connect_to-Keeps (ws_url J u a policy) s

  on_spawned-Keeps :
      (o : Option String) (s : BrowserRuntimeServer) → Keeps s (on_spawned J u a policy o s)
  on_spawned-Keeps (some e) s = (refl, refl)
  on_spawned-Keeps none s = elim (Bool-cases a.is_reachable) [
    | inl h ↦ simp h (reconnect_browser-Keeps s)
    | inr h ↦ simp h (refl, refl)
  ]

  restart-Keeps :
      (s : BrowserRuntimeServer) → Keeps s (restart_browser_and_reconnect J u a policy s)
  unfolding restart_browser_and_reconnect
  restart-Keeps s = elim (Bool-cases (has_no_command J u a policy policy.launch_params)) [
    | inl h ↦ simp h (refl, refl)
    | inr h ↦ simp h (on_spawned-Keeps a.spawn s)
  ]

  -- Where a recovery leaves the server, from the state of a server that reconnects.
  abbrev Settles :
      BrowserRuntimeServer → BrowserRuntimeServer × CrashRecoveryOutcome × String → Type 0
  Settles s (s', outcome, details) =
      (s'.state ≡ ends outcome) × (s'.dom_diff ≡ s.dom_diff) × IsAllowed a policy outcome

  attempt-Settles :
      (s s' : BrowserRuntimeServer) (success : CrashRecoveryOutcome) (told p q : String)
      (r : RuntimeResult (Unit {0}))
      → s.state ≡ reconnecting
      → ends success ≡ connected
      → IsAllowed a policy success
      → Keeps s (s', r)
      → Settles s (after_attempt J u a policy success told p q (s', r))
  unfolding transition_to can_transition_to
  attempt-Settles s s' success told p q (ok _) h e i k = (simp (k.0, h, e) refl, k.1, i)
  attempt-Settles s s' success told p q (err _) h e i k = (simp (k.0, h) refl, k.1, tt)

  settle-Settles :
      (s : BrowserRuntimeServer) → s.state ≡ reconnecting → Settles s (settle J u a policy s)
  unfolding settle transition_to can_transition_to
  settle-Settles s h = elim (Bool-cases a.is_browser_alive) [
    | inl alive ↦ simp alive (
        attempt-Settles s (reconnect_browser J u a policy s).0 reconnected
          "reconnected to still-alive browser" "" "reconnect failed: "
          (reconnect_browser J u a policy s).1 h refl alive (reconnect_browser-Keeps s))
    | inr dead ↦ elim (Bool-cases policy.restart_on_crash) [
      | inr off ↦ simp (dead, off, h) (refl, refl, tt)
      | inl on ↦ elim (Bool-cases policy.launched_by_hyprfast) [
        | inr attached ↦ simp (dead, on, attached, h) (refl, refl, tt)
        | inl launched ↦
            simp (dead, on, launched)
              (attempt-Settles s (restart_browser_and_reconnect J u a policy s).0 restarted
                "browser restarted and reconnected" "restart failed: " "restart failed: "
                (restart_browser_and_reconnect J u a policy s).1 h refl (dead, on, launched)
                (restart-Keeps s))
      ]
    ]
  ]

-- Nothing of an index and of its frames is left, and no reference that was captured at the version
-- of the target or before is current.
abbrev pub IsInvalidated : ℕ → ElementIndex → Type 0
IsInvalidated generation ix =
    (ix.elements ≡ [])
    × (ix.frame_manager.frames ≡ [])
    × ((r : ElementRef) → r.target_generation ≤ generation → is_stale ix r ≡ true)

invalidate_refs-IsInvalidated :
    (s : BrowserRuntimeServer)
    → (dom_state_of s).target_generation + 1 < u64_mod
    → ((invalidate_refs s).0.state ≡ s.state)
      × IsInvalidated
          (dom_state_of s).target_generation
          (invalidate_refs s).0.dom_diff.element_index
unfolding invalidate_refs on_recovery_invalidation build_full_diff invalidate_all clear
    on_reconnected is_stale Frames.handle_reconnect
invalidate_refs-IsInvalidated s h = (
  refl,
  (
    refl,
    refl,
    λ r old. simp (newer r.target_generation (dom_state_of s).target_generation old h) refl,
  ),
)
  where
    newer : (m n : ℕ) → m ≤ n → n + 1 < u64_mod → nat_beq m (bump n) ≡ false
    newer m n a b = ground arith

-- In a server that was connected before, or had lost its connection, as long as the generation of
-- the target does not wrap, a recovery ends in the connected state exactly when its outcome is a
-- reconnection or a restart, and in the disconnected one otherwise; it reconnects only to a browser
-- that is alive, and restarts one only if it is dead and hyprfast launched it and may restart it;
-- and it leaves no element and no frame in the index, and no reference of an earlier generation of
-- the target current.
pub handle_cdp_disconnect_lem :
    {V : Type 0} (J : Json V) (u : Unicode) (a : Answers V) (policy : CrashPolicy)
    (contended : Bool) (s : BrowserRuntimeServer)
    → IsLive s.state
    → (dom_state_of s).target_generation + 1 < u64_mod
    → let (s', r) = handle_cdp_disconnect J u a policy contended s in
      (s'.state ≡ ends r.outcome)
      × IsAllowed a policy r.outcome
      × IsInvalidated (dom_state_of s).target_generation s'.dom_diff.element_index
unfolding handle_cdp_disconnect
handle_cdp_disconnect_lem J u a policy contended s live h =
    let b = begin_recovery_lem s contended s.state live in
    let s0 = begin_recovery contended s in
    let i = invalidate_refs-IsInvalidated s0 (
      subst (λ d. d.element_index.frame_manager.dom_state.target_generation + 1 < u64_mod) (sym b.1)
        h) in
    let k = settle-Settles J u a policy (invalidate_refs s0).0 (i.0 ∙ b.0) in
    (
      k.0,
      k.2,
      subst (λ d. IsInvalidated (dom_state_of s).target_generation d.element_index) (sym k.1)
          (subst
            (λ d.
              IsInvalidated d.element_index.frame_manager.dom_state.target_generation
                (invalidate_refs s0).0.dom_diff.element_index)
            b.1 i.1),
    )
