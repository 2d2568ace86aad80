-- ===== src/Targets/Invariant.antt =====
-- src/browser_runtime/targets.rs: the events and the reconnection keep the active target and the
-- targets of the sessions known.
use hyprfast.Base.{◌∷◌, if◌then◌else◌, Bool, true, false}
use hyprfast.Json.{Json}
use hyprfast.Targets.Events.{
  on_event, on_target_created, on_target_destroyed, on_target_crashed, on_attached, on_detached,
  on_frame_navigated,
}
use mathlib.Core.Option.{or_else}
use hyprfast.Base.{
  List, [], String, ◌≡◌, true, false, Option, none, some, string_eq, inl, inr, Bool-cases,
  Option-cases,
}
use hyprfast.Base.Map
use hyprfast.Base.Map.{Map}
use hyprfast.DomState.{CdpEvent, DomState}
use hyprfast.Targets.{
  created, fresh, with_session, update_any, session_of, unmap_session, crashed, without_session,
  TargetRecord, BrowserTargetManager, activate, activate_any, activate_first, create, destroy,
  crash, attach, detach, navigate, first_attached, is_id,
}
use hyprfast.Targets.Known.{
  IsActive, AllKnown, IsKnown, Keeps, update-Keeps, upsert-Keeps, upsert-Known, remove-Known,
  AllKnown-Keeps, IsActive-Keeps, first_key-IsActive, first_attached-IsActive, remove-AllKnown,
  insert-AllKnown, drop-AllKnown,
}

activate_any-IsKnown :
    (o : Option String) (m : BrowserTargetManager)
    → IsActive o m.targets
    → IsKnown m
    → IsKnown (activate_any o m)
unfolding activate_any activate
activate_any-IsKnown none m a k = k
activate_any-IsKnown (some id) m a k = (
  update-Keeps id _ m.targets id a,
  AllKnown-Keeps m.session_to_target m.targets _ (update-Keeps id _ m.targets) k.1,
)

activate_first-IsKnown :
    (o : Option String) (m : BrowserTargetManager)
    → IsActive o m.targets
    → IsKnown m
    → IsKnown (activate_first o m)
unfolding activate_first
activate_first-IsKnown o m a k = elim (Option-cases m.active_target_id) [
  | inl e ↦ simp (e, activate_first) (activate_any-IsKnown o m a k)
  | inr found ↦ simp (found.1, activate_first) (simp found.1 at k.0, k.1)
]

-- Records that are changed or added, and nothing else.
more-IsKnown :
    (t : Map String TargetRecord) (m : BrowserTargetManager)
    → Keeps m.targets t
    → IsKnown m
    → IsKnown (record m { targets = t })
more-IsKnown t m keeps k = (
  IsActive-Keeps m.active_target_id m.targets t keeps k.0,
  AllKnown-Keeps m.session_to_target m.targets t keeps k.1,
)

create-IsKnown :
    (d : DomState) (id kind url title : String) (m : BrowserTargetManager)
    → IsKnown m
    → IsKnown (create d id kind url title m)
unfolding create
create-IsKnown d id kind url title m k =
    activate_first-IsKnown (some id) _ (upsert-Known id _ _ m.targets)
      (more-IsKnown _ m (upsert-Keeps id _ _ m.targets) k)

unmapped :
    (o : Option String) (sessions : Map String String) (t : Map String TargetRecord)
    → AllKnown sessions t
    → AllKnown (unmap_session o sessions) t
unmapped none sessions t a = a
unmapped (some s) sessions t a = remove-AllKnown s sessions t a

other-IsActive :
    (gone : String) (o : Option String) (t : Map String TargetRecord)
    → is_id gone o ≡ false
    → IsActive o t
    → IsActive o (Map.remove gone t)
other-IsActive gone none t e a = tt
other-IsActive gone (some id) t e a = remove-Known gone id t e a

destroy-IsKnown : (id : String) (m : BrowserTargetManager) → IsKnown m → IsKnown (destroy id m)
unfolding destroy
destroy-IsKnown id m k =
    let sessions =
      drop-AllKnown id _ m.targets
        (unmapped (session_of (Map.get id m.targets)) m.session_to_target m.targets k.1) in
    elim (Bool-cases (is_id id m.active_target_id)) [
      | inl e ↦
          simp (e, destroy)
            (activate_any-IsKnown _ _ (first_key-IsActive (Map.remove id m.targets)) (tt, sessions))
      | inr e ↦ simp (e, destroy) (other-IsActive id m.active_target_id m.targets e k.0, sessions)
    ]

crash-IsKnown :
    (d : DomState) (id : String) (m : BrowserTargetManager) → IsKnown m → IsKnown (crash d id m)
unfolding crash
crash-IsKnown d id m k =
    let keeps =
      upsert-Keeps id (λ r. record r { is_crashed = true; lifecycle = crashed; active = false })
        (fresh d id "page" "" "" crashed true) m.targets in
    (
      elim (Bool-cases (is_id id m.active_target_id)) [
        | inl e ↦ simp e tt
        | inr e ↦ simp e (IsActive-Keeps m.active_target_id m.targets _ keeps k.0)
      ],
      AllKnown-Keeps m.session_to_target m.targets _ keeps k.1,
    )

attach-IsKnown :
    (d : DomState) (session id kind url title : String) (m : BrowserTargetManager)
    → IsKnown m
    → IsKnown (attach d session id kind url title m)
unfolding attach
attach-IsKnown d session id kind url title m k =
    let here =
      upsert-Known id (with_session d session)
        (with_session d session (fresh d id kind url title created false)) m.targets in
    let more =
      more-IsKnown _ m
        (upsert-Keeps id (with_session d session)
          (with_session d session (fresh d id kind url title created false)) m.targets)
        k in
    activate_first-IsKnown (some id) _ here
      (more.0, insert-AllKnown session id m.session_to_target _ here more.1)

or_else-IsActive :
    (o p : Option String) (t : Map String TargetRecord)
    → IsActive o t
    → IsActive p t
    → IsActive (or_else o p) t
unfolding or_else
or_else-IsActive none p t a b = b
or_else-IsActive (some id) p t a b = a

detach-IsKnown :
    (session : String) (o : Option String) (m : BrowserTargetManager)
    → IsKnown m
    → IsKnown (detach session o m)
unfolding detach
detach-IsKnown session none m k = (k.0, remove-AllKnown session m.session_to_target m.targets k.1)
detach-IsKnown session (some id) m k =
    let more = more-IsKnown _ m (update-Keeps id (without_session session) m.targets) k in
    let sessions = remove-AllKnown session m.session_to_target _ more.1 in
    let t = Map.update id (without_session session) m.targets in
    elim (Bool-cases (is_id id m.active_target_id)) [
      | inl e ↦
          simp (e, detach)
            (activate_any-IsKnown _ _
              (or_else-IsActive (first_attached t) (Map.first_key t) t (first_attached-IsActive t)
                (first_key-IsActive t))
              (tt, sessions))
      | inr e ↦ simp (e, detach) (more.0, sessions)
    ]

update_any-IsKnown :
    (o : Option String) (f : TargetRecord → TargetRecord) (m : BrowserTargetManager)
    → IsKnown m
    → IsKnown (update_any o f m)
update_any-IsKnown none f m k = k
update_any-IsKnown (some id) f m k = more-IsKnown _ m (update-Keeps id f m.targets) k

navigate-IsKnown :
    (session : Option String) (url title : String) (m : BrowserTargetManager)
    → IsKnown m
    → IsKnown (navigate session url title m)
unfolding navigate
navigate-IsKnown none url title m k = update_any-IsKnown m.active_target_id _ m k
navigate-IsKnown (some s) url title m k = update_any-IsKnown _ _ m k

-- Both branches of a test keep it.
if-IsKnown :
    (b : Bool) (m m' : BrowserTargetManager)
    → IsKnown m
    → IsKnown m'
    → IsKnown (if b then m else m')
if-IsKnown true m m' k k' = k
if-IsKnown false m m' k k' = k'

module _ {V : Type 0} (J : Json V) where
  on_attached-IsKnown :
      (d : DomState) (params : V) (m : BrowserTargetManager)
      → IsKnown m
      → IsKnown (on_attached J d params m)
  unfolding on_attached
  on_attached-IsKnown d params m k = search (if-IsKnown, attach-IsKnown)

  pub on_event-IsKnown :
      (d : DomState) (m : BrowserTargetManager) (ev : CdpEvent V)
      → IsKnown m
      → IsKnown (on_event J d m ev)
  unfolding on_event on_target_created on_target_destroyed on_target_crashed on_detached
      on_frame_navigated
  on_event-IsKnown d m ev k =
      search
        (
          if-IsKnown, create-IsKnown, destroy-IsKnown, crash-IsKnown, on_attached-IsKnown,
          detach-IsKnown, navigate-IsKnown,
        )
        depth 12

  -- The events of a browser, each with the versions of the page at its time.
  unfoldable pub run : BrowserTargetManager → List (DomState × CdpEvent V) → BrowserTargetManager
  unfolding on_event
  run m [] = m
  run m ((d, ev) ∷ evs) = run (on_event J d m ev) evs

  -- Whatever events arrive, the active target is always one that has a record, and so is the target
  -- of every session that is mapped.
  pub run-IsKnown :
      (m : BrowserTargetManager) (evs : List (DomState × CdpEvent V))
      → IsKnown m
      → IsKnown (run m evs)
  unfolding run
  run-IsKnown m [] k = k
  run-IsKnown m ((d, ev) ∷ evs) k = run-IsKnown (on_event J d m ev) evs (on_event-IsKnown d m ev k)
