-- ===== src/Targets/Switch.antt =====
-- src/browser_runtime/targets.rs: switching the active target changes flags, and nothing else.
use mathlib.Core.Option
use hyprfast.Base.{
  String, ◌≡◌, refl, ◌∙◌, Bool, true, false, Option, none, some, ◌==◌, string_eq, inl, inr,
  Bool-cases, Option-cases, if◌then◌else◌, beq_refl, arith,
}
use hyprfast.Base.Map
use hyprfast.Base.Map.{Map}
use hyprfast.DomState.{DomState}
use hyprfast.Error.{RuntimeResult, ok, err}
use hyprfast.Targets.{TargetRecord, BrowserTargetManager, is_id, activated, deactivated}
use hyprfast.Targets.Refs.{switch_target, obstacle, make_active, deactivate_any, found, get_target}

-- A record but for its flag.
abbrev unflagged : Option TargetRecord → Option TargetRecord
unflagged none = none
unflagged (some r) = some (deactivated r)

get-deactivate_any :
    (j : String) (o : Option String) (t : Map String TargetRecord)
    → Map.get j (deactivate_any o t)
      ≡ (if is_id j o then Option.map deactivated (Map.get j t) else Map.get j t)
get-deactivate_any j none t = refl
get-deactivate_any j (some id) t = Map.get-update j id deactivated t

get-make_active :
    (j id : String) (m : BrowserTargetManager)
    → Map.get j (make_active id m).targets ≡ (
        let r =
          if is_id j m.active_target_id
          then Option.map deactivated (Map.get j m.targets)
          else Map.get j m.targets in
        if id == j then Option.map activated r else r)
unfolding make_active
get-make_active j id m =
    Map.get-update j id activated (deactivate_any m.active_target_id m.targets)
    ∙ rw (get-deactivate_any j m.active_target_id m.targets) refl

unflagged-make_active :
    (j id : String) (m : BrowserTargetManager)
    → unflagged (Map.get j (make_active id m).targets) ≡ unflagged (Map.get j m.targets)
unflagged-make_active j id m =
    rw (get-make_active j id m) (go (is_id j m.active_target_id) (id == j) (Map.get j m.targets))
  where
    go :
        (a b : Bool) (r : Option TargetRecord)
        → unflagged (
            let s = if a then Option.map deactivated r else r in
            if b then Option.map activated s else s)
          ≡ unflagged r
    go true true none = refl
    go true true (some r) = refl
    go true false none = refl
    go true false (some r) = refl
    go false true none = refl
    go false true (some r) = refl
    go false false r = refl

-- What a switch means: success, or a failure that changes nothing.
abbrev pub Switched :
    DomState
    → String
    → BrowserTargetManager
    → BrowserTargetManager
    → RuntimeResult TargetRecord
    → Type 0
Switched d id m m' (ok r) =
    (m'.active_target_id ≡ some id)
    × (Map.get id m'.targets ≡ some r)
    × (r.active ≡ true)
    × (r.is_crashed ≡ false)
    × (r.target_generation ≡ d.target_generation)
    × (m'.session_to_target ≡ m.session_to_target)
    × ((j : String) → unflagged (Map.get j m'.targets) ≡ unflagged (Map.get j m.targets))
Switched d id m m' (err e) = m' ≡ m

obstacle-none :
    (d : DomState) (id : String) (r : TargetRecord)
    → obstacle d id r ≡ none
    → (r.is_crashed ≡ false) × (r.target_generation ≡ d.target_generation)
unfolding obstacle
obstacle-none d id r h = (ground arith, ground arith)

module _ (d : DomState) (id : String) (m : BrowserTargetManager) where
  made :
      (r : TargetRecord)
      → Map.get id m.targets ≡ some r
      → obstacle d id r ≡ none
      → Switched d id m (make_active id m) (found id (get_target (make_active id m) id))
  unfolding get_target make_active
  made r e clear =
      let facts = obstacle-none d id r clear in
      let r' = if is_id id m.active_target_id then deactivated r else r in
      let here : Map.get id (make_active id m).targets ≡ some (activated r') =
        get-make_active id id m
        ∙ rw (e, beq_refl id)
            (elim (Bool-cases (is_id id m.active_target_id)) [
              | inl b ↦ simp b refl
              | inr b ↦ simp b refl
            ]) in
      simp here (
        refl,
        refl,
        refl,
        elim (Bool-cases (is_id id m.active_target_id)) [
          | inl b ↦ simp b facts.0
          | inr b ↦ simp b facts.0
        ],
        elim (Bool-cases (is_id id m.active_target_id)) [
          | inl b ↦ simp b facts.1
          | inr b ↦ simp b facts.1
        ],
        refl,
        (λ j. unflagged-make_active j id m),
      )

  -- A switch that succeeds makes the target active and gives its record, which is flagged, not
  -- crashed and of the current generation; the sessions and, but for their flags, all records stay
  -- as they are. A switch that fails changes nothing.
  pub switch_target_lem : let r = switch_target d m id in Switched d id m r.0 r.1
  unfolding switch_target
  switch_target_lem = elim (Option-cases (Map.get id m.targets)) [
    | inl e ↦ simp (e, switch_target) refl
    | inr known ↦ elim (Option-cases (obstacle d id known.0)) [
      | inl clear ↦ simp (known.1, clear, switch_target) (made known.0 known.1 clear)
      | inr why ↦ simp (known.1, why.1, switch_target) refl
    ]
  ]
