-- ===== src/Dispatcher/Snapshots.antt =====
-- src/browser_runtime/events.rs and dom_state.rs: when a snapshot of the page goes out of date, with
-- all parts that move its versions.
use hyprfast.Base.{
  ◌+◌, ◌≤◌, ◌<◌, ◌≡◌, refl, ◌∙◌, ap, Bool, true, false, ◌||◌, List, [], ◌∷◌, arith, u64_mod, length,
  any, bump, bump-lt, if◌then◌else◌,
}
use hyprfast.Base.Text.{Unicode}
use hyprfast.Json.{Json}
use hyprfast.DomState
use hyprfast.DomState.{DomState, CdpEvent, is_stale}
use hyprfast.DomState.Versions.{invalidates, on_event_versions}
use hyprfast.Frames
use hyprfast.Frames.{FrameEvent, FrameManager, apply, frame_event, attach, navigate, detach}
use hyprfast.Frames.Step.{is_any, frame_tree_version-apply}
use hyprfast.Frames.Moved.{moved_frame, bumped-frame_event}
use hyprfast.DomDiff.Reports.{on_event_with_pre-frame_manager}
use hyprfast.Dispatcher.{Received, event, lagged, Dispatched, dispatch, dispatch_loop}

abbrev pub page_of : Dispatched → DomState
page_of s = s.dom_diff.element_index.frame_manager.dom_state

apply-dom_version :
    (e : FrameEvent) (m : FrameManager)
    → (apply e m).dom_state.dom_version ≡ m.dom_state.dom_version
unfolding apply
apply-dom_version (attach f p s) m = refl
apply-dom_version _ m = refl

-- From one page to another the two versions have stayed, or they have not gone back and one has
-- moved.
abbrev Later : Bool → DomState → DomState → Type 0
Later true s t =
    (s.dom_version ≤ t.dom_version)
    × (s.frame_tree_version ≤ t.frame_tree_version)
    × (s.dom_version + s.frame_tree_version < t.dom_version + t.frame_tree_version)
Later false s t = (t.dom_version ≡ s.dom_version) × (t.frame_tree_version ≡ s.frame_tree_version)

join_Later : (b c : Bool) (s t v : DomState) → Later b s t → Later c t v → Later (b || c) s v
join_Later true true s t v p q = (omega arith, omega arith, omega arith)
join_Later true false s t v p q = (omega arith, omega arith, omega arith)
join_Later false true s t v p q = (omega arith, omega arith, omega arith)
join_Later false false s t v p q = (omega arith, omega arith)

is_stale_of_Later :
    (b : Bool) (s t : DomState) → Later b s t → is_stale t s.dom_version s.frame_tree_version ≡ b
unfolding is_stale
is_stale_of_Later true s t h = ground arith
is_stale_of_Later false s t h = ground arith

stepped :
    (b c : Bool) (s t : DomState)
    → s.dom_version + 1 < u64_mod
    → s.frame_tree_version + 1 < u64_mod
    → t.dom_version ≡ (if b then bump s.dom_version else s.dom_version)
    → t.frame_tree_version ≡ (if c then bump s.frame_tree_version else s.frame_tree_version)
    → Later (b || c) s t
      × (t.dom_version ≤ s.dom_version + 1)
      × (t.frame_tree_version ≤ s.frame_tree_version + 1)
stepped true true s t h k p q =
    let p' = p ∙ bump-lt s.dom_version h in
    let q' = q ∙ bump-lt s.frame_tree_version k in
    (
      (omega (arith, p'), omega (arith, q'), omega (arith, p', q')),
      omega (arith, p'),
      omega (arith, q'),
    )
stepped true false s t h k p q =
    let p' = p ∙ bump-lt s.dom_version h in
    (
      (omega (arith, p'), omega (arith, q), omega (arith, p', q)),
      omega (arith, p'),
      omega (arith, q),
    )
stepped false true s t h k p q =
    let q' = q ∙ bump-lt s.frame_tree_version k in
    (
      (omega (arith, p), omega (arith, q'), omega (arith, p, q')),
      omega (arith, p),
      omega (arith, q'),
    )
stepped false false s t h k p q = ((p, q), omega arith, omega arith)

module _ {V : Type 0} (J : Json V) (u : Unicode) where
  -- The event changes the document or the frame tree, by its method and its parameters.
  abbrev pub outdates : Received V → Bool
  outdates (event ev) = invalidates J ev || is_any (moved_frame J ev)
  outdates (lagged n) = false

  dispatch-Later :
      (s : Dispatched) (ev : CdpEvent V)
      → (page_of s).dom_version + 1 < u64_mod
      → (page_of s).frame_tree_version + 1 < u64_mod
      → let t = dispatch J u s ev in
        Later (outdates (event ev)) (page_of s) (page_of t)
        × ((page_of t).dom_version ≤ (page_of s).dom_version + 1)
        × ((page_of t).frame_tree_version ≤ (page_of s).frame_tree_version + 1)
  unfolding dispatch Frames.on_event
  dispatch-Later s ev h k =
      let m = s.dom_diff.element_index.frame_manager in
      let m1 = record m { dom_state = DomState.on_event J m.dom_state ev } in
      let e = record s.dom_diff {
        element_index = record s.dom_diff.element_index { frame_manager = Frames.on_event J m1 ev };
      } in
      let same =
        on_event_with_pre-frame_manager J u e ev m.dom_state.dom_version
          m.dom_state.element_index_version in
      let v = on_event_versions J m.dom_state ev in
      stepped (invalidates J ev) (is_any (moved_frame J ev)) m.dom_state
        (page_of (dispatch J u s ev)) h k
        (ap (λ x. x.dom_state.dom_version) same ∙ apply-dom_version (frame_event J ev) m1 ∙ v.0)
        (ap (λ x. x.dom_state.frame_tree_version) same
          ∙ frame_tree_version-apply (frame_event J ev) m1
          ∙ ap
              (λ o.
                if is_any o
                then bump m1.dom_state.frame_tree_version
                else m1.dom_state.frame_tree_version)
              (bumped-frame_event J ev)
          ∙ ap (λ n. if is_any (moved_frame J ev) then bump n else n) v.1)

  run-Later :
      (s : Dispatched) (rs : List (Received V))
      → (page_of s).dom_version + length rs < u64_mod
      → (page_of s).frame_tree_version + length rs < u64_mod
      → Later (any outdates rs) (page_of s) (page_of (dispatch_loop J u s rs))
  unfolding dispatch_loop
  run-Later s [] h k = (refl, refl)
  run-Later s (event ev ∷ rs) h k =
      let d = dispatch-Later s ev (omega arith) (omega arith) in
      let t = dispatch J u s ev in
      join_Later (outdates (event ev)) (any outdates rs) (page_of s) (page_of t)
        (page_of (dispatch_loop J u t rs)) d.0
        (run-Later t rs (omega (arith, d.1)) (omega (arith, d.2)))
  run-Later s (lagged n ∷ rs) h k = run-Later s rs (omega arith) (omega arith)

  -- A snapshot that carries the versions of the document and of the frame tree of now is stale,
  -- after whatever the dispatcher receives, exactly if one of the events changes the document
  -- (mutates or replaces it, or navigates the main frame) or attaches, detaches or navigates a
  -- frame, as long as neither counter wraps.
  pub snapshot_stale :
      (s : Dispatched) (rs : List (Received V))
      → (page_of s).dom_version + length rs < u64_mod
      → (page_of s).frame_tree_version + length rs < u64_mod
      → is_stale
          (page_of (dispatch_loop J u s rs))
          (page_of s).dom_version
          (page_of s).frame_tree_version
        ≡ any outdates rs
  snapshot_stale s rs h k =
      is_stale_of_Later (any outdates rs) (page_of s) (page_of (dispatch_loop J u s rs))
        (run-Later s rs h k)
