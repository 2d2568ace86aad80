-- ===== src/DomState/Versions.antt =====
-- src/browser_runtime/dom_state.rs: when the events move the versions, by this state alone.
use hyprfast.Base.{
  ℕ, ◌+◌, ◌<◌, ◌≡◌, Bool, true, false, ◌||◌, ◌&&◌, List, [], ◌∷◌, arith, ◌==◌, string_eq,
  if◌then◌else◌, bump, bump-lt, u64_mod, length,
}
use hyprfast.Json.{Json}
use hyprfast.DomState.{
  CdpEvent, DomState, Change, on_event, apply, change_of, sequenced, document_updated, node_touched,
  main_frame_navigated, lifecycle_event, no_change, is_main_frame, on_reconnected, is_stale,
}

-- The changes after which a reference to an element of the page is out of date.
abbrev is_mutation : Change → Bool
is_mutation document_updated = true
is_mutation (node_touched _) = true
is_mutation main_frame_navigated = true
is_mutation _ = false

abbrev Moves : Bool → DomState → DomState → Type 0
Moves b s t =
    (t.dom_version ≡ (if b then bump s.dom_version else s.dom_version))
    × (t.frame_tree_version ≡ s.frame_tree_version)
    × (t.target_generation ≡ s.target_generation)
    × (t.runtime_generation ≡ s.runtime_generation)

apply-Moves :
    (c : Change) (seq : ℕ) (s : DomState) → Moves (is_mutation c) s (apply c (sequenced seq s))
unfolding apply
apply-Moves document_updated seq s = ground arith
apply-Moves (node_touched p) seq s = ground arith
apply-Moves main_frame_navigated seq s = ground arith
apply-Moves (lifecycle_event n) seq s = ground arith
apply-Moves no_change seq s = ground arith

module _ {V : Type 0} (J : Json V) where
  -- The three mutations of the document, its replacement, and a navigation of the main frame.
  abbrev pub invalidates : CdpEvent V → Bool
  invalidates ev =
      ev.method == "DOM.documentUpdated"
      || ev.method == "DOM.childNodeInserted"
      || ev.method == "DOM.childNodeRemoved"
      || ev.method == "DOM.attributeModified"
      || (ev.method == "Page.frameNavigated" && is_main_frame J ev.params)

  is_mutation-change_of : (ev : CdpEvent V) → is_mutation (change_of J ev) ≡ invalidates ev
  unfolding change_of
  is_mutation-change_of ev = ground arith

  -- An event bumps `dom_version` exactly if it is one of those that invalidate; it never touches
  -- the frame tree's version nor the generations of the target and of the connection.
  pub on_event_versions :
      (s : DomState) (ev : CdpEvent V)
      → let t = on_event J s ev in
        (t.dom_version ≡ (if invalidates ev then bump s.dom_version else s.dom_version))
        × (t.frame_tree_version ≡ s.frame_tree_version)
        × (t.target_generation ≡ s.target_generation)
        × (t.runtime_generation ≡ s.runtime_generation)
  unfolding on_event
  on_event_versions s ev =
      rw (← is_mutation-change_of ev) (apply-Moves (change_of J ev) ev.sequence s)

  unfoldable pub run : DomState → List (CdpEvent V) → DomState
  run s [] = s
  run s (ev ∷ evs) = run (on_event J s ev) evs

  mutations : List (CdpEvent V) → ℕ
  mutations [] = 0
  mutations (ev ∷ evs) = (if invalidates ev then 1 else 0) + mutations evs

  -- As long as the counter does not wrap, the version after a history of events is the version
  -- before it plus the number of events that invalidate: it never goes back.
  run_dom_version :
      (s : DomState) (evs : List (CdpEvent V))
      → s.dom_version + length evs < u64_mod
      → (run s evs).dom_version ≡ s.dom_version + mutations evs
  unfolding run mutations
  run_dom_version s [] h = omega arith
  run_dom_version s (ev ∷ evs) h =
      ground (
        arith,
        on_event_versions s ev,
        run_dom_version (on_event J s ev) evs,
        bump-lt s.dom_version,
      )

-- A reconnection makes every snapshot stale, also of the same target: the version of the document
-- and the generations of the target and of the connection all move on by one, as long as they do
-- not wrap, and no affected node is left over.
on_reconnected_lem :
    (s : DomState)
    → s.dom_version + 1 < u64_mod
    → s.target_generation + 1 < u64_mod
    → s.runtime_generation + 1 < u64_mod
    → let (t, target, connection) = on_reconnected s in
      (is_stale t s.dom_version s.frame_tree_version ≡ true)
      × (target ≡ s.target_generation + 1)
      × (t.target_generation ≡ target)
      × (connection ≡ s.runtime_generation + 1)
      × (t.runtime_generation ≡ connection)
      × (t.affected_parents ≡ [])
unfolding on_reconnected is_stale
on_reconnected_lem s h k l =
    ground (
      arith,
      bump-lt s.dom_version h,
      bump-lt s.target_generation k,
      bump-lt s.runtime_generation l,
    )
