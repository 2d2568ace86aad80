-- ===== src/DomDiff/Events.antt =====
-- src/browser_runtime/dom_diff.rs: the two entries for events, and the invalidation of a recovery.
-- The caller has given the event to the state of the page before.
use hyprfast.Base.{
  ℕ, ◌-◌, String, Bool, ◌&&◌, ◌||◌, Option, none, some, ◌==◌, string_eq, ltb, if◌then◌else◌,
}
use hyprfast.Base.Text.{Unicode}
use hyprfast.Json.{Json}
use hyprfast.DomState.{CdpEvent, is_main_frame}
use hyprfast.Elements.Store.{invalidate_all}
use hyprfast.DomDiff.{DomDiff, DomDiffEngine}
use hyprfast.DomDiff.Handlers.{
  handle_insert, handle_remove, handle_attribute_modified, handle_full_rebuild, build_full_diff,
}

-- The diff that the engine keeps as its last one.
abbrev pub published : DomDiffEngine × DomDiff → DomDiffEngine × Option DomDiff
published (e, d) = (record e { last_diff = some d }, some d)

-- `on_recovery_invalidation`
unfoldable pub on_recovery_invalidation : DomDiffEngine → DomDiffEngine × Option DomDiff
unfolding invalidate_all build_full_diff
on_recovery_invalidation e = published (
    build_full_diff (record e { element_index = invalidate_all e.element_index }) 0
      (e.element_index.dom_version - 1) (e.element_index.element_index_version - 1) "recovery"
      (some "recovery invalidation — dom/frame generations bumped; all refs invalid"))

-- The events that `on_event` takes to have moved the version of the page by one.
unfoldable pub uses_heuristic : String → Bool
uses_heuristic m =
    m == "DOM.childNodeInserted"
    || (m == "DOM.childNodeRemoved"
        || (m == "DOM.attributeModified"
            || (m == "DOM.documentUpdated" || m == "Page.frameNavigated")))

-- The versions of before the event, guessed from those of now.
abbrev pub guessed : String → ℕ → ℕ → ℕ × ℕ
guessed m dom_after eiv_after =
    if uses_heuristic m && ltb 0 dom_after
    then (dom_after - 1, eiv_after - (if m == "DOM.documentUpdated" then 1 else 0))
    else (dom_after, eiv_after)

module _ {V : Type 0} (J : Json V) (u : Unicode) where
  -- The versions of before the event are the caller's.
  unfoldable pub on_event_with_pre :
      DomDiffEngine → CdpEvent V → ℕ → ℕ → DomDiffEngine × Option DomDiff
  unfolding handle_insert handle_remove handle_attribute_modified handle_full_rebuild is_main_frame
  on_event_with_pre e ev dom_before eiv_before =
      if ev.method == "DOM.childNodeInserted"
      then published (handle_insert J u e ev dom_before eiv_before)
      else if ev.method == "DOM.childNodeRemoved"
      then published (handle_remove J e ev dom_before eiv_before)
      else if ev.method == "DOM.attributeModified"
      then published (handle_attribute_modified J u e ev dom_before eiv_before)
      else if ev.method == "DOM.documentUpdated"
      then published (handle_full_rebuild J e ev dom_before eiv_before "DOM.documentUpdated")
      else if ev.method == "Page.frameNavigated" && is_main_frame J ev.params
      then published (handle_full_rebuild J e ev dom_before eiv_before "Page.frameNavigated(main)")
      else (e, none)

  unfoldable pub on_event : DomDiffEngine → CdpEvent V → DomDiffEngine × Option DomDiff
  unfolding on_event_with_pre uses_heuristic
  on_event e ev =
      let (dom_before, eiv_before) =
        guessed ev.method e.element_index.dom_version e.element_index.element_index_version in
      on_event_with_pre e ev dom_before eiv_before
