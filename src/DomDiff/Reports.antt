-- ===== src/DomDiff/Reports.antt =====
-- src/browser_runtime/dom_diff.rs: the index stays consistent, and the published diff tells the
-- truth about it.
use hyprfast.Base.{
  if◌then◌else◌, Bool, true, false, Bool, ap, ◌∙◌, Option-cases, ℕ, ◌≡◌, refl, Bool-cases, inl, inr,
  String, Option, none, some, length,
}
use hyprfast.Base.Text.{is_empty, Unicode}
use hyprfast.Json.{Json}
use hyprfast.DomState.{CdpEvent}
use hyprfast.Elements.{ElementRef, ElementIndex}
use hyprfast.Elements.Store.{
  store, get_by_backend, insert, get, remove_by_id, forget, update_in_place, invalidate_all,
}
use hyprfast.Elements.Store.Consistent.{
  IsKeyed, insert-IsKeyed, remove_by_id-IsKeyed, update_in_place-IsKeyed, invalidate_all-IsKeyed,
}
use hyprfast.Elements.Query.{find_all}
use hyprfast.DomDiff.{text_of, unwrap_or, int_of, DomDiff, DomDiffEngine, ParsedNode}
use hyprfast.DomDiff.Handlers.{
  inserted_ref, blank_diff, remove_any, replace_ref, modify_ref, handle_node, handle_insert,
  handle_remove, handle_attribute_modified, handle_full_rebuild, build_full_diff, find_removed,
  find_node,
}
use hyprfast.DomDiff.Events.{published, on_event_with_pre}

-- The state of the page, that the index shares, is the same, and so is the consistency.
abbrev Follows : ElementIndex → ElementIndex → Type 0
Follows ix ix' = (ix'.frame_manager ≡ ix.frame_manager) × (IsKeyed ix → IsKeyed ix')

insert-frame_manager :
    (u : Unicode) (ix : ElementIndex) (r : ElementRef)
    → (insert u ix r).0.frame_manager ≡ ix.frame_manager
unfolding insert store
insert-frame_manager u ix r = elim (Bool-cases (is_empty r.id)) [
  | inl e ↦ rw e refl
  | inr e ↦ rw e refl
]

insert-Follows : (u : Unicode) (ix : ElementIndex) (r : ElementRef) → Follows ix (insert u ix r).0
insert-Follows u ix r = (insert-frame_manager u ix r, insert-IsKeyed u ix r)

forget-frame_manager :
    (ix : ElementIndex) (id : String) (o : Option ElementRef)
    → (forget ix id o).frame_manager ≡ ix.frame_manager
unfolding forget
forget-frame_manager ix id none = refl
forget-frame_manager ix id (some r) = refl

pub remove_any-Follows : (ix : ElementIndex) (r : Option ElementRef) → Follows ix (remove_any ix r)
remove_any-Follows ix none = (refl, λ k. k)
remove_any-Follows ix (some r) =
    (unfold remove_by_id in forget-frame_manager ix r.id _, remove_by_id-IsKeyed ix r.id)

replace_ref-Follows :
    (u : Unicode) (ix : ElementIndex) (r : ElementRef) → Follows ix (replace_ref u ix r).0
unfolding replace_ref
replace_ref-Follows u ix r =
    let a = remove_any-Follows ix (get_by_backend ix r.backend_node_id) in
    let b = insert-Follows u (remove_any ix (get_by_backend ix r.backend_node_id)) r in
    (b.0 ∙ a.0, λ k. b.1 (a.1 k))

modify_ref-Follows :
    (u : Unicode) (ix : ElementIndex) (name value : String) (o : Option ElementRef)
    → Follows ix (modify_ref u ix name value o).0
unfolding modify_ref
modify_ref-Follows u ix name value none = (refl, λ k. k)
modify_ref-Follows u ix name value (some r) = elim (Option-cases (get ix r.id)) [
  | inl e ↦ rw (e, modify_ref) (refl, λ k. k)
  | inr (x, e) ↦ rw (e, modify_ref) (unfold update_in_place in refl, update_in_place-IsKeyed ix _)
]

-- The engine after an event and the diff it published: with no diff nothing has changed; a diff is
-- the engine's last one, it carries the number of the event, the versions that the caller read
-- before it and those of the page after it, and the count of the index.
abbrev pub Told :
    {V : Type 0} → DomDiffEngine → CdpEvent V → ℕ → ℕ → DomDiffEngine → Option DomDiff → Type 0
Told e ev dom_before eiv_before e' none = e' ≡ e
Told e ev dom_before eiv_before e' (some d) =
    (e'.last_diff ≡ some d)
    × (d.sequence ≡ ev.sequence)
    × (d.dom_version_before ≡ dom_before)
    × (d.dom_version_after ≡ e.element_index.dom_version)
    × (d.element_index_version_before ≡ eiv_before)
    × (d.element_index_version_after ≡ e.element_index.element_index_version)
    × (d.element_count_after ≡ length e'.element_index.elements)

unfoldable Sound :
    {V : Type 0} → DomDiffEngine → CdpEvent V → ℕ → ℕ → DomDiffEngine × Option DomDiff → Type 0
Sound e ev dom_before eiv_before r =
    Follows e.element_index r.0.element_index × Told e ev dom_before eiv_before r.0 r.1

module _ {V : Type 0} (J : Json V) (u : Unicode) (e : DomDiffEngine) (ev : CdpEvent V)
    (a b : ℕ) where
  handle_node-Sound :
      (node : V) (o : Option ParsedNode)
      → Sound e ev a b (published (handle_node J u e ev a b node o))
  unfolding Sound handle_node build_full_diff blank_diff
  handle_node-Sound node none = ((refl, λ k. k), (refl, refl, refl, refl, refl, refl, refl))
  handle_node-Sound node (some p) =
      let f =
        replace_ref-Follows u e.element_index (inserted_ref u e.element_index ev.session_id p) in
      (
        f,
        (
          refl,
          refl,
          refl,
          ap (λ m. m.dom_state.dom_version) f.0,
          refl,
          ap (λ m. m.dom_state.element_index_version) f.0,
          refl,
        ),
      )

  handle_insert-Sound : Sound e ev a b (published (handle_insert J u e ev a b))
  unfolding Sound handle_insert blank_diff
  handle_insert-Sound = elim (Option-cases (J.get ev.params "node")) [
    | inl h ↦ rw (h, handle_insert) ((refl, λ k. k), (refl, refl, refl, refl, refl, refl, refl))
    | inr (node, h) ↦ rw (h, handle_insert) (handle_node-Sound node _)
  ]

  handle_remove-Sound : Sound e ev a b (published (handle_remove J e ev a b))
  unfolding Sound handle_remove blank_diff
  handle_remove-Sound =
      let f = remove_any-Follows e.element_index (find_removed J e.element_index ev.params) in
      (
        f,
        (
          refl,
          refl,
          refl,
          ap (λ m. m.dom_state.dom_version) f.0,
          refl,
          ap (λ m. m.dom_state.element_index_version) f.0,
          refl,
        ),
      )

  handle_attribute_modified-Sound :
      Sound e ev a b (published (handle_attribute_modified J u e ev a b))
  unfolding Sound handle_attribute_modified blank_diff
  handle_attribute_modified-Sound =
      let f =
        modify_ref-Follows u e.element_index (unwrap_or (text_of J ev.params "name") "")
          (unwrap_or (text_of J ev.params "value") "")
          (find_node (int_of J ev.params "nodeId") (find_all e.element_index)) in
      (
        f,
        (
          refl,
          refl,
          refl,
          ap (λ m. m.dom_state.dom_version) f.0,
          refl,
          ap (λ m. m.dom_state.element_index_version) f.0,
          refl,
        ),
      )

  handle_full_rebuild-Sound :
      (reason : String) → Sound e ev a b (published (handle_full_rebuild J e ev a b reason))
  unfolding Sound handle_full_rebuild build_full_diff blank_diff invalidate_all
  handle_full_rebuild-Sound reason = (
    (refl, λ k. invalidate_all-IsKeyed e.element_index),
    (refl, refl, refl, refl, refl, refl, refl),
  )

  if-Sound :
      (c : Bool) (x y : DomDiffEngine × Option DomDiff)
      → Sound e ev a b x
      → Sound e ev a b y
      → Sound e ev a b (if c then x else y)
  if-Sound true x y hx hy = hx
  if-Sound false x y hx hy = hy

  unrelated-Sound : Sound e ev a b (e, none)
  unfolding Sound
  unrelated-Sound = ((refl, λ k. k), refl)

  event-Sound : Sound e ev a b (on_event_with_pre J u e ev a b)
  unfolding on_event_with_pre
  event-Sound = if-Sound _ _ _ handle_insert-Sound (
      if-Sound _ _ _ handle_remove-Sound (
        if-Sound _ _ _ handle_attribute_modified-Sound (
          if-Sound _ _ _ (handle_full_rebuild-Sound "DOM.documentUpdated") (
            if-Sound _ _ _ (handle_full_rebuild-Sound "Page.frameNavigated(main)")
              unrelated-Sound))))

-- An event leaves an index that knew each of its elements by its own id, once, in that state, and
-- the page's state as it found it. An event without a diff leaves the engine as it was; a diff is
-- kept as the last one and tells the truth: the number of the event, the page's versions before it,
-- as the caller read them, and after it, and the count of the elements that are left.
pub on_event_with_pre-Sound :
    {V : Type 0} (J : Json V) (u : Unicode) (e : DomDiffEngine) (ev : CdpEvent V)
    (dom_before eiv_before : ℕ)
    → IsKeyed e.element_index
    → IsKeyed (on_event_with_pre J u e ev dom_before eiv_before).0.element_index
      × ((on_event_with_pre J u e ev dom_before eiv_before).0.element_index.frame_manager
          ≡ e.element_index.frame_manager)
      × Told e ev dom_before eiv_before
          (on_event_with_pre J u e ev dom_before eiv_before).0
          (on_event_with_pre J u e ev dom_before eiv_before).1
unfolding Sound
on_event_with_pre-Sound J u e ev a b k = let s = event-Sound J u e ev a b in (s.0.1 k, s.0.0, s.1)

-- An event leaves the frames, and the state of the page in them, as it found them.
pub on_event_with_pre-frame_manager :
    {V : Type 0} (J : Json V) (u : Unicode) (e : DomDiffEngine) (ev : CdpEvent V)
    (dom_before eiv_before : ℕ)
    → (on_event_with_pre J u e ev dom_before eiv_before).0.element_index.frame_manager
      ≡ e.element_index.frame_manager
unfolding Sound
on_event_with_pre-frame_manager J u e ev a b = (event-Sound J u e ev a b).0.0
