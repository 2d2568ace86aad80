-- ===== src/DomDiff/Guess.antt =====
-- src/browser_runtime/dom_diff.rs and dom_state.rs: the versions that the engine guesses, after the
-- state of the page has seen the event.
use hyprfast.Base.{
  leb, ℕ, ◌+◌, ◌-◌, ◌<◌, ◌>>=◌, ◌≡◌, refl, ap, leb, ◌∙◌, String, true, false, Bool-cases, inl, inr,
  none, some, arith, bump, u64_mod, ltb, ◌==◌, string_eq, eq_iff,
}
use hyprfast.Base.Text.{Unicode}
use hyprfast.Json.{Json}
use hyprfast.DomState
use hyprfast.DomState.{
  DomState, CdpEvent, Change, document_updated, node_touched, main_frame_navigated, lifecycle_event,
  no_change, apply, change_of, is_main_frame, set_insert, prune_affected, sequenced,
}
use hyprfast.DomDiff.{DomDiffEngine}
use hyprfast.DomDiff.Events.{guessed, uses_heuristic, on_event, on_event_with_pre}

-- The versions of the page, of its document and of the index of its elements.
abbrev versions : DomState → ℕ × ℕ
versions s = (s.dom_version, s.element_index_version)

-- The versions that a change leaves.
abbrev moved : Change → ℕ × ℕ → ℕ × ℕ
moved document_updated (d, i) = (bump d, bump i)
moved (node_touched n) (d, i) = (bump d, i)
moved main_frame_navigated (d, i) = (bump d, i)
moved (lifecycle_event name) (d, i) = (d, i)
moved no_change (d, i) = (d, i)

versions-apply : (c : Change) (s : DomState) → versions (apply c s) ≡ moved c (versions s)
unfolding apply
versions-apply document_updated s = refl
versions-apply (node_touched none) s = refl
versions-apply (node_touched (some n)) s = refl
versions-apply main_frame_navigated s = refl
versions-apply (lifecycle_event none) s = refl
versions-apply (lifecycle_event (some n)) s = refl
versions-apply no_change s = refl

versions-sequenced : (seq : ℕ) (s : DomState) → versions (sequenced seq s) ≡ versions s
versions-sequenced seq s = elim (Bool-cases (leb s.last_sequence seq)) [
  | inl h ↦ rw h refl
  | inr h ↦ rw h refl
]

bump-positive : (n : ℕ) → n + 1 < u64_mod → ltb 0 (bump n) ≡ true
bump-positive n h = ground arith

bump-back : (n : ℕ) → n + 1 < u64_mod → bump n - 1 ≡ n
bump-back n h = ground arith

minus_zero : (n : ℕ) → n - 0 ≡ n
minus_zero n = omega arith

-- A guess from the versions that an event leaves gives those of before it.
guess_bumped :
    (m : String) (d i : ℕ)
    → d + 1 < u64_mod
    → uses_heuristic m ≡ true
    → (m == "DOM.documentUpdated") ≡ false
    → guessed m (bump d) i ≡ (d, i)
guess_bumped m d i h q r = simp (q, r, bump-positive d h, bump-back d h, minus_zero i) refl

guess_document :
    (d i : ℕ)
    → d + 1 < u64_mod
    → i + 1 < u64_mod
    → guessed "DOM.documentUpdated" (bump d) (bump i) ≡ (d, i)
unfolding uses_heuristic
guess_document d i h k = simp (bump-positive d h, bump-back d h, bump-back i k) refl

module _ {V : Type 0} (J : Json V) (u : Unicode) (s : DomState) (ev : CdpEvent V)
    (e : DomDiffEngine)
    (h : e.element_index.frame_manager.dom_state ≡ DomState.on_event J s ev) where
  -- The guess of this event is right.
  abbrev Guesses : Type 0
  Guesses = on_event J u e ev ≡ on_event_with_pre J u e ev s.dom_version s.element_index_version

  versions-on_event :
      (c : Change)
      → change_of J ev ≡ c
      → versions e.element_index.frame_manager.dom_state ≡ moved c (versions s)
  unfolding DomState.on_event
  versions-on_event c q =
      ap versions h
      ∙ versions-apply (change_of J ev) (sequenced ev.sequence s)
      ∙ ap (λ x. moved x (versions (sequenced ev.sequence s))) q
      ∙ ap (moved c) (versions-sequenced ev.sequence s)

  right :
      (c : Change)
      → change_of J ev ≡ c
      → guessed ev.method (moved c (versions s)).0 (moved c (versions s)).1 ≡ versions s
      → Guesses
  unfolding on_event
  right c q g =
      ap
        (λ w.
          on_event_with_pre J u e ev (guessed ev.method w.0 w.1).0 (guessed ev.method w.0 w.1).1)
        (versions-on_event c q)
      ∙ ap (λ w. on_event_with_pre J u e ev w.0 w.1) g

  document_event :
      ev.method ≡ "DOM.documentUpdated"
      → s.dom_version + 1 < u64_mod
      → s.element_index_version + 1 < u64_mod
      → Guesses
  unfolding change_of
  document_event m b c =
      right document_updated (simp m refl)
        (simp m (guess_document s.dom_version s.element_index_version b c))

  -- The other events that are taken to move the page's version, when they do.
  touched_event :
      (m : String) (c : Change)
      → ev.method ≡ m
      → change_of J ev ≡ c
      → moved c (versions s) ≡ (bump s.dom_version, s.element_index_version)
      → uses_heuristic m ≡ true
      → (m == "DOM.documentUpdated") ≡ false
      → s.dom_version + 1 < u64_mod
      → Guesses
  touched_event m c p q r t n b = right c q (
      ap (λ x. guessed ev.method x.0 x.1) r
      ∙ ap (λ x. guessed x (bump s.dom_version) s.element_index_version) p
      ∙ guess_bumped m s.dom_version s.element_index_version b t n)

  inserted_event : ev.method ≡ "DOM.childNodeInserted" → s.dom_version + 1 < u64_mod → Guesses
  unfolding change_of uses_heuristic
  inserted_event p b =
      touched_event _ (node_touched (J.get ev.params "parentNodeId" >>= J.as_i64)) p (simp p refl)
        refl refl refl b

  removed_event : ev.method ≡ "DOM.childNodeRemoved" → s.dom_version + 1 < u64_mod → Guesses
  unfolding change_of uses_heuristic
  removed_event p b =
      touched_event _ (node_touched (J.get ev.params "parentNodeId" >>= J.as_i64)) p (simp p refl)
        refl refl refl b

  attribute_event : ev.method ≡ "DOM.attributeModified" → s.dom_version + 1 < u64_mod → Guesses
  unfolding change_of uses_heuristic
  attribute_event p b =
      touched_event _ (node_touched (J.get ev.params "nodeId" >>= J.as_i64)) p (simp p refl) refl
        refl refl b

  navigation_event : ev.method ≡ "Page.frameNavigated" → s.dom_version + 1 < u64_mod → Guesses
  unfolding change_of uses_heuristic on_event on_event_with_pre
  navigation_event p b = elim (Bool-cases (is_main_frame J ev.params)) [
    | inl q ↦ touched_event _ main_frame_navigated p (simp (p, q) refl) refl refl refl b
    | inr q ↦ simp (p, q) refl
  ]

-- When the state of the page has seen an event, and its two counters have not wrapped, the versions
-- that `on_event` guesses do what the versions of before the event do: `on_event` returns the engine
-- and the diff that `on_event_with_pre` returns for them.
pub on_event-guesses :
    {V : Type 0} (J : Json V) (u : Unicode) (s : DomState) (ev : CdpEvent V) (e : DomDiffEngine)
    → e.element_index.frame_manager.dom_state ≡ DomState.on_event J s ev
    → s.dom_version + 1 < u64_mod
    → s.element_index_version + 1 < u64_mod
    → on_event J u e ev ≡ on_event_with_pre J u e ev s.dom_version s.element_index_version
unfolding on_event on_event_with_pre
on_event-guesses J u s ev e h b c = elim (Bool-cases (ev.method == "DOM.documentUpdated")) [
  | inl q ↦ document_event J u s ev e h ((eq_iff ev.method _).0 q) b c
  | inr q1 ↦ elim (Bool-cases (ev.method == "DOM.childNodeInserted")) [
    | inl q ↦ inserted_event J u s ev e h ((eq_iff ev.method _).0 q) b
    | inr q2 ↦ elim (Bool-cases (ev.method == "DOM.childNodeRemoved")) [
      | inl q ↦ removed_event J u s ev e h ((eq_iff ev.method _).0 q) b
      | inr q3 ↦ elim (Bool-cases (ev.method == "DOM.attributeModified")) [
        | inl q ↦ attribute_event J u s ev e h ((eq_iff ev.method _).0 q) b
        | inr q4 ↦ elim (Bool-cases (ev.method == "Page.frameNavigated")) [
          | inl q ↦ navigation_event J u s ev e h ((eq_iff ev.method _).0 q) b
          | inr q5 ↦ simp (q1, q2, q3, q4, q5) refl
        ]
      ]
    ]
  ]
]
