-- ===== src/Tests/Ladder.antt =====
-- The theorems on the recovery ladder, at concrete inputs.
use hyprfast.Base.{◌≡◌, refl, some, none, [], ◌∷◌, map, arith}
use hyprfast.Base.Map
use mathlib.Core.Option.{or_else}
use hyprfast.Frames.{is_stale_for_frame}
use hyprfast.Elements.Store
use hyprfast.Base.Text.{strip_prefix, first_word, decimal, join, is_blank, is_whitespace}
use hyprfast.Elements.{ElementIndex}
use hyprfast.Elements.Query.{find_all, find_by_dom_id}
use hyprfast.Elements.Resolve.Total.{Returns}
use hyprfast.Recovery.{
  RecoveryResult, ladder, name, order, label, recovered, attempt, existing_ref, cached_backend_node,
  css_selector, dom_id_name, ax_role_name, semantic_text, fresh_dom_ax_search,
  frame_shadow_traversal, ambiguity_resolution, vision_fallback, miss, skipped_missing_input,
  skipped_due_to_earlier_success,
}
use hyprfast.Recovery.Tiers.{
  hit, is_live, judge, tier_existing_ref, tier_cached_backend, tier_css_selector,
}
use hyprfast.Recovery.Search.{tier_fresh_search, tier_dom_id_name}
use hyprfast.Recovery.Outcome.{recover, materialized}
use hyprfast.Recovery.Trace.{recover_trace}
use hyprfast.Recovery.Sound.{HasWords}
use hyprfast.Recovery.Total.{recover-Returns}
use hyprfast.Recovery.Fresh.{tier_fresh_search-unrelated}
use hyprfast.Recovery.Explained.{IsExplained, recover-IsExplained}
use hyprfast.Tests.Data.{
  json, unicode, second_button, index, first_request, no_vision, index-IsKeyed,
}

recover-Returns_example : Returns (recover json unicode index (first_request "save") none no_vision)
unfolding join is_blank is_whitespace
recover-Returns_example =
    recover-Returns json unicode index (first_request "save") none no_vision tt tt (omega arith)
      (omega arith)

-- The attempts before the tier that finds the second button, and those after it.
abbrev result : RecoveryResult
result = record {
  outcome = recovered second_button;
  trace =
      attempt existing_ref miss "ref e_001 exists but is stale (dom 2 vs 3, frame 1 vs 1)" []
      ∷ attempt cached_backend_node skipped_missing_input "no backendNodeId available" []
      ∷ attempt css_selector skipped_missing_input "no selector available" []
      ∷ hit dom_id_name second_button " via dom_id save"
      ∷ map
          (λ t.
            attempt t skipped_due_to_earlier_success "skipped — earlier tier already decided" [])
          (ax_role_name ∷ semantic_text ∷ fresh_dom_ax_search ∷ frame_shadow_traversal
            ∷ ambiguity_resolution ∷ vision_fallback ∷ []);
}

recover-result : recover json unicode index (first_request "save") none no_vision ≡ some result
unfolding recover tier_existing_ref Store.get Map.get Store.is_stale tier_cached_backend
    tier_css_selector tier_dom_id_name judge find_by_dom_id is_live is_stale_for_frame
    Store.check_interactable strip_prefix first_word is_whitespace or_else decimal name order label
    materialized
recover-result = refl

recover_trace_example : map (λ a. a.tier) result.trace ≡ ladder
recover_trace_example =
    recover_trace json unicode index (first_request "save") none no_vision result recover-result

words : HasWords index
unfolding is_whitespace
words = ((refl, refl), ((refl, refl), tt))

recover-IsExplained_example : IsExplained index no_vision (recovered second_button)
recover-IsExplained_example =
    recover-IsExplained json unicode index (first_request "save") none no_vision result
      index-IsKeyed words recover-result

-- A button without a DOM id is the only one of its page.
abbrev lone_index : ElementIndex
lone_index = record index { elements = ("e_002", record second_button { dom_id = "" }) ∷ [] }

tier_fresh_search-unrelated_example :
    tier_fresh_search unicode lone_index none (first_request "quite-another-id")
    ≡ some
        (hit fresh_dom_ax_search (record second_button { dom_id = "" }) " via fresh DOM/AX search")
unfolding is_blank is_whitespace find_all is_live Store.is_stale is_stale_for_frame Map.get
    Store.check_interactable
tier_fresh_search-unrelated_example =
    tier_fresh_search-unrelated unicode lone_index none (first_request "quite-another-id")
      (record second_button { dom_id = "" }) "quite-another-id" [] refl refl refl refl
