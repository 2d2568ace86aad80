-- ===== src/Recovery/Ladder.antt =====
-- src/browser_runtime/recovery.rs: the loop over the ladder, and its outcome.
use mathlib.Core.Option
use hyprfast.Base.{
  String, ◌<>◌, Bool, true, false, ◌||◌, Option, none, some, List, [], ◌∷◌, ◌++◌, pos,
  if◌then◌else◌, ◌>>=◌,
}
use hyprfast.Base.Text.{Unicode, strip_prefix, first_word, is_some}
use hyprfast.Elements.{ElementRef, ElementIndex, ResolveRequest}
use hyprfast.Recovery.{
  RecoveryTier, TierAttempt, TierStatus, RecoveryOptions, existing_ref, cached_backend_node,
  css_selector, dom_id_name, ax_role_name, semantic_text, fresh_dom_ax_search,
  frame_shadow_traversal, ambiguity_resolution, vision_fallback, success, miss, ambiguous,
  skipped_due_to_earlier_success, attempt,
}
use hyprfast.Recovery.Tiers.{tier_existing_ref, tier_cached_backend, tier_css_selector}
use hyprfast.Recovery.Search.{
  tier_dom_id_name, tier_ax_role_name, tier_semantic_text, tier_fresh_search,
}
use hyprfast.Recovery.Pierce.{tier_frame_shadow, tier_vision}

-- The reference that stands for an id until the index is asked.
abbrev pub placeholder : String → ElementRef
placeholder id = record {
  id = id;
  backend_node_id = pos 0;
  node_id = pos 0;
  target_id = "";
  target_generation = 0;
  frame_id = "";
  frame_tree_version = 0;
  role = "";
  name = "";
  tag_name = "";
  dom_id = "";
  classes = [];
  selector = "";
  text_content = "";
  bounding_box = none;
  visible = true;
  enabled = true;
  dom_version_created = 0;
}

abbrev pub is_success : TierStatus → Bool
is_success success = true
is_success _ = false

abbrev is_ambiguous : TierStatus → Bool
is_ambiguous ambiguous = true
is_ambiguous _ = false

-- The id is read back from the detail.
unfoldable pub attempt_success : TierAttempt → Option ElementRef
attempt_success a =
    if is_success a.status
    then Option.map placeholder (strip_prefix "__RECOVERED__:" a.detail >>= first_word)
    else none

unfoldable pub attempt_ambiguous : TierAttempt → Option (List String × String)
attempt_ambiguous a = if is_ambiguous a.status then some (a.candidates, a.detail) else none

-- The variables of the loop.
pub record Progress : Type 0 where
  pub trace : List TierAttempt
  pub found : Option ElementRef
  pub doubt : Option (List String × String)
  pub last_miss_detail : String

abbrev pub start : Progress
start = record { trace = []; found = none; doubt = none; last_miss_detail = "" }

abbrev pub is_decided : Progress → Bool
is_decided p = is_some p.found || is_some p.doubt

abbrev pub push : TierAttempt → Progress → Progress
push a p = record p { trace = p.trace ++ (a ∷ []) }

abbrev pub noted :
    TierAttempt → Option ElementRef → Option (List String × String) → Progress → Progress
noted a (some r) d p = record p { found = some r }
noted a none (some d) p = record p { doubt = some d }
noted a none none p = record p { last_miss_detail = a.detail }

-- An attempt of a searching tier is judged, then recorded.
unfoldable pub take_note : Progress → TierAttempt → Progress
unfolding attempt_success attempt_ambiguous
take_note p a = push a (noted a (attempt_success a) (attempt_ambiguous a) p)

module _ (u : Unicode) (ix : ElementIndex) (old : Option ElementRef) (req : ResolveRequest)
    (opts : RecoveryOptions) where
  unfoldable pub run_tier : RecoveryTier → Progress → Option Progress
  unfolding take_note
  run_tier existing_ref p = Option.map (take_note p) (tier_existing_ref u ix old req)
  run_tier cached_backend_node p = Option.map (take_note p) (tier_cached_backend u ix old req)
  run_tier css_selector p = Option.map (take_note p) (tier_css_selector u ix old req)
  run_tier dom_id_name p = Option.map (take_note p) (tier_dom_id_name u ix old req)
  run_tier ax_role_name p = Option.map (take_note p) (tier_ax_role_name u ix old req)
  run_tier semantic_text p = Option.map (take_note p) (tier_semantic_text u ix old req)
  run_tier fresh_dom_ax_search p = Option.map (take_note p) (tier_fresh_search u ix old req)
  run_tier frame_shadow_traversal p = Option.map (take_note p) (tier_frame_shadow u ix old req opts)
  run_tier ambiguity_resolution p = some (
      push
        (attempt ambiguity_resolution miss
          ("explicit ResolutionFailed after ladder exhausted; last miss: " <> p.last_miss_detail)
          [])
        p)
  run_tier vision_fallback p = some (push (tier_vision opts) p)

  -- Once a tier has decided, the others are recorded as skipped.
  unfoldable pub step : RecoveryTier → Progress → Option Progress
  unfolding run_tier
  step t p =
      if is_decided p
      then some (
          push
            (attempt t skipped_due_to_earlier_success "skipped — earlier tier already decided" [])
            p)
      else run_tier t p

  unfoldable pub climb : List RecoveryTier → Progress → Option Progress
  unfolding step
  climb [] p = some p
  climb (t ∷ ts) p = step t p >>= climb ts
