-- ===== src/Recovery.antt =====
-- src/browser_runtime/recovery.rs: the ladder by which a stale reference is found again. Here the
-- tiers, their order, and the record of an attempt; the children hold the tiers' searches and the
-- loop over the ladder.
pub mod Tiers
pub mod Search
pub mod Pierce
pub mod Honest
pub mod Ladder
pub mod Outcome
pub mod Trace
pub mod Sound
pub mod Fresh
pub mod Explained
pub mod Total
use hyprfast.Base.{ℕ, String, Bool, List, [], ◌∷◌}
use hyprfast.Elements.{ElementRef}

pub data RecoveryTier : Type 0 where
  existing_ref cached_backend_node css_selector dom_id_name ax_role_name : RecoveryTier
  semantic_text fresh_dom_ax_search frame_shadow_traversal : RecoveryTier
  ambiguity_resolution vision_fallback : RecoveryTier

unfoldable pub name : RecoveryTier → String
name existing_ref = "ExistingRef"
name cached_backend_node = "CachedBackendNode"
name css_selector = "CssSelector"
name dom_id_name = "DomIdName"
name ax_role_name = "AxRoleName"
name semantic_text = "SemanticText"
name fresh_dom_ax_search = "FreshDomAxSearch"
name frame_shadow_traversal = "FrameShadowTraversal"
name ambiguity_resolution = "AmbiguityResolution"
name vision_fallback = "VisionFallback"

unfoldable pub order : RecoveryTier → ℕ
order existing_ref = 0
order cached_backend_node = 1
order css_selector = 2
order dom_id_name = 3
order ax_role_name = 4
order semantic_text = 5
order fresh_dom_ax_search = 6
order frame_shadow_traversal = 7
order ambiguity_resolution = 8
order vision_fallback = 9

abbrev pub ladder : List RecoveryTier
ladder =
    existing_ref ∷ cached_backend_node ∷ css_selector ∷ dom_id_name ∷ ax_role_name ∷ semantic_text
    ∷ fresh_dom_ax_search ∷ frame_shadow_traversal ∷ ambiguity_resolution ∷ vision_fallback ∷ []

pub data TierStatus : Type 0 where
  success miss ambiguous skipped_missing_input skipped_not_applicable : TierStatus
  skipped_due_to_earlier_success error vision_required vision_skipped : TierStatus

unfoldable pub label : TierStatus → String
label success = "Success"
label miss = "Miss"
label ambiguous = "Ambiguous"
label skipped_missing_input = "SkippedMissingInput"
label skipped_not_applicable = "SkippedNotApplicable"
label skipped_due_to_earlier_success = "SkippedDueToEarlierSuccess"
label error = "Error"
label vision_required = "VisionRequired"
label vision_skipped = "VisionSkipped"

pub record TierAttempt : Type 0 where
  pub tier : RecoveryTier
  pub tier_name : String
  pub order : ℕ
  pub status : TierStatus
  pub status_label : String
  pub detail : String
  pub candidates : List String

-- `TierAttempt::new`
abbrev pub attempt : RecoveryTier → TierStatus → String → List String → TierAttempt
attempt t s detail candidates = record {
  tier = t;
  tier_name = name t;
  order = order t;
  status = s;
  status_label = label s;
  detail = detail;
  candidates = candidates;
}

pub data RecoveryOutcome : Type 0 where
  recovered : ElementRef → RecoveryOutcome
  several : List String → String → RecoveryOutcome
  resolution_failed : String → RecoveryOutcome
  needs_vision : String → RecoveryOutcome

pub record RecoveryResult : Type 0 where
  pub outcome : RecoveryOutcome
  pub trace : List TierAttempt

unfoldable pub is_recovered : RecoveryResult → Bool
is_recovered r = elim r.outcome [ recovered _ ↦ Bool.true | _ ↦ Bool.false ]

pub record RecoveryOptions : Type 0 where
  pub allow_vision : Bool
  pub is_visual_context : Bool
  pub pierce_shadow : Bool
