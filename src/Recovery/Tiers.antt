-- ===== src/Recovery/Tiers.antt =====
-- src/browser_runtime/recovery.rs: the search of each tier. An attempt is `none` where the code
-- panics: a message cuts a text inside a character.
use mathlib.Core.Option.{or_else}
use mathlib.Core.Option
use hyprfast.Base.{
  String, ◌<>◌, Bool, true, false, not, ◌&&◌, ◌||◌, Option, none, some, List, [], ◌∷◌, ℤ, pos,
  int_beq, ◌==◌, string_eq, if◌then◌else◌, length, keep,
}
use hyprfast.Base.Text.{Unicode, decimal, decimal_ℤ, is_empty}
use hyprfast.Error.{RuntimeResult, ok, err, display}
use hyprfast.Frames.{frame_version}
use hyprfast.Elements.{ElementRef, ElementIndex, ResolveRequest}
use hyprfast.Elements.Selector.{validate_selector}
use hyprfast.Elements.Store.{check_interactable, get, get_by_backend, is_stale}
use hyprfast.Elements.Query.{find_by_selector}
use hyprfast.Elements.Resolve.{ids}
use hyprfast.Recovery.{
  RecoveryTier, TierAttempt, existing_ref, cached_backend_node, css_selector, success, miss,
  ambiguous, skipped_missing_input, error, attempt,
}

abbrev is_ok : {A : Type 0} → RuntimeResult A → Bool
is_ok (ok a) = true
is_ok (err e) = false

-- Neither stale nor out of reach.
unfoldable pub is_live : ElementIndex → ElementRef → Bool
is_live ix r = not (is_stale ix r) && is_ok (check_interactable r)

abbrev pub live : ElementIndex → List ElementRef → List ElementRef
live ix = keep (is_live ix)

-- `req.field.clone().or_else(|| old_ref.map(field))`
abbrev pub wanted : {A : Type 0} → Option A → Option ElementRef → (ElementRef → A) → Option A
wanted (some a) old field = some a
wanted none old field = Option.map field old

-- The attempt that found an element; its detail carries the id to the loop.
abbrev pub hit : RecoveryTier → ElementRef → String → TierAttempt
hit t r suffix = attempt t success (("__RECOVERED__:" <> r.id) <> suffix) (r.id ∷ [])

abbrev pub skip : RecoveryTier → String → Option TierAttempt
skip t detail = some (attempt t skipped_missing_input detail [])

abbrev pub missed : RecoveryTier → String → Option TierAttempt
missed t detail = some (attempt t miss detail [])

-- One live candidate is a success, several are ambiguous, and what none is the tier says.
unfoldable pub judge :
    RecoveryTier
    → String
    → Option TierAttempt
    → Option String
    → List ElementRef
    → Option TierAttempt
judge t suffix nobody detail [] = nobody
judge t suffix nobody detail (r ∷ []) = some (hit t r suffix)
judge t suffix nobody detail (r ∷ s ∷ rest) =
    Option.map (λ d. attempt t ambiguous d (ids (r ∷ s ∷ rest))) detail

abbrev pub count : List ElementRef → String
count rs = decimal (length rs)

module _ (u : Unicode) (ix : ElementIndex) (old : Option ElementRef) (req : ResolveRequest) where
  -- The two tiers that look one entry up: it has to be current and within reach.
  abbrev pub reach :
      RecoveryTier → String → ElementRef → RuntimeResult (Unit {0}) → Option TierAttempt
  reach t subject r (err e) = missed t (subject <> " not interactable: " <> display u e)
  reach t subject r (ok _) = some (hit t r "")

  abbrev pub use_ref : RecoveryTier → String → String → ElementRef → Option TierAttempt
  use_ref t subject stale r =
      if is_stale ix r then missed t stale else reach t subject r (check_interactable r)

  abbrev pub existing : String → Option ElementRef → Option TierAttempt
  existing id none =
      missed existing_ref ("ref " <> id <> " not found in index — stale, mutated, or detached")
  existing id (some r) =
      use_ref existing_ref ("ref " <> id)
        ("ref "
          <> id
          <> " exists but is stale (dom "
          <> decimal r.dom_version_created
          <> " vs "
          <> decimal ix.dom_version
          <> ", frame "
          <> decimal r.frame_tree_version
          <> " vs "
          <> decimal (frame_version ix.frame_manager r.frame_id)
          <> ")")
        r

  abbrev pub by_id : Option String → Option TierAttempt
  by_id none = skip existing_ref "no ref_id available for ExistingRef tier"
  by_id (some id) = existing id (get ix id)

  unfoldable pub tier_existing_ref : Option TierAttempt
  tier_existing_ref = by_id (wanted req.ref_id old (λ r. r.id))

  abbrev pub cached : ℤ → Option ElementRef → Option TierAttempt
  cached backend none = missed cached_backend_node (
      "backend "
      <> decimal_ℤ backend
      <> " not in cache — node detached or replaced (new backendNodeId)")
  cached backend (some r) =
      use_ref cached_backend_node ("backend " <> decimal_ℤ backend)
        ("backend "
          <> decimal_ℤ backend
          <> " cached entry stale (dom "
          <> decimal r.dom_version_created
          <> " vs "
          <> decimal ix.dom_version
          <> ")")
        r

  abbrev pub by_backend : Option ℤ → Option TierAttempt
  by_backend none = skip cached_backend_node "no backendNodeId available"
  by_backend (some backend) =
      if int_beq backend (pos 0)
      then skip cached_backend_node "backendNodeId is 0 — invalid"
      else cached backend (get_by_backend ix backend)

  unfoldable pub tier_cached_backend : Option TierAttempt
  tier_cached_backend = by_backend (wanted req.backend_node_id old (λ r. r.backend_node_id))

  abbrev pub validated : String → RuntimeResult (Unit {0}) → Option TierAttempt
  validated selector (err e) =
      some (attempt css_selector error ("invalid selector: " <> display u e) [])
  validated selector (ok _) =
      judge css_selector ""
        (missed css_selector
          ("selector " <> u.debug selector <> " matches 0 live elements (mutated or detached)"))
        (some (
          "selector "
          <> u.debug selector
          <> " ambiguous after recovery ("
          <> count (live ix (find_by_selector ix selector))
          <> " candidates) — never guess"))
        (live ix (find_by_selector ix selector))

  abbrev pub by_selector : String → Option TierAttempt
  by_selector selector =
      if is_empty selector || selector == "*"
      then skip css_selector ("selector " <> u.debug selector <> " too generic to be useful")
      else validated selector (validate_selector selector)

  abbrev pub selected : Option String → Option TierAttempt
  selected none = skip css_selector "no selector available"
  selected (some selector) = by_selector selector

  unfoldable pub tier_css_selector : Option TierAttempt
  tier_css_selector = selected (wanted req.selector old (λ r. r.selector))
