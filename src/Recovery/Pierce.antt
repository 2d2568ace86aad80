-- ===== src/Recovery/Pierce.antt =====
-- src/browser_runtime/recovery.rs: the traversal of all frames and shadow roots, and the vision
-- tier, which comes last.
use hyprfast.Base.{
  String, ◌<>◌, Bool, true, false, not, ◌&&◌, ◌||◌, Option, none, some, List, [], ◌==◌, string_eq,
  if◌then◌else◌, keep,
}
use hyprfast.Base.Text.{Unicode, is_blank, is_empty}
use hyprfast.Error.{RuntimeResult, ok, err}
use hyprfast.Elements.{ElementRef, ElementIndex, ResolveRequest}
use hyprfast.Elements.Selector.{validate_selector}
use hyprfast.Elements.Query.{find_all_piercing, mentions}
use hyprfast.Recovery.{
  TierAttempt, RecoveryOptions, frame_shadow_traversal, vision_fallback, vision_required,
  vision_skipped, attempt,
}
use hyprfast.Recovery.Tiers.{live, skip, missed, judge, count}
use hyprfast.Recovery.Search.{text_of, cut}

module _ (u : Unicode) (ix : ElementIndex) (old : Option ElementRef) (req : ResolveRequest) where
  abbrev pub all_live : List ElementRef
  all_live = live ix (find_all_piercing ix)

  abbrev pub is_none : Option String → Bool
  is_none none = true
  is_none (some s) = false

  -- Nothing was found: the note is the same whatever the option says, but for one word.
  abbrev pub nowhere : RecoveryOptions → Option TierAttempt
  nowhere opts = missed frame_shadow_traversal (
      "frame/shadow traversal miss after "
      <> (if opts.pierce_shadow then "pierce=true" else "pierce=true (default)")
      <> " — no live element matches selector/id/text cross-frame")

  abbrev pub with_text : String → List ElementRef
  with_text text = keep (mentions u (u.to_lowercase text)) all_live

  abbrev pub by_text : String → Option TierAttempt → Option TierAttempt
  by_text text next =
      if is_blank text
      then next
      else judge frame_shadow_traversal " via frame/shadow text" next
          (cut u ix old req text 60 "frame/shadow text "
            (" ambiguous (" <> count (with_text text) <> " candidates)"))
          (with_text text)

  abbrev pub with_dom_id : String → List ElementRef
  with_dom_id dom_id = keep (λ r. r.dom_id == dom_id) all_live

  abbrev pub by_dom_id : String → Option TierAttempt → Option TierAttempt
  by_dom_id dom_id next =
      if is_empty dom_id
      then next
      else judge frame_shadow_traversal " via frame/shadow dom_id" next
          (some (
            "frame/shadow dom_id "
            <> u.debug dom_id
            <> " ambiguous ("
            <> count (with_dom_id dom_id)
            <> " candidates)"))
          (with_dom_id dom_id)

  abbrev pub with_selector : String → List ElementRef
  with_selector selector = keep (λ r. r.selector == selector) all_live

  abbrev pub validated : String → Option TierAttempt → RuntimeResult (Unit {0}) → Option TierAttempt
  validated selector next (err e) = next
  validated selector next (ok _) =
      judge frame_shadow_traversal " via frame/shadow selector pierce" next
        (some (
          "frame/shadow selector "
          <> u.debug selector
          <> " ambiguous ("
          <> count (with_selector selector)
          <> " candidates)"))
        (with_selector selector)

  abbrev pub by_selector : String → Option TierAttempt → Option TierAttempt
  by_selector selector next =
      if is_empty selector || selector == "*"
      then next
      else validated selector next (validate_selector selector)

  unfoldable pub pierced : String → String → String → RecoveryOptions → Option TierAttempt
  pierced selector dom_id text opts =
      if is_empty selector && is_empty dom_id && is_blank text && is_none req.role
      then skip frame_shadow_traversal "no identity for frame/shadow traversal"
      else by_selector selector (by_dom_id dom_id (by_text text (nowhere opts)))

  unfoldable pub tier_frame_shadow : RecoveryOptions → Option TierAttempt
  tier_frame_shadow =
      pierced (text_of u ix old req req.selector (λ r. r.selector))
        (text_of u ix old req req.dom_id (λ r. r.dom_id))
        (text_of u ix old req req.text (λ r. r.text_content))

unfoldable pub tier_vision : RecoveryOptions → TierAttempt
tier_vision opts =
    if not opts.allow_vision
    then attempt vision_fallback vision_skipped
        "vision fallback skipped — allow_vision=false (deterministic tiers exhausted; vision is last-resort only)"
        []
    else if not opts.is_visual_context
    then attempt vision_fallback vision_skipped
        "vision fallback skipped — is_visual_context=false (canvas/WebGL/PDF/visual-only control not applicable; normal HTML never invokes vision)"
        []
    else attempt vision_fallback vision_required
        "vision fallback applicable — deterministic DOM+AX+frame/shadow tiers exhausted, visual target requires screenshot/vision (canvas/WebGL/PDF)"
        []
