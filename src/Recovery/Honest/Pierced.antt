-- ===== src/Recovery/Honest/Pierced.antt =====
-- src/browser_runtime/recovery.rs: the traversal across frames reports what it found, and no more.
use hyprfast.Base.{◌&&◌, String, refl, ◌||◌, Option, All, inr, ◌==◌, string_eq}
use hyprfast.Base.Text.{Unicode, is_empty, is_blank}
use hyprfast.Error.{RuntimeResult, ok, err}
use hyprfast.Elements.{ElementRef, ElementIndex, ResolveRequest}
use hyprfast.Elements.Selector.{validate_selector}
use hyprfast.Elements.Query.Laws.{find_all_piercing-IsStored}
use hyprfast.Recovery.{TierAttempt, RecoveryOptions, frame_shadow_traversal}
use hyprfast.Recovery.Pierce.{
  pierced, is_none, by_text, by_dom_id, validated, by_selector, all_live, tier_frame_shadow,
}
use hyprfast.Recovery.Honest.{
  IsHere, Honest, judge-Honest, missed-Honest, skip-Honest, if-Honest, keep-IsHere, live-IsHere,
}

module _ (u : Unicode) (ix : ElementIndex) (old : Option ElementRef) (req : ResolveRequest) where
  abbrev H : Option TierAttempt → Type 0
  H = Honest ix frame_shadow_traversal

  all_live-IsHere : All (IsHere ix) (all_live u ix old req)
  all_live-IsHere = live-IsHere ix _ (find_all_piercing-IsStored ix)

  by_text-Honest :
      (t : String) (next : Option TierAttempt) → H next → H (by_text u ix old req t next)
  by_text-Honest t next h = if-Honest ix frame_shadow_traversal (is_blank t) _ _ h (
      judge-Honest ix frame_shadow_traversal _ _ _ _ (inr ("via frame/shadow text", refl)) h
        (keep-IsHere ix _ _ all_live-IsHere))

  by_dom_id-Honest :
      (d : String) (next : Option TierAttempt) → H next → H (by_dom_id u ix old req d next)
  by_dom_id-Honest d next h = if-Honest ix frame_shadow_traversal (is_empty d) _ _ h (
      judge-Honest ix frame_shadow_traversal _ _ _ _ (inr ("via frame/shadow dom_id", refl)) h
        (keep-IsHere ix _ _ all_live-IsHere))

  validated-Honest :
      (s : String) (next : Option TierAttempt) (res : RuntimeResult (Unit {0}))
      → H next
      → H (validated u ix old req s next res)
  validated-Honest s next (err e) h = h
  validated-Honest s next (ok x) h =
      judge-Honest ix frame_shadow_traversal _ _ _ _
        (inr ("via frame/shadow selector pierce", refl)) h (keep-IsHere ix _ _ all_live-IsHere)

  by_selector-Honest :
      (s : String) (next : Option TierAttempt) → H next → H (by_selector u ix old req s next)
  by_selector-Honest s next h =
      if-Honest ix frame_shadow_traversal (is_empty s || s == "*") _ _ h
        (validated-Honest s next (validate_selector s) h)

  pierced-Honest : (s d t : String) (opts : RecoveryOptions) → H (pierced u ix old req s d t opts)
  unfolding pierced
  pierced-Honest s d t opts =
      if-Honest ix frame_shadow_traversal
        (is_empty s && is_empty d && is_blank t && is_none u ix old req req.role) _ _
        (skip-Honest ix frame_shadow_traversal _)
        (by_selector-Honest s _
          (by_dom_id-Honest d _ (by_text-Honest t _ (missed-Honest ix frame_shadow_traversal _))))

  pub tier_frame_shadow-Honest : (opts : RecoveryOptions) → H (tier_frame_shadow u ix old req opts)
  unfolding tier_frame_shadow
  tier_frame_shadow-Honest opts = pierced-Honest _ _ _ opts
