-- ===== src/Recovery/Total.antt =====
-- src/browser_runtime/recovery.rs: a recovery returns.
pub mod Tiers
use mathlib.Core.Option
use mathlib.Core.Path.{subst}
use Prim.Native.String.{len}
use hyprfast.Base.{
  ◌≤◌, String, ◌≡◌, refl, Bool, true, false, Option, none, some, List, [], ◌∷◌, arith, Bool-cases,
  inl, inr, ◌>>=◌,
}
use hyprfast.Base.Text.{Unicode, join}
use hyprfast.Json.{Json}
use hyprfast.Elements.{ElementRef, ElementIndex, ResolveRequest}
use hyprfast.Elements.Resolve.{opt_truncate}
use hyprfast.Elements.Resolve.Total.{IsShort, Returns, opt_truncate-short}
use hyprfast.Recovery.{
  RecoveryTier, TierAttempt, RecoveryOptions, RecoveryOutcome, RecoveryResult, ladder, existing_ref,
  cached_backend_node, css_selector, dom_id_name, ax_role_name, semantic_text, fresh_dom_ax_search,
  frame_shadow_traversal, ambiguity_resolution, vision_fallback,
}
use hyprfast.Recovery.Search.{text_of, identity}
use hyprfast.Recovery.Ladder.{Progress, start, run_tier, step, climb, take_note, is_decided}
use hyprfast.Recovery.Outcome.{
  sanitize_req, undecided, decide, outcome_of, recover, vision_request, materialized,
}
use hyprfast.Recovery.Total.Tiers.{
  tier_existing_ref-Returns, tier_cached_backend-Returns, tier_css_selector-Returns,
  tier_dom_id_name-Returns, tier_ax_role_name-Returns, tier_semantic_text-Returns,
  tier_fresh_search-Returns, tier_frame_shadow-Returns,
}

module _ (u : Unicode) (ix : ElementIndex) (old : Option ElementRef) (req : ResolveRequest)
    (opts : RecoveryOptions)
    (short : len (text_of u ix old req req.text (λ r. r.text_content)) ≤ 60)
    (brief : len (join "|" (identity u ix old req)) ≤ 120) where
  noted-Returns :
      (p : Progress) (o : Option TierAttempt) → Returns o → Returns (Option.map (take_note p) o)
  noted-Returns p o (a, e) = rw e (take_note p a, refl)

  run_tier-Returns : (t : RecoveryTier) (p : Progress) → Returns (run_tier u ix old req opts t p)
  unfolding run_tier
  run_tier-Returns existing_ref p = noted-Returns p _ (tier_existing_ref-Returns u ix old req)
  run_tier-Returns cached_backend_node p =
      noted-Returns p _ (tier_cached_backend-Returns u ix old req)
  run_tier-Returns css_selector p = noted-Returns p _ (tier_css_selector-Returns u ix old req)
  run_tier-Returns dom_id_name p = noted-Returns p _ (tier_dom_id_name-Returns u ix old req)
  run_tier-Returns ax_role_name p = noted-Returns p _ (tier_ax_role_name-Returns u ix old req)
  run_tier-Returns semantic_text p =
      noted-Returns p _ (tier_semantic_text-Returns u ix old req short)
  run_tier-Returns fresh_dom_ax_search p =
      noted-Returns p _ (tier_fresh_search-Returns u ix old req brief)
  run_tier-Returns frame_shadow_traversal p =
      noted-Returns p _ (tier_frame_shadow-Returns u ix old req opts short)
  run_tier-Returns ambiguity_resolution p = (_, refl)
  run_tier-Returns vision_fallback p = (_, refl)

  step-Returns : (t : RecoveryTier) (p : Progress) → Returns (step u ix old req opts t p)
  unfolding step
  step-Returns t p = elim (Bool-cases (is_decided p)) [
    | inl e ↦ rw e (_, refl)
    | inr e ↦ rw e (run_tier-Returns t p)
  ]

  climb-Returns : (ts : List RecoveryTier) (p : Progress) → Returns (climb u ix old req opts ts p)
  unfolding climb
  climb-Returns [] p = (p, refl)
  climb-Returns (t ∷ ts) p = let (q, e) = step-Returns t p in rw e (climb-Returns ts q)

module _ {V : Type 0} (J : Json V) (u : Unicode) (ix : ElementIndex) (req : ResolveRequest)
    (h : IsShort req.selector) (k : IsShort req.text) where
  undecided-Returns :
      (last : String) (v : Option TierAttempt) → Returns (undecided J u ix req last v)
  unfolding sanitize_req
  undecided-Returns last (some v) = (_, refl)
  undecided-Returns last none =
      rw (opt_truncate-short J req.selector h, opt_truncate-short J req.text k) (_, refl)

  decide-Returns :
      (d : Option (List String × String)) (r : Option ElementRef) (o : Option RecoveryOutcome)
      → Returns o
      → Returns (decide d r o)
  decide-Returns (some d) r o h = (_, refl)
  decide-Returns none (some r) o h = (_, refl)
  decide-Returns none none o h = h

  outcome_of-Returns : (p : Progress) → Returns (outcome_of J u ix req p)
  unfolding outcome_of
  outcome_of-Returns p =
      decide-Returns p.doubt (materialized ix p.found) _
        (undecided-Returns p.last_miss_detail (vision_request p.trace))

-- A recovery does not panic if the selector and the text of the request are at most 80 bytes long,
-- the text to search for is at most 60, and the identity that is searched for, its fields joined
-- by bars, at most 120.
pub recover-Returns :
    {V : Type 0} (J : Json V) (u : Unicode) (ix : ElementIndex) (req : ResolveRequest)
    (old : Option ElementRef) (opts : RecoveryOptions)
    → IsShort req.selector
    → IsShort req.text
    → len (text_of u ix old req req.text (λ r. r.text_content)) ≤ 60
    → len (join "|" (identity u ix old req)) ≤ 120
    → Returns (recover J u ix req old opts)
unfolding recover
recover-Returns J u ix req old opts h k short brief =
    let (q, e) = climb-Returns u ix old req opts short brief ladder start in
    let (o, e') = outcome_of-Returns J u ix req h k q in rw (e, e') (_, refl)
