-- ===== src/Recovery/Outcome.antt =====
-- src/browser_runtime/recovery.rs: the outcome of a climb of the whole ladder.
use mathlib.Core.Option.{or_else}
use hyprfast.Base.{
  String, ◌<>◌, Bool, true, false, Option, none, some, List, [], ◌∷◌, if◌then◌else◌, ◌>>=◌,
}
use hyprfast.Base.Text.{Unicode}
use hyprfast.Json.{Json}
use hyprfast.Elements.{ElementRef, ElementIndex, ResolveRequest}
use hyprfast.Elements.Store.{get}
use hyprfast.Elements.Resolve.{opt_str, opt_int, opt_truncate}
use hyprfast.Recovery.{
  TierAttempt, TierStatus, RecoveryTier, RecoveryOptions, RecoveryOutcome, RecoveryResult,
  vision_fallback, vision_required, ladder, recovered, several, resolution_failed, needs_vision,
}
use hyprfast.Recovery.Ladder.{Progress, start, climb}

-- The attempt of the vision tier that asks for vision.
abbrev pub asks_for_vision : RecoveryTier → TierStatus → Bool
asks_for_vision vision_fallback vision_required = true
asks_for_vision _ _ = false

unfoldable pub vision_request : List TierAttempt → Option TierAttempt
vision_request [] = none
vision_request (a ∷ trace) =
    let rest = vision_request trace in if asks_for_vision a.tier a.status then some a else rest

-- The reference of the index, or else the placeholder.
unfoldable pub materialized : ElementIndex → Option ElementRef → Option ElementRef
materialized ix none = none
materialized ix (some r) = or_else (get ix r.id) (some r)

abbrev pub decide :
    Option (List String × String)
    → Option ElementRef
    → Option RecoveryOutcome
    → Option RecoveryOutcome
decide (some (candidates, detail)) r otherwise = some (several candidates detail)
decide none (some r) otherwise = some (recovered r)
decide none none otherwise = otherwise

module _ {V : Type 0} (J : Json V) (u : Unicode) (ix : ElementIndex) (req : ResolveRequest) where
  unfoldable pub sanitize_req : Option V
  sanitize_req = do
    selector ← opt_truncate J req.selector
    text ← opt_truncate J req.text
    some (
        J.obj (
          ("ref", opt_str J req.ref_id)
          ∷ ("backend", opt_int J req.backend_node_id)
          ∷ ("selector", opt_str J selector)
          ∷ ("dom_id", opt_str J req.dom_id)
          ∷ ("role", opt_str J req.role)
          ∷ ("name", opt_str J req.name)
          ∷ ("text", opt_str J text)
          ∷ ("tag", opt_str J req.tag_name)
          ∷ []))

  -- What is left when no tier has decided.
  abbrev pub undecided : String → Option TierAttempt → Option RecoveryOutcome
  undecided last_miss (some v) = some (needs_vision v.detail)
  undecided last_miss none = do
    log ← sanitize_req
    some (
        resolution_failed (
          "recovery ladder exhausted — no element matches request "
          <> J.debug log
          <> " (last: "
          <> last_miss
          <> ")"))

  unfoldable pub outcome_of : Progress → Option RecoveryOutcome
  unfolding materialized vision_request sanitize_req
  outcome_of p =
      decide p.doubt (materialized ix p.found)
        (undecided p.last_miss_detail (vision_request p.trace))

  unfoldable pub recover : Option ElementRef → RecoveryOptions → Option RecoveryResult
  unfolding outcome_of climb
  recover old opts = do
    p ← climb u ix old req opts ladder start
    outcome ← outcome_of p
    some (record { outcome = outcome; trace = p.trace })
