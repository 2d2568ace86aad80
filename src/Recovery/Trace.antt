-- ===== src/Recovery/Trace.antt =====
-- src/browser_runtime/recovery.rs: the trace records every tier, in the order of the ladder.
use mathlib.Core.List.{append-nil, append_assoc, map-append}
use mathlib.Core.Option
use mathlib.Core.Path.{subst}
use hyprfast.Base.{
  String, ◌≡◌, refl, sym, ap, Option, none, some, List, [], ◌∷◌, ◌++◌, map, arith, Bool-cases, inl,
  inr, >>=-eq-some,
}
use hyprfast.Base.Text.{Unicode}
use hyprfast.Json.{Json}
use hyprfast.Elements.{ElementRef, ElementIndex, ResolveRequest}
use hyprfast.Recovery.{
  RecoveryTier, TierAttempt, RecoveryOptions, RecoveryResult, ladder, existing_ref,
  cached_backend_node, css_selector, dom_id_name, ax_role_name, semantic_text, fresh_dom_ax_search,
  frame_shadow_traversal, ambiguity_resolution, vision_fallback, attempt,
}
use hyprfast.Recovery.Honest.{
  Honest, panicked, idle, single, several, tier_existing_ref-Honest, tier_cached_backend-Honest,
  tier_css_selector-Honest,
}
use hyprfast.Recovery.Honest.Searches.{
  tier_dom_id_name-Honest, tier_ax_role_name-Honest, tier_semantic_text-Honest,
  tier_fresh_search-Honest,
}
use hyprfast.Recovery.Honest.Pierced.{tier_frame_shadow-Honest}
use hyprfast.Recovery.Pierce.{tier_vision}
use hyprfast.Recovery.Ladder.{
  Progress, start, run_tier, step, climb, take_note, noted, is_decided, attempt_success,
  attempt_ambiguous,
}
use hyprfast.Recovery.Outcome.{recover, outcome_of}

-- A step that does not panic adds one attempt to the trace, which is of its tier.
abbrev pub Adds : RecoveryTier → Progress → Option Progress → Type 0
Adds t p none = Unit {0}
Adds t p (some q) = (a : TierAttempt) × (q.trace ≡ p.trace ++ (a ∷ [])) × (a.tier ≡ t)

trace-noted :
    (a : TierAttempt) (r : Option ElementRef) (d : Option (List String × String)) (p : Progress)
    → (noted a r d p).trace ≡ p.trace
trace-noted a (some r) d p = refl
trace-noted a none (some d) p = refl
trace-noted a none none p = refl

trace-take_note : (p : Progress) (a : TierAttempt) → (take_note p a).trace ≡ p.trace ++ (a ∷ [])
unfolding take_note
trace-take_note p a =
    ap (λ l. l ++ (a ∷ [])) (trace-noted a (attempt_success a) (attempt_ambiguous a) p)

take_note-Adds :
    (ix : ElementIndex) (t : RecoveryTier) (p : Progress) {o : Option TierAttempt}
    → Honest ix t o
    → Adds t p (Option.map (take_note p) o)
take_note-Adds ix t p panicked = tt
take_note-Adds ix t p (idle s d i) = (attempt t s d [], trace-take_note p _, refl)
take_note-Adds ix t p (single r suffix here a) = (_, trace-take_note p _, refl)
take_note-Adds ix t p (several d r s rest here) = (_, trace-take_note p _, refl)

abbrev tiers : Progress → List RecoveryTier
tiers p = map (λ a. a.tier) p.trace

abbrev After : Progress → List RecoveryTier → Option Progress → Type 0
After p ts none = Unit {0}
After p ts (some q) = tiers q ≡ tiers p ++ ts

abbrev Whole : Option RecoveryResult → Type 0
Whole none = Unit {0}
Whole (some res) = map (λ a. a.tier) res.trace ≡ ladder

module _ (u : Unicode) (ix : ElementIndex) (old : Option ElementRef) (req : ResolveRequest)
    (opts : RecoveryOptions) where
  run_tier-Adds : (t : RecoveryTier) (p : Progress) → Adds t p (run_tier u ix old req opts t p)
  unfolding run_tier tier_vision
  run_tier-Adds existing_ref p =
      take_note-Adds ix existing_ref p (tier_existing_ref-Honest u ix old req)
  run_tier-Adds cached_backend_node p =
      take_note-Adds ix cached_backend_node p (tier_cached_backend-Honest u ix old req)
  run_tier-Adds css_selector p =
      take_note-Adds ix css_selector p (tier_css_selector-Honest u ix old req)
  run_tier-Adds dom_id_name p =
      take_note-Adds ix dom_id_name p (tier_dom_id_name-Honest u ix old req)
  run_tier-Adds ax_role_name p =
      take_note-Adds ix ax_role_name p (tier_ax_role_name-Honest u ix old req)
  run_tier-Adds semantic_text p =
      take_note-Adds ix semantic_text p (tier_semantic_text-Honest u ix old req)
  run_tier-Adds fresh_dom_ax_search p =
      take_note-Adds ix fresh_dom_ax_search p (tier_fresh_search-Honest u ix old req)
  run_tier-Adds frame_shadow_traversal p =
      take_note-Adds ix frame_shadow_traversal p (tier_frame_shadow-Honest u ix old req opts)
  run_tier-Adds ambiguity_resolution p = (_, refl, refl)
  run_tier-Adds vision_fallback p = (tier_vision opts, refl, ground arith)

  pub step-Adds : (t : RecoveryTier) (p : Progress) → Adds t p (step u ix old req opts t p)
  unfolding step
  step-Adds t p = elim (Bool-cases (is_decided p)) [
    | inl e ↦ rw e (_, refl, refl)
    | inr e ↦ rw e (run_tier-Adds t p)
  ]

  climb_trace :
      (ts : List RecoveryTier) (p q : Progress)
      → climb u ix old req opts ts p ≡ some q
      → tiers q ≡ tiers p ++ ts
  unfolding climb
  climb_trace [] p q h = subst (λ o. After p [] o) h (sym (append-nil (tiers p)))
  climb_trace (t ∷ ts) p q h =
      let (r, e1, e2) = >>=-eq-some (step u ix old req opts t p) _ h in
      let (a, e3, e4) = subst (Adds t p) e1 (step-Adds t p) in
      rw (climb_trace ts r q e2, e3, map-append (λ b. b.tier) p.trace (a ∷ []), e4)
        (append_assoc (tiers p) (t ∷ []) ts)

-- If a call of `recover` returns, its trace holds one attempt of each tier, in the order of the
-- ladder.
pub recover_trace :
    {V : Type 0} (J : Json V) (u : Unicode) (ix : ElementIndex) (req : ResolveRequest)
    (old : Option ElementRef) (opts : RecoveryOptions) (res : RecoveryResult)
    → recover J u ix req old opts ≡ some res
    → map (λ a. a.tier) res.trace ≡ ladder
unfolding recover
recover_trace J u ix req old opts res h =
    let (p, e1, e2) = >>=-eq-some (climb u ix old req opts ladder start) _ h in
    let (o, e3, e4) = >>=-eq-some (outcome_of J u ix req p) _ e2 in
    subst Whole e4 (climb_trace u ix old req opts ladder start p e1)
