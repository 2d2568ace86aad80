-- ===== src/Recovery/Sound.antt =====
-- src/browser_runtime/recovery.rs: what the ladder has found is in the index, over the whole climb.
use mathlib.Core.Option
use mathlib.Core.Path.{subst}
use text.Mathlib.TextLemmas.{append_assoc}
use hyprfast.Base.{
  ◌≤◌, String, ◌<>◌, ◌≡◌, refl, sym, Option, none, some, List, [], ◌∷◌, arith, All, In, length,
  Bool-cases, inl, inr, >>=-eq-some,
}
use hyprfast.Base.Map.{values}
use hyprfast.Base.Text.{Unicode}
use hyprfast.Base.Text.Words.{IsWord, IsAfter, strip_prefix-append, first_word-append}
use hyprfast.Elements.{ElementRef, ElementIndex, ResolveRequest}
use hyprfast.Elements.Resolve.{ids}
use hyprfast.Recovery.{
  RecoveryTier, TierAttempt, TierStatus, RecoveryOptions, existing_ref, cached_backend_node,
  css_selector, dom_id_name, ax_role_name, semantic_text, fresh_dom_ax_search,
  frame_shadow_traversal, ambiguity_resolution, vision_fallback, miss, ambiguous, attempt,
  skipped_missing_input, error,
}
use hyprfast.Recovery.Tiers.{hit}
use hyprfast.Recovery.Honest.{
  IsHere, IsIdle, Honest, panicked, idle, single, several, tier_existing_ref-Honest,
  tier_cached_backend-Honest, tier_css_selector-Honest,
}
use hyprfast.Recovery.Honest.Searches.{
  tier_dom_id_name-Honest, tier_ax_role_name-Honest, tier_semantic_text-Honest,
  tier_fresh_search-Honest,
}
use hyprfast.Recovery.Honest.Pierced.{tier_frame_shadow-Honest}
use hyprfast.Recovery.Ladder.{
  Progress, placeholder, attempt_success, attempt_ambiguous, take_note, is_decided, run_tier, step,
  climb,
}

-- The ids by which the index knows its elements are words, as `e_001` is.
abbrev pub HasWords : ElementIndex → Type 0
HasWords ix = All (λ r. IsWord r.id) (values ix.elements)

-- The element that the loop has found, by its placeholder, is live.
abbrev pub IsFound : ElementIndex → Option ElementRef → Type 0
IsFound ix none = Unit {0}
IsFound ix (some p) = (r : ElementRef) × IsHere ix r × (p ≡ placeholder r.id)

-- The candidates between which the loop cannot choose are the ids of several live elements.
abbrev pub AreLive : ElementIndex → List String → Type 0
AreLive ix cs = (rs : List ElementRef) × (2 ≤ length rs) × All (IsHere ix) rs × (cs ≡ ids rs)

abbrev pub IsDoubt : ElementIndex → Option (List String × String) → Type 0
IsDoubt ix none = Unit {0}
IsDoubt ix (some (cs, d)) = AreLive ix cs

abbrev pub IsSound : ElementIndex → Progress → Type 0
IsSound ix p = IsFound ix p.found × IsDoubt ix p.doubt

All-at : {A : Type 0} (P : A → Type 0) (xs : List A) (x : A) → All P xs → In x xs → P x
All-at P [] x h m = absurd m
All-at P (y ∷ xs) x h (inl e) = subst P (sym e) h.0
All-at P (y ∷ xs) x h (inr m) = All-at P xs x h.1 m

-- The id is read back from the detail of a success.
attempt_success-hit :
    (t : RecoveryTier) (r : ElementRef) (suffix : String)
    → IsWord r.id
    → IsAfter suffix
    → attempt_success (hit t r suffix) ≡ some (placeholder r.id)
unfolding attempt_success
attempt_success-hit t r suffix w a = rw (append_assoc "__RECOVERED__:" r.id suffix) (
    rw (strip_prefix-append "__RECOVERED__:" (r.id <> suffix))
      (rw (first_word-append r.id suffix w a)))

module _ (ix : ElementIndex) (words : HasWords ix) where
  abbrev Keeps : Option Progress → Type 0
  Keeps none = Unit {0}
  Keeps (some p) = IsSound ix p

  take_idle :
      (t : RecoveryTier) (s : TierStatus) (d : String) (p : Progress)
      → IsIdle s
      → IsSound ix p
      → IsSound ix (take_note p (attempt t s d []))
  unfolding take_note attempt_success attempt_ambiguous
  take_idle t miss d p i h = h
  take_idle t skipped_missing_input d p i h = h
  take_idle t error d p i h = h
  take_idle t _ d p i h = absurd i

  take_single :
      (t : RecoveryTier) (r : ElementRef) (suffix : String) (p : Progress)
      → IsHere ix r
      → IsAfter suffix
      → IsSound ix p
      → IsSound ix (take_note p (hit t r suffix))
  unfolding take_note
  take_single t r suffix p here a h =
      rw
        (attempt_success-hit t r suffix
          (All-at (λ q. IsWord q.id) (values ix.elements) r words here.0) a)
        ((r, here, refl), h.1)

  take_several :
      (t : RecoveryTier) (d : String) (r s : ElementRef) (rest : List ElementRef) (p : Progress)
      → All (IsHere ix) (r ∷ s ∷ rest)
      → IsSound ix p
      → IsSound ix (take_note p (attempt t ambiguous d (ids (r ∷ s ∷ rest))))
  unfolding take_note attempt_success attempt_ambiguous
  take_several t d r s rest p here h = (h.0, (r ∷ s ∷ rest, omega arith, here, refl))

  take_note-Keeps :
      (t : RecoveryTier) (p : Progress) {o : Option TierAttempt}
      → Honest ix t o
      → IsSound ix p
      → Keeps (Option.map (take_note p) o)
  take_note-Keeps t p panicked h = tt
  take_note-Keeps t p (idle s d i) h = take_idle t s d p i h
  take_note-Keeps t p (single r suffix here a) h = take_single t r suffix p here a h
  take_note-Keeps t p (several d r s rest here) h = take_several t d r s rest p here h

  module _ (u : Unicode) (old : Option ElementRef) (req : ResolveRequest)
      (opts : RecoveryOptions) where
    run_tier-Keeps :
        (t : RecoveryTier) (p : Progress) → IsSound ix p → Keeps (run_tier u ix old req opts t p)
    unfolding run_tier
    run_tier-Keeps existing_ref p h =
        take_note-Keeps existing_ref p (tier_existing_ref-Honest u ix old req) h
    run_tier-Keeps cached_backend_node p h =
        take_note-Keeps cached_backend_node p (tier_cached_backend-Honest u ix old req) h
    run_tier-Keeps css_selector p h =
        take_note-Keeps css_selector p (tier_css_selector-Honest u ix old req) h
    run_tier-Keeps dom_id_name p h =
        take_note-Keeps dom_id_name p (tier_dom_id_name-Honest u ix old req) h
    run_tier-Keeps ax_role_name p h =
        take_note-Keeps ax_role_name p (tier_ax_role_name-Honest u ix old req) h
    run_tier-Keeps semantic_text p h =
        take_note-Keeps semantic_text p (tier_semantic_text-Honest u ix old req) h
    run_tier-Keeps fresh_dom_ax_search p h =
        take_note-Keeps fresh_dom_ax_search p (tier_fresh_search-Honest u ix old req) h
    run_tier-Keeps frame_shadow_traversal p h =
        take_note-Keeps frame_shadow_traversal p (tier_frame_shadow-Honest u ix old req opts) h
    run_tier-Keeps ambiguity_resolution p h = h
    run_tier-Keeps vision_fallback p h = h

    step-Keeps :
        (t : RecoveryTier) (p : Progress) → IsSound ix p → Keeps (step u ix old req opts t p)
    unfolding step
    step-Keeps t p h = elim (Bool-cases (is_decided p)) [
      | inl e ↦ rw e h
      | inr e ↦ rw e (run_tier-Keeps t p h)
    ]

    -- Whatever the ladder has found or cannot decide is live and stands in the index.
    pub climb-IsSound :
        (ts : List RecoveryTier) (p q : Progress)
        → IsSound ix p
        → climb u ix old req opts ts p ≡ some q
        → IsSound ix q
    unfolding climb
    climb-IsSound [] p q h e = subst Keeps e h
    climb-IsSound (t ∷ ts) p q h e =
        let (r, e1, e2) = >>=-eq-some (step u ix old req opts t p) _ e in
        climb-IsSound ts r q (subst Keeps e1 (step-Keeps t p h)) e2
