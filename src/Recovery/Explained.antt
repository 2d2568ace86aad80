-- ===== src/Recovery/Explained.antt =====
-- src/browser_runtime/recovery.rs: what the four outcomes of a recovery say about the index.
pub mod Blind
use mathlib.Core.Bool.{true≢false}
use mathlib.Core.Option.{or_else}
use mathlib.Core.Path.{subst}
use hyprfast.Base.{
  String, ◌≡◌, refl, sym, ap, Bool, true, false, ◌&&◌, ◌||◌, Option, none, some, List, [], ◌∷◌,
  ◌++◌, arith, ◌>>=◌, ◌∙◌, All, Bool-cases, inl, inr, >>=-eq-some, if◌then◌else◌,
}
use hyprfast.Base.Text.{Unicode, is_some}
use hyprfast.Json.{Json}
use hyprfast.Elements.{ElementRef, ElementIndex, ResolveRequest}
use hyprfast.Elements.Store.Consistent.{IsKeyed, get-IsKeyed}
use hyprfast.Recovery.{
  RecoveryTier, TierAttempt, TierStatus, RecoveryOptions, RecoveryOutcome, RecoveryResult, ladder,
  existing_ref, cached_backend_node, css_selector, dom_id_name, ax_role_name, semantic_text,
  fresh_dom_ax_search, frame_shadow_traversal, ambiguity_resolution, vision_fallback, recovered,
  several, resolution_failed, needs_vision,
}
use hyprfast.Recovery.Pierce.{tier_vision}
use hyprfast.Recovery.Ladder.{Progress, start, placeholder, run_tier, step, climb, is_decided}
use hyprfast.Recovery.Outcome.{
  asks_for_vision, vision_request, materialized, undecided, decide, outcome_of, recover,
  sanitize_req,
}
use hyprfast.Recovery.Honest.{IsHere}
use hyprfast.Recovery.Sound.{HasWords, IsFound, AreLive, IsDoubt, IsSound, climb-IsSound}
use hyprfast.Recovery.Trace.{Adds, step-Adds}
use hyprfast.Recovery.Explained.Blind.{IsBlind, vision_request-append, climb-IsBlind, start-IsBlind}

abbrev pub may_use_vision : RecoveryOptions → Bool
may_use_vision opts = opts.allow_vision && opts.is_visual_context

-- An element is current, within reach and in the index; candidates are several such elements;
-- vision is asked for only where it is allowed and the context is visual; a failure is reported
-- only where it is not.
abbrev pub IsExplained : ElementIndex → RecoveryOptions → RecoveryOutcome → Type 0
IsExplained ix opts (recovered r) = IsHere ix r
IsExplained ix opts (several candidates d) = AreLive ix candidates
IsExplained ix opts (needs_vision d) = may_use_vision opts ≡ true
IsExplained ix opts (resolution_failed d) = may_use_vision opts ≡ false

abbrev Explains : ElementIndex → RecoveryOptions → Option RecoveryOutcome → Type 0
Explains ix opts none = Unit {0}
Explains ix opts (some o) = IsExplained ix opts o

is_decided-none :
    (f : Option ElementRef) (d : Option (List String × String))
    → is_some f || is_some d ≡ false
    → (f ≡ none) × (d ≡ none)
is_decided-none none none h = (refl, refl)
is_decided-none (some r) d h = absurd (true≢false h)
is_decided-none none (some d) h = absurd (true≢false h)

module _ (ix : ElementIndex) (opts : RecoveryOptions) where
  materialized-IsHere :
      (r : ElementRef)
      → IsKeyed ix
      → IsHere ix r
      → materialized ix (some (placeholder r.id)) ≡ some r
  unfolding materialized or_else
  materialized-IsHere r k h = rw (get-IsKeyed ix r k h.0) refl

  decide-Explains :
      (f : Option ElementRef) (d : Option (List String × String)) (w : Option RecoveryOutcome)
      → IsKeyed ix
      → IsFound ix f
      → IsDoubt ix d
      → is_some f || is_some d ≡ true
      → Explains ix opts (decide d (materialized ix f) w)
  decide-Explains f (some d) w k h i e = i
  decide-Explains none none w k h i e = absurd (true≢false (sym e))
  decide-Explains (some p) none w k (r, here, e1) i e = rw (e1, materialized-IsHere r k here) here

abbrev ExplainsAll :
    {V : Type 0}
    → Json V
    → Unicode
    → ElementIndex
    → ResolveRequest
    → RecoveryOptions
    → Option Progress
    → Type 0
ExplainsAll J u ix req opts none = Unit {0}
ExplainsAll J u ix req opts (some q) = Explains ix opts (outcome_of J u ix req q)

module _ {V : Type 0} (J : Json V) (u : Unicode) (ix : ElementIndex) (req : ResolveRequest)
    (opts : RecoveryOptions) where
  failed-Explains :
      (o : RecoveryOptions) (log : Option V) (f : V → String)
      → may_use_vision o ≡ false
      → Explains ix o (log >>= (λ v. some (resolution_failed (f v))))
  failed-Explains o none f h = tt
  failed-Explains o (some v) f h = h

  undecided-Explains :
      (last : String)
      → Explains ix opts (
          undecided J u ix req last (
            if asks_for_vision (tier_vision opts).tier (tier_vision opts).status
            then some (tier_vision opts)
            else none))
  unfolding tier_vision
  undecided-Explains last = elim (Bool-cases opts.allow_vision) [
    | inl e ↦ elim (Bool-cases opts.is_visual_context) [
      | inl e' ↦ rw (e, e') refl
      | inr e' ↦
          rw (e, e')
            (failed-Explains (record opts { allow_vision = true; is_visual_context = false })
              (sanitize_req J u ix req) _ refl)
    ]
    | inr e ↦
        rw e
          (failed-Explains (record opts { allow_vision = false }) (sanitize_req J u ix req) _ refl)
  ]

  -- The last tier, after the others have left no request for vision.
  last-ExplainsAll :
      (old : Option ElementRef) (p : Progress)
      → IsKeyed ix
      → IsSound ix p
      → IsBlind p
      → ExplainsAll J u ix req opts (step u ix old req opts vision_fallback p)
  unfolding step run_tier outcome_of
  last-ExplainsAll old p k s b = elim (Bool-cases (is_decided p)) [
    | inl e ↦ rw e (decide-Explains ix opts p.found p.doubt _ k s.0 s.1 e)
    | inr e ↦
        let (e1, e2) = is_decided-none p.found p.doubt e in
        rw (e, e1, e2, vision_request-append p.trace (tier_vision opts) b)
          (undecided-Explains p.last_miss_detail)
  ]

  climb-ExplainsAll :
      (old : Option ElementRef) (p q : Progress)
      → IsKeyed ix
      → IsSound ix p
      → IsBlind p
      → climb u ix old req opts (vision_fallback ∷ []) p ≡ some q
      → Explains ix opts (outcome_of J u ix req q)
  unfolding climb
  climb-ExplainsAll old p q k s b h =
      let (r, e1, e2) = >>=-eq-some (step u ix old req opts vision_fallback p) _ h in
      subst (ExplainsAll J u ix req opts) (e1 ∙ e2) (last-ExplainsAll old p k s b)

abbrev ExplainsResult : ElementIndex → RecoveryOptions → Option RecoveryResult → Type 0
ExplainsResult ix opts none = Unit {0}
ExplainsResult ix opts (some res) = IsExplained ix opts res.outcome

abbrev searching : List RecoveryTier
searching =
    existing_ref ∷ cached_backend_node ∷ css_selector ∷ dom_id_name ∷ ax_role_name ∷ semantic_text
    ∷ fresh_dom_ax_search ∷ frame_shadow_traversal ∷ ambiguity_resolution ∷ []

-- In an index that knows each element by its own id, once, each id a word, a recovery that returns
-- answers with a current, visible and enabled element of the index, or with the ids of several
-- such elements, or asks for vision, which it does only if that is allowed and the context is
-- visual, or reports a failure, which it does only if that is not so.
pub recover-IsExplained :
    {V : Type 0} (J : Json V) (u : Unicode) (ix : ElementIndex) (req : ResolveRequest)
    (old : Option ElementRef) (opts : RecoveryOptions) (res : RecoveryResult)
    → IsKeyed ix
    → HasWords ix
    → recover J u ix req old opts ≡ some res
    → IsExplained ix opts res.outcome
unfolding recover
recover-IsExplained J u ix req old opts res k w h =
    let (q, e1, e2) = >>=-eq-some (climb u ix old req opts ladder start) _ h in
    let (o, e3, e4) = >>=-eq-some (outcome_of J u ix req q) _ e2 in
    let (p, b, e5, e6) =
      climb-IsBlind u ix old req opts searching (vision_fallback ∷ []) start q (assumption (refl))
        start-IsBlind e1 in
    let s = climb-IsSound ix w u old req opts searching start p (tt, tt) e5 in
    subst (ExplainsResult ix opts) e4
      (subst (Explains ix opts) e3 (climb-ExplainsAll J u ix req opts old p q k s b e6))
