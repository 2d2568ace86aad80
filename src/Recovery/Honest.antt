-- ===== src/Recovery/Honest.antt =====
-- src/browser_runtime/recovery.rs: what an attempt of a searching tier may report.
pub mod Searches
pub mod Pierced
use text.Mathlib.TextLemmas.{append_assoc}
use hyprfast.Base.{
  String, ◌<>◌, ◌≡◌, refl, Bool, true, false, ◌||◌, Option, none, some, List, [], ◌∷◌, arith, All,
  ℤ, pos, int_beq, Bool-cases, inl, inr, if◌then◌else◌, ◌==◌, string_eq, keep,
}
use hyprfast.Base.Text.{Unicode, is_empty}
use hyprfast.Base.Text.Words.{IsAfter}
use hyprfast.Error.{RuntimeResult, ok, err}
use hyprfast.Elements.{ElementRef, ElementIndex, ResolveRequest}
use hyprfast.Elements.Selector.{validate_selector}
use hyprfast.Elements.Store.{get, get_by_backend, is_stale, check_interactable}
use hyprfast.Elements.Query.Laws.{
  All-keep, IsStored, get-IsStored, get_by_backend-IsStored, find_by_selector-IsStored,
}
use hyprfast.Elements.Resolve.{ids}
use hyprfast.Elements.Resolve.Sound.{IsUsable}
use hyprfast.Recovery.{
  RecoveryTier, TierAttempt, TierStatus, existing_ref, cached_backend_node, css_selector, miss,
  ambiguous, skipped_missing_input, error, attempt,
}
use hyprfast.Recovery.Tiers.{
  is_live, live, wanted, hit, skip, missed, judge, reach, use_ref, existing, by_id, cached,
  by_backend, validated, selected, tier_existing_ref, tier_cached_backend, tier_css_selector,
}

-- The element stands in the index, is current and within reach.
abbrev pub IsHere : ElementIndex → ElementRef → Type 0
IsHere ix r = IsUsable ix r

-- A status with which a tier leaves the question to the next one.
abbrev pub IsIdle : TierStatus → Type 0
IsIdle miss = Unit {0}
IsIdle skipped_missing_input = Unit {0}
IsIdle error = Unit {0}
IsIdle _ = ⊥

-- A tier that does not panic reports nothing, one live element of the index, or several of them.
pub data Honest (ix : ElementIndex) (t : RecoveryTier) : Option TierAttempt → Type 0 where
  panicked : Honest ix t none
  idle : (s : TierStatus) (d : String) → IsIdle s → Honest ix t (some (attempt t s d []))
  single :
      (r : ElementRef) (suffix : String)
      → IsHere ix r
      → IsAfter suffix
      → Honest ix t (some (hit t r suffix))
  several :
      (d : String) (r s : ElementRef) (rest : List ElementRef)
      → All (IsHere ix) (r ∷ s ∷ rest)
      → Honest ix t (some (attempt t ambiguous d (ids (r ∷ s ∷ rest))))

module _ (ix : ElementIndex) (t : RecoveryTier) where
  pub judge-Honest :
      (suffix : String) (nobody : Option TierAttempt) (detail : Option String)
      (rs : List ElementRef)
      → IsAfter suffix
      → Honest ix t nobody
      → All (IsHere ix) rs
      → Honest ix t (judge t suffix nobody detail rs)
  unfolding judge
  judge-Honest suffix nobody detail [] a h m = h
  judge-Honest suffix nobody detail (r ∷ []) a h m = single r suffix m.0 a
  judge-Honest suffix nobody none (r ∷ s ∷ rest) a h m = panicked
  judge-Honest suffix nobody (some d) (r ∷ s ∷ rest) a h m = several d r s rest m

  pub missed-Honest : (d : String) → Honest ix t (missed t d)
  missed-Honest d = idle miss d tt

  pub skip-Honest : (d : String) → Honest ix t (skip t d)
  skip-Honest d = idle skipped_missing_input d tt

  pub if-Honest :
      (b : Bool) (x y : Option TierAttempt)
      → Honest ix t x
      → Honest ix t y
      → Honest ix t (if b then x else y)
  if-Honest true x y h k = h
  if-Honest false x y h k = k

module _ (ix : ElementIndex) where
  pub keep-IsHere :
      (p : ElementRef → Bool) (rs : List ElementRef)
      → All (IsHere ix) rs
      → All (IsHere ix) (keep p rs)
  keep-IsHere p rs h = All-keep (IsHere ix) p rs h

  is_live-IsHere : (r : ElementRef) → IsStored ix r → is_live ix r ≡ true → IsHere ix r
  unfolding is_live check_interactable
  is_live-IsHere r h e = (h, ground arith, ground arith, ground arith)

  pub live-IsHere : (rs : List ElementRef) → All (IsStored ix) rs → All (IsHere ix) (live ix rs)
  live-IsHere [] h = tt
  live-IsHere (r ∷ rs) h = elim (Bool-cases (is_live ix r)) [
    | inl e ↦ rw e (is_live-IsHere r h.0 e, live-IsHere rs h.1)
    | inr e ↦ rw e (live-IsHere rs h.1)
  ]

-- A suffix that begins with a space and goes on with a computed text.
pub IsAfter-append : (s d : String) → IsAfter ((" " <> s) <> d)
IsAfter-append s d = inr (s <> d, append_assoc " " s d)

module _ (u : Unicode) (ix : ElementIndex) (old : Option ElementRef) (req : ResolveRequest) where
  reach-Honest :
      (t : RecoveryTier) (subject : String) (r : ElementRef) (res : RuntimeResult (Unit {0}))
      → IsStored ix r
      → is_stale ix r ≡ false
      → check_interactable r ≡ res
      → Honest ix t (reach u ix old req t subject r res)
  unfolding is_live
  reach-Honest t subject r (err e) h k q = missed-Honest ix t _
  reach-Honest t subject r (ok x) h k q =
      single r "" (is_live-IsHere ix r h (ground arith)) (inl refl)

  use_ref-Honest :
      (t : RecoveryTier) (subject stale : String) (r : ElementRef)
      → IsStored ix r
      → Honest ix t (use_ref u ix old req t subject stale r)
  use_ref-Honest t subject stale r h = elim (Bool-cases (is_stale ix r)) [
    | inl e ↦ rw e (missed-Honest ix t stale)
    | inr e ↦ rw e (reach-Honest t subject r (check_interactable r) h e refl)
  ]

  existing-Honest :
      (id : String) (o : Option ElementRef)
      → ((r : ElementRef) → o ≡ some r → IsStored ix r)
      → Honest ix existing_ref (existing u ix old req id o)
  existing-Honest id none h = missed-Honest ix existing_ref _
  existing-Honest id (some r) h = use_ref-Honest existing_ref _ _ r (h r refl)

  by_id-Honest : (o : Option String) → Honest ix existing_ref (by_id u ix old req o)
  by_id-Honest none = skip-Honest ix existing_ref _
  by_id-Honest (some id) = existing-Honest id (get ix id) (get-IsStored ix id)

  pub tier_existing_ref-Honest : Honest ix existing_ref (tier_existing_ref u ix old req)
  unfolding tier_existing_ref
  tier_existing_ref-Honest = by_id-Honest (wanted req.ref_id old (λ r. r.id))

  cached-Honest :
      (b : ℤ) (o : Option ElementRef)
      → ((r : ElementRef) → o ≡ some r → IsStored ix r)
      → Honest ix cached_backend_node (cached u ix old req b o)
  cached-Honest b none h = missed-Honest ix cached_backend_node _
  cached-Honest b (some r) h = use_ref-Honest cached_backend_node _ _ r (h r refl)

  by_backend-Honest : (o : Option ℤ) → Honest ix cached_backend_node (by_backend u ix old req o)
  by_backend-Honest none = skip-Honest ix cached_backend_node _
  by_backend-Honest (some b) =
      if-Honest ix cached_backend_node (int_beq b (pos 0)) _ _
        (skip-Honest ix cached_backend_node _)
        (cached-Honest b (get_by_backend ix b) (get_by_backend-IsStored ix b))

  pub tier_cached_backend-Honest : Honest ix cached_backend_node (tier_cached_backend u ix old req)
  unfolding tier_cached_backend
  tier_cached_backend-Honest =
      by_backend-Honest (wanted req.backend_node_id old (λ r. r.backend_node_id))

  validated-Honest :
      (selector : String) (res : RuntimeResult (Unit {0}))
      → Honest ix css_selector (validated u ix old req selector res)
  validated-Honest selector (err e) = idle error _ tt
  validated-Honest selector (ok x) =
      judge-Honest ix css_selector "" _ _ _ (inl refl) (missed-Honest ix css_selector _)
        (live-IsHere ix _ (find_by_selector-IsStored ix selector))

  selected-Honest : (o : Option String) → Honest ix css_selector (selected u ix old req o)
  selected-Honest none = skip-Honest ix css_selector _
  selected-Honest (some s) =
      if-Honest ix css_selector (is_empty s || s == "*") _ _ (skip-Honest ix css_selector _)
        (validated-Honest s (validate_selector s))

  pub tier_css_selector-Honest : Honest ix css_selector (tier_css_selector u ix old req)
  unfolding tier_css_selector
  tier_css_selector-Honest = selected-Honest (wanted req.selector old (λ r. r.selector))
