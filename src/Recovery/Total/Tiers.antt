-- ===== src/Recovery/Total/Tiers.antt =====
-- src/browser_runtime/recovery.rs: no tier panics while the texts it cuts are short.
use Prim.Native.String.{len}
use hyprfast.Base.{
  ◌≤◌, String, refl, Bool, true, false, ◌&&◌, ◌||◌, Option, none, some, List, [], ◌∷◌, arith,
  if◌then◌else◌, ◌==◌, string_eq, ℤ, pos, int_beq,
}
use hyprfast.Base.Text.{Unicode, join, is_empty, is_blank}
use hyprfast.Error.{RuntimeResult, ok, err}
use hyprfast.Elements.{ElementRef, ElementIndex, ResolveRequest}
use hyprfast.Elements.Selector.{validate_selector}
use hyprfast.Elements.Store.{get, get_by_backend, is_stale, check_interactable}
use hyprfast.Elements.Query.{find_by_role}
use hyprfast.Elements.Resolve.Total.{Returns, truncate-short}
use hyprfast.Recovery.{RecoveryTier, TierAttempt, RecoveryOptions}
use hyprfast.Recovery.Tiers
use hyprfast.Recovery.Tiers.{
  judge, reach, use_ref, existing, cached, wanted, live, tier_existing_ref, tier_cached_backend,
  tier_css_selector,
}
use hyprfast.Recovery.Search
use hyprfast.Recovery.Search.{
  text_of, identity, cut, fresh, fresh_matches, tier_dom_id_name, tier_ax_role_name,
  tier_semantic_text, tier_fresh_search,
}
use hyprfast.Recovery.Pierce
use hyprfast.Recovery.Pierce.{pierced, tier_frame_shadow}

if-Returns :
    {A : Type 0} (b : Bool) (x y : Option A) → Returns x → Returns y → Returns (if b then x else y)
if-Returns true x y h k = h
if-Returns false x y h k = k

judge-Returns :
    (t : RecoveryTier) (suffix : String) (nobody : Option TierAttempt) (detail : Option String)
    (rs : List ElementRef)
    → Returns nobody
    → Returns detail
    → Returns (judge t suffix nobody detail rs)
unfolding judge
judge-Returns t suffix nobody detail [] h k = h
judge-Returns t suffix nobody detail (r ∷ []) h k = (_, refl)
judge-Returns t suffix nobody detail (r ∷ s ∷ rest) h (d, e) = rw e (_, refl)

module _ (u : Unicode) (ix : ElementIndex) (old : Option ElementRef) (req : ResolveRequest) where
  cut-Returns :
      (s : String) (n : _) (before after : String)
      → len s ≤ n
      → Returns (cut u ix old req s n before after)
  cut-Returns s n before after h = rw (truncate-short s h) (_, refl)

  reach-Returns :
      (t : RecoveryTier) (subject : String) (r : ElementRef) (res : RuntimeResult (Unit {0}))
      → Returns (reach u ix old req t subject r res)
  reach-Returns t subject r (ok x) = (_, refl)
  reach-Returns t subject r (err e) = (_, refl)

  use_ref-Returns :
      (t : RecoveryTier) (subject stale : String) (r : ElementRef)
      → Returns (use_ref u ix old req t subject stale r)
  use_ref-Returns t subject stale r =
      if-Returns (is_stale ix r) _ _ (_, refl) (reach-Returns t subject r (check_interactable r))

  existing-Returns : (id : String) (o : Option ElementRef) → Returns (existing u ix old req id o)
  existing-Returns id none = (_, refl)
  existing-Returns id (some r) = use_ref-Returns _ _ _ r

  by_id-Returns : (o : Option String) → Returns (Tiers.by_id u ix old req o)
  by_id-Returns none = (_, refl)
  by_id-Returns (some id) = existing-Returns id (get ix id)

  pub tier_existing_ref-Returns : Returns (tier_existing_ref u ix old req)
  unfolding tier_existing_ref
  tier_existing_ref-Returns = by_id-Returns (wanted req.ref_id old (λ r. r.id))

  cached-Returns : (b : ℤ) (o : Option ElementRef) → Returns (cached u ix old req b o)
  cached-Returns b none = (_, refl)
  cached-Returns b (some r) = use_ref-Returns _ _ _ r

  by_backend-Returns : (o : Option ℤ) → Returns (Tiers.by_backend u ix old req o)
  by_backend-Returns none = (_, refl)
  by_backend-Returns (some b) =
      if-Returns (int_beq b (pos 0)) _ _ (_, refl) (cached-Returns b (get_by_backend ix b))

  pub tier_cached_backend-Returns : Returns (tier_cached_backend u ix old req)
  unfolding tier_cached_backend
  tier_cached_backend-Returns =
      by_backend-Returns (wanted req.backend_node_id old (λ r. r.backend_node_id))

  validated-Returns :
      (s : String) (res : RuntimeResult (Unit {0})) → Returns (Tiers.validated u ix old req s res)
  validated-Returns s (err e) = (_, refl)
  validated-Returns s (ok x) = judge-Returns _ _ _ _ _ (_, refl) (_, refl)

  selected-Returns : (o : Option String) → Returns (Tiers.selected u ix old req o)
  selected-Returns none = (_, refl)
  selected-Returns (some s) =
      if-Returns (is_empty s || s == "*") _ _ (_, refl) (validated-Returns s (validate_selector s))

  pub tier_css_selector-Returns : Returns (tier_css_selector u ix old req)
  unfolding tier_css_selector
  tier_css_selector-Returns = selected-Returns (wanted req.selector old (λ r. r.selector))

  by_name-Returns : (dom_id name : String) → Returns (Search.by_name u ix old req dom_id name)
  by_name-Returns dom_id name =
      if-Returns (is_empty name) _ _ (_, refl) (judge-Returns _ _ _ _ _ (_, refl) (_, refl))

  by_dom_id-Returns : (dom_id name : String) → Returns (Search.by_dom_id u ix old req dom_id name)
  by_dom_id-Returns dom_id name =
      if-Returns (is_empty dom_id) _ _ (by_name-Returns dom_id name)
        (judge-Returns _ _ _ _ _ (by_name-Returns dom_id name) (_, refl))

  pub tier_dom_id_name-Returns : Returns (tier_dom_id_name u ix old req)
  unfolding tier_dom_id_name
  tier_dom_id_name-Returns = if-Returns _ _ _ (_, refl) (by_dom_id-Returns _ _)

  by_role-Returns :
      (role : String) (rs : List ElementRef) → Returns (Search.by_role u ix old req role rs)
  by_role-Returns role [] = (_, refl)
  by_role-Returns role (r ∷ []) = (_, refl)
  by_role-Returns role (r ∷ s ∷ rest) = (_, refl)

  pub tier_ax_role_name-Returns : Returns (tier_ax_role_name u ix old req)
  unfolding tier_ax_role_name
  tier_ax_role_name-Returns =
      let role = text_of u ix old req req.role (λ r. r.role) in
      if-Returns _ _ _ (_, refl)
        (if-Returns _ _ _ (judge-Returns _ _ _ _ _ (_, refl) (_, refl)) (
          if-Returns _ _ _ (by_role-Returns role (live ix (find_by_role ix role)))
            (judge-Returns _ _ _ _ _ (_, refl) (_, refl))))

  pub tier_semantic_text-Returns :
      len (text_of u ix old req req.text (λ r. r.text_content)) ≤ 60
      → Returns (tier_semantic_text u ix old req)
  unfolding tier_semantic_text
  tier_semantic_text-Returns h =
      let text = text_of u ix old req req.text (λ r. r.text_content) in
      if-Returns (is_blank text) _ _ (_, refl)
        (judge-Returns _ _ _ _ _ (rw (truncate-short text {n = 80} (omega arith)) (_, refl))
          (rw (truncate-short text {n = 80} (omega arith)) (_, refl)))

  fresh-Returns :
      (ss : List String) (rs : List ElementRef)
      → len (join "|" ss) ≤ 120
      → Returns (fresh u ix old req ss rs)
  fresh-Returns [] rs h = (_, refl)
  fresh-Returns (s ∷ ss) rs h =
      judge-Returns _ _ _ _ rs (rw (truncate-short (join "|" (s ∷ ss)) h) (_, refl)) (_, refl)

  pub tier_fresh_search-Returns :
      len (join "|" (identity u ix old req)) ≤ 120 → Returns (tier_fresh_search u ix old req)
  unfolding tier_fresh_search
  tier_fresh_search-Returns h = fresh-Returns (identity u ix old req) (fresh_matches u ix old req) h

  text_next-Returns :
      (text : String) (next : Option TierAttempt)
      → len text ≤ 60
      → Returns next
      → Returns (Pierce.by_text u ix old req text next)
  text_next-Returns text next h k =
      if-Returns (is_blank text) _ _ k
        (judge-Returns _ _ _ _ _ k (rw (truncate-short text h) (_, refl)))

  id_next-Returns :
      (id : String) (next : Option TierAttempt)
      → Returns next
      → Returns (Pierce.by_dom_id u ix old req id next)
  id_next-Returns id next k = if-Returns (is_empty id) _ _ k (judge-Returns _ _ _ _ _ k (_, refl))

  valid_next-Returns :
      (s : String) (next : Option TierAttempt) (res : RuntimeResult (Unit {0}))
      → Returns next
      → Returns (Pierce.validated u ix old req s next res)
  valid_next-Returns s next (err e) k = k
  valid_next-Returns s next (ok x) k = judge-Returns _ _ _ _ _ k (_, refl)

  selector_next-Returns :
      (s : String) (next : Option TierAttempt)
      → Returns next
      → Returns (Pierce.by_selector u ix old req s next)
  selector_next-Returns s next k =
      if-Returns (is_empty s || s == "*") _ _ k (valid_next-Returns s next (validate_selector s) k)

  pierced-Returns :
      (selector id text : String) (opts : RecoveryOptions)
      → len text ≤ 60
      → Returns (pierced u ix old req selector id text opts)
  unfolding pierced
  pierced-Returns selector id text opts h =
      if-Returns
        (is_empty selector && is_empty id && is_blank text && Pierce.is_none u ix old req req.role)
        _ _ (_, refl)
        (selector_next-Returns selector _
          (id_next-Returns id _ (text_next-Returns text _ h (_, refl))))

  pub tier_frame_shadow-Returns :
      (opts : RecoveryOptions)
      → len (text_of u ix old req req.text (λ r. r.text_content)) ≤ 60
      → Returns (tier_frame_shadow u ix old req opts)
  unfolding tier_frame_shadow
  tier_frame_shadow-Returns opts h =
      pierced-Returns (text_of u ix old req req.selector (λ r. r.selector))
        (text_of u ix old req req.dom_id (λ r. r.dom_id))
        (text_of u ix old req req.text (λ r. r.text_content)) opts h
