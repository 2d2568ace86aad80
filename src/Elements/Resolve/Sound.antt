-- ===== src/Elements/Resolve/Sound.antt =====
-- src/browser_runtime/element_index.rs: what a resolution may answer.
use mathlib.Core.Path.{subst}
use hyprfast.Base.{
  >>=-eq-some, ◌≤◌, String, ◌≡◌, refl, true, false, Option, none, some, List, [], ◌∷◌, arith, ◌>>=◌,
  All, length, ℤ, Bool-cases, inl, inr, string_eq,
}
use hyprfast.Base.Map
use hyprfast.Base.Text.{Unicode, contains}
use hyprfast.Json.{Json}
use hyprfast.Error.{RuntimeResult, ok, err, ambiguous_element}
use hyprfast.Elements.{ElementRef, ElementIndex, ResolveRequest}
use hyprfast.Elements.Selector.{validate_selector}
use hyprfast.Elements.Store.{get, get_by_backend, is_stale, verify_snapshot, check_interactable}
use hyprfast.Elements.Query.{
  find_by_selector, find_by_dom_id, find_by_name, find_by_role, find_by_role_name, find_by_text,
}
use hyprfast.Elements.Query.Laws.{
  IsStored, get-IsStored, get_by_backend-IsStored, find_by_dom_id-IsStored, find_by_name-IsStored,
  find_by_role-IsStored, find_by_role_name-IsStored, find_by_text-IsStored,
  find_by_selector-IsStored,
}
use hyprfast.Elements.Resolve.{
  accept, ids, Answer, unique, only, found, tiers, first, resolve, exhausted,
  sanitize_request_for_log, answer_or, by_ref_id, by_backend, by_selector, by_dom_id, by_name,
  by_role, by_text, by_fresh_name, cached_or_scan,
}

-- An element that may be acted on stands in the index, is current, visible and enabled.
abbrev pub IsUsable : ElementIndex → ElementRef → Type 0
IsUsable ix r = IsStored ix r × (is_stale ix r ≡ false) × (r.visible ≡ true) × (r.enabled ≡ true)

-- The candidates are the ids of several elements of the index.
abbrev pub AreSeveral : ElementIndex → List String → Type 0
AreSeveral ix cs = (rs : List ElementRef) × (2 ≤ length rs) × All (IsStored ix) rs × (cs ≡ ids rs)

-- The request names the element: by its id, by its node, by a selector that the index has stored for
-- it, or as the only element of the index that a search finds.
pub data IsNamed (u : Unicode) (ix : ElementIndex) (req : ResolveRequest) (r : ElementRef)
    : Type 0 where
  by_id : (id : String) → req.ref_id ≡ some id → get ix id ≡ some r → IsNamed u ix req r
  by_node :
      (b : ℤ) → req.backend_node_id ≡ some b → get_by_backend ix b ≡ some r → IsNamed u ix req r
  by_stored_selector :
      (s : String)
      → req.selector ≡ some s
      → (Map.get s ix.selector_map >>= get ix) ≡ some r
      → IsNamed u ix req r
  sole_of_selector :
      (s : String) → req.selector ≡ some s → find_by_selector ix s ≡ r ∷ [] → IsNamed u ix req r
  sole_of_dom_id :
      (s : String) → req.dom_id ≡ some s → find_by_dom_id ix s ≡ r ∷ [] → IsNamed u ix req r
  sole_of_name : (s : String) → req.name ≡ some s → find_by_name ix s ≡ r ∷ [] → IsNamed u ix req r
  sole_of_role_name :
      (s t : String)
      → req.role ≡ some s
      → req.accessible_name ≡ some t
      → find_by_role_name ix s t ≡ r ∷ []
      → IsNamed u ix req r
  sole_of_role :
      (s : String)
      → req.role ≡ some s
      → req.accessible_name ≡ none
      → find_by_role ix s ≡ r ∷ []
      → IsNamed u ix req r
  sole_of_text :
      (s : String) → req.text ≡ some s → find_by_text u ix s ≡ r ∷ [] → IsNamed u ix req r
  sole_of_accessible_name :
      (s : String) → req.accessible_name ≡ some s → find_by_name ix s ≡ r ∷ [] → IsNamed u ix req r

-- An answer, when `P` says which elements the request names.
abbrev pub IsJustified : ElementIndex → (ElementRef → Type 0) → RuntimeResult ElementRef → Type 0
IsJustified ix P (ok r) = IsUsable ix r × P r
IsJustified ix P (err (ambiguous_element cs d)) = AreSeveral ix cs
IsJustified ix P (err e) = Unit {0}

abbrev Sound : ElementIndex → (ElementRef → Type 0) → Answer → Type 0
Sound ix P none = Unit {0}
Sound ix P (some a) = IsJustified ix P a

module _ (ix : ElementIndex) (P : ElementRef → Type 0) where
  accept-Sound : (r : ElementRef) → IsStored ix r → P r → IsJustified ix P (accept ix r)
  unfolding accept verify_snapshot check_interactable
  accept-Sound r h p = ground arith

  unique-Sound :
      (d : String) (rs : List ElementRef)
      → All (IsStored ix) rs
      → ((r : ElementRef) → rs ≡ r ∷ [] → P r)
      → Sound ix P (unique ix d rs)
  unique-Sound d [] h p = tt
  unique-Sound d (r ∷ []) h p = accept-Sound r h.0 (p r refl)
  unique-Sound d (r ∷ s ∷ rest) h p = (r ∷ s ∷ rest, omega arith, h, refl)

  only-Sound :
      (rs : List ElementRef)
      → All (IsStored ix) rs
      → ((r : ElementRef) → rs ≡ r ∷ [] → P r)
      → Sound ix P (only ix rs)
  only-Sound [] h p = tt
  only-Sound (r ∷ []) h p = accept-Sound r h.0 (p r refl)
  only-Sound (r ∷ s ∷ rest) h p = tt

  found-Sound :
      (o : Option ElementRef)
      → ((r : ElementRef) → o ≡ some r → IsStored ix r)
      → ((r : ElementRef) → o ≡ some r → P r)
      → Sound ix P (found ix o)
  found-Sound none h p = tt
  found-Sound (some r) h p = accept-Sound r (h r refl) (p r refl)

  first-Sound : (l : List Answer) → All (Sound ix P) l → Sound ix P (first l)
  first-Sound [] h = tt
  first-Sound (none ∷ l) h = first-Sound l h.1
  first-Sound (some a ∷ l) h = h.0

module _ (ix : ElementIndex) (u : Unicode) (req : ResolveRequest) where
  abbrev Named : ElementRef → Type 0
  Named = IsNamed u ix req

  by_ref_id-Sound : (o : Option String) → req.ref_id ≡ o → Sound ix Named (by_ref_id u ix o)
  unfolding by_ref_id
  by_ref_id-Sound none q = tt
  by_ref_id-Sound (some id) q =
      found-Sound ix Named (get ix id) (get-IsStored ix id) (λ r e. by_id id q e)

  by_backend-Sound : (o : Option ℤ) → req.backend_node_id ≡ o → Sound ix Named (by_backend u ix o)
  unfolding by_backend
  by_backend-Sound none q = tt
  by_backend-Sound (some b) q =
      found-Sound ix Named (get_by_backend ix b) (get_by_backend-IsStored ix b)
        (λ r e. by_node b q e)

  cached_or_scan-Sound :
      (sel : String) (o : Option ElementRef)
      → req.selector ≡ some sel
      → (Map.get sel ix.selector_map >>= get ix) ≡ o
      → ((r : ElementRef) → o ≡ some r → IsStored ix r)
      → Sound ix Named (cached_or_scan u ix sel o)
  cached_or_scan-Sound sel (some r) q e h =
      accept-Sound ix Named r (h r refl) (by_stored_selector sel q e)
  cached_or_scan-Sound sel none q e h =
      unique-Sound ix Named _ _ (find_by_selector-IsStored ix sel)
        (λ r found. sole_of_selector sel q found)

  cached-IsStored : (o : Option String) (r : ElementRef) → (o >>= get ix) ≡ some r → IsStored ix r
  cached-IsStored none r h = cc
  cached-IsStored (some id) r h = get-IsStored ix id r h

  by_selector-Sound : (o : Option String) → req.selector ≡ o → Sound ix Named (by_selector u ix o)
  unfolding by_selector validate_selector
  by_selector-Sound none q = tt
  by_selector-Sound (some sel) q = elim (Bool-cases (contains sel ":contains")) [
    | inl e ↦ rw (e, validate_selector, Sound) tt
    | inr e ↦
        rw (e, validate_selector, Sound)
          (cached_or_scan-Sound sel _ q refl (cached-IsStored (Map.get sel ix.selector_map)))
  ]

  by_dom_id-Sound : (o : Option String) → req.dom_id ≡ o → Sound ix Named (by_dom_id u ix o)
  unfolding by_dom_id
  by_dom_id-Sound none q = tt
  by_dom_id-Sound (some s) q =
      unique-Sound ix Named _ _ (find_by_dom_id-IsStored ix s) (λ r e. sole_of_dom_id s q e)

  by_name-Sound : (o : Option String) → req.name ≡ o → Sound ix Named (by_name u ix o)
  unfolding by_name
  by_name-Sound none q = tt
  by_name-Sound (some s) q =
      unique-Sound ix Named _ _ (find_by_name-IsStored ix s) (λ r e. sole_of_name s q e)

  by_role-Sound :
      (o p : Option String)
      → req.role ≡ o
      → req.accessible_name ≡ p
      → Sound ix Named (by_role u ix o p)
  unfolding by_role
  by_role-Sound none p q k = tt
  by_role-Sound (some s) (some t) q k =
      unique-Sound ix Named _ _ (find_by_role_name-IsStored ix s t)
        (λ r e. sole_of_role_name s t q k e)
  by_role-Sound (some s) none q k =
      only-Sound ix Named _ (find_by_role-IsStored ix s) (λ r e. sole_of_role s q k e)

  by_text-Sound : (o : Option String) → req.text ≡ o → Sound ix Named (by_text u ix o)
  unfolding by_text
  by_text-Sound none q = tt
  by_text-Sound (some s) q =
      unique-Sound ix Named _ _ (find_by_text-IsStored ix u s) (λ r e. sole_of_text s q e)

  by_fresh_name-Sound :
      (o : Option String) → req.accessible_name ≡ o → Sound ix Named (by_fresh_name u ix o)
  unfolding by_fresh_name
  by_fresh_name-Sound none q = tt
  by_fresh_name-Sound (some s) q =
      unique-Sound ix Named _ _ (find_by_name-IsStored ix s) (λ r e. sole_of_accessible_name s q e)

  tiers-Sound : All (Sound ix Named) (tiers u ix req)
  tiers-Sound = assumption (
    by_ref_id-Sound req.ref_id refl,
    by_backend-Sound req.backend_node_id refl,
    by_selector-Sound req.selector refl,
    by_dom_id-Sound req.dom_id refl,
    by_name-Sound req.name refl,
    by_role-Sound req.role req.accessible_name refl refl,
    by_text-Sound req.text refl,
    by_fresh_name-Sound req.accessible_name refl,
    tt,
  )

module _ {V : Type 0} (J : Json V) (ix : ElementIndex) (P : ElementRef → Type 0) where
  exhausted-IsJustified :
      (req : ResolveRequest) (a : RuntimeResult ElementRef)
      → exhausted J req ≡ some a
      → IsJustified ix P a
  unfolding exhausted
  exhausted-IsJustified req a h =
      let (log, _, e) = >>=-eq-some (sanitize_request_for_log J req) _ h in
      subst (λ o. Sound ix P o) e tt

  answer_or-IsJustified :
      (req : ResolveRequest) (o : Answer) (a : RuntimeResult ElementRef)
      → Sound ix P o
      → answer_or (exhausted J req) o ≡ some a
      → IsJustified ix P a
  answer_or-IsJustified req none a s h = exhausted-IsJustified req a h
  answer_or-IsJustified req (some b) a s h = subst (λ o. Sound ix P o) h s

-- Whatever a request asks, an element that the resolution answers with stands in the index, is
-- current, visible and enabled, and the request names it: by its id, by its node, by a selector
-- that the index has stored for it, or as the only element that one of the searches finds. An
-- ambiguity names two or more elements of the index.
pub resolve-IsJustified :
    {V : Type 0} (J : Json V) (u : Unicode) (ix : ElementIndex) (req : ResolveRequest)
    (a : RuntimeResult ElementRef)
    → resolve J u ix req ≡ some a
    → IsJustified ix (IsNamed u ix req) a
unfolding resolve
resolve-IsJustified J u ix req a h =
    answer_or-IsJustified J ix (IsNamed u ix req) req (first (tiers u ix req)) a
      (first-Sound ix (IsNamed u ix req) (tiers u ix req) (tiers-Sound ix u req)) h
