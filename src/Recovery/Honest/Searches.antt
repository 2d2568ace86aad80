-- ===== src/Recovery/Honest/Searches.antt =====
-- src/browser_runtime/recovery.rs: the searching tiers report what they found, and no more.
use hyprfast.Base.{String, refl, Option, none, some, List, [], ◌∷◌, ◌>>=◌, All, inr, string_eq}
use hyprfast.Base.Text.{Unicode, is_empty}
use hyprfast.Elements.{ElementRef, ElementIndex, ResolveRequest}
use hyprfast.Elements.Query.Laws.{
  find_by_dom_id-IsStored, find_by_name-IsStored, find_by_role-IsStored, find_by_role_name-IsStored,
  find_by_text-IsStored, find_all-IsStored,
}
use hyprfast.Recovery.{RecoveryTier, dom_id_name, ax_role_name, semantic_text, fresh_dom_ax_search}
use hyprfast.Recovery.Tiers.{missed}
use hyprfast.Recovery.Search.{
  by_name, by_dom_id, tier_dom_id_name, by_role, tier_ax_role_name, tier_semantic_text,
  fresh_matches, fresh, tier_fresh_search,
}
use hyprfast.Recovery.Honest.{
  IsHere, Honest, panicked, single, judge-Honest, missed-Honest, skip-Honest, if-Honest,
  keep-IsHere, live-IsHere, IsAfter-append,
}

module _ (u : Unicode) (ix : ElementIndex) (old : Option ElementRef) (req : ResolveRequest) where
  by_name-Honest : (d n : String) → Honest ix dom_id_name (by_name u ix old req d n)
  by_name-Honest d n = if-Honest ix dom_id_name (is_empty n) _ _ (missed-Honest ix dom_id_name _) (
      judge-Honest ix dom_id_name _ _ _ _ (IsAfter-append "via name " (u.debug n))
        (missed-Honest ix dom_id_name _) (live-IsHere ix _ (find_by_name-IsStored ix n)))

  by_dom_id-Honest : (d n : String) → Honest ix dom_id_name (by_dom_id u ix old req d n)
  by_dom_id-Honest d n = if-Honest ix dom_id_name (is_empty d) _ _ (by_name-Honest d n) (
      judge-Honest ix dom_id_name _ _ _ _ (IsAfter-append "via dom_id " (u.debug d))
        (by_name-Honest d n) (live-IsHere ix _ (find_by_dom_id-IsStored ix d)))

  pub tier_dom_id_name-Honest : Honest ix dom_id_name (tier_dom_id_name u ix old req)
  unfolding tier_dom_id_name
  tier_dom_id_name-Honest =
      if-Honest ix dom_id_name _ _ _ (skip-Honest ix dom_id_name _) (by_dom_id-Honest _ _)

  by_role-Honest :
      (role : String) (rs : List ElementRef)
      → All (IsHere ix) rs
      → Honest ix ax_role_name (by_role u ix old req role rs)
  by_role-Honest role [] h = missed-Honest ix ax_role_name _
  by_role-Honest role (r ∷ []) h = single r " via role" h.0 (inr ("via role", refl))
  by_role-Honest role (r ∷ s ∷ rest) h = missed-Honest ix ax_role_name _

  pub tier_ax_role_name-Honest : Honest ix ax_role_name (tier_ax_role_name u ix old req)
  unfolding tier_ax_role_name
  tier_ax_role_name-Honest = if-Honest ix ax_role_name _ _ _ (skip-Honest ix ax_role_name _) (
      if-Honest ix ax_role_name _ _ _
        (judge-Honest ix ax_role_name _ _ _ _ (inr ("via role+name", refl))
          (missed-Honest ix ax_role_name _) (live-IsHere ix _ (find_by_role_name-IsStored ix _ _)))
        (if-Honest ix ax_role_name _ _ _
          (by_role-Honest _ _ (live-IsHere ix _ (find_by_role-IsStored ix _)))
          (judge-Honest ix ax_role_name _ _ _ _ (inr ("via accessible name", refl))
            (missed-Honest ix ax_role_name _) (live-IsHere ix _ (find_by_name-IsStored ix _)))))

  pub cut_miss-Honest : (t : RecoveryTier) (o : Option String) → Honest ix t (o >>= missed t)
  cut_miss-Honest t none = panicked
  cut_miss-Honest t (some d) = missed-Honest ix t d

  pub tier_semantic_text-Honest : Honest ix semantic_text (tier_semantic_text u ix old req)
  unfolding tier_semantic_text
  tier_semantic_text-Honest = if-Honest ix semantic_text _ _ _ (skip-Honest ix semantic_text _) (
      judge-Honest ix semantic_text _ _ _ _ (inr ("via semantic text", refl))
        (cut_miss-Honest semantic_text _) (live-IsHere ix _ (find_by_text-IsStored ix u _)))

  fresh-Honest :
      (ss : List String) (rs : List ElementRef)
      → All (IsHere ix) rs
      → Honest ix fresh_dom_ax_search (fresh u ix old req ss rs)
  fresh-Honest [] rs h = skip-Honest ix fresh_dom_ax_search _
  fresh-Honest (s ∷ ss) rs h =
      judge-Honest ix fresh_dom_ax_search _ _ _ _ (inr ("via fresh DOM/AX search", refl))
        (cut_miss-Honest fresh_dom_ax_search _) h

  pub tier_fresh_search-Honest : Honest ix fresh_dom_ax_search (tier_fresh_search u ix old req)
  unfolding tier_fresh_search fresh_matches
  tier_fresh_search-Honest =
      fresh-Honest _ _ (keep-IsHere ix _ _ (live-IsHere ix _ (find_all-IsStored ix)))
