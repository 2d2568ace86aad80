-- ===== src/Recovery/Fresh.antt =====
-- src/browser_runtime/recovery.rs: an element without a DOM id matches every fresh search.
use hyprfast.Base.{
  String, ◌≡◌, refl, true, Option, some, List, [], ◌∷◌, map, keep, Bool-cases, inl, inr, All,
}
use hyprfast.Base.Text.{Unicode, contains}
use hyprfast.Base.Text.Words.{contains-empty}
use hyprfast.Elements.{ElementRef, ElementIndex, ResolveRequest}
use hyprfast.Elements.Query.{find_all}
use hyprfast.Recovery.{fresh_dom_ax_search}
use hyprfast.Recovery.Tiers.{live, hit, judge}
use hyprfast.Recovery.Search.{identity, matches, fresh_matches, tier_fresh_search}

module _ (u : Unicode) (ix : ElementIndex) (old : Option ElementRef) (req : ResolveRequest) where
  matches-empty :
      (r : ElementRef) (n : String) (ns : List String)
      → u.to_lowercase "" ≡ ""
      → r.dom_id ≡ ""
      → matches u ix old req (n ∷ ns) r ≡ true
  unfolding matches
  matches-empty r n ns l e = elim (Bool-cases (contains "" n)) [
    | inl c ↦ rw (e, l, c) refl
    | inr c ↦ rw (e, l, c, contains-empty n) refl
  ]

  keep-empty :
      (n : String) (ns : List String) (rs : List ElementRef)
      → u.to_lowercase "" ≡ ""
      → All (λ r. r.dom_id ≡ "") rs
      → keep (matches u ix old req (n ∷ ns)) rs ≡ rs
  keep-empty n ns [] l h = refl
  keep-empty n ns (r ∷ rs) l h = rw (matches-empty r n ns l h.0, keep-empty n ns rs l h.1) refl

  -- If the one live element has no DOM id, a fresh search for any identity recovers it, whatever
  -- the identity says.
  pub tier_fresh_search-unrelated :
      (r : ElementRef) (n : String) (ns : List String)
      → u.to_lowercase "" ≡ ""
      → identity u ix old req ≡ n ∷ ns
      → live ix (find_all ix) ≡ r ∷ []
      → r.dom_id ≡ ""
      → tier_fresh_search u ix old req ≡ some (hit fresh_dom_ax_search r " via fresh DOM/AX search")
  unfolding tier_fresh_search fresh_matches judge
  tier_fresh_search-unrelated r n ns l i e d =
      rw (e, i, keep-empty (u.to_lowercase n) (map u.to_lowercase ns) (r ∷ []) l (d, tt)) refl
