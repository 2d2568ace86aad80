-- ===== src/Recovery/Search.antt =====
-- src/browser_runtime/recovery.rs: the tiers that search by id, name, role and text, within the
-- frame and across frames, and the vision tier. An attempt is `none` where the code panics.
use mathlib.Core.Option
use hyprfast.Base.{
  ℕ, String, ◌<>◌, Bool, not, ◌&&◌, ◌||◌, Option, none, some, List, [], ◌∷◌, map, string_eq,
  if◌then◌else◌, ◌>>=◌, keep, any,
}
use hyprfast.Base.Text.{Unicode, contains, is_blank, is_empty, join, truncate}
use hyprfast.Frames.{unwrap_or}
use hyprfast.Elements.{ElementRef, ElementIndex, ResolveRequest}
use hyprfast.Elements.Query.{
  find_all, find_by_dom_id, find_by_name, find_by_role, find_by_role_name, find_by_text,
}
use hyprfast.Recovery.{TierAttempt, dom_id_name, ax_role_name, semantic_text, fresh_dom_ax_search}
use hyprfast.Recovery.Tiers.{live, wanted, hit, skip, missed, judge, count}

module _ (u : Unicode) (ix : ElementIndex) (old : Option ElementRef) (req : ResolveRequest) where
  abbrev pub text_of : Option String → (ElementRef → String) → String
  text_of given field = unwrap_or (wanted given old field) ""

  abbrev live_by_name : String → List ElementRef
  live_by_name name = live ix (find_by_name ix name)

  -- The second search of the tier, by name.
  abbrev pub by_name : String → String → Option TierAttempt
  by_name dom_id name =
      if is_empty name
      then missed dom_id_name
          ("dom_id " <> u.debug dom_id <> " miss (0 live candidates), no name to try")
      else judge dom_id_name (" via name " <> u.debug name)
          (missed dom_id_name (
            "dom_id "
            <> u.debug dom_id
            <> " miss, name "
            <> u.debug name
            <> " miss (0 candidates)"))
          (some (
            "name "
            <> u.debug name
            <> " ambiguous after recovery ("
            <> count (live_by_name name)
            <> " candidates)"))
          (live_by_name name)

  abbrev pub by_dom_id : String → String → Option TierAttempt
  by_dom_id dom_id name =
      if is_empty dom_id
      then by_name dom_id name
      else judge dom_id_name (" via dom_id " <> u.debug dom_id) (by_name dom_id name)
          (some (
            "dom_id "
            <> u.debug dom_id
            <> " ambiguous after recovery ("
            <> count (live ix (find_by_dom_id ix dom_id))
            <> " candidates)"))
          (live ix (find_by_dom_id ix dom_id))

  unfoldable pub tier_dom_id_name : Option TierAttempt
  tier_dom_id_name =
      let dom_id = text_of req.dom_id (λ r. r.dom_id) in
      let name = text_of req.name (λ r. r.name) in
      if is_empty dom_id && is_empty name
      then skip dom_id_name "no dom_id or name available for DomIdName tier"
      else by_dom_id dom_id name

  abbrev pub by_role_name : String → String → Option TierAttempt
  by_role_name role aname =
      judge ax_role_name " via role+name"
        (missed ax_role_name
          ("role " <> u.debug role <> " + name " <> u.debug aname <> " miss (0 live)"))
        (some (
          "role "
          <> u.debug role
          <> " + name "
          <> u.debug aname
          <> " ambiguous after recovery ("
          <> count (live ix (find_by_role_name ix role aname))
          <> " candidates)"))
        (live ix (find_by_role_name ix role aname))

  -- Several elements of a role are a miss: the ladder goes on.
  abbrev pub by_role : String → List ElementRef → Option TierAttempt
  by_role role [] = missed ax_role_name ("role " <> u.debug role <> " miss (0 live)")
  by_role role (r ∷ []) = some (hit ax_role_name r " via role")
  by_role role (r ∷ s ∷ rest) = missed ax_role_name (
      "role "
      <> u.debug role
      <> " ambiguous ("
      <> count (r ∷ s ∷ rest)
      <> " candidates) but role-alone not terminal — ladder continues to SemanticText")

  abbrev pub by_accessible_name : String → Option TierAttempt
  by_accessible_name aname =
      judge ax_role_name " via accessible name"
        (missed ax_role_name ("accessible name " <> u.debug aname <> " miss"))
        (some (
          "accessible name "
          <> u.debug aname
          <> " ambiguous ("
          <> count (live_by_name aname)
          <> " candidates)"))
        (live_by_name aname)

  unfoldable pub tier_ax_role_name : Option TierAttempt
  tier_ax_role_name =
      let role = text_of req.role (λ r. r.role) in
      let aname = text_of req.accessible_name (λ r. r.name) in
      if is_empty role && is_empty aname
      then skip ax_role_name "no role or accessible name for AxRoleName tier"
      else if not (is_empty role) && not (is_empty aname)
      then by_role_name role aname
      else if not (is_empty role)
      then by_role role (live ix (find_by_role ix role))
      else by_accessible_name aname

  -- `format!("… {:?} …", truncate(text, n))`
  abbrev pub cut : String → ℕ → String → String → Option String
  cut text n before after = Option.map (λ t. (before <> u.debug t) <> after) (truncate text n)

  unfoldable pub tier_semantic_text : Option TierAttempt
  tier_semantic_text =
      let text = text_of req.text (λ r. r.text_content) in
      let rs = live ix (find_by_text u ix text) in
      if is_blank text
      then skip semantic_text "no text_content for SemanticText tier"
      else judge semantic_text " via semantic text"
          (cut text 80 "text " " miss (0 live)" >>= missed semantic_text)
          (cut text 80 "text " (" ambiguous after recovery (" <> count rs <> " candidates)")) rs

  -- The identity fields that are given and not blank.
  abbrev given : List (Option String) → List String
  given [] = []
  given (none ∷ fields) = given fields
  given (some s ∷ fields) = let rest = given fields in if is_blank s then rest else s ∷ rest

  abbrev pub identity : List String
  identity = given (
      req.dom_id
      ∷ req.name
      ∷ req.accessible_name
      ∷ req.text
      ∷ req.role
      ∷ req.tag_name
      ∷ Option.map (λ r. r.dom_id) old
      ∷ Option.map (λ r. r.name) old
      ∷ Option.map (λ r. r.text_content) old
      ∷ [])

  abbrev fields : ElementRef → List String
  fields r =
      u.to_lowercase r.dom_id
      ∷ u.to_lowercase r.name
      ∷ u.to_lowercase r.text_content
      ∷ u.to_lowercase r.tag_name
      ∷ u.to_lowercase r.role
      ∷ u.to_lowercase r.selector
      ∷ []

  -- A needle and a field match if either holds the other.
  unfoldable pub matches : List String → ElementRef → Bool
  matches needles r = any (λ n. any (λ h. contains h n || contains n h) (fields r)) needles

  -- The live elements that match some needle.
  unfoldable pub fresh_matches : List ElementRef
  unfolding matches
  fresh_matches = keep (matches (map u.to_lowercase identity)) (live ix (find_all ix))

  abbrev pub fresh : List String → List ElementRef → Option TierAttempt
  fresh [] matched = skip fresh_dom_ax_search "no identity fields for fresh DOM/AX search"
  fresh (s ∷ ss) matched =
      judge fresh_dom_ax_search " via fresh DOM/AX search"
        (cut (join "|" (s ∷ ss)) 120 "fresh DOM/AX search miss (0 live matches for " ")"
          >>= missed fresh_dom_ax_search)
        (some ("fresh DOM/AX search ambiguous (" <> count matched <> " candidates) — never guess"))
        matched

  unfoldable pub tier_fresh_search : Option TierAttempt
  unfolding fresh_matches
  tier_fresh_search = fresh identity fresh_matches
