-- ===== src/Elements/Resolve.antt =====
-- src/browser_runtime/element_index.rs: the resolution of a request within the index, tier by tier.
-- A result is `none` where the code panics: a message cuts a text inside a character.
pub mod Sound
pub mod Total
use hyprfast.Base.{
  ℕ, String, ◌<>◌, Bool, true, false, Option, none, some, List, [], ◌∷◌, map, ℤ, ◌==◌, string_eq,
  if◌then◌else◌, ◌>>=◌, length,
}
use mathlib.Core.Option
use hyprfast.Base.Map
use hyprfast.Base.Text.{Unicode, decimal, truncate}
use hyprfast.Json.{Json}
use hyprfast.Error.{RuntimeError, RuntimeResult, ok, err, ambiguous_element, resolution_failed}
use hyprfast.Elements.{ElementRef, ElementIndex, ResolveRequest}
use hyprfast.Elements.Selector.{validate_selector}
use hyprfast.Elements.Store.{verify_snapshot, check_interactable, get, get_by_backend}
use hyprfast.Elements.Query.{
  find_by_dom_id, find_by_name, find_by_role, find_by_role_name, find_by_text, find_by_selector,
}

-- `self.verify_snapshot(&r)?; self.check_interactable(&r)?; return Ok(r);`
unfoldable pub accept : ElementIndex → ElementRef → RuntimeResult ElementRef
accept ix r = elim (verify_snapshot ix r) [
  | err e ↦ err e
  | ok _ ↦ elim (check_interactable r) [ err e ↦ err e | ok _ ↦ ok r ]
]

abbrev pub ids : List ElementRef → List String
ids = map (λ r. r.id)

-- A tier's answer; `none` goes on to the next tier.
abbrev Answer : Type 0
Answer = Option (RuntimeResult ElementRef)

-- One candidate is taken, several are an error.
abbrev unique : ElementIndex → String → List ElementRef → Answer
unique ix detail [] = none
unique ix detail (r ∷ []) = some (accept ix r)
unique ix detail (r ∷ s ∷ rest) = some (err (ambiguous_element (ids (r ∷ s ∷ rest)) detail))

-- One candidate is taken, several are passed over.
abbrev only : ElementIndex → List ElementRef → Answer
only ix (r ∷ []) = some (accept ix r)
only ix _ = none

abbrev found : ElementIndex → Option ElementRef → Answer
found ix none = none
found ix (some r) = some (accept ix r)

module _ (u : Unicode) (ix : ElementIndex) where
  unfoldable pub by_ref_id : Option String → Answer
  by_ref_id none = none
  by_ref_id (some id) = found ix (get ix id)

  unfoldable pub by_backend : Option ℤ → Answer
  by_backend none = none
  by_backend (some backend) = found ix (get_by_backend ix backend)

  -- The cached entry of the selector, then a scan.
  abbrev cached_or_scan : String → Option ElementRef → Answer
  cached_or_scan sel (some r) = some (accept ix r)
  cached_or_scan sel none =
      unique ix
        ("selector "
          <> u.debug sel
          <> " matches "
          <> decimal (length (find_by_selector ix sel))
          <> " elements")
        (find_by_selector ix sel)

  unfoldable pub by_selector : Option String → Answer
  by_selector none = none
  by_selector (some sel) = elim (validate_selector sel) [
    | err e ↦ some (err e)
    | ok _ ↦ cached_or_scan sel (Map.get sel ix.selector_map >>= get ix)
  ]

  unfoldable pub by_dom_id : Option String → Answer
  by_dom_id none = none
  by_dom_id (some dom_id) =
      unique ix ("dom_id " <> u.debug dom_id <> " ambiguous") (find_by_dom_id ix dom_id)

  unfoldable pub by_name : Option String → Answer
  by_name none = none
  by_name (some name) = unique ix ("name " <> u.debug name <> " ambiguous") (find_by_name ix name)

  -- Several elements of a role are no error if no name is given: the text decides.
  unfoldable pub by_role : Option String → Option String → Answer
  by_role none aname = none
  by_role (some role) (some aname) =
      unique ix
        ("role "
          <> u.debug role
          <> " + name "
          <> u.debug aname
          <> " ambiguous ("
          <> decimal (length (find_by_role_name ix role aname))
          <> " candidates)")
        (find_by_role_name ix role aname)
  by_role (some role) none = only ix (find_by_role ix role)

  unfoldable pub by_text : Option String → Answer
  by_text none = none
  by_text (some text) =
      unique ix
        ("text "
          <> u.debug text
          <> " ambiguous ("
          <> decimal (length (find_by_text u ix text))
          <> " candidates)")
        (find_by_text u ix text)

  unfoldable pub by_fresh_name : Option String → Answer
  by_fresh_name none = none
  by_fresh_name (some aname) =
      unique ix ("fresh AX search for " <> u.debug aname <> " ambiguous") (find_by_name ix aname)

  -- The tiers in their order.
  abbrev pub tiers : ResolveRequest → List Answer
  tiers req =
      by_ref_id req.ref_id
      ∷ by_backend req.backend_node_id
      ∷ by_selector req.selector
      ∷ by_dom_id req.dom_id
      ∷ by_name req.name
      ∷ by_role req.role req.accessible_name
      ∷ by_text req.text
      ∷ by_fresh_name req.accessible_name
      ∷ []

-- The first answer.
abbrev pub first : List Answer → Answer
first [] = none
first (none ∷ rest) = first rest
first (some a ∷ rest) = some a

abbrev pub answer_or :
    Option (RuntimeResult ElementRef) → Answer → Option (RuntimeResult ElementRef)
answer_or otherwise none = otherwise
answer_or otherwise (some a) = some a

module _ {V : Type 0} (J : Json V) where
  abbrev pub opt_str : Option String → V
  opt_str none = J.null
  opt_str (some s) = J.str s

  abbrev pub opt_int : Option ℤ → V
  opt_int none = J.null
  opt_int (some z) = J.int z

  -- `opt.as_deref().map(|s| truncate(s, 80))`
  abbrev pub opt_truncate : Option String → Option (Option String)
  opt_truncate none = some none
  opt_truncate (some s) = Option.map some (truncate s 80)

  unfoldable pub sanitize_request_for_log : ResolveRequest → Option V
  sanitize_request_for_log req = do
    selector ← opt_truncate req.selector
    text ← opt_truncate req.text
    some (
        J.obj (
          ("ref", opt_str req.ref_id)
          ∷ ("backend", opt_int req.backend_node_id)
          ∷ ("selector", opt_str selector)
          ∷ ("dom_id", opt_str req.dom_id)
          ∷ ("role", opt_str req.role)
          ∷ ("name", opt_str req.name)
          ∷ ("text", opt_str text)
          ∷ []))

  -- The error when no tier answers.
  unfoldable pub exhausted : ResolveRequest → Option (RuntimeResult ElementRef)
  unfolding sanitize_request_for_log
  exhausted req = do
    log ← sanitize_request_for_log req
    some (
        err (
          resolution_failed ("no element matches request " <> J.debug log <> " (tiers exhausted)")))

  unfoldable pub resolve :
      Unicode → ElementIndex → ResolveRequest → Option (RuntimeResult ElementRef)
  unfolding exhausted
  resolve u ix req = answer_or (exhausted req) (first (tiers u ix req))
