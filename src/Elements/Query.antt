-- ===== src/Elements/Query.antt =====
-- src/browser_runtime/element_index.rs: the searches of the index. The order of the results is the
-- order of the map's entries, which Rust leaves open.
pub mod Laws
use hyprfast.Base.{
  ℕ, String, Bool, true, false, ◌&&◌, ◌||◌, List, [], ◌∷◌, ◌==◌, string_eq, if◌then◌else◌, keep,
}
use hyprfast.Base.Map.{values}
use hyprfast.Base.Text.{Unicode, contains, is_empty}
use hyprfast.Elements.{ElementRef, ElementIndex}

unfoldable pub find_all : ElementIndex → List ElementRef
find_all ix = values ix.elements

unfoldable pub find_all_piercing : ElementIndex → List ElementRef
unfolding find_all
find_all_piercing ix = find_all ix

unfoldable pub find_by_dom_id : ElementIndex → String → List ElementRef
find_by_dom_id ix dom_id = keep (λ r. r.dom_id == dom_id) (values ix.elements)

unfoldable pub find_by_name : ElementIndex → String → List ElementRef
find_by_name ix name = keep (λ r. r.name == name || r.text_content == name) (values ix.elements)

unfoldable pub find_by_role : ElementIndex → String → List ElementRef
find_by_role ix role = keep (λ r. r.role == role) (values ix.elements)

unfoldable pub find_by_role_name : ElementIndex → String → String → List ElementRef
find_by_role_name ix role name =
    keep (λ r. r.role == role && (r.name == name || r.text_content == name)) (values ix.elements)

-- The element's text or name holds the needle, which is in lower case.
unfoldable pub mentions : Unicode → String → ElementRef → Bool
mentions u needle r =
    contains (u.to_lowercase r.text_content) needle || contains (u.to_lowercase r.name) needle

unfoldable pub find_by_text : Unicode → ElementIndex → String → List ElementRef
unfolding mentions
find_by_text u ix text = keep (mentions u (u.to_lowercase text)) (values ix.elements)

unfoldable pub find_by_selector : ElementIndex → String → List ElementRef
find_by_selector ix selector = keep (λ r. r.selector == selector) (values ix.elements)

-- `raw.trim_start_matches('#')`
unfoldable pub trim_hashes : String → String
trim_hashes String.[] = ""
trim_hashes (String.◌∷◌ c s) =
    let rest = trim_hashes s in if String.◌∷◌ c String.[] == "#" then rest else String.◌∷◌ c s

abbrev or_next : List ElementRef → List ElementRef → List ElementRef
or_next [] next = next
or_next (r ∷ rs) next = r ∷ rs

unfoldable pub find_by_selector_or_id : ElementIndex → String → List ElementRef
unfolding find_by_selector find_by_dom_id trim_hashes
find_by_selector_or_id ix raw = or_next (find_by_selector ix raw) (
    or_next (if trim_hashes raw == raw then [] else find_by_dom_id ix (trim_hashes raw))
      (find_by_dom_id ix raw))
