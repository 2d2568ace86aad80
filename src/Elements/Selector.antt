-- ===== src/Elements/Selector.antt =====
-- src/browser_runtime/element_index.rs: the selectors that the index derives and accepts.
pub mod Laws
use Prim.Native.Char.{Char, code}
use hyprfast.Base.{
  ℕ, String, ◌<>◌, Bool, true, false, ◌||◌, List, [], ◌∷◌, map, nat_beq, if◌then◌else◌,
}
use hyprfast.Base.Text.{Unicode, is_empty, contains, join}
use hyprfast.Error.{RuntimeResult, ok, err, invalid_selector}

unfoldable pub validate_selector : String → RuntimeResult (Unit {0})
validate_selector sel =
    if contains sel ":contains"
    then err (invalid_selector "selector contains :contains() — invalid CSS, use text tier instead")
    else ok tt

-- # . : [ ] " ' \ space > + ~ ,
unfoldable pub is_special : Char → Bool
is_special c =
    let n = code c in
    nat_beq n b'#'
    || nat_beq n b'.'
    || nat_beq n b':'
    || nat_beq n b'['
    || nat_beq n b']'
    || nat_beq n 34
    || nat_beq n 39
    || nat_beq n 92
    || nat_beq n 32
    || nat_beq n b'>'
    || nat_beq n b'+'
    || nat_beq n b'~'
    || nat_beq n b','

unfoldable pub css_escape : String → String
unfolding is_special
css_escape String.[] = ""
css_escape (String.◌∷◌ c s) =
    let rest = String.◌∷◌ c (css_escape s) in if is_special c then "\\" <> rest else rest

by_tag : Unicode → String → List String → String
by_tag u String.[] classes = "*"
by_tag u (String.◌∷◌ c tag) [] = u.to_lowercase (String.◌∷◌ c tag)
by_tag u (String.◌∷◌ c tag) (d ∷ classes) =
    u.to_lowercase (String.◌∷◌ c tag)
    <> join "" (map (λ class. "." <> css_escape class) (d ∷ classes))

unfoldable pub build_selector : Unicode → String → String → List String → String
unfolding css_escape by_tag
build_selector u tag dom_id classes =
    if is_empty dom_id then by_tag u tag classes else "#" <> css_escape dom_id
