-- ===== src/Elements/Selector/Laws.antt =====
-- src/browser_runtime/element_index.rs: what the derived selectors tell apart, and which of them
-- the index accepts.
use Prim.Native.Char.{Char, code}
use Prim.Native.String.append
use text.Mathlib.TextLemmas.{append_assoc}
use hyprfast.Base.{
  String, ◌<>◌, ◌≡◌, refl, sym, ap, ◌∙◌, Bool, true, false, List, arith, Bool-cases, inl, inr,
  if◌then◌else◌, nat_beq,
}
use hyprfast.Base.Text.{Unicode, is_empty, contains}
use hyprfast.Base.Text.Words.{contains-append}
use hyprfast.Error.{err, invalid_selector}
use hyprfast.Elements.Selector.{is_special, css_escape, build_selector, validate_selector}

-- An inverse of `css_escape`: after a backslash, the next character is literal.
abbrev unescape : Bool → String → String
unescape b String.[] = String.[]
unescape true (String.◌∷◌ c s) = String.◌∷◌ c (unescape false s)
unescape false (String.◌∷◌ c s) =
    let literal = unescape true s in
    let rest = String.◌∷◌ c (unescape false s) in if nat_beq (code c) 92 then literal else rest

backslash : (s : String) → "\\" <> s ≡ String.◌∷◌ "\\" s
backslash s = append.cons "\\" "" s ∙ ap (String.◌∷◌ "\\") (append.nil s)

is_special-backslash : (c : Char) → is_special c ≡ false → nat_beq (code c) 92 ≡ false
unfolding is_special
is_special-backslash c h = ground arith

unescape-css_escape : (s : String) → unescape false (css_escape s) ≡ s
unfolding css_escape
unescape-css_escape String.[] = refl
unescape-css_escape (String.◌∷◌ c s) = elim (Bool-cases (is_special c)) [
  | inl e ↦
      rw (e, backslash (String.◌∷◌ c (css_escape s))) (ap (String.◌∷◌ c) (unescape-css_escape s))
  | inr e ↦ rw (e, is_special-backslash c e) (ap (String.◌∷◌ c) (unescape-css_escape s))
]

css_escape-append : (a b : String) → css_escape (a <> b) ≡ css_escape a <> css_escape b
unfolding css_escape
css_escape-append String.[] b = rw (append.nil b, append.nil (css_escape b)) refl
css_escape-append (String.◌∷◌ c a) b = elim (Bool-cases (is_special c)) [
  | inl e ↦
      rw
        (
          append.cons c a b,
          e,
          css_escape-append a b,
          append_assoc "\\" (String.◌∷◌ c (css_escape a)) (css_escape b),
          append.cons c (css_escape a) (css_escape b),
        )
        refl
  | inr e ↦
      rw (append.cons c a b, e, css_escape-append a b, append.cons c (css_escape a) (css_escape b))
        refl
]

hash_injective : (s t : String) → "#" <> s ≡ "#" <> t → s ≡ t
hash_injective s t e = ap tail (sym (hash s) ∙ e ∙ hash t)
  where
    tail : String → String
    tail String.[] = String.[]
    tail (String.◌∷◌ c s) = s

    hash : (s : String) → "#" <> s ≡ String.◌∷◌ "#" s
    hash s = append.cons "#" "" s ∙ ap (String.◌∷◌ "#") (append.nil s)

-- Two elements whose ids differ have different selectors.
pub build_selector-injective :
    (u : Unicode) (tag1 tag2 id1 id2 : String) (classes1 classes2 : List String)
    → is_empty id1 ≡ false
    → is_empty id2 ≡ false
    → build_selector u tag1 id1 classes1 ≡ build_selector u tag2 id2 classes2
    → id1 ≡ id2
unfolding build_selector
build_selector-injective u tag1 tag2 id1 id2 cs1 cs2 h1 h2 e =
    sym (unescape-css_escape id1)
    ∙ ap (unescape false) (hash_injective (css_escape id1) (css_escape id2) (rw (h1, h2) at e))
    ∙ unescape-css_escape id2

not_empty : (a b : String) → is_empty (a <> (":contains" <> b)) ≡ false
not_empty String.[] b = rw (append.nil (":contains" <> b), append.cons ":" "contains" b) refl
not_empty (String.◌∷◌ c a) b = rw (append.cons c a (":contains" <> b)) refl

contains-css_escape :
    (a b : String) → contains ("#" <> css_escape (a <> (":contains" <> b))) ":contains" ≡ true
unfolding css_escape
contains-css_escape a b =
    rw
      (
        css_escape-append a (":contains" <> b),
        css_escape-append ":contains" b,
        append_assoc "\\" ":contains" (css_escape b),
        sym (append_assoc (css_escape a) "\\" (":contains" <> css_escape b)),
        sym (append_assoc "#" (css_escape a <> "\\") (":contains" <> css_escape b)),
      )
      (contains-append ("#" <> (css_escape a <> "\\")) ":contains" (css_escape b))

-- The selector of an element whose id holds the text `:contains` is one that the index refuses.
pub validate_selector-build_selector :
    (u : Unicode) (tag a b : String) (classes : List String)
    → validate_selector (build_selector u tag (a <> (":contains" <> b)) classes)
      ≡ err (invalid_selector "selector contains :contains() — invalid CSS, use text tier instead")
unfolding validate_selector build_selector
validate_selector-build_selector u tag a b classes =
    rw (not_empty a b, contains-css_escape a b) refl
