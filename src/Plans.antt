-- ===== src/Plans.antt =====
-- src/browser_runtime/plan.rs: the steps of a plan, and their validation. The crate url and
-- the numbers `f64` are parameters.
pub mod Validated
pub mod Execution
use hyprfast.Base.{
  ℕ, zero, suc, ◌+◌, String, ◌<>◌, Bool, true, false, not, ◌&&◌, ◌||◌, Option, none, some, List, [],
  ◌∷◌, map, ◌==◌, string_eq, ltb, nat_beq, if◌then◌else◌, length,
}
use hyprfast.Base.Text.{decimal, strip_prefix, is_some, is_blank, contains}
use hyprfast.Json.{Json}

-- src/browser_runtime/server.rs
pub data CapabilityClass : Type 0 where
  runtime_evaluate cookies clipboard file_upload download navigation no_capability : CapabilityClass

unfoldable pub as_str : CapabilityClass → String
as_str runtime_evaluate = "runtime_evaluate"
as_str cookies = "cookies"
as_str clipboard = "clipboard"
as_str file_upload = "file_upload"
as_str download = "download"
as_str navigation = "navigation"
as_str no_capability = "none"

-- `Url::parse` gives the text of its error, if there is one; `F` is `f64`, with the two comparisons
-- that the code makes and `{}`; and `{:?}` of a text.
pub record Outside (F : Type 0) : Type 0 where
  pub parse_url : String → Option String
  pub is_negative : F → Bool
  pub is_over_300 : F → Bool
  pub display : F → String
  pub debug : String → String

pub data PlanStep (F : Type 0) : Type 0 where
  navigate : String → PlanStep F
  click : Option String → Option String → Option String → PlanStep F
  type_text : String → Option String → Option String → Bool → PlanStep F
  fill : String → String → Bool → PlanStep F
  select : Option String → Option String → List String → PlanStep F
  press : String → PlanStep F
  hover : Option String → Option String → Option String → PlanStep F
  wait : Option F → Option String → Option String → Option String → Option ℕ → PlanStep F
  eval : String → PlanStep F
  extract : Option String → Option String → Option String → Option String → PlanStep F
  go_back : PlanStep F
  go_forward : PlanStep F
  tabs : PlanStep F
  snapshot : Option ℕ → PlanStep F

-- `Result<(), String>`
pub data Verdict : Type 0 where
  valid : Verdict
  invalid : String → Verdict

abbrev present : Option String → Bool
present none = false
present (some s) = not (is_blank s)

abbrev has_contains : Option String → Bool
has_contains none = false
has_contains (some s) = contains s ":contains"

abbrev starts_with : String → String → Bool
starts_with s p = is_some (strip_prefix p s)

abbrev reject_if : Bool → String → Verdict → Verdict
reject_if true text v = invalid text
reject_if false text v = v

module _ {F : Type 0} where
  unfoldable pub tag : PlanStep F → String
  tag (navigate _) = "navigate"
  tag (click _ _ _) = "click"
  tag (type_text _ _ _ _) = "type"
  tag (fill _ _ _) = "fill"
  tag (select _ _ _) = "select"
  tag (press _) = "press"
  tag (hover _ _ _) = "hover"
  tag (wait _ _ _ _ _) = "wait"
  tag (eval _) = "eval"
  tag (extract _ _ _ _) = "extract"
  tag go_back = "go_back"
  tag go_forward = "go_forward"
  tag tabs = "tabs"
  tag (snapshot _) = "snapshot"

  unfoldable pub capability : PlanStep F → CapabilityClass
  capability (navigate _) = navigation
  capability go_back = navigation
  capability go_forward = navigation
  capability tabs = no_capability
  capability (snapshot _) = no_capability
  capability (wait _ _ _ _ _) = no_capability
  capability _ = runtime_evaluate

module _ {F : Type 0} (O : Outside F) where
  abbrev checked_url : String → Option String → Verdict
  checked_url url none = valid
  checked_url url (some e) = invalid ("navigate: invalid url " <> (O.debug url <> (": " <> e)))

  -- A url of a known scheme that starts with `http` must parse; anything else is accepted.
  unfoldable pub validate_url : String → Verdict
  validate_url url =
      if starts_with url "http://"
        || starts_with url "https://"
        || starts_with url "file://"
        || url == "about:blank"
      then (if starts_with url "http" then checked_url url (O.parse_url url) else valid)
      else valid

  abbrev checked_time : Option F → Verdict
  checked_time none = valid
  checked_time (some t) =
      reject_if (O.is_negative t || O.is_over_300 t)
        ("wait: time " <> (O.display t <> " out of range [0,300]")) valid

  abbrev checked_nodes : Option ℕ → Verdict
  checked_nodes none = valid
  checked_nodes (some n) =
      reject_if (nat_beq n 0 || ltb 10000 n)
        ("snapshot: max_nodes " <> (decimal n <> " out of range")) valid

  unfoldable pub validate_step : PlanStep F → Verdict
  unfolding validate_url
  validate_step (navigate url) =
      reject_if (is_blank url) "navigate: url must be non-empty" (validate_url url)
  validate_step (click selector ref element) =
      reject_if (not (present selector || present ref || present element))
        "click: need selector, ref, or element"
        (reject_if (has_contains selector)
          "click: selector must not contain :contains() — use extract/text tier instead" valid)
  validate_step (type_text text selector ref submit) =
      reject_if (has_contains selector) "type: selector must not contain :contains()" valid
  validate_step (fill selector text submit) =
      reject_if (is_blank selector) "fill: selector must be non-empty" (
        reject_if (contains selector ":contains") "fill: selector must not contain :contains()"
          valid)
  validate_step (select selector ref []) = invalid "select: values must be non-empty"
  validate_step (select selector ref (v ∷ values)) =
      reject_if (not (present selector || present ref)) "select: need selector or ref" valid
  validate_step (press key) = reject_if (is_blank key) "press: key must be non-empty" valid
  validate_step (hover selector ref element) =
      reject_if (not (present selector || present ref || present element))
        "hover: need selector, ref, or element" valid
  validate_step (wait time _ _ _ _) = checked_time time
  validate_step (eval expression) =
      reject_if (is_blank expression) "eval: expression must be non-empty" valid
  validate_step (extract selector attribute instruction text) =
      reject_if (not (present selector || present instruction || present text))
        "extract: need selector, instruction, or text" valid
  validate_step go_back = valid
  validate_step go_forward = valid
  validate_step tabs = valid
  validate_step (snapshot max_nodes) = checked_nodes max_nodes

  -- The loop over the steps, from the index `i` on.
  unfoldable pub validate_steps : ℕ → List (PlanStep F) → Verdict
  unfolding validate_step tag
  validate_steps i [] = valid
  validate_steps i (s ∷ steps) =
      let rest = validate_steps (i + 1) steps in
      elim (validate_step s) [
        | valid ↦ rest
        | invalid e ↦ invalid ("step " <> (decimal i <> (" (" <> (tag s <> ("): " <> e)))))
      ]

  unfoldable pub validate : List (PlanStep F) → Verdict
  unfolding validate_steps
  validate [] = invalid "plan must have at least one step"
  validate (s ∷ steps) =
      let n = length (s ∷ steps) in
      if ltb 100 n
      then invalid ("plan has " <> (decimal n <> " steps, max 100"))
      else validate_steps 0 (s ∷ steps)
