-- ===== src/Elements/Resolve/Total.antt =====
-- src/browser_runtime/element_index.rs: a resolution returns.
use Prim.Native.String.{len}
use hyprfast.Base.{ℕ, ◌≤◌, String, ◌≡◌, refl, Option, none, some, arith}
use hyprfast.Base.Text.{Unicode, truncate}
use hyprfast.Json.{Json}
use hyprfast.Elements.{ElementIndex, ResolveRequest}
use hyprfast.Elements.Resolve.{
  resolve, exhausted, sanitize_request_for_log, opt_truncate, tiers, first, answer_or,
}

-- A text that is absent or short is not cut.
abbrev pub IsShort : Option String → Type 0
IsShort none = Unit {0}
IsShort (some s) = len s ≤ 80

pub truncate-short : (s : String) {n : ℕ} → len s ≤ n → truncate s n ≡ some s
unfolding truncate
truncate-short s h = ground arith

abbrev pub Returns : {A : Type 0} → Option A → Type 0
Returns {A} o = (a : A) × (o ≡ some a)

module _ {V : Type 0} (J : Json V) where
  pub opt_truncate-short : (o : Option String) → IsShort o → opt_truncate J o ≡ some o
  opt_truncate-short none h = refl
  opt_truncate-short (some s) h = rw (truncate-short s h) refl

  -- A resolution does not panic on a request whose selector and text are at most 80 bytes long.
  pub resolve-Returns :
      (u : Unicode) (ix : ElementIndex) (req : ResolveRequest)
      → IsShort req.selector
      → IsShort req.text
      → Returns (resolve J u ix req)
  unfolding resolve exhausted sanitize_request_for_log
  resolve-Returns u ix req h k =
      elim (first (tiers u ix req)) as (λ o. Returns (answer_or (exhausted J req) o)) [
        | none ↦ rw (opt_truncate-short req.selector h, opt_truncate-short req.text k) (_, refl)
        | some a ↦ (a, refl)
      ]
