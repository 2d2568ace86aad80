-- ===== src/Connection/IdHint.antt =====
-- src/browser_runtime/connection.rs: the search for the `id` of a frame that is not decoded. It
-- reads the first 1024 bytes; a cut inside a character panics.
use Prim.Native.Char.{Char, code}
use Prim.Native.String.{String, len, slice}
use Prim.Native.Nat.{◌-◌}
use text.Mathlib.Text.{is_char_boundary}
use hyprfast.Base.{
  ℕ, zero, suc, ◌+◌, ◌*◌, ◌^◌, ◌≤◌, ◌≡◌, refl, Bool, true, ◌&&◌, ◌||◌, Option, none, some, ℤ, pos,
  negsuc, string_eq, ltb, leb, nat_beq, if◌then◌else◌, ◌>>=◌, arith, ◌⊎◌, inl, inr, Bool-cases,
}
use hyprfast.Base.Text.{strip_prefix, is_empty, is_whitespace}

-- What follows the first occurrence of a pattern: `find` and the slice behind it.
unfoldable pub after : String → String → Option String
unfolding strip_prefix
after p String.[] = strip_prefix p ""
after p (String.◌∷◌ c s) =
    let rest = after p s in elim (strip_prefix p (String.◌∷◌ c s)) [ some t ↦ some t | none ↦ rest ]

abbrev is_digit : Char → Bool
is_digit c = leb 48 (code c) && leb (code c) 57

unfoldable skip_spaces : String → String
unfolding is_whitespace
skip_spaces String.[] = String.[]
skip_spaces (String.◌∷◌ c s) =
    let rest = skip_spaces s in if is_whitespace c then rest else String.◌∷◌ c s

-- The digits and minus signs at the head.
unfoldable number : String → String
number String.[] = String.[]
number (String.◌∷◌ c s) =
    let rest = number s in
    if is_digit c || nat_beq (code c) 45 then String.◌∷◌ c rest else String.[]

-- The value of a text of digits, with the value read so far.
unfoldable value : ℕ → String → Option ℕ
value n String.[] = some n
value n (String.◌∷◌ c s) =
    let rest = value (n * 10 + (code c - 48)) s in if is_digit c then rest else none

abbrev negated : ℕ → Option ℤ
negated zero = some (pos 0)
negated (suc n) = if ltb n (2 ^ 63) then some (negsuc n) else none

-- `parse::<i64>` of digits and minus signs.
unfoldable pub parse_i64 : String → Option ℤ
unfolding value
parse_i64 String.[] = none
parse_i64 (String.◌∷◌ c s) =
    if nat_beq (code c) 45
    then (if is_empty s then none else value 0 s >>= negated)
    else value 0 (String.◌∷◌ c s) >>= (λ n. if ltb n (2 ^ 63) then some (pos n) else none)

-- The number behind the first `"id"` and the colon after it.
unfoldable pub scan : String → Option ℤ
unfolding after skip_spaces number parse_i64
scan head = do
  rest ← after "\"id\"" head
  text ← after ":" rest
  parse_i64 (number (skip_spaces text))

unfoldable pub extract_id_prefix : String → Option (Option ℤ)
unfolding scan
extract_id_prefix text =
    if leb (len text) 1024
    then some (scan text)
    else if is_char_boundary text 1024
    then some (scan (slice text 0 1024))
    else none

-- The cut at 1024 bytes falls between two characters.
abbrev pub IsWhole : String → Type 0
IsWhole text = (len text ≤ 1024) ⊎ (is_char_boundary text 1024 ≡ true)

-- No panic on such a text.
pub extract_id_prefix_total :
    (text : String) → IsWhole text → (hint : Option ℤ) × (extract_id_prefix text ≡ some hint)
unfolding extract_id_prefix
extract_id_prefix_total text (inl h) = (scan text, ground arith)
extract_id_prefix_total text (inr h) = elim (Bool-cases (leb (len text) 1024)) [
  | inl e ↦ (scan text, rw e refl)
  | inr e ↦ (scan (slice text 0 1024), rw (e, h) refl)
]

test_scan : (scan "{\"id\": 42,\"result\"" ≡ some (pos 42)) × (scan "{\"id\":-" ≡ none)
unfolding scan
test_scan = (refl, refl)
