-- ===== src/Base/Text.antt =====
-- Rust's `str` operations, by recursion over the characters of a text.
pub mod Words
use Prim.Native.Char.{Char, code}
use Prim.Native.String.{String, len, slice, ◌++◌ as ◌<>◌}
use Prim.Native.Nat.{ℕ, zero, suc, ◌/◌, ◌%◌}
use mathlib.Core.Path.{◌≡◌, refl}
use mathlib.Core.Bool.{Bool, true, false, ◌&&◌, ◌||◌}
use mathlib.Core.Option.{Option, none, some}
use mathlib.Core.List.{List, [], ◌∷◌}
use text.Mathlib.Text.{is_char_boundary}
use hyprfast.Base.Core.{ltb, leb, nat_beq, if◌then◌else◌, string_eq}
use hyprfast.Base.Int.{ℤ, pos, negsuc}

-- `char::is_whitespace`: the property White_Space of Unicode.
unfoldable pub is_whitespace : Char → Bool
is_whitespace c =
    let n = code c in
    (leb 9 n && leb n 13)
    || nat_beq n 32
    || nat_beq n 0x85
    || nat_beq n 0xA0
    || nat_beq n 0x1680
    || (leb 0x2000 n && leb n 0x200A)
    || nat_beq n 0x2028
    || nat_beq n 0x2029
    || nat_beq n 0x202F
    || nat_beq n 0x205F
    || nat_beq n 0x3000

-- `s.is_empty()`
abbrev pub is_empty : String → Bool
is_empty String.[] = true
is_empty (String.◌∷◌ c s) = false

-- `s.strip_prefix(p)`, the prefix first.
unfoldable pub strip_prefix : String → String → Option String
strip_prefix String.[] s = some s
strip_prefix (String.◌∷◌ c p) String.[] = none
strip_prefix (String.◌∷◌ c p) (String.◌∷◌ d s) =
    let rest = strip_prefix p s in if nat_beq (code c) (code d) then rest else none

abbrev pub is_some {ℓ} : {A : Type ℓ} → Option A → Bool
is_some none = false
is_some (some a) = true

-- `s.contains(p)`, the text first.
unfoldable pub contains : String → String → Bool
unfolding strip_prefix
contains String.[] p = is_empty p
contains (String.◌∷◌ c s) p = is_some (strip_prefix p (String.◌∷◌ c s)) || contains s p

-- `s.trim().is_empty()`
unfoldable pub is_blank : String → Bool
is_blank String.[] = true
is_blank (String.◌∷◌ c s) = is_whitespace c && is_blank s

-- The characters up to the first white space.
unfoldable pub word : String → String
word String.[] = String.[]
word (String.◌∷◌ c s) =
    let rest = word s in if is_whitespace c then String.[] else String.◌∷◌ c rest

-- `s.split_whitespace().next()`
unfoldable pub first_word : String → Option String
unfolding word
first_word String.[] = none
first_word (String.◌∷◌ c s) =
    let rest = first_word s in if is_whitespace c then rest else some (word (String.◌∷◌ c s))

-- `parts.join(separator)`
unfoldable pub join : String → List String → String
join sep [] = ""
join sep (s ∷ []) = s
join sep (s ∷ t ∷ rest) = s <> (sep <> join sep (t ∷ rest))

-- The digits of `n` in front of `acc`; `n < 10 ^ fuel` suffices.
digits_from : ℕ → ℕ → String → String
digits_from zero n acc = acc
digits_from (suc fuel) n acc =
    let acc' = digit (n % 10) <> acc in
    let rest = digits_from fuel (n / 10) acc' in if ltb n 10 then acc' else rest
  where
    digit : ℕ → String
    digit d =
        if nat_beq d 0
        then "0"
        else if nat_beq d 1
        then "1"
        else if nat_beq d 2
        then "2"
        else if nat_beq d 3
        then "3"
        else if nat_beq d 4
        then "4"
        else if nat_beq d 5
        then "5"
        else if nat_beq d 6
        then "6"
        else if nat_beq d 7
        then "7"
        else if nat_beq d 8
        then "8"
        else "9"

-- `{n}` of an unsigned integer of 64 bits, which has at most 20 digits.
unfoldable pub decimal : ℕ → String
unfolding digits_from
decimal n = digits_from 20 n ""

-- `{n:03}`
unfoldable pub decimal_3 : ℕ → String
unfolding decimal
decimal_3 n =
    if ltb n 10 then "00" <> decimal n else if ltb n 100 then "0" <> decimal n else decimal n

-- `{n}` of an `i64`.
unfoldable pub decimal_ℤ : ℤ → String
unfolding decimal
decimal_ℤ (pos n) = decimal n
decimal_ℤ (negsuc n) = "-" <> decimal (suc n)

-- `if s.len() <= n { s } else { format!("{}…", &s[..n]) }`: a slice that ends inside a character
-- panics.
unfoldable pub truncate : String → ℕ → Option String
truncate s n =
    if leb (len s) n
    then some s
    else if is_char_boundary s n
    then some (slice s 0 n <> "…")
    else none

-- What Rust does by tables of Unicode: `str::to_lowercase` and the escapes of `{:?}`.
pub record Unicode : Type 0 where
  pub to_lowercase : String → String
  pub debug : String → String

test_first_word : first_word " e_001 via x" ≡ some "e_001"
unfolding first_word is_whitespace
test_first_word = refl

test_contains :
    (contains "a:contains(b)" ":contains" ≡ true) × (contains "a:conta" ":contains" ≡ false)
unfolding contains
test_contains = (refl, refl)

test_decimal : (decimal 1203 ≡ "1203") × (decimal_3 7 ≡ "007") × (decimal_ℤ (negsuc 41) ≡ "-42")
unfolding decimal_3 decimal_ℤ
test_decimal = (refl, refl, refl)

test_truncate : (truncate "abé" 3 ≡ none) × (truncate "abcd" 3 ≡ some "abc…")
unfolding truncate
test_truncate = (refl, refl)
