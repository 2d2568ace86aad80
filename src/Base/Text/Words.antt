-- ===== src/Base/Text/Words.antt =====
-- A word at the head of a text, and what `contains` finds in one.
use Prim.Native.Char.{Char, code}
use Prim.Native.String.{String, ◌++◌ as ◌<>◌}
use Prim.Native.String.append
use mathlib.Core.Path.{◌≡◌, refl, ap}
use mathlib.Core.Logic.{◌⊎◌, inl, inr}
use mathlib.Core.Bool.{Bool, true, false, not, ◌&&◌}
use mathlib.Core.Option.{some}
use native.Mathlib.Omega.{arith}
use hyprfast.Base.Core.{nat_beq_iff}
use hyprfast.Base.Text.{strip_prefix, contains, is_whitespace, is_empty, word, first_word}

abbrev pub no_space : String → Bool
no_space String.[] = true
no_space (String.◌∷◌ c s) = not (is_whitespace c) && no_space s

-- A text that is not empty and holds no white space.
abbrev pub IsWord : String → Type 0
IsWord s = (is_empty s ≡ false) × (no_space s ≡ true)

-- What may follow a word: nothing, or a space.
abbrev pub IsAfter : String → Type 0
IsAfter s = (s ≡ "") ⊎ ((t : String) × (s ≡ " " <> t))

pub strip_prefix-append : (p s : String) → strip_prefix p (p <> s) ≡ some s
unfolding strip_prefix
strip_prefix-append String.[] s = ap some (append.nil s)
strip_prefix-append (String.◌∷◌ c p) s =
    rw (append.cons c p s, (nat_beq_iff (code c) (code c)).1 refl) (strip_prefix-append p s)

space_after : (t : String) → word (" " <> t) ≡ ""
unfolding word is_whitespace
space_after t = rw (append.cons " " "" t)

word-append : (s t : String) → no_space s ≡ true → IsAfter t → word (s <> t) ≡ s
unfolding word
word-append String.[] t h (inl e) = rw (append.nil t) (rw e refl)
word-append String.[] t h (inr (x, e)) = rw (append.nil t) (rw e (space_after x))
word-append (String.◌∷◌ c s) t h e =
    rw (append.cons c s t) (ground (arith, word-append s t (ground arith) e))

-- The word at the head of a text is found again, whatever follows it after a space.
pub first_word-append : (s t : String) → IsWord s → IsAfter t → first_word (s <> t) ≡ some s
unfolding first_word
first_word-append String.[] t h e = absurd (cc h.0)
first_word-append (String.◌∷◌ c s) t h e =
    rw (append.cons c s t)
      (ground (arith, rw (append.cons c s t) at (word-append (String.◌∷◌ c s) t h.1 e)))

pub contains_of_prefix : (s p t : String) → strip_prefix p s ≡ some t → contains s p ≡ true
unfolding contains strip_prefix
contains_of_prefix String.[] String.[] t h = refl
contains_of_prefix String.[] (String.◌∷◌ c p) t h = cc
contains_of_prefix (String.◌∷◌ d s) p t h = rw h

contains-cons : (c : Char) (s p : String) → contains s p ≡ true → contains (String.◌∷◌ c s) p ≡ true
unfolding contains
contains-cons c s p h = ground arith

-- A text contains what stands in its middle.
pub contains-append : (a p b : String) → contains (a <> (p <> b)) p ≡ true
contains-append String.[] p b =
    rw (append.nil (p <> b)) (contains_of_prefix (p <> b) p b (strip_prefix-append p b))
contains-append (String.◌∷◌ c a) p b =
    rw (append.cons c a (p <> b)) (contains-cons c (a <> (p <> b)) p (contains-append a p b))

-- Every text contains the empty one.
pub contains-empty : (s : String) → contains s "" ≡ true
unfolding contains strip_prefix
contains-empty String.[] = refl
contains-empty (String.◌∷◌ c s) = refl
