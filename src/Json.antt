-- ===== src/Json.antt =====
-- The JSON values of the crate serde_json, which the code uses and the repository does not hold.
-- Their type is a parameter `V`, with the constructors and accessors that the code calls.
use hyprfast.Base.{
  ℕ, ◌<◌, ◌≡◌, String, Option, none, some, List, [], ◌∷◌, Bool, ℤ, IsI64, u64_mod, ◌==◌, string_eq,
  if◌then◌else◌,
}

pub record Json (V : Type 0) : Type 0 where
  pub null : V
  pub str : String → V
  pub uint : ℕ → V
  pub int : ℤ → V
  pub arr : List V → V
  pub obj : List (String × V) → V
  -- `v.get(key)`
  pub get : V → String → Option V
  pub as_str : V → Option String
  pub as_u64 : V → Option ℕ
  pub as_i64 : V → Option ℤ
  pub as_array : V → Option (List V)
  pub as_bool : V → Option Bool
  pub is_null : V → Bool
  -- `serde_json::from_str`
  pub from_str : String → Option V
  -- `{:?}`
  pub debug : V → String

module _ {V : Type 0} where
  -- The value of a key in a literal `json!({…})`: the last entry counts.
  abbrev pub entry : String → List (String × V) → Option V
  entry k [] = none
  entry k ((j, v) ∷ fields) = elim (entry k fields) [
    | some w ↦ some w
    | none ↦ if j == k then some v else none
  ]

  -- An accessor gives back what its constructor was given.
  pub record IsLawful (J : Json V) : Type 0 where
    pub get-obj :
        (fields : List (String × V)) (k : String) → J.get (J.obj fields) k ≡ entry k fields
    pub as_str-str : (s : String) → J.as_str (J.str s) ≡ some s
    pub as_u64-uint : (n : ℕ) → n < u64_mod → J.as_u64 (J.uint n) ≡ some n
    pub as_i64-int : (z : ℤ) → IsI64 z → J.as_i64 (J.int z) ≡ some z
    pub as_array-arr : (vs : List V) → J.as_array (J.arr vs) ≡ some vs
