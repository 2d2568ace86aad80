-- ===== src/Error/Wire.antt =====
-- src/browser_runtime/error.rs: what the encoding on the wire keeps.
use mathlib.Core.Option
use hyprfast.Base.{
  ℕ, ◌∙◌, pos, Option, none, ◌>>=◌, ◌<◌, ◌^◌, ◌≡◌, refl, String, some, List, [], ◌∷◌, map, arith,
  IsI64, u64_mod,
}
use native.Mathlib.Nat.{mod-eq_of_lt}
use hyprfast.Json.{Json, IsLawful, entry}
use hyprfast.Error.{
  RuntimeError, strings, decode, detail_wire, detail_of, field_or, to_wire, from_wire, wire_type,
}

-- The numbers of an error are values of the types `u64`, `i64` and `u32` of its fields.
abbrev pub IsInRange : RuntimeError → Type 0
IsInRange (RuntimeError.timeout m ms) = ms < u64_mod
IsInRange (RuntimeError.cdp_error m c t) = IsI64 c
IsInRange (RuntimeError.protocol_mismatch expected got) = (expected < 2 ^ 32) × (got < 2 ^ 32)
IsInRange _ = Unit {0}

module _ {V : Type 0} (J : Json V) (L : IsLawful J) where
  strings-map : (cs : List String) → strings J (map J.str cs) ≡ cs
  unfolding strings
  strings-map [] = refl
  strings-map (c ∷ cs) = rw (L.as_str-str c, strings) (rw (strings-map cs))

  field_or-obj :
      {A : Type 0} (fields : List (String × V)) (k : String) (accessor : V → Option A) (default : A)
      → field_or J (J.obj fields) k accessor default
        ≡ (elim (entry k fields >>= accessor) [ none ↦ default | some a ↦ a ])
  unfolding field_or
  field_or-obj fields k accessor default = rw (L.get-obj fields k, field_or)

  from_wire-obj :
      (fields : List (String × V)) (t : String)
      → entry "type" fields ≡ some (J.str t)
      → from_wire J (J.obj fields) ≡ decode J (J.obj fields) t
  unfolding from_wire
  from_wire-obj fields t h = rw L.get-obj (rw h (rw L.as_str-str))

  from_wire-detail_wire :
      (e : RuntimeError) (d : String)
      → from_wire J (detail_wire J e d) ≡ decode J (detail_wire J e d) (wire_type e)
  unfolding detail_wire
  from_wire-detail_wire e d = from_wire-obj _ (wire_type e) refl

  field_str :
      (fields : List (String × V)) (k d s : String)
      → entry k fields ≡ some (J.str s)
      → field_or J (J.obj fields) k J.as_str d ≡ s
  field_str fields k d s h = rw field_or-obj (rw h (rw L.as_str-str))

  detail_of-obj :
      (fields : List (String × V)) (d : String)
      → entry "detail" fields ≡ some (J.str d)
      → detail_of J (J.obj fields) ≡ d
  unfolding detail_of
  detail_of-obj fields d h = field_str fields "detail" "" d h

  detail_of-detail_wire : (e : RuntimeError) (d : String) → detail_of J (detail_wire J e d) ≡ d
  unfolding detail_wire
  detail_of-detail_wire e d = detail_of-obj _ d refl

  field_u64 :
      (fields : List (String × V)) (k : String) (d n : ℕ)
      → entry k fields ≡ some (J.uint n)
      → n < u64_mod
      → field_or J (J.obj fields) k J.as_u64 d ≡ n
  field_u64 fields k d n h lt = rw field_or-obj (rw h (rw (L.as_u64-uint n lt)))

  field_strings :
      (fields : List (String × V)) (k : String) (cs : List String)
      → entry k fields ≡ some (J.arr (map J.str cs))
      → field_or J (J.obj fields) k (λ c. Option.map (strings J) (J.as_array c)) [] ≡ cs
  field_strings fields k cs h = rw field_or-obj (rw h (rw L.as_array-arr (strings-map cs)))

  -- Decoding an encoded error gives the error back, for each of the 19 variants, if its numbers
  -- fit the types of its fields and the JSON library reads back what it wrote.
  pub from_wire-to_wire : (e : RuntimeError) → IsInRange e → from_wire J (to_wire J e) ≡ some e
  unfolding to_wire decode wire_type
  from_wire-to_wire (RuntimeError.timeout m ms) h =
      from_wire-obj _ "Timeout" refl
      ∙ cc (field_str _ "method" "" m refl, field_u64 _ "timeout_ms" 0 ms refl h)
  from_wire-to_wire (RuntimeError.cdp_error m c t) h =
      from_wire-obj _ "CdpError" refl
      ∙ cc (
        field_str _ "method" "" m refl,
        field_or-obj _ "code" J.as_i64 (pos 0),
        L.as_i64-int c h,
        field_str _ "message" "" t refl,
      )
  from_wire-to_wire (RuntimeError.protocol_mismatch expected got) h =
      from_wire-obj _ "ProtocolMismatch" refl
      ∙ cc (
        field_u64 _ "expected" 0 expected refl (omega arith),
        field_u64 _ "got" 0 got refl (omega arith),
        mod-eq_of_lt h.0,
        mod-eq_of_lt h.1,
      )
  from_wire-to_wire (RuntimeError.ambiguous_element cs d) h =
      from_wire-obj _ "AmbiguousElement" refl
      ∙ cc (field_strings _ "candidates" cs refl, detail_of-obj _ d refl)
  from_wire-to_wire _ h = simp from_wire-detail_wire (simp detail_of-detail_wire)
