-- ===== src/Elements/Query/Laws.antt =====
-- src/browser_runtime/element_index.rs: what the searches return stands in the index.
use hyprfast.Base.{
  Eq, String, ◌≡◌, refl, inl, inr, Bool, Option, none, some, List, [], ◌∷◌, arith, ◌==◌, string_eq,
  int_eq, ◌>>=◌, keep, In, All, Bool-cases, ℤ,
}
use hyprfast.Base.Map
use hyprfast.Base.Map.{Map, values}
use hyprfast.Base.Text.{Unicode}
use hyprfast.Elements.{ElementRef, ElementIndex}
use hyprfast.Elements.Store.{get, get_by_backend}
use hyprfast.Elements.Query.{
  find_all, find_all_piercing, find_by_dom_id, find_by_name, find_by_role, find_by_role_name,
  find_by_text, find_by_selector,
}

pub All-keep :
    {A : Type 0} (P : A → Type 0) (p : A → Bool) (xs : List A) → All P xs → All P (keep p xs)
All-keep P p [] h = h
All-keep P p (x ∷ xs) h = elim (Bool-cases (p x)) [
  | inl e ↦ rw e (h.0, All-keep P p xs h.1)
  | inr e ↦ rw e (All-keep P p xs h.1)
]

pub All-weaken :
    {A : Type 0} (P Q : A → Type 0) (xs : List A) → ((x : A) → P x → Q x) → All P xs → All Q xs
All-weaken P Q [] f h = h
All-weaken P Q (x ∷ xs) f h = (f x h.0, All-weaken P Q xs f h.1)

All-In : {A : Type 0} (xs : List A) → All (λ x. In x xs) xs
All-In [] = tt
All-In (x ∷ xs) =
    (inl refl, All-weaken (λ y. In y xs) (λ y. In y (x ∷ xs)) xs (λ y m. inr m) (All-In xs))

module _ {K V : Type 0} ⦃e : Eq K⦄ where
  pub get-In : (k : K) (m : Map K V) (v : V) → Map.get k m ≡ some v → In v (values m)
  unfolding Map.get
  get-In k [] v h = cc
  get-In k ((j, w) ∷ m) v h = elim (Bool-cases (j == k)) [
    | inl q ↦ inl (ground arith)
    | inr q ↦ inr (get-In k m v (ground arith))
  ]

module _ (ix : ElementIndex) where
  -- The reference stands in the index.
  abbrev pub IsStored : ElementRef → Type 0
  IsStored r = In r (values ix.elements)

  pub keep-IsStored : (p : ElementRef → Bool) → All IsStored (keep p (values ix.elements))
  keep-IsStored p = All-keep IsStored p (values ix.elements) (All-In (values ix.elements))

  pub get-IsStored : (id : String) (r : ElementRef) → get ix id ≡ some r → IsStored r
  unfolding get
  get-IsStored id r h = get-In id ix.elements r h

  pub get_by_backend-IsStored :
      (backend : ℤ) (r : ElementRef) → get_by_backend ix backend ≡ some r → IsStored r
  unfolding get_by_backend
  get_by_backend-IsStored backend r h = from (Map.get backend ix.backend_map) h
    where
      from : (o : Option String) → (o >>= get ix) ≡ some r → IsStored r
      from none q = cc
      from (some id) q = get-IsStored id r q

  pub find_all-IsStored : All IsStored (find_all ix)
  unfolding find_all
  find_all-IsStored = All-In (values ix.elements)

  pub find_by_dom_id-IsStored : (s : String) → All IsStored (find_by_dom_id ix s)
  unfolding find_by_dom_id
  find_by_dom_id-IsStored s = keep-IsStored _

  pub find_by_name-IsStored : (s : String) → All IsStored (find_by_name ix s)
  unfolding find_by_name
  find_by_name-IsStored s = keep-IsStored _

  pub find_by_role-IsStored : (s : String) → All IsStored (find_by_role ix s)
  unfolding find_by_role
  find_by_role-IsStored s = keep-IsStored _

  pub find_by_role_name-IsStored : (s t : String) → All IsStored (find_by_role_name ix s t)
  unfolding find_by_role_name
  find_by_role_name-IsStored s t = keep-IsStored _

  pub find_by_text-IsStored : (u : Unicode) (s : String) → All IsStored (find_by_text u ix s)
  unfolding find_by_text
  find_by_text-IsStored u s = keep-IsStored _

  pub find_by_selector-IsStored : (s : String) → All IsStored (find_by_selector ix s)
  unfolding find_by_selector
  find_by_selector-IsStored s = keep-IsStored _

  pub find_all_piercing-IsStored : All IsStored (find_all_piercing ix)
  unfolding find_all_piercing
  find_all_piercing-IsStored = find_all-IsStored
