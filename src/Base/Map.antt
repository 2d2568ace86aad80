-- ===== src/Base/Map.antt =====
-- `HashMap<K, V>` as an association list. The order of the entries stands for the unspecified
-- order in which Rust iterates.
use mathlib.Core.Path.{◌≡◌, refl, sym, ◌∙◌}
use mathlib.Core.Logic.{◌⊎◌, inl, inr, ◌≢◌}
use mathlib.Core.Option
use mathlib.Core.Option.{Option, none, some}
use mathlib.Core.List.{List, [], ◌∷◌}
use Prim.Native.Nat.{◌≤◌, ◌<◌}
use hyprfast.Base.Results.{Option-cases}
use hyprfast.Base.Lists.{length}
use native.Mathlib.Omega.{arith}
use hyprfast.Base.Core.{Eq, ◌==◌, Bool-cases, if◌then◌else◌}

abbrev pub Map {ℓ κ} : Type ℓ → Type κ → Type (ℓ ⊔ κ)
Map K V = List (K × V)

module _ {ℓ κ} {K : Type ℓ} {V : Type κ} where
  abbrev pub values : Map K V → List V
  values [] = []
  values ((k, v) ∷ m) = v ∷ values m

module _ {ℓ κ} {K : Type ℓ} {V : Type κ} ⦃e : Eq K⦄ where
  unfoldable pub get : K → Map K V → Option V
  get k [] = none
  get k ((j, v) ∷ m) = if j == k then some v else get k m

  unfoldable pub insert : K → V → Map K V → Map K V
  insert k v [] = (k, v) ∷ []
  insert k v ((j, w) ∷ m) = if j == k then (k, v) ∷ m else (j, w) ∷ insert k v m

  unfoldable pub remove : K → Map K V → Map K V
  remove k [] = []
  remove k ((j, v) ∷ m) = let rest = remove k m in if j == k then rest else (j, v) ∷ rest

  pub get-insert :
      (j k : K) (v : V) (m : Map K V) → get j (insert k v m) ≡ (if k == j then some v else get j m)
  unfolding get insert
  get-insert j k v [] = refl
  get-insert j k v ((i, w) ∷ m) =
      ground (arith, e.beq_iff k j, e.beq_iff i k, e.beq_iff i j, get-insert j k v m)

  pub get-remove : (j k : K) (m : Map K V) → get j (remove k m) ≡ (if k == j then none else get j m)
  unfolding get remove
  get-remove j k [] = ground arith
  get-remove j k ((i, v) ∷ m) =
      ground (arith, get-remove j k m, e.beq_iff i k, e.beq_iff i j, e.beq_iff k j)

  pub get_of_remove :
      (j k : K) (m : Map K V) {v : V} → get j (remove k m) ≡ some v → get j m ≡ some v
  get_of_remove j k m h = ground (arith, get-remove j k m)

  pub get_of_insert :
      (j k : K) (v : V) (m : Map K V) {w : V}
      → get j (insert k v m) ≡ some w
      → ((k ≡ j) × (v ≡ w)) ⊎ (get j m ≡ some w)
  get_of_insert j k v m h = elim (Bool-cases (k == j)) [
    | inl q ↦ inl ((e.beq_iff k j).0 q, cc (h, get-insert j k v m, q))
    | inr q ↦ inr (cc (h, get-insert j k v m, q))
  ]

  pub get-remove_other : (j k : K) (m : Map K V) → j ≢ k → get j (remove k m) ≡ get j m
  get-remove_other j k m h = elim (Bool-cases (k == j)) [
    | inl q ↦ absurd (h (sym ((e.beq_iff k j).0 q)))
    | inr q ↦ get-remove j k m ∙ rw q refl
  ]

  pub get-insert_same : (k : K) (v : V) (m : Map K V) → get k (insert k v m) ≡ some v
  get-insert_same k v m = get-insert k k v m ∙ rw ((e.beq_iff k k).1 refl) refl

  pub get-insert_other : (j k : K) (v : V) (m : Map K V) → j ≢ k → get j (insert k v m) ≡ get j m
  get-insert_other j k v m h = elim (Bool-cases (k == j)) [
    | inl q ↦ absurd (h (sym ((e.beq_iff k j).0 q)))
    | inr q ↦ get-insert j k v m ∙ rw q refl
  ]

  pub get_of_short : (k : K) (m : Map K V) → length m ≤ 0 → get k m ≡ none
  unfolding get
  get_of_short k [] h = refl
  get_of_short k (x ∷ m) h = absurd (omega arith)

  -- `if let Some(v) = m.get_mut(&k) { *v = f(v) }`
  unfoldable pub update : K → (V → V) → Map K V → Map K V
  update k f m = elim (get k m) [ none ↦ m | some v ↦ insert k (f v) m ]

  -- `m.entry(k).and_modify(f).or_insert(v)`
  unfoldable pub upsert : K → (V → V) → V → Map K V → Map K V
  upsert k f v m = elim (get k m) [ none ↦ insert k v m | some w ↦ insert k (f w) m ]

  pub get-update :
      (j k : K) (f : V → V) (m : Map K V)
      → get j (update k f m) ≡ (if k == j then Option.map f (get j m) else get j m)
  unfolding update
  get-update j k f m = elim (Option-cases (get k m)) [
    | inl n ↦ elim (Bool-cases (k == j)) [
      | inl q ↦
          let same = (e.beq_iff k j).0 q in
          let gone : get j m ≡ none = rw same at n in rw (n, update, q, gone) refl
      | inr q ↦ rw (n, update, q) refl
    ]
    | inr found ↦
        rw (found.1, update)
          (get-insert j k (f found.0) m ∙ (elim (Bool-cases (k == j)) [
            | inl q ↦
                let same = (e.beq_iff k j).0 q in
                let here : get j m ≡ some found.0 = rw same at found.1 in rw (q, here) refl
            | inr q ↦ rw q refl
          ]))
  ]

  -- A change of the first entry stays in place.
  pub update-head :
      (k : K) (f : V → V) (v : V) (m : Map K V) → update k f ((k, v) ∷ m) ≡ (k, f v) ∷ m
  unfolding update get insert
  update-head k f v m =
      let here : get k ((k, v) ∷ m) ≡ some v = simp ((e.beq_iff k k).1 refl) refl in
      rw (here, update) (simp ((e.beq_iff k k).1 refl) refl)

  pub length-remove_le : (k : K) (m : Map K V) → length (remove k m) ≤ length m
  unfolding remove
  length-remove_le k [] = omega arith
  length-remove_le k ((i, v) ∷ m) = ground (arith, length-remove_le k m)

  -- Removing a key that is there makes the map shorter.
  pub length-remove :
      (k : K) (v : V) (m : Map K V) → get k m ≡ some v → length (remove k m) < length m
  unfolding get remove
  length-remove k v [] h = cc
  length-remove k v ((i, w) ∷ m) h = ground (arith, length-remove_le k m, length-remove k v m)

-- `for v in m.values_mut()`
unfoldable pub map_values {ℓ κ} : {K : Type ℓ} {V : Type κ} → (V → V) → Map K V → Map K V
map_values f [] = []
map_values f ((k, v) ∷ m) = (k, f v) ∷ map_values f m

pub get-map_values {ℓ κ} :
    {K : Type ℓ} {V : Type κ} ⦃e : Eq K⦄ (f : V → V) (k : K) (m : Map K V)
    → get k (map_values f m) ≡ Option.map f (get k m)
unfolding get map_values
get-map_values f k [] = refl
get-map_values ⦃e⦄ f k ((j, v) ∷ m) = ground (arith, get-map_values f k m)

-- `m.keys().next()`
abbrev pub first_key {ℓ κ} : {K : Type ℓ} {V : Type κ} → Map K V → Option K
first_key [] = none
first_key ((k, v) ∷ m) = some k

pub get-empty {ℓ κ} : {K : Type ℓ} {V : Type κ} ⦃e : Eq K⦄ (k : K) → get {V = V} k [] ≡ none
unfolding get
get-empty k = refl

pub ruleset map_laws = (get-insert, get-remove, get-empty)
