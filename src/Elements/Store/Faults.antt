-- ===== src/Elements/Store/Faults.antt =====
-- src/browser_runtime/element_index.rs: what the map of backend nodes finds after a removal and
-- after an update in place.
use hyprfast.Base.{
  String, ◌≡◌, ◌⊎◌, beq_refl, refl, false, Option, none, some, ℤ, pos, int_beq, arith, inl, inr,
  if◌then◌else◌, ◌==◌, string_eq, int_eq, eq_iff,
}
use hyprfast.Base.Map
use hyprfast.Elements.{ElementRef, ElementIndex}
use hyprfast.Elements.Store.{get, get_by_backend, remove_by_id, forget, update_in_place}

Option-cases : {A : Type 0} (o : Option A) → (o ≡ none) ⊎ ((a : A) × (o ≡ some a))
Option-cases none = inl refl
Option-cases (some a) = inr (a, refl)

-- After the removal of an id, the id finds nothing, and every other id what it found before.
pub get-remove_by_id :
    (ix : ElementIndex) (id other : String)
    → get (remove_by_id ix id).0 other ≡ (if id == other then none else get ix other)
unfolding get remove_by_id forget
get-remove_by_id ix id other = elim (Option-cases (Map.get id ix.elements)) [
  | inl e ↦ rw e (ground (arith, eq_iff id other))
  | inr (r, e) ↦ rw e (Map.get-remove other id ix.elements)
]

-- After the removal of an element that has a backend node, the node finds nothing, even if it had
-- come to stand for another element.
pub get_by_backend-remove_by_id :
    (ix : ElementIndex) (id : String) (r : ElementRef)
    → get ix id ≡ some r
    → int_beq r.backend_node_id (pos 0) ≡ false
    → get_by_backend (remove_by_id ix id).0 r.backend_node_id ≡ none
unfolding get get_by_backend remove_by_id forget
get_by_backend-remove_by_id ix id r h b =
    rw
      (
        h,
        b,
        Map.get-remove r.backend_node_id r.backend_node_id ix.backend_map,
        beq_refl r.backend_node_id,
      )
      refl

-- If an update in place changes the backend node of an element, the old node finds the updated
-- element still.
pub get_by_backend-update_in_place :
    (ix : ElementIndex) (r : ElementRef) (old : ℤ)
    → Map.get old ix.backend_map ≡ some r.id
    → int_beq r.backend_node_id old ≡ false
    → get_by_backend (update_in_place ix r) old ≡ some r
unfolding get get_by_backend update_in_place
get_by_backend-update_in_place ix r old h b = ground (
  arith,
  Map.get-insert old r.backend_node_id r.id ix.backend_map,
  Map.get-insert r.id r.id r ix.elements,
  beq_refl r.id,
  h,
  b,
)
