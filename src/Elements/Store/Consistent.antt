-- ===== src/Elements/Store/Consistent.antt =====
-- src/browser_runtime/element_index.rs: the index knows each element by its own id, once.
use hyprfast.Base.{
  String, ◌≡◌, refl, inl, inr, Option, none, some, List, [], ◌∷◌, arith, ◌==◌, string_eq, eq_iff,
  In, Bool-cases, int_eq,
}
use hyprfast.Base.Map
use hyprfast.Base.Map.{Map, values}
use hyprfast.Base.Text.{Unicode, is_empty}
use hyprfast.Elements.{ElementRef, ElementIndex}
use hyprfast.Elements.Store.{
  get, insert, store, pin, remove_by_id, forget, update_in_place, invalidate_all,
}

-- Every entry stands under the id of its element, and no id has two entries.
abbrev pub IsKeyedMap : Map String ElementRef → Type 0
IsKeyedMap [] = Unit {0}
IsKeyedMap ((k, r) ∷ m) = (r.id ≡ k) × (Map.get k m ≡ none) × IsKeyedMap m

abbrev pub IsKeyed : ElementIndex → Type 0
IsKeyed ix = IsKeyedMap ix.elements

insert-IsKeyedMap :
    (r : ElementRef) (m : Map String ElementRef) → IsKeyedMap m → IsKeyedMap (Map.insert r.id r m)
unfolding Map.insert
insert-IsKeyedMap r [] h = (refl, unfold Map.get in refl, tt)
insert-IsKeyedMap r ((k, s) ∷ m) h = elim (Bool-cases (k == r.id)) [
  | inl e ↦ rw e (refl, ground (arith, eq_iff k r.id), h.2)
  | inr e ↦ rw e (
    h.0,
    ground (arith, Map.get-insert k r.id r m, eq_iff k r.id, eq_iff r.id k),
    insert-IsKeyedMap r m h.2,
  )
]

remove-IsKeyedMap :
    (id : String) (m : Map String ElementRef) → IsKeyedMap m → IsKeyedMap (Map.remove id m)
unfolding Map.remove
remove-IsKeyedMap id [] h = tt
remove-IsKeyedMap id ((k, s) ∷ m) h = elim (Bool-cases (k == id)) [
  | inl e ↦ rw e (remove-IsKeyedMap id m h.2)
  | inr e ↦ rw e (h.0, ground (arith, Map.get-remove k id m), remove-IsKeyedMap id m h.2)
]

get_of_In :
    (m : Map String ElementRef) (r : ElementRef)
    → IsKeyedMap m
    → In r (values m)
    → Map.get r.id m ≡ some r
unfolding Map.get
get_of_In [] r h i = absurd i
get_of_In ((k, s) ∷ m) r h (inl e) = ground (arith, eq_iff k r.id)
get_of_In ((k, s) ∷ m) r h (inr i) = ground (arith, eq_iff k r.id, get_of_In m r h.2 i)

-- An element that stands in the index is found by its id.
pub get-IsKeyed :
    (ix : ElementIndex) (r : ElementRef)
    → IsKeyed ix
    → In r (values ix.elements)
    → get ix r.id ≡ some r
unfolding get
get-IsKeyed ix r h i = get_of_In ix.elements r h i

-- What the four writers of the index keep: every element is known by its own id, once. `insert`
-- gives an element without an id a fresh one and pins its versions; the others are `remove_by_id`,
-- `update_in_place` and `invalidate_all`.
pub insert-IsKeyed :
    (u : Unicode) (ix : ElementIndex) (r : ElementRef) → IsKeyed ix → IsKeyed (insert u ix r).0
unfolding insert pin store
insert-IsKeyed u ix r h = elim (Bool-cases (is_empty r.id)) [
  | inl e ↦ rw e (insert-IsKeyedMap _ ix.elements h)
  | inr e ↦ rw e (insert-IsKeyedMap _ ix.elements h)
]

pub remove_by_id-IsKeyed :
    (ix : ElementIndex) (id : String) → IsKeyed ix → IsKeyed (remove_by_id ix id).0
unfolding remove_by_id
remove_by_id-IsKeyed ix id h = from (Map.get id ix.elements)
  where
    from : (o : Option ElementRef) → IsKeyed (forget ix id o)
    from none = h
    from (some r) = remove-IsKeyedMap id ix.elements h

pub update_in_place-IsKeyed :
    (ix : ElementIndex) (r : ElementRef) → IsKeyed ix → IsKeyed (update_in_place ix r)
unfolding update_in_place
update_in_place-IsKeyed ix r h = insert-IsKeyedMap r ix.elements h

pub invalidate_all-IsKeyed : (ix : ElementIndex) → IsKeyed (invalidate_all ix)
unfolding invalidate_all
invalidate_all-IsKeyed ix = tt

-- The writes to an index.
pub data Write : Type 0 where
  inserts : ElementRef → Write
  removes : String → Write
  updates : ElementRef → Write
  invalidates : Write

unfoldable pub write : Unicode → ElementIndex → Write → ElementIndex
write u ix (inserts r) = (insert u ix r).0
write u ix (removes id) = (remove_by_id ix id).0
write u ix (updates r) = update_in_place ix r
write u ix invalidates = invalidate_all ix

unfoldable pub writes : Unicode → ElementIndex → List Write → ElementIndex
writes u ix [] = ix
writes u ix (w ∷ ws) = writes u (write u ix w) ws

write-IsKeyed : (u : Unicode) (ix : ElementIndex) (w : Write) → IsKeyed ix → IsKeyed (write u ix w)
unfolding write
write-IsKeyed u ix (inserts r) h = insert-IsKeyed u ix r h
write-IsKeyed u ix (removes id) h = remove_by_id-IsKeyed ix id h
write-IsKeyed u ix (updates r) h = update_in_place-IsKeyed ix r h
write-IsKeyed u ix invalidates h = invalidate_all-IsKeyed ix

-- After any sequence of insertions, removals, updates and invalidations an index that knew each of
-- its elements by its own id, once, still does.
pub writes-IsKeyed :
    (u : Unicode) (ix : ElementIndex) (ws : List Write) → IsKeyed ix → IsKeyed (writes u ix ws)
unfolding writes
writes-IsKeyed u ix [] h = h
writes-IsKeyed u ix (w ∷ ws) h = writes-IsKeyed u (write u ix w) ws (write-IsKeyed u ix w h)
