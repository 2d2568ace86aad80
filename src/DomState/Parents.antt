-- ===== src/DomState/Parents.antt =====
-- src/browser_runtime/dom_state.rs: the set of the affected nodes stays small.
use hyprfast.Base.{
  ℕ, zero, suc, ◌-◌, ◌≤◌, ◌≡◌, false, List, [], ◌∷◌, arith, length, drop, any, ℤ, int_eq, ◌==◌,
  Bool-cases, inl, inr, some, none, ltb, leb,
}
use hyprfast.Json.{Json}
use hyprfast.DomState.{
  CdpEvent, DomState, Change, on_event, apply, change_of, sequenced, document_updated, node_touched,
  main_frame_navigated, lifecycle_event, no_change, set_insert, prune_affected, cap,
}
use hyprfast.DomState.Versions.{run}

abbrev Distinct : List ℤ → Type 0
Distinct [] = Unit {0}
Distinct (x ∷ xs) = (any (λ j. j == x) xs ≡ false) × Distinct xs

-- A set of at most 512 nodes, in which none is listed twice.
abbrev pub IsSmall : List ℤ → Type 0
IsSmall xs = (length xs ≤ cap) × Distinct xs

drop-Distinct : (n : ℕ) (xs : List ℤ) → Distinct xs → Distinct (drop n xs)
drop-Distinct zero xs h = h
drop-Distinct (suc n) [] h = h
drop-Distinct (suc n) (x ∷ xs) h = drop-Distinct n xs h.1

length-drop : (n : ℕ) (xs : List ℤ) → length (drop n xs) ≡ length xs - n
length-drop zero xs = omega arith
length-drop (suc n) [] = omega arith
length-drop (suc n) (x ∷ xs) = omega (arith, length-drop n xs)

set_insert-Distinct : (k : ℤ) (xs : List ℤ) → Distinct xs → Distinct (set_insert k xs)
unfolding set_insert
set_insert-Distinct k xs h = elim (Bool-cases (any (λ j. j == k) xs)) [
  | inl e ↦ rw e h
  | inr e ↦ rw e (e, h)
]

prune_affected-IsSmall : (xs : List ℤ) → Distinct xs → IsSmall (prune_affected xs)
unfolding prune_affected
prune_affected-IsSmall xs h = elim (Bool-cases (ltb cap (length xs))) [
  | inl e ↦ rw e ((omega (arith, length-drop (length xs - 256) xs), drop-Distinct _ xs h))
  | inr e ↦ rw e (ground arith, h)
]

apply-IsSmall :
    (c : Change) (s : DomState) → IsSmall s.affected_parents → IsSmall (apply c s).affected_parents
unfolding apply
apply-IsSmall document_updated s h = (omega arith, tt)
apply-IsSmall (node_touched (some n)) s h =
    prune_affected-IsSmall _ (set_insert-Distinct n s.affected_parents h.1)
apply-IsSmall (node_touched none) s h = h
apply-IsSmall main_frame_navigated s h = h
apply-IsSmall (lifecycle_event none) s h = h
apply-IsSmall (lifecycle_event (some n)) s h = h
apply-IsSmall no_change s h = h

sequenced-IsSmall :
    (seq : ℕ) (s : DomState)
    → IsSmall s.affected_parents
    → IsSmall (sequenced seq s).affected_parents
sequenced-IsSmall seq s h = elim (Bool-cases (leb s.last_sequence seq)) [
  | inl e ↦ rw e h
  | inr e ↦ rw e h
]

module _ {V : Type 0} (J : Json V) where
  -- After any history of events the set of affected nodes holds at most 512 of them, none twice.
  pub run-IsSmall :
      (s : DomState) (evs : List (CdpEvent V))
      → IsSmall s.affected_parents
      → IsSmall (run J s evs).affected_parents
  unfolding run on_event
  run-IsSmall s [] h = h
  run-IsSmall s (ev ∷ evs) h =
      run-IsSmall (on_event J s ev) evs
        (apply-IsSmall (change_of J ev) _ (sequenced-IsSmall ev.sequence s h))
