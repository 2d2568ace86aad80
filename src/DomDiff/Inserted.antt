-- ===== src/DomDiff/Inserted.antt =====
-- src/browser_runtime/dom_diff.rs: the reference that an inserted node gets, as the index checks it.
use hyprfast.Base.{
  [], ◌∷◌, ℕ, ◌≡◌, refl, sym, subst, String, Bool, false, not, ◌&&◌, ◌||◌, Option, none, some, ℤ,
  arith, nat_beq, string_eq, if◌then◌else◌,
}
use hyprfast.Base.Map
use hyprfast.Base.Text.{Unicode}
use hyprfast.Elements.{ElementRef, ElementIndex}
use hyprfast.Elements.Store.{
  insert, store, pin, get, get_by_backend, is_stale, is_stale_against, element_id,
}
use hyprfast.Elements.Store.Fresh.{nat_beq_refl}
use hyprfast.Frames.{frame_version, is_stale_for_frame}
use hyprfast.Json.{Json}
use hyprfast.DomState.{CdpEvent}
use hyprfast.DomDiff.{ParsedNode, DomDiffEngine, parse_dom_node}
use hyprfast.DomDiff.Handlers.{handle_insert, handle_node, inserted_ref, replace_ref, remove_any}
use hyprfast.DomDiff.Reports.{remove_any-Follows}

either_way : (n : ℕ) → (if nat_beq n 0 then n else n) ≡ n
either_way n = ground arith

no_version :
    (n v : ℕ)
    → not (nat_beq n n)
        || (if nat_beq 0 0 && nat_beq (if nat_beq v 0 && false then v else v) 0
            then false
            else not (nat_beq 0 (if nat_beq v 0 && false then v else v)))
      ≡ not (nat_beq v 0)
no_version n v = ground arith

-- What a parsed node is stored as.
abbrev stored_node : Unicode → ElementIndex → Option String → ParsedNode → ElementRef
stored_node u ix session p =
    pin u ix (record (inserted_ref u ix session p) { id = element_id ix.next_id })

is_stale-stored :
    (u : Unicode) (ix : ElementIndex) (session : Option String) (p : ParsedNode)
    → Map.get "" ix.frame_versions ≡ none
    → is_stale ix (stored_node u ix session p) ≡ not (nat_beq ix.frame_tree_version 0)
unfolding inserted_ref pin is_stale is_stale_against is_stale_for_frame frame_version
is_stale-stored u ix session p n =
    rw
      (
        n,
        either_way ix.dom_version,
        either_way ix.target_generation,
        nat_beq_refl ix.target_generation,
      )
      (no_version ix.dom_version ix.frame_tree_version)

-- The node is in the index under the id that was returned, and stale or not.
abbrev pub Stands : ElementIndex → String → ℤ → Bool → Type 0
Stands ix id node stale =
    (r : ElementRef) × (get ix id ≡ some r) × (r.backend_node_id ≡ node) × (is_stale ix r ≡ stale)

insert-Stands :
    (u : Unicode) (ix : ElementIndex) (session : Option String) (p : ParsedNode)
    → Map.get "" ix.frame_versions ≡ none
    → Stands
        (insert u ix (inserted_ref u ix session p)).0
        (insert u ix (inserted_ref u ix session p)).1
        p.backend_node_id
        (not (nat_beq ix.frame_tree_version 0))
unfolding insert store get inserted_ref pin is_stale
insert-Stands u ix session p n = (
  stored_node u ix session p,
  Map.get-insert_same (element_id ix.next_id) (stored_node u ix session p) ix.elements,
  refl,
  is_stale-stored u ix session p n,
)

replace_ref_stale :
    (u : Unicode) (ix : ElementIndex) (session : Option String) (p : ParsedNode)
    → Map.get "" ix.frame_versions ≡ none
    → Stands
        (replace_ref u ix (inserted_ref u ix session p)).0
        (replace_ref u ix (inserted_ref u ix session p)).1
        p.backend_node_id
        (not (nat_beq ix.frame_tree_version 0))
unfolding replace_ref inserted_ref
replace_ref_stale u ix session p n =
    let ix1 = remove_any ix (get_by_backend ix p.backend_node_id) in
    let q = (remove_any-Follows ix (get_by_backend ix p.backend_node_id)).0 in
    subst
      (λ m.
        Stands (insert u ix1 (inserted_ref u (record ix1 { frame_manager = m }) session p)).0
          (insert u ix1 (inserted_ref u (record ix1 { frame_manager = m }) session p)).1
          p.backend_node_id (not (nat_beq m.dom_state.frame_tree_version 0)))
      q (insert-Stands u ix1 session p (subst (λ m. Map.get "" m.frame_versions ≡ none) (sym q) n))

-- In a page whose empty frame id has no version, which is every page of named frames, an insertion
-- of a node with an id publishes a diff that names one added id; under it the index finds a
-- reference to the node, which is stale at once exactly if the version of the frame tree is not 0.
pub handle_insert_stale :
    {V : Type 0} (J : Json V) (u : Unicode) (e : DomDiffEngine) (ev : CdpEvent V)
    (dom_before eiv_before : ℕ) (node : V) (p : ParsedNode)
    → J.get ev.params "node" ≡ some node
    → parse_dom_node J u node ≡ some p
    → Map.get "" e.element_index.frame_versions ≡ none
    → let (e', d) = handle_insert J u e ev dom_before eiv_before in
      (id : String) × (d.added ≡ id ∷ [])
      × Stands e'.element_index id p.backend_node_id
          (not (nat_beq e.element_index.frame_tree_version 0))
unfolding handle_node handle_insert
handle_insert_stale J u e ev dom_before eiv_before node p found parsed n =
    simp (found, parsed, handle_insert)
      (
        (replace_ref u e.element_index (inserted_ref u e.element_index ev.session_id p)).1,
        refl,
        replace_ref_stale u e.element_index ev.session_id p n,
      )
