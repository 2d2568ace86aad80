-- ===== src/Elements/Store/Fresh.antt =====
-- src/browser_runtime/element_index.rs: a reference that was just stored.
use hyprfast.Base.{
  ◌∙◌, beq_refl, ℕ, String, ◌≡◌, refl, Bool, true, false, not, ◌&&◌, some, arith, Bool-cases, inl,
  inr, nat_beq, if◌then◌else◌, ◌==◌, string_eq,
}
use hyprfast.Base.Map
use hyprfast.Base.Text.{Unicode, is_empty}
use hyprfast.Frames.{FrameManager, frame_version, is_stale_for_frame}
use hyprfast.Elements.{ElementRef, ElementIndex}
use hyprfast.Elements.Store.{insert, get, pin, store, element_id, is_stale, is_stale_against}

-- The reference as `insert` stores it: with an id, and with the fields that were unset.
abbrev pub stored : Unicode → ElementIndex → ElementRef → ElementRef
stored u ix r =
    if is_empty r.id then pin u ix (record r { id = element_id ix.next_id }) else pin u ix r

-- What `insert` stores is what `get` finds under the id that `insert` returns, and every other id
-- finds what it found before.
pub get-insert :
    (u : Unicode) (ix : ElementIndex) (r : ElementRef) (id : String)
    → get (insert u ix r).0 id
      ≡ (if (insert u ix r).1 == id then some (stored u ix r) else get ix id)
unfolding get insert store pin
get-insert u ix r id = elim (Bool-cases (is_empty r.id)) [
  | inl e ↦ rw (e, Map.get-insert id (element_id ix.next_id) _ ix.elements) refl
  | inr e ↦ rw (e, Map.get-insert id r.id _ ix.elements) refl
]

-- The frame has no version of its own, while the frame tree has one.
abbrev pub is_unknown : FrameManager → String → Bool
is_unknown m f = nat_beq (frame_version m f) 0 && not (nat_beq m.frame_tree_version 0)

pub nat_beq_refl : (n : ℕ) → nat_beq n n ≡ true
nat_beq_refl n = ground arith

pub pinned_version :
    (v global : ℕ)
    → (if nat_beq v 0 && nat_beq (if nat_beq v 0 then global else v) 0
        then false
        else not (nat_beq v (if nat_beq v 0 then global else v)))
      ≡ nat_beq v 0 && not (nat_beq global 0)
pinned_version v global = ground arith

pin_stale :
    (u : Unicode) (ix : ElementIndex) (r : ElementRef)
    → r.dom_version_created ≡ 0
    → r.target_generation ≡ 0
    → r.frame_tree_version ≡ 0
    → is_empty r.frame_id ≡ false
    → is_stale ix (pin u ix r) ≡ is_unknown ix.frame_manager r.frame_id
unfolding pin is_stale is_stale_against is_stale_for_frame
pin_stale u ix r h1 h2 h3 h4 =
    rw (h1, h2, h3, h4, nat_beq_refl ix.dom_version, nat_beq_refl ix.target_generation)
      (pinned_version (frame_version ix.frame_manager r.frame_id) ix.frame_tree_version)

stored_stale :
    (u : Unicode) (ix : ElementIndex) (r : ElementRef)
    → r.dom_version_created ≡ 0
    → r.target_generation ≡ 0
    → r.frame_tree_version ≡ 0
    → is_empty r.frame_id ≡ false
    → is_stale (insert u ix r).0 (stored u ix r) ≡ is_unknown ix.frame_manager r.frame_id
unfolding insert store is_stale is_stale_against
stored_stale u ix r h1 h2 h3 h4 = elim (Bool-cases (is_empty r.id)) [
  | inl e ↦ rw e (pin_stale u ix (record r { id = element_id ix.next_id }) h1 h2 h3 h4)
  | inr e ↦ rw e (pin_stale u ix r h1 h2 h3 h4)
]

-- A reference is found under an id, and it is stale or not.
abbrev pub Finds : ElementIndex → String → Bool → Type 0
Finds ix id stale = (r : ElementRef) × (get ix id ≡ some r) × (is_stale ix r ≡ stale)

-- When a reference whose versions are unset and whose frame is named is inserted, the id that
-- `insert` returns finds a reference that is current, unless the frame has no version of its own
-- while the frame tree has one: then what is found is stale at once.
pub insert_stale :
    (u : Unicode) (ix : ElementIndex) (r : ElementRef)
    → r.dom_version_created ≡ 0
    → r.target_generation ≡ 0
    → r.frame_tree_version ≡ 0
    → is_empty r.frame_id ≡ false
    → Finds (insert u ix r).0 (insert u ix r).1 (is_unknown ix.frame_manager r.frame_id)
insert_stale u ix r h1 h2 h3 h4 = (
  stored u ix r,
  get-insert u ix r (insert u ix r).1 ∙ rw (beq_refl (insert u ix r).1) refl,
  stored_stale u ix r h1 h2 h3 h4,
)
