-- ===== src/Connection/Pipeline/Total.antt =====
-- src/browser_runtime/connection.rs: no task panics on frames whose heads are cut between two
-- characters.
use Prim.Native.String.{len}
use mathlib.Core.Option
use hyprfast.Base.{
  ℤ, ℕ, String, ◌≡◌, inl, inr, refl, Option, none, some, List, [], ◌∷◌, ◌++◌, map, Bool, true,
  false, ltb, not, Bool-cases, length, All, All-prefix, All-get_elem?, get_elem?-length,
}
use hyprfast.Connection.Pipeline.{decode_offloaded, receive}
use hyprfast.Base.{Option-cases, map-eq-some}
use hyprfast.Json.{Json}
use hyprfast.Connection.{InboundFrame, raw, oversize, OrderedItem, message, undecodable}
use hyprfast.Connection.IdHint.{extract_id_prefix, IsWhole, extract_id_prefix_total}
use hyprfast.Connection.Pipeline.{
  Pipeline, read_data, WireFrame, text, binary, decode_inline, receive_from, receive_frame, Move,
  read, finish, take_frame, end_job, call, give_up, shut_down, move,
}
use hyprfast.Connection.Pipeline.Soundness.{IsSound, InFlight, content}
use hyprfast.Connection.Pipeline.Reading.{item_of, text_of}
use hyprfast.Connection.Pipeline.Ordered.{frame_of}

abbrev IsWholeText : Option String → Type 0
IsWholeText none = Unit
IsWholeText (some t) = IsWhole t

-- The texts of a frame are short, or cut between two characters.
abbrev pub IsWholeFrame : WireFrame → Type 0
IsWholeFrame (text t) = IsWhole t
IsWholeFrame (binary size utf8 lossy) = IsWholeText utf8 × IsWhole lossy

abbrev pub IsItem : {V : Type 0} → Option (OrderedItem V) → Type 0
IsItem {V} x = (item : OrderedItem V) × (x ≡ some item)

module _ {V : Type 0} (J : Json V) (max threshold : ℕ) where
  hinted-IsItem :
      (t : String) → IsWhole t → IsItem {V = V} (Option.map undecodable (extract_id_prefix t))
  hinted-IsItem t w = let r = extract_id_prefix_total t w in (undecodable r.0, rw r.1 refl)

  inline-IsItem : (t : String) → IsWhole t → IsItem (decode_inline J t)
  unfolding decode_inline
  inline-IsItem t w = elim (Option-cases (J.from_str t)) [
    | inl e ↦ rw (e, decode_inline) (hinted-IsItem t w)
    | inr v ↦ rw (v.1, decode_inline) (message v.0, refl)
  ]

  content-IsItem : (t : String) → IsWhole t → IsItem (content J threshold t)
  unfolding content decode_inline
  content-IsItem t w = elim (Bool-cases (not (ltb (len t) threshold))) [
    | inl e ↦ rw e (decode_offloaded J t, refl)
    | inr e ↦ rw e (inline-IsItem t w)
  ]

  text_of-IsItem : (utf8 : Option String) → IsWholeText utf8 → IsItem (text_of J threshold utf8)
  unfolding text_of
  text_of-IsItem none w = (undecodable none, refl)
  text_of-IsItem (some t) w = content-IsItem t w

  pub item_of-IsItem : (f : WireFrame) → IsWholeFrame f → IsItem (item_of J max threshold f)
  unfolding item_of
  item_of-IsItem (text t) w = elim (Bool-cases (ltb max (len t))) [
    | inl e ↦ rw e (hinted-IsItem t w)
    | inr e ↦ rw e (content-IsItem t w)
  ]
  item_of-IsItem (binary size utf8 lossy) w = elim (Bool-cases (ltb max size)) [
    | inl e ↦ rw e (hinted-IsItem lossy w.1)
    | inr e ↦ rw e (text_of-IsItem utf8 w.0)
  ]

  module _ (p : Pipeline V) where
    abbrev pub Moved : Option (Pipeline V) → Type 0
    Moved m = (q : Pipeline V) × (m ≡ some q)

    hinted-Moved :
        (t : String) (f : Option ℤ → Pipeline V)
        → IsItem {V = V} (Option.map undecodable (extract_id_prefix t))
        → Moved (Option.map f (extract_id_prefix t))
    hinted-Moved t f i = let r = map-eq-some _ (extract_id_prefix t) i.1 in (f r.0, rw r.1 refl)

    read_data-Moved :
        (f : WireFrame) → IsItem (item_of J max threshold f) → Moved (read_data max f p)
    unfolding read_data item_of
    read_data-Moved (text t) i = elim (Bool-cases (ltb max (len t))) [
      | inl e ↦ rw e (hinted-Moved t _ (rw e at i))
      | inr e ↦ rw e (_, refl)
    ]
    read_data-Moved (binary size utf8 lossy) i = elim (Bool-cases (ltb max size)) [
      | inl e ↦ rw e (hinted-Moved lossy _ (rw e at i))
      | inr e ↦ rw e (_, refl)
    ]

    receive_from-Moved :
        (wire : List (Option (OrderedItem V))) (fs : List InboundFrame)
        → All IsItem wire
        → All (InFlight J threshold wire) fs
        → Moved (receive_from J threshold fs p)
    unfolding receive_from receive_frame Moved content
    receive_from-Moved wire [] i f = (_, refl)
    receive_from-Moved wire (oversize n hint ∷ fs) i f = (_, refl)
    receive_from-Moved wire (raw n t ∷ fs) i f =
        let item = All-get_elem? IsItem wire n _ i f.0 in
        elim (Bool-cases (not (ltb (len t) threshold))) [
          | inl e ↦ rw e (_, refl)
          | inr e ↦ let r = rw e at item.1 in rw (e, r) (_, refl)
        ]

    -- A move on a sound pipeline does not panic if the frame that it reads can be decoded.
    pub move-Moved :
        (m : Move V) (reading : Bool) (wire : List (Option (OrderedItem V)))
        → All IsItem (wire ++ map (item_of J max threshold) (frame_of m reading))
        → IsSound J threshold reading wire p
        → Moved (move J max threshold m p)
    unfolding move receive
    move-Moved (read f) true wire i s = simp s.reads (
        read_data-Moved f (
          All-get_elem? IsItem (wire ++ (item_of J max threshold f ∷ [])) (length wire) _ i
            (get_elem?-length wire [] _)))
    move-Moved (read f) false wire i s = simp s.reads (_, refl)
    move-Moved (finish e) reading wire i s = (_, refl)
    move-Moved take_frame reading wire i s =
        receive_from-Moved wire p.inbound (All-prefix IsItem wire _ i) s.queued
    move-Moved (end_job k) reading wire i s = (_, refl)
    move-Moved (call t method params) reading wire i s = (_, refl)
    move-Moved (give_up id) reading wire i s = (_, refl)
    move-Moved shut_down reading wire i s = (_, refl)
