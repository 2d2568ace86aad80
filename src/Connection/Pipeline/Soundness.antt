-- ===== src/Connection/Pipeline/Soundness.antt =====
-- src/browser_runtime/connection.rs: what is on its way is what the frames were read as, and what
-- was broadcast comes from the frames before the one expected.
use hyprfast.Base.{
  ℕ, zero, suc, ◌+◌, ◌≤◌, ◌<◌, String, ◌≡◌, refl, sym, ap, subst, ◌∙◌, Option, none, some, List, [],
  ◌∷◌, ◌++◌, bump, bump-lt, u64_mod, arith, nat_eq, inl, inr, not, ltb, if◌then◌else◌, Option-cases,
  length, take, Bool, get_elem?, get_elem?-lt, take-suc, All, length-take,
}
use Prim.Native.String.{len}
use mathlib.Core.List.{append-nil, append_assoc}
use hyprfast.Base.Map
use hyprfast.Json.{Json}
use hyprfast.DomState.{CdpEvent}
use hyprfast.Connection.{InboundFrame, raw, oversize, OrderedItem, undecodable, note_reorder_depth}
use hyprfast.Connection.Pipeline.{
  Pipeline, turn, drain, drain_ready, insert_and_drain, decode_inline, decode_offloaded,
}
use hyprfast.Connection.Pipeline.Drain.{event, dispatch_item-events}

module _ {V : Type 0} (J : Json V) where
  -- The loop stops at a gap, and goes on with the item that is expected.
  pub drain-none :
      (fuel : ℕ) (p : Pipeline V)
      → Map.get p.expected p.buffer ≡ none
      → drain J (suc fuel) p ≡ record p { shared = note_reorder_depth (length p.buffer) p.shared }
  unfolding drain
  drain-none fuel p e = rw (e, drain) refl

  pub drain-some :
      (fuel : ℕ) (p : Pipeline V) {item : OrderedItem V}
      → Map.get p.expected p.buffer ≡ some item
      → drain J (suc fuel) p ≡ drain J fuel (turn J item p)
  unfolding drain
  drain-some fuel p e = rw (e, drain) refl

  -- The events of frames, the first of which has the number `n`.
  unfoldable pub events_from : ℕ → List (Option (OrderedItem V)) → List (CdpEvent V)
  events_from n [] = []
  events_from n (x ∷ xs) = event J n x ++ events_from (suc n) xs

  events_from-snoc :
      (n : ℕ) (xs : List (Option (OrderedItem V))) (x : Option (OrderedItem V))
      → events_from n (xs ++ (x ∷ [])) ≡ events_from n xs ++ event J (n + length xs) x
  unfolding events_from
  events_from-snoc n [] x = append-nil _ ∙ ap (λ k. event J k x) (omega arith)
  events_from-snoc n (y ∷ xs) x =
      ap (λ r. event J n y ++ r) (events_from-snoc (suc n) xs x)
      ∙ (sym (append_assoc (event J n y) (events_from (suc n) xs) _)
          ∙ ap (λ k. event J n y ++ events_from (suc n) xs ++ event J k x) (omega arith))

  events_from-take :
      (k : ℕ) (xs : List (Option (OrderedItem V))) (x : Option (OrderedItem V))
      → get_elem? xs k ≡ some x
      → events_from 0 (take (suc k) xs) ≡ events_from 0 (take k xs) ++ event J k x
  events_from-take k xs x h =
      rw (take-suc k xs x h, events_from-snoc 0 (take k xs) x)
        (ap (λ i. events_from 0 (take k xs) ++ event J i x)
          (omega (arith, length-take k xs (omega (arith, get_elem?-lt xs k x h)))))

  -- The text of a frame that is not too large, decoded where its size says.
  unfoldable pub content : ℕ → String → Option (OrderedItem V)
  unfolding decode_inline decode_offloaded
  content threshold t =
      if not (ltb (len t) threshold) then some (decode_offloaded J t) else decode_inline J t

  module _ (wire : List (Option (OrderedItem V))) where
    abbrev pub AtWork : ℕ × String → Type 0
    AtWork job = get_elem? wire job.0 ≡ some (some (decode_offloaded J job.1))

  module _ (threshold : ℕ) (wire : List (Option (OrderedItem V))) where
    abbrev pub InFlight : InboundFrame → Type 0
    InFlight (raw n t) = get_elem? wire n ≡ some (content threshold t)
    InFlight (oversize n hint) = get_elem? wire n ≡ some (some (undecodable hint))

  module _ (threshold : ℕ) (reading : Bool) (wire : List (Option (OrderedItem V))) where
    pub record IsSound (p : Pipeline V) : Type 0 where
      pub reads : p.reading ≡ reading
      pub numbered : p.shared.next_sequence ≡ length wire
      pub drained : p.expected ≤ length wire
      pub told : p.shared.events ≡ events_from 0 (take p.expected wire)
      pub queued : All (InFlight threshold wire) p.inbound
      pub buffered :
          (k : ℕ) (item : OrderedItem V)
          → Map.get k p.buffer ≡ some item
          → get_elem? wire k ≡ some (some item)
      pub at_work : All (AtWork wire) p.workers

    pub turn-IsSound :
        (item : OrderedItem V) (p : Pipeline V)
        → length wire < u64_mod
        → Map.get p.expected p.buffer ≡ some item
        → IsSound p
        → IsSound (turn J item p)
    unfolding turn note_reorder_depth
    turn-IsSound item p small h s =
        let at = s.buffered p.expected item h in
        let lt = get_elem?-lt wire p.expected (some item) at in
        let d = dispatch_item-events J p.expected item p.shared in
        let next : bump p.expected ≡ suc p.expected =
          omega (arith, bump-lt p.expected (omega (arith, lt, small))) in
        record {
          reads = s.reads;
          numbered = d.1 ∙ s.numbered;
          drained = rw next (omega (arith, lt));
          told = rw next (
              d.0
              ∙ (ap (λ es. es ++ event J p.expected (some item)) s.told
                  ∙ sym (events_from-take p.expected wire (some item) at)));
          queued = s.queued;
          buffered = λ k other e. s.buffered k other (Map.get_of_remove k p.expected p.buffer e);
          at_work = s.at_work;
        }

    noted-IsSound :
        (depth : ℕ) (p : Pipeline V)
        → IsSound p
        → IsSound (record p { shared = note_reorder_depth depth p.shared })
    unfolding note_reorder_depth
    noted-IsSound depth p s = record {
      reads = s.reads;
      numbered = s.numbered;
      drained = s.drained;
      told = s.told;
      queued = s.queued;
      buffered = s.buffered;
      at_work = s.at_work;
    }

    drain-IsSound :
        (fuel : ℕ) (p : Pipeline V) → length wire < u64_mod → IsSound p → IsSound (drain J fuel p)
    unfolding drain note_reorder_depth
    drain-IsSound zero p small s = noted-IsSound _ p s
    drain-IsSound (suc fuel) p small s = elim (Option-cases (Map.get p.expected p.buffer)) [
      | inl e ↦ subst IsSound (sym (drain-none fuel p e)) (noted-IsSound _ p s)
      | inr found ↦
          subst IsSound (sym (drain-some fuel p found.1))
            (drain-IsSound fuel (turn J found.0 p) small (turn-IsSound found.0 p small found.1 s))
    ]

    pub stored-IsSound :
        (n : ℕ) (item : OrderedItem V) (p : Pipeline V)
        → get_elem? wire n ≡ some (some item)
        → IsSound p
        → IsSound (record p { buffer = Map.insert n item p.buffer })
    stored-IsSound n item p at s = record {
      reads = s.reads;
      numbered = s.numbered;
      drained = s.drained;
      told = s.told;
      queued = s.queued;
      buffered = λ k other e. elim (Map.get_of_insert k n item p.buffer e) [
        | inl q ↦ rw (← q.0, ← q.1) at
        | inr q ↦ s.buffered k other q
      ];
      at_work = s.at_work;
    }

    pub insert_and_drain-IsSound :
        (n : ℕ) (item : OrderedItem V) (p : Pipeline V)
        → length wire < u64_mod
        → get_elem? wire n ≡ some (some item)
        → IsSound p
        → IsSound (insert_and_drain J n item p)
    unfolding insert_and_drain drain_ready
    insert_and_drain-IsSound n item p small at s =
        drain-IsSound _ _ small (stored-IsSound n item p at s)
