-- ===== src/Connection/Pipeline/Drain.antt =====
-- src/browser_runtime/connection.rs: what dispatching one item broadcasts, and what the other
-- changes of the shared state leave alone.
use mathlib.Core.List.{append-nil}
use hyprfast.Base.{
  ℕ, String, ◌≡◌, refl, sym, ◌∙◌, Option, none, some, List, [], ◌∷◌, ◌++◌, ℤ, ◌>>=◌, bump, arith,
  string_eq,
}
use hyprfast.Json.{Json}
use hyprfast.DomState.{CdpEvent}
use hyprfast.Connection.{
  Shared, CdpResponse, OrderedItem, message, undecodable, dispatch_item, dispatch_message,
  mark_dead, to_event, respond, track, response_of, register, expire, track_attached,
  track_detached,
}

module _ {V : Type 0} where
  -- What the readers of the event stream and the numbering see of the shared state.
  abbrev pub Same : Shared V → Shared V → Type 0
  Same s t = (t.events ≡ s.events) × (t.next_sequence ≡ s.next_sequence)

  respond-Same : (id : ℤ) (r : CdpResponse V) (s : Shared V) → Same s (respond id r s)
  unfolding respond
  respond-Same id r s = ground arith

  pub mark_dead-Same : (reason : String) (s : Shared V) → Same s (mark_dead reason s)
  unfolding mark_dead
  mark_dead-Same reason s = ground arith

module _ {V : Type 0} (J : Json V) where
  event_of : ℕ → V → Option ℤ → Option String → List (CdpEvent V)
  event_of n v (some id) method = []
  event_of n v none (some method) = to_event J n v method ∷ []
  event_of n v none none = []

  -- The event that the item with number `n` stands for, if it is one.
  pub event : ℕ → Option (OrderedItem V) → List (CdpEvent V)
  event n none = []
  event n (some (undecodable hint)) = []
  event n (some (message v)) =
      event_of n v (J.get v "id" >>= J.as_i64) (J.get v "method" >>= J.as_str)

  track-Same : (ev : CdpEvent V) (s : Shared V) → Same s (track J ev s)
  unfolding track track_attached track_detached
  track-Same ev s = ground arith

  dispatch_message-events :
      (n : ℕ) (v : V) (id : Option ℤ) (method : Option String) (s : Shared V)
      → ((dispatch_message J n v id method s).events ≡ s.events ++ event_of n v id method)
        × ((dispatch_message J n v id method s).next_sequence ≡ s.next_sequence)
  unfolding dispatch_message event_of
  dispatch_message-events n v (some id) method s =
      let r = respond-Same id (response_of J id v) s in (r.0 ∙ sym (append-nil s.events), r.1)
  dispatch_message-events n v none (some method) s =
      let r = track-Same (to_event J n v method) (record s { event_count = bump s.event_count }) in
      (rw r.0 refl, r.1)
  dispatch_message-events n v none none s = (sym (append-nil s.events), refl)

  -- Dispatching an item broadcasts its event and takes no number.
  pub dispatch_item-events :
      (n : ℕ) (item : OrderedItem V) (s : Shared V)
      → ((dispatch_item J n item s).events ≡ s.events ++ event n (some item))
        × ((dispatch_item J n item s).next_sequence ≡ s.next_sequence)
  unfolding dispatch_item event
  dispatch_item-events n (undecodable none) s = (sym (append-nil s.events), refl)
  dispatch_item-events n (undecodable (some id)) s =
      let r = respond-Same id _ s in (r.0 ∙ sym (append-nil s.events), r.1)
  dispatch_item-events n (message v) s = dispatch_message-events n v _ _ s

  pub register-Same :
      (session : Option String) (method : String) (params : V) (s : Shared V)
      → Same s (register J session method params s).0
  unfolding register
  register-Same session method params s = ground arith

  pub expire-Same :
      (id : ℤ) (method : String) (ms : ℕ) (s : Shared V) → Same s (expire J id method ms s).0
  unfolding expire
  expire-Same id method ms s = (refl, refl)
