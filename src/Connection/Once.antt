-- ===== src/Connection/Once.antt =====
-- src/browser_runtime/connection.rs: what the callers get. Each call has a response channel of its
-- own.
pub mod Schedules
use hyprfast.Base.{
  ℕ, zero, suc, ◌+◌, ◌≤◌, ◌<◌, String, ◌<>◌, ◌≡◌, ◌≢◌, refl, sym, ap, subst, ◌∙◌, Bool, true, false,
  Option, none, some, List, [], ◌∷◌, ℤ, ◌==◌, int_eq, nat_beq, nat_beq_iff, ltb, arith, In, inl,
  inr, Bool-cases, Option-cases, if◌then◌else◌, ◌>>=◌, int_beq, int_beq_iff,
}
use mathlib.Core.Option.{some-injective}
use hyprfast.Base.Map
use hyprfast.Base.Map.{Map}
use hyprfast.Base.Text.{strip_prefix, is_some}
use hyprfast.Base.Text.Words.{strip_prefix-append}
use hyprfast.Error.{RuntimeResult, ok, err, runtime_dead}
use hyprfast.Frames.{unwrap_or}
use hyprfast.Connection.{to_event}
use hyprfast.Base.{bump, ◌>>=◌, string_eq}
use hyprfast.DomState.{CdpEvent}
use hyprfast.Json.{Json}
use hyprfast.Connection.{
  Shared, CdpResponse, OrderedItem, message, undecodable, marker, runtime_dead_code,
  runtime_dead_prefix, fail_all, mark_dead, respond, dispatch_item, dispatch_message, register,
  expire, interpret_response, response_of, broadcast, track, track_attached, track_detached,
  parse_cdp_error,
}

-- How often a channel stands in the map of pending requests, and in the list of answers.
unfoldable pub waits : ℕ → Map ℤ ℕ → ℕ
waits c [] = 0
waits c ((id, d) ∷ pending) = (if nat_beq c d then 1 else 0) + waits c pending

module _ {V : Type 0} where
  unfoldable pub answers : ℕ → List (ℕ × CdpResponse V) → ℕ
  answers c [] = 0
  answers c ((d, r) ∷ sent) = (if nat_beq c d then 1 else 0) + answers c sent

  -- A channel that was made waits or has one answer, and no other channel does.
  abbrev pub IsOnce : Shared V → Type 0
  IsOnce s = (c : ℕ) → waits c s.pending + answers c s.sent ≤ (if ltb c s.channels then 1 else 0)

waits-remove_le : (c : ℕ) (id : ℤ) (p : Map ℤ ℕ) → waits c (Map.remove id p) ≤ waits c p
unfolding waits Map.remove
waits-remove_le c id [] = omega arith
waits-remove_le c id ((j, d) ∷ p) = ground (arith, waits-remove_le c id p)

waits-remove :
    (c : ℕ) (id : ℤ) (p : Map ℤ ℕ) (d : ℕ)
    → Map.get id p ≡ some d
    → (if nat_beq c d then 1 else 0) + waits c (Map.remove id p) ≤ waits c p
unfolding waits Map.remove Map.get
waits-remove c id [] d h = cc
waits-remove c id ((j, e) ∷ p) d h = elim (Bool-cases (int_beq j id)) [
  | inl b ↦ rw (b, some-injective e d (rw b at h)) (omega (arith, waits-remove_le c id p))
  | inr b ↦ rw b (ground (arith, waits-remove c id p d (rw b at h)))
]

waits-insert :
    (c : ℕ) (id : ℤ) (d : ℕ) (p : Map ℤ ℕ)
    → waits c (Map.insert id d p) ≤ (if nat_beq c d then 1 else 0) + waits c p
unfolding waits Map.insert
waits-insert c id d [] = omega arith
waits-insert c id d ((j, e) ∷ p) = ground (arith, waits-insert c id d p)

module _ {V : Type 0} where
  answers-fail_all :
      (c : ℕ) (reason : String) (p : Map ℤ ℕ) (sent : List (ℕ × CdpResponse V))
      → answers c (fail_all reason p sent) ≡ waits c p + answers c sent
  unfolding answers fail_all waits
  answers-fail_all c reason [] sent = omega arith
  answers-fail_all c reason ((id, d) ∷ p) sent =
      omega (arith, answers-fail_all c reason p (_ ∷ sent))

  pub mark_dead-IsOnce : (reason : String) (s : Shared V) → IsOnce s → IsOnce (mark_dead reason s)
  unfolding mark_dead waits
  mark_dead-IsOnce reason s o c = elim (Bool-cases s.alive) [
    | inl b ↦ simp (b, mark_dead) (ground (arith, answers-fail_all c reason s.pending s.sent, o c))
    | inr b ↦ simp (b, mark_dead) (o c)
  ]

  pub respond-IsOnce :
      (id : ℤ) (r : CdpResponse V) (s : Shared V) → IsOnce s → IsOnce (respond id r s)
  unfolding respond answers
  respond-IsOnce id r s o c = elim (Option-cases (Map.get id s.pending)) [
    | inl e ↦ simp (e, respond) (o c)
    | inr found ↦
        simp (found.1, respond) (ground (arith, waits-remove c id s.pending found.0 found.1, o c))
  ]

  -- Losing pending requests keeps it.
  expired-IsOnce :
      (id : ℤ) (s : Shared V) → IsOnce s → IsOnce (record s { pending = Map.remove id s.pending })
  expired-IsOnce id s o c = ground (arith, waits-remove_le c id s.pending, o c)

module _ {V : Type 0} (J : Json V) where
  track-Quiet :
      (ev : CdpEvent V) (s : Shared V)
      → ((track J ev s).pending ≡ s.pending)
        × ((track J ev s).sent ≡ s.sent)
        × ((track J ev s).channels ≡ s.channels)
  unfolding track track_attached track_detached
  track-Quiet ev s = ground arith

  track-IsOnce : (ev : CdpEvent V) (s : Shared V) → IsOnce s → IsOnce (track J ev s)
  track-IsOnce ev s o c = let q = track-Quiet ev s in simp (q.0, q.1, q.2) (o c)

  dispatch_message-IsOnce :
      (n : ℕ) (v : V) (id : Option ℤ) (method : Option String) (s : Shared V)
      → IsOnce s
      → IsOnce (dispatch_message J n v id method s)
  unfolding dispatch_message
  dispatch_message-IsOnce n v (some id) method s o = respond-IsOnce id _ s o
  dispatch_message-IsOnce n v none (some method) s o =
      track-IsOnce (to_event J n v method) (record s { event_count = bump s.event_count }) o
  dispatch_message-IsOnce n v none none s o = o

  pub dispatch_item-IsOnce :
      (n : ℕ) (item : OrderedItem V) (s : Shared V) → IsOnce s → IsOnce (dispatch_item J n item s)
  unfolding dispatch_item
  dispatch_item-IsOnce n (undecodable none) s o = o
  dispatch_item-IsOnce n (undecodable (some id)) s o = respond-IsOnce id _ s o
  dispatch_item-IsOnce n (message v) s o =
      dispatch_message-IsOnce n v (J.get v "id" >>= J.as_i64) (J.get v "method" >>= J.as_str) s o

  pub register-IsOnce :
      (session : Option String) (method : String) (params : V) (s : Shared V)
      → IsOnce s
      → IsOnce (register J session method params s).0
  unfolding register
  register-IsOnce session method params s o c =
      let inserted = Map.insert s.next_id s.channels s.pending in
      ground (
        arith,
        waits-insert c s.next_id s.channels s.pending,
        waits-remove_le c s.next_id inserted,
        o c,
      )

  pub expire-IsOnce :
      (id : ℤ) (method : String) (ms : ℕ) (s : Shared V)
      → IsOnce s
      → IsOnce (expire J id method ms s).0
  unfolding expire
  expire-IsOnce id method ms s o = expired-IsOnce id s o
