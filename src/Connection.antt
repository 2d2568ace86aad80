-- ===== src/Connection.antt =====
-- src/browser_runtime/connection.rs: the transport to the browser. This module has the state that
-- the tasks share, what they do to it, and the answer that a caller gets. A response channel is
-- the number of the call that made it.
pub mod IdHint
pub mod Pipeline
pub mod Lifetime
pub mod Once
pub mod Calls
use mathlib.Core.Option
use hyprfast.Base.{
  ℕ, zero, suc, ◌+◌, ◌<◌, ◌^◌, ◌-◌, String, ◌<>◌, Bool, true, false, ◌&&◌, Option, none, some, List,
  [], ◌∷◌, ◌++◌, ℤ, pos, negsuc, ◌==◌, string_eq, int_eq, int_beq, ltb, nat_beq, if◌then◌else◌,
  ◌>>=◌, bump, length, keep, not, any,
}
use hyprfast.Base.Map
use hyprfast.Base.Map.{Map}
use hyprfast.Base.Text.{decimal, strip_prefix, is_some}
use hyprfast.Error.{
  RuntimeError, RuntimeResult, ok, err, runtime_dead, invalid_response, cdp_error, timeout,
}
use hyprfast.Frames.{unwrap_or}
use hyprfast.Json.{Json}
use hyprfast.DomState.{CdpEvent}

pub record CdpError (V : Type 0) : Type 0 where
  pub code : ℤ
  pub message : String
  pub error_data : Option V

pub record CdpResponse (V : Type 0) : Type 0 where
  pub id : ℤ
  pub result : Option V
  pub error : Option (CdpError V)
  pub session_id : Option String

-- The id and the wire form of a request; serde_json prints the latter.
pub record CdpRequest (V : Type 0) : Type 0 where
  pub id : ℤ
  pub method : String
  pub params : V
  pub session_id : Option String

pub data InboundFrame : Type 0 where
  raw : ℕ → String → InboundFrame
  oversize : ℕ → Option ℤ → InboundFrame

pub data OrderedItem (V : Type 0) : Type 0 where
  message : V → OrderedItem V
  undecodable : Option ℤ → OrderedItem V

-- `sent` has what the response channels were given, `events` what was broadcast, the oldest first,
-- and `written` the requests that were queued for the writer. The channels count the calls made.
pub record Shared (V : Type 0) : Type 0 where
  pub pending : Map ℤ ℕ
  pub alive : Bool
  pub next_id : ℤ
  pub next_sequence : ℕ
  pub events : List (CdpEvent V)
  pub event_count : ℕ
  pub reorder_current : ℕ
  pub reorder_max : ℕ
  pub offloaded_count : ℕ
  pub oversize_dropped : ℕ
  pub attached_sessions : List String
  pub writer_open : Bool
  pub written : List V
  pub channels : ℕ
  pub sent : List (ℕ × CdpResponse V)

-- What `connect` starts with.
unfoldable pub new : {V : Type 0} → Shared V
new = record {
  pending = [];
  alive = true;
  next_id = pos 1;
  next_sequence = 0;
  events = [];
  event_count = 0;
  reorder_current = 0;
  reorder_max = 0;
  offloaded_count = 0;
  oversize_dropped = 0;
  attached_sessions = [];
  writer_open = true;
  written = [];
  channels = 0;
  sent = [];
}

abbrev pub runtime_dead_code : ℤ
runtime_dead_code = negsuc 32000

abbrev pub runtime_dead_prefix : String
runtime_dead_prefix = "HYPRFAST_RUNTIME_DEAD:"

abbrev pub invalid_response_code : ℤ
invalid_response_code = negsuc 32001

abbrev pub invalid_response_prefix : String
invalid_response_prefix = "HYPRFAST_INVALID_RESPONSE:"

-- The answer that stands for a failure of the transport.
abbrev pub marker : {V : Type 0} → ℤ → ℤ → String → CdpResponse V
marker id code text = record {
  id = id;
  result = none;
  error = some (record { code = code; message = text; error_data = none });
  session_id = none;
}

-- `fetch_add(1)` on an `AtomicI64`, which wraps.
abbrev pub next_i64 : ℤ → ℤ
next_i64 (pos n) = if ltb (n + 1) (2 ^ 63) then pos (n + 1) else negsuc (2 ^ 63 - 1)
next_i64 (negsuc zero) = pos 0
next_i64 (negsuc (suc n)) = negsuc n

-- One marker for every request in flight.
unfoldable pub fail_all :
    {V : Type 0} → String → Map ℤ ℕ → List (ℕ × CdpResponse V) → List (ℕ × CdpResponse V)
fail_all reason [] sent = sent
fail_all reason ((id, channel) ∷ pending) sent =
    fail_all reason pending
      ((channel, marker id runtime_dead_code (runtime_dead_prefix <> (" " <> reason))) ∷ sent)

module _ {V : Type 0} where
  unfoldable pub mark_dead : String → Shared V → Shared V
  unfolding fail_all
  mark_dead reason s =
      if s.alive
      then record s {
        alive = false;
        writer_open = false;
        pending = [];
        sent = fail_all reason s.pending s.sent;
      }
      else s

  unfoldable pub note_reorder_depth : ℕ → Shared V → Shared V
  note_reorder_depth current s = record s {
    reorder_current = current;
    reorder_max = if ltb s.reorder_max current then current else s.reorder_max;
  }

  unfoldable pub track_attached : String → Shared V → Shared V
  track_attached session s =
      if any (λ t. t == session) s.attached_sessions
      then s
      else record s { attached_sessions = s.attached_sessions ++ (session ∷ []) }

  unfoldable pub track_detached : String → Shared V → Shared V
  track_detached session s = record s {
    attached_sessions = keep (λ t. not (t == session)) s.attached_sessions;
  }

  -- The channel waiting for this id, if any, is given the response; an unknown id is dropped.
  unfoldable pub respond : ℤ → CdpResponse V → Shared V → Shared V
  respond id response s = elim (Map.get id s.pending) [
    | none ↦ s
    | some channel ↦ record s {
      pending = Map.remove id s.pending;
      sent = (channel, response) ∷ s.sent;
    }
  ]

module _ {V : Type 0} (J : Json V) where
  open J use {get, as_str, as_i64, is_null, null, str, int, obj}

  abbrev session_field : Option String → List (String × V)
  session_field none = []
  session_field (some s) = ("sessionId", str s) ∷ []

  unfoldable pub to_wire_value : CdpRequest V → V
  to_wire_value r = obj (
      ("id", int r.id)
      ∷ ("method", str r.method)
      ∷ ("params", r.params)
      ∷ session_field r.session_id)

  unfoldable pub parse_cdp_error : V → Option (CdpError V)
  parse_cdp_error v = do
    e ← get v "error"
    if is_null e
        then none
        else some (record {
          code = unwrap_or (get e "code" >>= as_i64) (pos 0);
          message = unwrap_or (get e "message" >>= as_str) "unknown CDP error";
          error_data = get e "data";
        })

  unfoldable pub session_of : V → Option String
  session_of v = get v "sessionId" >>= as_str

  -- The event that a message without an id carries.
  unfoldable pub to_event : ℕ → V → String → CdpEvent V
  unfolding session_of
  to_event sequence v method = record {
    sequence = sequence;
    session_id = session_of v;
    method = method;
    params = unwrap_or (get v "params") null;
  }

  -- `f` with the session id of the parameters, if they have one.
  abbrev with_session : (String → Shared V → Shared V) → CdpEvent V → Shared V → Shared V
  with_session f ev s = elim (get ev.params "sessionId" >>= as_str) [ none ↦ s | some t ↦ f t s ]

  unfoldable pub track : CdpEvent V → Shared V → Shared V
  unfolding track_attached track_detached
  track ev s =
      if ev.method == "Target.attachedToTarget"
      then with_session track_attached ev s
      else if ev.method == "Target.detachedFromTarget"
      then with_session track_detached ev s
      else s

  unfoldable pub broadcast : CdpEvent V → Shared V → Shared V
  unfolding track
  broadcast ev s =
      let t = track ev (record s { event_count = bump s.event_count }) in
      record t { events = t.events ++ (ev ∷ []) }

  unfoldable pub response_of : ℤ → V → CdpResponse V
  unfolding parse_cdp_error session_of
  response_of id v = record {
    id = id;
    result = get v "result";
    error = parse_cdp_error v;
    session_id = session_of v;
  }

  -- A message is a response if it has an id, an event if it has a method, and nothing otherwise.
  unfoldable pub dispatch_message : ℕ → V → Option ℤ → Option String → Shared V → Shared V
  unfolding respond response_of broadcast to_event
  dispatch_message sequence v (some id) method s = respond id (response_of id v) s
  dispatch_message sequence v none (some method) s = broadcast (to_event sequence v method) s
  dispatch_message sequence v none none s = s

  unfoldable pub dispatch_item : ℕ → OrderedItem V → Shared V → Shared V
  unfolding dispatch_message respond
  dispatch_item sequence (undecodable none) s = s
  dispatch_item sequence (undecodable (some id)) s =
      respond id
        (marker id invalid_response_code (
          invalid_response_prefix <> (" frame #" <> (decimal sequence <> " could not be decoded"))))
        s
  dispatch_item sequence (message v) s =
      dispatch_message sequence v (get v "id" >>= as_i64) (get v "method" >>= as_str) s

  unfoldable pub interpret_response : String → CdpResponse V → RuntimeResult V
  interpret_response method resp = elim resp.error [
    | none ↦ ok (unwrap_or resp.result null)
    | some e ↦
        if int_beq e.code runtime_dead_code && is_some (strip_prefix runtime_dead_prefix e.message)
        then err (runtime_dead e.message)
        else if int_beq e.code invalid_response_code
            && is_some (strip_prefix invalid_response_prefix e.message)
        then err (invalid_response e.message)
        else err (cdp_error method e.code e.message)
  ]

  -- The request of a call is registered and queued: the new state and, if the call waits for an
  -- answer, its id and its channel.
  unfoldable pub register : Option String → String → V → Shared V → Shared V × RuntimeResult (ℤ × ℕ)
  unfolding to_wire_value
  register session method params s =
      if s.alive
      then (let id = s.next_id in
          let s' = record s { next_id = next_i64 id; channels = s.channels + 1 } in
          if s.writer_open
          then (
            record s' {
              pending = Map.insert id s.channels s.pending;
              written =
                  s.written
                  ++ (to_wire_value
                        (record { id = id; method = method; params = params; session_id = session })
                      ∷ []);
            },
            ok (id, s.channels),
          )
          else (
            record s' { pending = Map.remove id (Map.insert id s.channels s.pending) },
            err (runtime_dead "connection closed while queueing request"),
          ))
      else (s, err (runtime_dead "connection is closed"))

  -- The deadline of a call passes.
  unfoldable pub expire : ℤ → String → ℕ → Shared V → Shared V × RuntimeResult V
  expire id method timeout_ms s =
      (record s { pending = Map.remove id s.pending }, err (timeout method timeout_ms))
