-- ===== src/Error.antt =====
-- src/browser_runtime/error.rs: the structured errors of the runtime and their encoding on the
-- wire between the daemon and its clients.
pub mod Wire
use mathlib.Core.Option
use hyprfast.Base.{
  ℕ, ◌%◌, ◌^◌, String, ◌<>◌, Option, none, some, List, [], ◌∷◌, map, ℤ, pos, ◌==◌, string_eq,
  if◌then◌else◌, ◌>>=◌,
}
use hyprfast.Base.Text.{Unicode, decimal, decimal_ℤ, join}
use hyprfast.Json.{Json}

pub data RuntimeError : Type 0 where
  connection_failed : String → RuntimeError
  runtime_dead : String → RuntimeError
  timeout : String → ℕ → RuntimeError
  cdp_error : String → ℤ → String → RuntimeError
  invalid_response : String → RuntimeError
  unsupported_browser_protocol : String → RuntimeError
  not_ready : String → RuntimeError
  reconnecting : String → RuntimeError
  shutting_down : String → RuntimeError
  degraded : String → RuntimeError
  protocol_mismatch : ℕ → ℕ → RuntimeError
  handshake_required : String → RuntimeError
  daemon_already_running : String → RuntimeError
  socket : String → RuntimeError
  stale_element_ref : String → RuntimeError
  ambiguous_element : List String → String → RuntimeError
  resolution_failed : String → RuntimeError
  element_not_interactable : String → RuntimeError
  invalid_selector : String → RuntimeError

-- `RuntimeResult<A>`
pub data RuntimeResult (A : Type 0) : Type 0 where
  ok : A → RuntimeResult A
  err : RuntimeError → RuntimeResult A

-- `{list:?}` of a `Vec<String>`.
abbrev debug_list : Unicode → List String → String
debug_list u l = "[" <> join ", " (map u.debug l) <> "]"

-- `fmt::Display`
unfoldable pub display : Unicode → RuntimeError → String
display u (connection_failed d) = "CDP connection failed: " <> d
display u (runtime_dead d) = "browser runtime is dead: " <> d
display u (timeout m ms) = "CDP call " <> m <> " timed out after " <> decimal ms <> "ms"
display u (cdp_error m c t) = "CDP " <> m <> " error " <> decimal_ℤ c <> ": " <> t
display u (invalid_response d) = "invalid CDP response: " <> d
display u (unsupported_browser_protocol d) =
    "unsupported browser protocol (flat session required): " <> d
display u (not_ready d) = "browser runtime not ready: " <> d
display u (reconnecting d) = "browser runtime reconnecting: " <> d
display u (shutting_down d) = "browser runtime shutting down: " <> d
display u (degraded d) = "browser runtime degraded (read-only): " <> d
display u (protocol_mismatch expected got) =
    "IPC protocol mismatch: daemon speaks " <> decimal expected <> ", client spoke " <> decimal got
display u (handshake_required d) = "IPC handshake required before commands: " <> d
display u (daemon_already_running d) = "browser runtime daemon already running: " <> d
display u (socket d) = "browser runtime socket error: " <> d
display u (stale_element_ref d) = "stale element ref: " <> d
display u (ambiguous_element cs d) =
    "ambiguous element (" <> d <> "): candidates=" <> debug_list u cs
display u (resolution_failed d) = "resolution failed: " <> d
display u (element_not_interactable d) = "element not interactable: " <> d
display u (invalid_selector d) = "invalid selector: " <> d

unfoldable pub wire_type : RuntimeError → String
wire_type (connection_failed _) = "ConnectionFailed"
wire_type (runtime_dead _) = "RuntimeDead"
wire_type (timeout _ _) = "Timeout"
wire_type (cdp_error _ _ _) = "CdpError"
wire_type (invalid_response _) = "InvalidResponse"
wire_type (unsupported_browser_protocol _) = "UnsupportedBrowserProtocol"
wire_type (not_ready _) = "NotReady"
wire_type (reconnecting _) = "Reconnecting"
wire_type (shutting_down _) = "ShuttingDown"
wire_type (degraded _) = "Degraded"
wire_type (protocol_mismatch _ _) = "ProtocolMismatch"
wire_type (handshake_required _) = "HandshakeRequired"
wire_type (daemon_already_running _) = "DaemonAlreadyRunning"
wire_type (socket _) = "Socket"
wire_type (stale_element_ref _) = "StaleElementRef"
wire_type (ambiguous_element _ _) = "AmbiguousElement"
wire_type (resolution_failed _) = "ResolutionFailed"
wire_type (element_not_interactable _) = "ElementNotInteractable"
wire_type (invalid_selector _) = "InvalidSelector"

module _ {V : Type 0} (J : Json V) where
  open J use {str, uint, int, arr, obj, get, as_str, as_u64, as_i64, as_array}

  -- The variants that hold one detail text.
  unfoldable pub detail_wire : RuntimeError → String → V
  detail_wire e d = obj (("type", str (wire_type e)) ∷ ("detail", str d) ∷ [])

  unfoldable pub to_wire : RuntimeError → V
  unfolding wire_type
  to_wire (timeout m ms) =
      obj (("type", str "Timeout") ∷ ("method", str m) ∷ ("timeout_ms", uint ms) ∷ [])
  to_wire (cdp_error m c t) =
      obj (("type", str "CdpError") ∷ ("method", str m) ∷ ("code", int c) ∷ ("message", str t) ∷ [])
  to_wire (protocol_mismatch expected got) =
      obj (("type", str "ProtocolMismatch") ∷ ("expected", uint expected) ∷ ("got", uint got) ∷ [])
  to_wire (ambiguous_element cs d) =
      obj (
        ("type", str "AmbiguousElement")
        ∷ ("candidates", arr (map str cs))
        ∷ ("detail", str d)
        ∷ [])
  to_wire (connection_failed d) = detail_wire (connection_failed d) d
  to_wire (runtime_dead d) = detail_wire (runtime_dead d) d
  to_wire (invalid_response d) = detail_wire (invalid_response d) d
  to_wire (unsupported_browser_protocol d) = detail_wire (unsupported_browser_protocol d) d
  to_wire (not_ready d) = detail_wire (not_ready d) d
  to_wire (reconnecting d) = detail_wire (reconnecting d) d
  to_wire (shutting_down d) = detail_wire (shutting_down d) d
  to_wire (degraded d) = detail_wire (degraded d) d
  to_wire (handshake_required d) = detail_wire (handshake_required d) d
  to_wire (daemon_already_running d) = detail_wire (daemon_already_running d) d
  to_wire (socket d) = detail_wire (socket d) d
  to_wire (stale_element_ref d) = detail_wire (stale_element_ref d) d
  to_wire (resolution_failed d) = detail_wire (resolution_failed d) d
  to_wire (element_not_interactable d) = detail_wire (element_not_interactable d) d
  to_wire (invalid_selector d) = detail_wire (invalid_selector d) d

  -- `v.get(key).and_then(accessor).unwrap_or(default)`
  unfoldable pub field_or : {A : Type 0} → V → String → (V → Option A) → A → A
  field_or v key accessor default = elim (get v key >>= accessor) [ none ↦ default | some a ↦ a ]

  -- `filter_map(|x| x.as_str())`
  unfoldable pub strings : List V → List String
  strings [] = []
  strings (v ∷ vs) = elim (as_str v) [ none ↦ strings vs | some s ↦ s ∷ strings vs ]

  unfoldable pub detail_of : V → String
  unfolding field_or
  detail_of v = field_or v "detail" as_str ""

  -- The match on the tag.
  decode : V → String → Option RuntimeError
  decode v t =
      if t == "ConnectionFailed"
      then some (connection_failed (detail_of v))
      else if t == "RuntimeDead"
      then some (runtime_dead (detail_of v))
      else if t == "Timeout"
      then some (timeout (field_or v "method" as_str "") (field_or v "timeout_ms" as_u64 0))
      else if t == "CdpError"
      then some (
          cdp_error (field_or v "method" as_str "") (field_or v "code" as_i64 (pos 0))
            (field_or v "message" as_str ""))
      else if t == "InvalidResponse"
      then some (invalid_response (detail_of v))
      else if t == "UnsupportedBrowserProtocol"
      then some (unsupported_browser_protocol (detail_of v))
      else if t == "NotReady"
      then some (not_ready (detail_of v))
      else if t == "Reconnecting"
      then some (reconnecting (detail_of v))
      else if t == "ShuttingDown"
      then some (shutting_down (detail_of v))
      else if t == "Degraded"
      then some (degraded (detail_of v))
      else if t == "ProtocolMismatch"
      then some (
          protocol_mismatch (field_or v "expected" as_u64 0 % 2 ^ 32)
            (field_or v "got" as_u64 0 % 2 ^ 32))
      else if t == "HandshakeRequired"
      then some (handshake_required (detail_of v))
      else if t == "DaemonAlreadyRunning"
      then some (daemon_already_running (detail_of v))
      else if t == "Socket"
      then some (socket (detail_of v))
      else if t == "StaleElementRef"
      then some (stale_element_ref (detail_of v))
      else if t == "AmbiguousElement"
      then some (
          ambiguous_element (field_or v "candidates" (λ c. Option.map strings (as_array c)) [])
            (detail_of v))
      else if t == "ResolutionFailed"
      then some (resolution_failed (detail_of v))
      else if t == "ElementNotInteractable"
      then some (element_not_interactable (detail_of v))
      else if t == "InvalidSelector"
      then some (invalid_selector (detail_of v))
      else none

  unfoldable pub from_wire : V → Option RuntimeError
  unfolding decode
  from_wire v = do tag ← get v "type"; t ← as_str tag; decode v t
