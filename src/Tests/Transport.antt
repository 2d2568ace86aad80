-- ===== src/Tests/Transport.antt =====
-- The theorems on the transport, at a schedule in which a worker finishes late.
use hyprfast.Base.{
  map, false, int_eq, ◌+◌, ℕ, String, ◌<>◌, ◌≡◌, ◌≤◌, refl, true, Option, none, some, List, [], ◌∷◌,
  pos, arith, inl, In, ltb, if◌then◌else◌, take, length,
}
use hyprfast.Base.Map
use hyprfast.Error.{ok, err, runtime_dead}
use hyprfast.DomState.{CdpEvent}
use hyprfast.Connection
use hyprfast.Connection.{
  Shared, OrderedItem, message, mark_dead, marker, register, dispatch_item, interpret_response,
  response_of, runtime_dead_code, runtime_dead_prefix,
}
use hyprfast.Connection.Calls.{mark_dead-answers, call_answered}
use hyprfast.Connection.Once.{waits, answers}
use hyprfast.Connection.Once.Schedules.{run-answers}
use hyprfast.Connection.Lifetime.{Transport, Deed, act, performs, opened, performs-delivers}
use hyprfast.Connection.Pipeline.{Pipeline, Move, read, take_frame, end_job, call, text, run, start}
use hyprfast.Connection.Pipeline.Soundness.{events_from}
use hyprfast.Connection.Pipeline.Ordered.{frames_read, wire_of, run-events}
use hyprfast.Connection.Pipeline.Settled.{settling}
use hyprfast.Tests.Data.{Value, json, str, int, obj, field, end}

-- The first frame is large enough for a worker, the second is not.
abbrev schedule : List (Move Value)
schedule =
    read (text "DOM.documentUpdated")
    ∷ read (text "B")
    ∷ take_frame
    ∷ take_frame
    ∷ call none "Page.enable" (obj end)
    ∷ end_job 0
    ∷ []

abbrev named : ℕ → String → CdpEvent Value
named n method = record { sequence = n; session_id = none; method = method; params = Value.null }

abbrev request : Value
request =
    obj
      (field "id" (int (pos 1)) (field "method" (str "Page.enable") (field "params" (obj end) end)))

-- A call, and a frame that is dispatched at once.
abbrev short : List (Move Value)
short = call none "Page.enable" (obj end) ∷ read (text "B") ∷ take_frame ∷ []

abbrev dispatched : Pipeline Value
dispatched = record {
  shared = record {
    pending = (pos 1, 0) ∷ [];
    alive = true;
    next_id = pos 2;
    next_sequence = 1;
    events = named 0 "B" ∷ [];
    event_count = 1;
    reorder_current = 0;
    reorder_max = 0;
    offloaded_count = 0;
    oversize_dropped = 0;
    attached_sessions = [];
    writer_open = true;
    written = request ∷ [];
    channels = 1;
    sent = [];
  };
  reading = true;
  inbound = [];
  expected = 1;
  buffer = [];
  inbound_open = true;
  pending_offloads = 0;
  workers = [];
}

short-dispatched : run json 100 10 short (start Connection.new) ≡ some dispatched
unfolding run start Connection.new Map.insert Map.get Map.remove Connection.note_reorder_depth
    dispatch_item
short-dispatched = refl

performs-delivers_example :
    (t : Transport Value) × (t' : Transport Value) × (jobs : ℕ) × (performs json 100 10
        (map act schedule)
        opened
      ≡ some t)
    × (performs json 100 10 (map act (settling json 100 10 (length t.pipeline.inbound) jobs)) t
        ≡ some t')
    × (t'.pipeline.shared.events ≡ events_from json 0 (wire_of json 100 10 true schedule))
unfolding frames_read
performs-delivers_example =
    performs-delivers json 100 10 (map act schedule) refl
      (inl (omega arith), (inl (omega arith), tt)) (omega arith)

abbrev before : Transport Value
before = record { pipeline = dispatched; running = true }

abbrev after : Transport Value
after = record {
  pipeline = record dispatched { shared = mark_dead "shutdown" dispatched.shared };
  running = false;
}

-- A call that comes too late, and a frame that is not taken.
abbrev late : List (Deed Value)
late = act (call none "Page.enable" (obj end)) ∷ act take_frame ∷ []

run-events_example :
    (dispatched.shared.events ≡ events_from json 0 (take 1 (wire_of json 100 10 true short)))
    × (1 ≤ length (frames_read true short))
unfolding frames_read
run-events_example = run-events json 100 10 short dispatched (omega arith) short-dispatched

run-answers_example :
    waits 0 ((pos 1, 0) ∷ []) + answers {V = Value} 0 [] ≤ (if ltb 0 1 then 1 else 0)
run-answers_example = run-answers json 100 10 short dispatched 0 short-dispatched

abbrev dead_text : String
dead_text = runtime_dead_prefix <> (" " <> "shutdown")

mark_dead-answers_example :
    let response = marker {V = Value} (pos 1) runtime_dead_code dead_text in
    In (0, response) (mark_dead "shutdown" dispatched.shared).sent
    × ((method : String) → interpret_response json method response ≡ err (runtime_dead dead_text))
    × ((mark_dead "shutdown" dispatched.shared).pending ≡ [])
    × ((session : Option String) (method : String) (params : Value)
        → register json session method params (mark_dead "shutdown" dispatched.shared)
          ≡ (mark_dead "shutdown" dispatched.shared, err (runtime_dead "connection is closed")))
unfolding Map.get
mark_dead-answers_example = mark_dead-answers json "shutdown" dispatched.shared (pos 1) 0 refl refl

abbrev response : Value
response = obj (field "id" (int (pos 1)) (field "result" (str "done") end))

abbrev called : Shared Value
called = record Connection.new {
  pending = (pos 1, 0) ∷ [];
  next_id = pos 2;
  written = request ∷ [];
  channels = 1;
}

register-called :
    register json none "Page.enable" (obj end) Connection.new ≡ (called, ok (pos 1, 0))
unfolding register Connection.new Map.insert
register-called = refl

call_answered_example :
    let u = dispatch_item json 0 (message response) called in
    (u.sent ≡ (0, response_of json (pos 1) response) ∷ called.sent)
    × (interpret_response json "Page.enable" (response_of json (pos 1) response) ≡ ok (str "done"))
    × (Map.get (pos 1) u.pending ≡ none)
call_answered_example =
    call_answered json none "Page.enable" (obj end) Connection.new called (pos 1) 0 0 response
      register-called refl refl
