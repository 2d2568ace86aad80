-- ===== src/Connection/Pipeline.antt =====
-- src/browser_runtime/connection.rs: the reader, the dispatcher and the decode workers, which run
-- side by side. Reading numbers the frames; large ones are decoded by workers, which finish in any
-- order, and the buffer restores the order of the wire. `none` is the panic of a task.
pub mod Drain
pub mod Soundness
pub mod Reading
pub mod Taking
pub mod Ordered
pub mod Coverage
pub mod Live
pub mod Kept
pub mod Total
pub mod Well
pub mod Settled
use Prim.Native.String.{len}
use mathlib.Core.Option
use hyprfast.Base.{
  ℕ, zero, suc, ◌+◌, ◌-◌, String, ◌<>◌, Bool, true, false, ◌&&◌, not, Option, none, some, List, [],
  ◌∷◌, ◌++◌, ℤ, ltb, nat_beq, nat_eq, if◌then◌else◌, ◌>>=◌, bump, length,
}
use hyprfast.Base.Map
use hyprfast.Base.Map.{Map}
use hyprfast.Json.{Json}
use hyprfast.Connection.{
  Shared, InboundFrame, raw, oversize, OrderedItem, message, undecodable, dispatch_item,
  note_reorder_depth, mark_dead, register, expire,
}
use hyprfast.Connection.IdHint.{extract_id_prefix}

-- A data frame. Of a binary one: its length, its text if it is UTF-8, and its lossy text.
pub data WireFrame : Type 0 where
  text : String → WireFrame
  binary : ℕ → Option String → String → WireFrame

-- The state of the tasks: the channel from the reader, and the jobs of the workers.
pub record Pipeline (V : Type 0) : Type 0 where
  pub shared : Shared V
  pub reading : Bool
  pub inbound : List InboundFrame
  pub expected : ℕ
  pub buffer : Map ℕ (OrderedItem V)
  pub inbound_open : Bool
  pub pending_offloads : ℕ
  pub workers : List (ℕ × String)

unfoldable pub start : {V : Type 0} → Shared V → Pipeline V
start s = record {
  shared = s;
  reading = true;
  inbound = [];
  expected = 0;
  buffer = [];
  inbound_open = true;
  pending_offloads = 0;
  workers = [];
}

-- The job at a place of the list, and the jobs without it.
unfoldable pub pick {ℓ} : {A : Type ℓ} → ℕ → List A → Option (A × List A)
pick k [] = none
pick zero (x ∷ xs) = some (x, xs)
pick (suc k) (x ∷ xs) = elim (pick k xs) [ none ↦ none | some p ↦ some (p.0, x ∷ p.1) ]

module _ {V : Type 0} where
  -- Send the frame with the next number to the dispatcher.
  unfoldable pub forward : (ℕ → InboundFrame) → Pipeline V → Pipeline V
  forward frame p = record p {
    shared = record p.shared { next_sequence = bump p.shared.next_sequence };
    inbound = p.inbound ++ (frame p.shared.next_sequence ∷ []);
  }

  unfoldable pub count_oversize : Pipeline V → Pipeline V
  count_oversize p = record p {
    shared = record p.shared { oversize_dropped = bump p.shared.oversize_dropped };
  }

  -- The size is tested against the largest message that is accepted.
  unfoldable pub read_data : ℕ → WireFrame → Pipeline V → Option (Pipeline V)
  unfolding forward count_oversize
  read_data max (text t) p =
      if ltb max (len t)
      then Option.map (λ hint. forward (λ n. oversize n hint) (count_oversize p))
          (extract_id_prefix t)
      else some (forward (λ n. raw n t) p)
  read_data max (binary size utf8 lossy) p =
      if ltb max size
      then Option.map (λ hint. forward (λ n. oversize n hint) (count_oversize p))
          (extract_id_prefix lossy)
      else some (elim utf8 [
        | some t ↦ forward (λ n. raw n t) p
        | none ↦ forward (λ n. oversize n none) p
      ])

  abbrev after_error : Option String → Shared V → Shared V
  after_error none s = s
  after_error (some e) s = mark_dead ("reader error: " <> e) s

  -- The reader ends: an error names itself, a close by the peer has a reason of its own.
  unfoldable pub finish_reading : Option String → Pipeline V → Pipeline V
  finish_reading error p =
      let s = after_error error p.shared in
      record p {
        reading = false;
        shared = if s.alive then mark_dead "reader: connection closed by peer" s else s;
      }

  unfoldable pub hand_over : ℕ → String → Pipeline V → Pipeline V
  hand_over sequence t p = record p {
    pending_offloads = p.pending_offloads + 1;
    shared = record p.shared { offloaded_count = bump p.shared.offloaded_count };
    workers = p.workers ++ ((sequence, t) ∷ []);
  }

  -- An empty channel says nothing as long as the reader lives.
  unfoldable pub hear_close : Bool → Pipeline V → Pipeline V
  hear_close true p = p
  hear_close false p = record p { inbound_open = false }

module _ {V : Type 0} (J : Json V) where
  -- One turn of `drain_ready`, with the item that was taken out of the buffer.
  unfoldable pub turn : OrderedItem V → Pipeline V → Pipeline V
  turn item p =
      let buffer' = Map.remove p.expected p.buffer in
      record p {
        buffer = buffer';
        expected = bump p.expected;
        shared = note_reorder_depth (length buffer') (dispatch_item J p.expected item p.shared);
      }

  -- `drain_ready` on fuel; every turn takes an entry out of the buffer.
  unfoldable pub drain : ℕ → Pipeline V → Pipeline V
  unfolding turn
  drain zero p = record p { shared = note_reorder_depth (length p.buffer) p.shared }
  drain (suc fuel) p = elim (Map.get p.expected p.buffer) [
    | none ↦ record p { shared = note_reorder_depth (length p.buffer) p.shared }
    | some item ↦ drain fuel (turn item p)
  ]

  unfoldable pub drain_ready : Pipeline V → Pipeline V
  unfolding drain
  drain_ready p = drain (length p.buffer) p

  unfoldable pub insert_and_drain : ℕ → OrderedItem V → Pipeline V → Pipeline V
  unfolding drain_ready
  insert_and_drain sequence item p =
      drain_ready (record p { buffer = Map.insert sequence item p.buffer })

  unfoldable pub decode_inline : String → Option (OrderedItem V)
  decode_inline t = elim (J.from_str t) [
    | some v ↦ some (message v)
    | none ↦ Option.map undecodable (extract_id_prefix t)
  ]

  -- The text is gone when a worker reports a failure, so there is no hint.
  unfoldable pub decode_offloaded : String → OrderedItem V
  decode_offloaded t = elim (J.from_str t) [ some v ↦ message v | none ↦ undecodable none ]

  unfoldable pub receive_frame : ℕ → InboundFrame → Pipeline V → Option (Pipeline V)
  unfolding insert_and_drain decode_inline hand_over
  receive_frame threshold (oversize sequence hint) p =
      some (insert_and_drain sequence (undecodable hint) p)
  receive_frame threshold (raw sequence t) p =
      if not (ltb (len t) threshold)
      then some (hand_over sequence t p)
      else Option.map (λ item. insert_and_drain sequence item p) (decode_inline t)

  unfoldable pub receive_from : ℕ → List InboundFrame → Pipeline V → Option (Pipeline V)
  unfolding receive_frame hear_close
  receive_from threshold [] p = some (hear_close p.reading p)
  receive_from threshold (frame ∷ rest) p =
      receive_frame threshold frame (record p { inbound = rest })

  -- The dispatcher takes the next frame of the channel, or learns that it is closed.
  unfoldable pub receive : ℕ → Pipeline V → Option (Pipeline V)
  unfolding receive_from
  receive threshold p = receive_from threshold p.inbound p

  -- The result of a job, and the jobs that go on.
  unfoldable pub end_of : ℕ × String → List (ℕ × String) → Pipeline V → Pipeline V
  unfolding insert_and_drain decode_offloaded
  end_of job rest p =
      insert_and_drain job.0 (decode_offloaded job.1)
        (record p { workers = rest; pending_offloads = p.pending_offloads - 1 })

  -- The job at place `k` ends, and the dispatcher takes its result.
  unfoldable pub complete : ℕ → Pipeline V → Pipeline V
  unfolding pick end_of
  complete k p = elim (pick k p.workers) [ none ↦ p | some job ↦ end_of job.0 job.1 p ]

-- A move of one of the tasks, or of a caller: a call, its deadline, or the first half of a shutdown,
-- which marks the transport dead. The second half, the abort of the tasks, is in Lifetime: a task
-- that is aborted makes no further move.
pub data Move (V : Type 0) : Type 0 where
  read : WireFrame → Move V
  finish : Option String → Move V
  take_frame : Move V
  end_job : ℕ → Move V
  call : Option String → String → V → Move V
  give_up : ℤ → Move V
  shut_down : Move V

module _ {V : Type 0} (J : Json V) (max threshold : ℕ) where
  unfoldable pub move : Move V → Pipeline V → Option (Pipeline V)
  unfolding read_data finish_reading receive complete register expire mark_dead
  move (read f) p = if p.reading then read_data max f p else some p
  move (finish e) p = some (if p.reading then finish_reading e p else p)
  move take_frame p = receive J threshold p
  move (end_job k) p = some (complete J k p)
  move (call session method params) p =
      some (record p { shared = (register J session method params p.shared).0 })
  move (give_up id) p = some (record p { shared = (expire J id "" 0 p.shared).0 })
  move shut_down p = some (record p { shared = mark_dead "shutdown" p.shared })

  -- A schedule of the tasks.
  unfoldable pub run : List (Move V) → Pipeline V → Option (Pipeline V)
  unfolding move
  run [] p = some p
  run (m ∷ ms) p = do q ← move m p; run ms q
