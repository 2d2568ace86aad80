-- ===== src/Connection/Pipeline/Ordered.antt =====
-- src/browser_runtime/connection.rs: every schedule of the tasks broadcasts the events in the order
-- of the wire.
use mathlib.Core.Option.{some-injective}
use mathlib.Core.List.{map-append, append_assoc, append-nil}
use hyprfast.Base.{
  sym, ap, >>=-eq-some, ℕ, ◌<◌, String, ◌<>◌, ◌≡◌, refl, subst, ◌∙◌, Bool, ◌&&◌, true, false,
  Option, none, some, List, [], ◌∷◌, ◌++◌, map, u64_mod, arith, not, length, length-append,
  length-map,
}
use hyprfast.Connection
use hyprfast.Base.Map
use hyprfast.Base.{take, ◌≤◌}
use hyprfast.Json.{Json}
use hyprfast.Connection.{Shared, InboundFrame, raw, oversize, OrderedItem, mark_dead}
use hyprfast.Connection.Pipeline.{
  start, WireFrame, Pipeline, finish_reading, receive, complete, Move, run, read, finish,
  take_frame, end_job, call, give_up, shut_down, move,
}
use hyprfast.Connection.Pipeline.Drain.{Same, mark_dead-Same, register-Same, expire-Same}
use hyprfast.Connection.Pipeline.Soundness.{events_from, IsSound}
use hyprfast.Connection.Pipeline.Reading.{item_of, Same-IsSound, read_data-IsSound}
use hyprfast.Connection.Pipeline.Taking.{receive_from-IsSound, complete-IsSound}

module _ {V : Type 0} where
  abbrev pub frame_of : Move V → Bool → List WireFrame
  frame_of (read f) true = f ∷ []
  frame_of (read f) false = []
  frame_of (finish _) reading = []
  frame_of take_frame reading = []
  frame_of (end_job _) reading = []
  frame_of (call _ _ _) reading = []
  frame_of (give_up _) reading = []
  frame_of shut_down reading = []

  abbrev pub ends : Move V → Bool
  ends (finish _) = true
  ends _ = false

  abbrev pub reads_on : Bool → Move V → Bool
  reads_on reading m = not (ends m) && reading

  -- The frames that a schedule reads: none once the reader has ended.
  unfoldable pub frames_read : Bool → List (Move V) → List WireFrame
  frames_read reading [] = []
  frames_read reading (m ∷ ms) = frame_of m reading ++ frames_read (reads_on reading m) ms

module _ {V : Type 0} (J : Json V) (max threshold : ℕ) where
  -- What the frames of a schedule are read as.
  unfoldable pub wire_of : Bool → List (Move V) → List (Option (OrderedItem V))
  unfolding frames_read item_of
  wire_of reading ms = map (item_of J max threshold) (frames_read reading ms)

  Same-finish :
      (error : Option String) (p : Pipeline V) → Same p.shared (finish_reading error p).shared
  unfolding finish_reading
  Same-finish none p = ground (arith, mark_dead-Same "reader: connection closed by peer" p.shared)
  Same-finish (some e) p =
      let s = mark_dead ("reader error: " <> e) p.shared in
      ground (
        arith,
        mark_dead-Same ("reader error: " <> e) p.shared,
        mark_dead-Same "reader: connection closed by peer" s,
      )

  finished-IsSound :
      (error : Option String) (reading : Bool) (wire : List (Option (OrderedItem V)))
      (p : Pipeline V)
      → IsSound J threshold reading wire p
      → IsSound J threshold false wire (finish_reading error p)
  unfolding finish_reading
  finished-IsSound error reading wire p s =
      let ended = Same-finish error p in
      record {
        reads = refl;
        numbered = ended.1 ∙ s.numbered;
        drained = s.drained;
        told = ended.0 ∙ s.told;
        queued = s.queued;
        buffered = s.buffered;
        at_work = s.at_work;
      }

  -- A move that reads no frame.
  unread :
      (reading : Bool) (wire : List (Option (OrderedItem V))) (q : Pipeline V)
      → IsSound J threshold reading wire q
      → IsSound J threshold reading (wire ++ []) q
  unread reading wire q s = rw (append-nil wire) s

  shared_move :
      (reading : Bool) (wire : List (Option (OrderedItem V))) (p q : Pipeline V) (t : Shared V)
      → some (record p { shared = t }) ≡ some q
      → Same p.shared t
      → IsSound J threshold reading wire p
      → IsSound J threshold reading (wire ++ []) q
  shared_move reading wire p q t h e s = unread reading wire q (
      subst (IsSound J threshold reading wire) (some-injective (record p { shared = t }) q h)
        (Same-IsSound J threshold reading wire t p e s))

  -- A move keeps the pipeline sound for the frames read so far and those that it reads.
  pub move-IsSound :
      (m : Move V) (reading : Bool) (wire : List (Option (OrderedItem V))) (p q : Pipeline V)
      → length (wire ++ map (item_of J max threshold) (frame_of m reading)) < u64_mod
      → move J max threshold m p ≡ some q
      → IsSound J threshold reading wire p
      → IsSound J threshold
          (reads_on reading m)
          (wire ++ map (item_of J max threshold) (frame_of m reading))
          q
  unfolding move receive
  move-IsSound (read f) true wire p q small h s =
      read_data-IsSound J threshold true max f wire p q
        (omega (arith, small, length-append wire (item_of J max threshold f ∷ [])))
        (simp s.reads at h) s
  move-IsSound (read f) false wire p q small h s =
      unread false wire q
        (subst (IsSound J threshold false wire) (some-injective p q (simp s.reads at h)) s)
  move-IsSound (finish e) true wire p q small h s = unread false wire q (
      subst (IsSound J threshold false wire)
        (some-injective (finish_reading e p) q (simp s.reads at h))
        (finished-IsSound e true wire p s))
  move-IsSound (finish e) false wire p q small h s =
      unread false wire q
        (subst (IsSound J threshold false wire) (some-injective p q (simp s.reads at h)) s)
  move-IsSound take_frame reading wire p q small h s = unread reading wire q (
      receive_from-IsSound J threshold reading wire (rw (append-nil wire) at small) p.inbound p q h
        s.queued s)
  move-IsSound (end_job k) reading wire p q small h s = unread reading wire q (
      subst (IsSound J threshold reading wire) (some-injective (complete J k p) q h)
        (complete-IsSound J threshold reading wire (rw (append-nil wire) at small) k p s))
  move-IsSound (call t method params) reading wire p q small h s =
      shared_move reading wire p q _ h (register-Same J t method params p.shared) s
  move-IsSound (give_up id) reading wire p q small h s =
      shared_move reading wire p q _ h (expire-Same J id "" 0 p.shared) s
  move-IsSound shut_down reading wire p q small h s =
      shared_move reading wire p q _ h (mark_dead-Same "shutdown" p.shared) s

  pub start-IsSound : IsSound J threshold true [] (start Connection.new)
  unfolding start Connection.new events_from
  start-IsSound = record {
    reads = refl;
    numbered = refl;
    drained = omega arith;
    told = refl;
    queued = tt;
    buffered = λ k item e. cc (e, Map.get-empty {V = OrderedItem V} k);
    at_work = tt;
  }

  run-IsSound :
      (ms : List (Move V)) (reading : Bool) (wire : List (Option (OrderedItem V)))
      (p q : Pipeline V)
      → length (wire ++ wire_of reading ms) < u64_mod
      → run J max threshold ms p ≡ some q
      → IsSound J threshold reading wire p
      → (b : Bool) × IsSound J threshold b (wire ++ wire_of reading ms) q
  unfolding run frames_read wire_of
  run-IsSound [] reading wire p q small h s = (
    reading,
    unread reading wire q (subst (IsSound J threshold reading wire) (some-injective p q h) s),
  )
  run-IsSound (m ∷ ms) reading wire p q small h s =
      let next = >>=-eq-some (move J max threshold m p) (run J max threshold ms) h in
      let here = map (item_of J max threshold) (frame_of m reading) in
      let joined =
        append_assoc wire here (wire_of (reads_on reading m) ms)
        ∙ ap (λ r. wire ++ r)
            (sym (
              map-append (item_of J max threshold) (frame_of m reading)
                (frames_read (reads_on reading m) ms))) in
      let step =
        move-IsSound m reading wire p next.0
          (omega (
            arith,
            rw (← joined) at small,
            length-append (wire ++ here) (wire_of (reads_on reading m) ms),
          ))
          next.1 s in
      let rest =
        run-IsSound ms (reads_on reading m) (wire ++ here) next.0 q (rw (← joined) at small) next.2
          step in
      (rest.0, rw (← joined) rest.1)

  -- Whatever the schedule of the reader, the workers, the dispatcher and the callers, the events
  -- broadcast so far are those of the frames before the expected one, in the order of the wire and
  -- with their numbers; so no event is broadcast twice, lost in the middle, or out of order. The
  -- schedule must not panic, nor read 2^64 frames.
  pub run-events :
      (ms : List (Move V)) (q : Pipeline V)
      → length (frames_read true ms) < u64_mod
      → run J max threshold ms (start Connection.new) ≡ some q
      → (q.shared.events ≡ events_from J 0 (take q.expected (wire_of true ms)))
        × (q.expected ≤ length (frames_read true ms))
  unfolding wire_of
  run-events ms q small h =
      let counted = length-map (item_of J max threshold) (frames_read true ms) in
      let s =
        (run-IsSound ms true [] (start Connection.new) q (omega (arith, small, counted)) h
          (start-IsSound)).1 in
      (s.told, omega (arith, s.drained, counted))
