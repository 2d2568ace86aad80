-- ===== src/Connection/Once/Schedules.antt =====
-- src/browser_runtime/connection.rs: no schedule answers a call twice.
use Prim.Native.String.{len}
use mathlib.Core.Option
use mathlib.Core.Option.{some-injective}
use hyprfast.Base.{
  ℕ, zero, suc, ◌≤◌, ◌+◌, String, ◌<>◌, ◌≡◌, sym, subst, Bool, true, false, Option, none, some,
  List, [], ◌∷◌, arith, inl, inr, Bool-cases, Option-cases, map-eq-some, >>=-eq-some, not, ltb,
  nat_eq, if◌then◌else◌,
}
use hyprfast.Base.Map
use hyprfast.Json.{Json}
use hyprfast.Connection
use hyprfast.Connection.{
  Shared, InboundFrame, raw, oversize, OrderedItem, note_reorder_depth, mark_dead, dispatch_item,
}
use hyprfast.Connection.IdHint.{extract_id_prefix}
use hyprfast.Connection.Pipeline.{
  WireFrame, text, binary, Pipeline, start, turn, drain, drain_ready, insert_and_drain, forward,
  count_oversize, read_data, finish_reading, decode_inline, hand_over, receive_frame, receive_from,
  receive, hear_close, end_of, complete, pick, Move, read, finish, take_frame, end_job, call,
  give_up, shut_down, move, run,
}
use hyprfast.Connection.Pipeline.Soundness.{drain-none, drain-some}
use hyprfast.Connection.Once.{
  waits, answers, IsOnce, mark_dead-IsOnce, dispatch_item-IsOnce, register-IsOnce, expire-IsOnce,
}

module _ {V : Type 0} (J : Json V) where
  drain-IsOnce : (fuel : ℕ) (p : Pipeline V) → IsOnce p.shared → IsOnce (drain J fuel p).shared
  unfolding drain turn note_reorder_depth
  drain-IsOnce zero p o = o
  drain-IsOnce (suc fuel) p o = elim (Option-cases (Map.get p.expected p.buffer)) [
    | inl e ↦ subst (λ q. IsOnce q.shared) (sym (drain-none J fuel p e)) o
    | inr found ↦
        subst (λ q. IsOnce q.shared) (sym (drain-some J fuel p found.1))
          (drain-IsOnce fuel (turn J found.0 p)
            (dispatch_item-IsOnce J p.expected found.0 p.shared o))
  ]

  insert_and_drain-IsOnce :
      (n : ℕ) (item : OrderedItem V) (p : Pipeline V)
      → IsOnce p.shared
      → IsOnce (insert_and_drain J n item p).shared
  unfolding insert_and_drain drain_ready
  insert_and_drain-IsOnce n item p o = drain-IsOnce _ _ o

  receive_frame-IsOnce :
      (threshold : ℕ) (f : InboundFrame) (p q : Pipeline V)
      → receive_frame J threshold f p ≡ some q
      → IsOnce p.shared
      → IsOnce q.shared
  unfolding receive_frame hand_over
  receive_frame-IsOnce threshold (oversize n hint) p q h o =
      subst (λ r. IsOnce r.shared) (some-injective _ q h) (insert_and_drain-IsOnce n _ p o)
  receive_frame-IsOnce threshold (raw n t) p q h o =
      elim (Bool-cases (not (ltb (len t) threshold))) [
        | inl e ↦ subst (λ r. IsOnce r.shared) (some-injective _ q (rw e at h)) o
        | inr e ↦
            let found = map-eq-some _ (decode_inline J t) (rw e at h) in
            rw found.2 (insert_and_drain-IsOnce n found.0 p o)
      ]

  receive_from-IsOnce :
      (threshold : ℕ) (fs : List InboundFrame) (p q : Pipeline V)
      → receive_from J threshold fs p ≡ some q
      → IsOnce p.shared
      → IsOnce q.shared
  unfolding receive_from
  receive_from-IsOnce threshold [] p q h o =
      subst (λ r. IsOnce r.shared) (some-injective _ q h) (closed p.reading)
    where
      closed : (b : Bool) → IsOnce (hear_close b p).shared
      closed true = o
      closed false = o
  receive_from-IsOnce threshold (f ∷ fs) p q h o =
      receive_frame-IsOnce threshold f (record p { inbound = fs }) q h o

  complete-IsOnce : (k : ℕ) (p : Pipeline V) → IsOnce p.shared → IsOnce (complete J k p).shared
  unfolding complete end_of
  complete-IsOnce k p o = elim (Option-cases (pick k p.workers)) [
    | inl e ↦ rw (e, complete) o
    | inr found ↦ rw (found.1, complete) (insert_and_drain-IsOnce _ _ _ o)
  ]

module _ {V : Type 0} where
  hinted-IsOnce :
      (head : String) (p q : Pipeline V)
      → Option.map
          (λ hint. forward (λ n. oversize n hint) (count_oversize p))
          (extract_id_prefix head)
        ≡ some q
      → IsOnce p.shared
      → IsOnce q.shared
  unfolding count_oversize forward
  hinted-IsOnce head p q h o = let found = map-eq-some _ (extract_id_prefix head) h in rw found.2 o

  utf8-IsOnce :
      (utf8 : Option String) (p q : Pipeline V)
      → some (elim utf8 [
        | some t ↦ forward (λ n. raw n t) p
        | none ↦ forward (λ n. oversize n none) p
      ])
        ≡ some q
      → IsOnce p.shared
      → IsOnce q.shared
  unfolding forward
  utf8-IsOnce none p q h o = subst (λ r. IsOnce r.shared) (some-injective _ q h) o
  utf8-IsOnce (some t) p q h o = subst (λ r. IsOnce r.shared) (some-injective _ q h) o

  read_data-IsOnce :
      (max : ℕ) (f : WireFrame) (p q : Pipeline V)
      → read_data max f p ≡ some q
      → IsOnce p.shared
      → IsOnce q.shared
  unfolding read_data forward
  read_data-IsOnce max (text t) p q h o = elim (Bool-cases (ltb max (len t))) [
    | inl b ↦ hinted-IsOnce t p q (rw b at h) o
    | inr b ↦ subst (λ r. IsOnce r.shared) (some-injective _ q (rw b at h)) o
  ]
  read_data-IsOnce max (binary size utf8 lossy) p q h o = elim (Bool-cases (ltb max size)) [
    | inl b ↦ hinted-IsOnce lossy p q (rw b at h) o
    | inr b ↦ utf8-IsOnce utf8 p q (rw b at h) o
  ]

  closed-IsOnce :
      (s : Shared V)
      → IsOnce s
      → IsOnce (if s.alive then mark_dead "reader: connection closed by peer" s else s)
  closed-IsOnce s o = elim (Bool-cases s.alive) [
    | inl b ↦ simp b (mark_dead-IsOnce "reader: connection closed by peer" s o)
    | inr b ↦ simp b o
  ]

  finish_reading-IsOnce :
      (error : Option String) (p : Pipeline V)
      → IsOnce p.shared
      → IsOnce (finish_reading error p).shared
  unfolding finish_reading
  finish_reading-IsOnce none p o = closed-IsOnce p.shared o
  finish_reading-IsOnce (some e) p o =
      closed-IsOnce _ (mark_dead-IsOnce ("reader error: " <> e) p.shared o)

module _ {V : Type 0} (J : Json V) (max threshold : ℕ) where
  move-IsOnce :
      (m : Move V) (p q : Pipeline V)
      → move J max threshold m p ≡ some q
      → IsOnce p.shared
      → IsOnce q.shared
  unfolding move receive
  move-IsOnce (read f) p q h o = elim (Bool-cases p.reading) [
    | inl b ↦ read_data-IsOnce max f p q (simp b at h) o
    | inr b ↦ subst (λ r. IsOnce r.shared) (some-injective p q (simp b at h)) o
  ]
  move-IsOnce (finish e) p q h o = elim (Bool-cases p.reading) [
    | inl b ↦
        subst (λ r. IsOnce r.shared) (some-injective (finish_reading e p) q (simp b at h))
          (finish_reading-IsOnce e p o)
    | inr b ↦ subst (λ r. IsOnce r.shared) (some-injective p q (simp b at h)) o
  ]
  move-IsOnce take_frame p q h o = receive_from-IsOnce J threshold p.inbound p q h o
  move-IsOnce (end_job k) p q h o =
      subst (λ r. IsOnce r.shared) (some-injective (complete J k p) q h) (complete-IsOnce J k p o)
  move-IsOnce (call t method params) p q h o =
      subst (λ r. IsOnce r.shared) (some-injective _ q h)
        (register-IsOnce J t method params p.shared o)
  move-IsOnce (give_up id) p q h o =
      subst (λ r. IsOnce r.shared) (some-injective _ q h) (expire-IsOnce J id "" 0 p.shared o)
  move-IsOnce shut_down p q h o =
      subst (λ r. IsOnce r.shared) (some-injective _ q h) (mark_dead-IsOnce "shutdown" p.shared o)

  run-IsOnce :
      (ms : List (Move V)) (p q : Pipeline V)
      → run J max threshold ms p ≡ some q
      → IsOnce p.shared
      → IsOnce q.shared
  unfolding run
  run-IsOnce [] p q h o = subst (λ r. IsOnce r.shared) (some-injective p q h) o
  run-IsOnce (m ∷ ms) p q h o =
      let next = >>=-eq-some (move J max threshold m p) (run J max threshold ms) h in
      run-IsOnce ms next.0 q next.2 (move-IsOnce m p next.0 next.1 o)

  -- Whatever the schedule of the tasks and of the calls, their deadlines and the shutdown, the
  -- channel of a call never gets more than one response, and none as long as it is registered as
  -- pending; channels that no call made get none.
  pub run-answers :
      (ms : List (Move V)) (q : Pipeline V) (c : ℕ)
      → run J max threshold ms (start Connection.new) ≡ some q
      → waits c q.shared.pending + answers c q.shared.sent
        ≤ (if ltb c q.shared.channels then 1 else 0)
  unfolding start waits answers Connection.new
  run-answers ms q c h = run-IsOnce ms (start Connection.new) q h (λ d. omega arith) c
