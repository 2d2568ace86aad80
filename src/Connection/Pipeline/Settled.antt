-- ===== src/Connection/Pipeline/Settled.antt =====
-- src/browser_runtime/connection.rs: whatever the schedule was, the dispatcher and the workers on
-- their own bring about that every frame read is dispatched.
use mathlib.Core.List.{append-nil}
use hyprfast.Base.{
  map, >>=-eq-some, ℕ, zero, suc, ◌≤◌, ◌<◌, String, ◌≡◌, inl, inr, refl, sym, ap, subst, ◌∙◌,
  Option, none, some, List, [], ◌∷◌, ◌++◌, u64_mod, arith, Bool, true, false, length, All,
  replicate, nat_eq, Option-cases,
}
use hyprfast.Base.Map
use hyprfast.Connection.Pipeline.Soundness.{events_from}
use hyprfast.Connection.Pipeline.{start, WireFrame}
use hyprfast.Connection
use hyprfast.Base.{length-map, take, take-length}
use hyprfast.Connection.Pipeline.Live.{IsLive}
use hyprfast.Connection.Pipeline.Total.{IsItem, IsWholeFrame, item_of-IsItem}
use hyprfast.Connection.Pipeline.Ordered.{frames_read, wire_of, start-IsSound}
use hyprfast.Connection.Pipeline.Reading.{item_of}
use hyprfast.Connection.Pipeline.Coverage.{number, job_number}
use hyprfast.Base.{In}
use hyprfast.Json.{Json}
use hyprfast.Connection.{InboundFrame, raw, oversize, OrderedItem}
use hyprfast.Connection.Pipeline.{
  decode_offloaded, Pipeline, Move, take_frame, end_job, move, run, receive, receive_from,
  receive_frame, complete, end_of, drain, drain_ready, insert_and_drain, hand_over, hear_close,
  pick, decode_inline, turn,
}
use hyprfast.Connection.Pipeline.Soundness.{drain-none, drain-some}
use hyprfast.Connection.Pipeline.Total.{IsItem}
use mathlib.Core.Option.{some-injective}
use Prim.Native.String.{len}
use hyprfast.Base.{map-eq-some, Bool-cases, ltb, not, ◌-◌}
use hyprfast.Connection.Pipeline.Well.{run-IsWell, IsWell, advance}

In-empty : {A : Type 0} (f : A → ℕ) (k : ℕ) (xs : List A) → length xs ≡ 0 → In k (map f xs) → ⊥
In-empty f k [] h m = m
In-empty f k (x ∷ xs) h m = absurd (omega arith)

pick-none : (jobs : List (ℕ × String)) → pick 0 jobs ≡ none → length jobs ≡ 0
unfolding pick
pick-none [] h = refl
pick-none (j ∷ jobs) h = cc

pick-some :
    (jobs : List (ℕ × String)) (r : (ℕ × String) × List (ℕ × String))
    → pick 0 jobs ≡ some r
    → length r.1 ≡ length jobs - 1
unfolding pick
pick-some [] r h = cc
pick-some (j ∷ jobs) r h =
    subst (λ w. length w.1 ≡ length jobs) (some-injective (j, jobs) r h) refl ∙ omega arith

module _ {V : Type 0} (J : Json V) where
  -- Draining touches neither the channel nor the workers.
  abbrev Beside : Pipeline V → Pipeline V → Type 0
  Beside p q = (q.inbound ≡ p.inbound) × (q.workers ≡ p.workers)

  drain-Beside : (fuel : ℕ) (p : Pipeline V) → Beside p (drain J fuel p)
  unfolding drain turn
  drain-Beside zero p = (refl, refl)
  drain-Beside (suc fuel) p = elim (Option-cases (Map.get p.expected p.buffer)) [
    | inl e ↦ subst (Beside p) (sym (drain-none J fuel p e)) (refl, refl)
    | inr found ↦
        subst (Beside p) (sym (drain-some J fuel p found.1)) (drain-Beside fuel (turn J found.0 p))
  ]

  insert_and_drain-Beside :
      (n : ℕ) (item : OrderedItem V) (p : Pipeline V) → Beside p (insert_and_drain J n item p)
  unfolding insert_and_drain drain_ready
  insert_and_drain-Beside n item p = drain-Beside _ _

  -- Taking a frame off the channel leaves one frame less in it.
  receive_frame-inbound :
      (threshold : ℕ) (f : InboundFrame) (p q : Pipeline V)
      → receive_frame J threshold f p ≡ some q
      → q.inbound ≡ p.inbound
  unfolding receive_frame hand_over
  receive_frame-inbound threshold (oversize n hint) p q h =
      subst (λ r. r.inbound ≡ p.inbound) (some-injective _ q h) (insert_and_drain-Beside n _ p).0
  receive_frame-inbound threshold (raw n t) p q h =
      elim (Bool-cases (not (ltb (len t) threshold))) [
        | inl e ↦ subst (λ r. r.inbound ≡ p.inbound) (some-injective _ q (rw e at h)) refl
        | inr e ↦
            let found = map-eq-some _ (decode_inline J t) (rw e at h) in
            rw found.2 (insert_and_drain-Beside n found.0 p).0
      ]

  receive_from-inbound :
      (threshold : ℕ) (fs : List InboundFrame) (p q : Pipeline V)
      → receive_from J threshold fs p ≡ some q
      → p.inbound ≡ fs
      → length q.inbound ≡ length fs - 1
  unfolding receive_from
  receive_from-inbound threshold [] p q h e =
      subst (λ r. length r.inbound ≡ 0) (some-injective _ q h) (closed p.reading)
    where
      closed : (b : Bool) → length (hear_close b p).inbound ≡ 0
      closed true = simp e refl
      closed false = simp e refl
  receive_from-inbound threshold (f ∷ fs) p q h e =
      ap length (receive_frame-inbound threshold f (record p { inbound = fs }) q h) ∙ omega arith

  -- A finished job leaves one job less.
  complete_lem :
      (p : Pipeline V)
      → (length (complete J 0 p).workers ≡ length p.workers - 1)
        × ((complete J 0 p).inbound ≡ p.inbound)
  unfolding complete end_of
  complete_lem p = elim (Option-cases (pick 0 p.workers)) [
    | inl e ↦ rw (e, complete) (omega (arith, pick-none p.workers e), refl)
    | inr found ↦
        let beside =
          insert_and_drain-Beside found.0.0.0 (decode_offloaded J found.0.0.1)
            (record p { workers = found.0.1; pending_offloads = p.pending_offloads - 1 }) in
        rw (found.1, complete) (ap length beside.1 ∙ pick-some p.workers found.0 found.1, beside.0)
  ]

module _ {V : Type 0} (J : Json V) (max threshold : ℕ) where
  run-append :
      (ms ns : List (Move V)) (p q r : Pipeline V)
      → run J max threshold ms p ≡ some q
      → run J max threshold ns q ≡ some r
      → run J max threshold (ms ++ ns) p ≡ some r
  unfolding run
  run-append [] ns p q r h k =
      subst (λ x. run J max threshold ns x ≡ some r) (sym (some-injective p q h)) k
  run-append (m ∷ ms) ns p q r h k =
      let next = >>=-eq-some (move J max threshold m p) (run J max threshold ms) h in
      rw next.1 (run-append ms ns next.0 q r next.2 k)

  -- The dispatcher takes the frames of the channel, then jobs end.
  unfoldable pub settling : ℕ → ℕ → List (Move V)
  settling frames jobs = replicate frames take_frame ++ replicate jobs (end_job 0)

  module _ (reading : Bool) (wire : List (Option (OrderedItem V))) (small : length wire < u64_mod)
      (items : All IsItem wire) where
    take_all :
        (n : ℕ) (p : Pipeline V)
        → length p.inbound ≡ n
        → IsWell J max threshold reading wire p
        → (q : Pipeline V) × (run J max threshold (replicate n take_frame) p ≡ some q)
          × IsWell J max threshold reading wire q
          × (length q.inbound ≡ 0)
    unfolding run receive move
    take_all zero p e w = (p, refl, w, e)
    take_all (suc n) p e w =
        let next =
          advance J max threshold take_frame reading wire p (rw (append-nil wire) small)
            (rw (append-nil wire) items) w in
        let fewer = receive_from-inbound J threshold p.inbound p next.0 next.1 refl in
        let rest = take_all n next.0 (omega (arith, fewer, e)) (rw (append-nil wire) at next.2) in
        (rest.0, rw next.1 rest.1, rest.2, rest.3)

    end_all :
        (n : ℕ) (p : Pipeline V)
        → length p.inbound ≡ 0
        → length p.workers ≤ n
        → IsWell J max threshold reading wire p
        → (q : Pipeline V) × (run J max threshold (replicate n (end_job 0)) p ≡ some q)
          × IsWell J max threshold reading wire q
          × (length q.inbound ≡ 0)
          × (length q.workers ≡ 0)
    unfolding run move
    end_all zero p i e w = (p, refl, w, i, omega (arith, e))
    end_all (suc n) p i e w =
        let next =
          advance J max threshold (end_job 0) reading wire p (rw (append-nil wire) small)
            (rw (append-nil wire) items) w in
        let q = complete J 0 p in
        let fewer = complete_lem J p in
        let well =
          subst (λ r. IsWell J max threshold reading wire r) (sym (some-injective q next.0 next.1))
            (rw (append-nil wire) at next.2) in
        let rest = end_all n q (ap length fewer.1 ∙ i) (omega (arith, fewer.0, e)) well in
        (rest.0, rest.1, rest.2, rest.3, rest.4)

  -- When nothing is on its way, every frame has been dispatched.
  empty_all :
      (reading : Bool) (wire : List (Option (OrderedItem V))) (q : Pipeline V)
      → length q.inbound ≡ 0
      → length q.workers ≡ 0
      → IsWell J max threshold reading wire q
      → q.shared.events ≡ events_from J 0 wire
  empty_all reading wire q i j w = elim (Bool-cases (ltb q.expected (length wire))) [
    | inl b ↦ absurd (elim (w.1.0 q.expected (omega arith) (ground arith)) [
      | inl found ↦ cc (found.1, w.1.1)
      | inr (inl m) ↦ In-empty number q.expected q.inbound i m
      | inr (inr m) ↦ In-empty job_number q.expected q.workers j m
    ])
    | inr b ↦
        let all : q.expected ≡ length wire = ground (arith, w.0.drained) in
        w.0.told ∙ ap (events_from J 0) (ap (λ n. take n wire) all ∙ take-length wire)
  ]

  items_of :
      (fs : List WireFrame) → All IsWholeFrame fs → All IsItem (map (item_of J max threshold) fs)
  items_of [] h = tt
  items_of (f ∷ fs) h = (item_of-IsItem J max threshold f h.0, items_of fs h.1)

  start-IsLive : IsLive 0 (start (Connection.new {V = V}))
  unfolding start
  start-IsLive = (λ k e lt. absurd (omega arith), Map.get-empty 0)

  -- No schedule of the tasks panics, if the heads of the frames are cut between two characters,
  -- and when the tasks go on after it, the dispatcher and the workers alone, which take what is in
  -- the channel and end the jobs, bring about that exactly the events of all frames read have been
  -- broadcast, in the order of the wire. Fewer than 2^64 frames may be read.
  pub run-delivers :
      (ms : List (Move V))
      → All IsWholeFrame (frames_read true ms)
      → length (frames_read true ms) < u64_mod
      → (p : Pipeline V) × (q : Pipeline V) × (jobs : ℕ) × (run J max threshold ms
            (start Connection.new)
          ≡ some p)
        × (run J max threshold (settling (length p.inbound) jobs) p ≡ some q)
        × (q.shared.events ≡ events_from J 0 (wire_of J max threshold true ms))
  unfolding settling wire_of
  run-delivers ms whole small =
      let wire = wire_of J max threshold true ms in
      let fits : length wire < u64_mod =
        omega (arith, small, length-map (item_of J max threshold) (frames_read true ms)) in
      let items = items_of (frames_read true ms) whole in
      let there =
        run-IsWell J max threshold ms true [] (start Connection.new) fits items
          (start-IsSound J max threshold, start-IsLive) in
      let taken =
        take_all there.2.0 wire fits items (length there.0.inbound) there.0 refl there.2.1 in
      let ended =
        end_all there.2.0 wire fits items (length taken.0.workers) taken.0 taken.3 (omega arith)
          taken.2 in
      (
        there.0,
        ended.0,
        length taken.0.workers,
        there.1,
        run-append _ _ there.0 taken.0 ended.0 taken.1 ended.1,
        empty_all there.2.0 wire ended.0 ended.3 ended.4 ended.2,
      )
