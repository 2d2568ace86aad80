-- ===== src/Connection/Lifetime.antt =====
-- src/browser_runtime/connection.rs: `shutdown`, which marks the transport dead and then aborts the
-- reader, the writer and the dispatcher. What the tasks have not dispatched by then is lost.
use mathlib.Core.Option
use mathlib.Core.Option.{some-injective}
use hyprfast.Base.{
  ◌⊎◌, map-eq-some, >>=-eq-some, ℕ, ◌<◌, ◌≡◌, refl, ◌∙◌, ap, sym, Bool, true, false, ◌&&◌, not,
  Option, some, List, [], ◌∷◌, map, any, All, length, u64_mod, if◌then◌else◌, ◌>>=◌, Bool-cases,
  inl, inr,
}
use hyprfast.Json.{Json}
use hyprfast.Connection
use hyprfast.Connection.Pipeline.{
  Pipeline, Move, read, finish, take_frame, end_job, shut_down, move, run, start,
}
use hyprfast.Connection.Pipeline.Soundness.{events_from}
use hyprfast.Connection.Pipeline.Total.{IsWholeFrame}
use hyprfast.Connection.Pipeline.Ordered.{frames_read, wire_of}
use hyprfast.Connection.Pipeline.Settled.{settling, run-delivers}

-- The pipeline, and whether its tasks have not been aborted.
pub record Transport (V : Type 0) : Type 0 where
  pub pipeline : Pipeline V
  pub running : Bool

-- A move, or the end of the tasks: the abort by `shutdown`, or the drop of the last handle.
pub data Deed (V : Type 0) : Type 0 where
  act : Move V → Deed V
  abort : Deed V

-- The moves of the reader and of the dispatcher: an aborted task makes none. A worker that ends
-- after the abort finds no dispatcher that takes its result.
abbrev pub is_task : {V : Type 0} → Move V → Bool
is_task (read f) = true
is_task (finish e) = true
is_task take_frame = true
is_task (end_job k) = true
is_task _ = false

abbrev pub is_abort : {V : Type 0} → Deed V → Bool
is_abort abort = true
is_abort (act m) = false

-- `shutdown`; the tasks go on between the two, and so do the callers.
abbrev pub shutdown : {V : Type 0} → List (Deed V)
shutdown = act shut_down ∷ abort ∷ []

module _ {V : Type 0} (J : Json V) (max threshold : ℕ) where
  unfoldable pub perform : Deed V → Transport V → Option (Transport V)
  unfolding move
  perform abort t = some (record t { running = false })
  perform (act m) t =
      if is_task m && not t.running
      then some t
      else Option.map (λ p. record t { pipeline = p }) (move J max threshold m t.pipeline)

  unfoldable pub performs : List (Deed V) → Transport V → Option (Transport V)
  unfolding perform
  performs [] t = some t
  performs (d ∷ ds) t = do t' ← perform d t; performs ds t'

-- The moves among some deeds.
abbrev pub moves : {V : Type 0} → List (Deed V) → List (Move V)
moves [] = []
moves (act m ∷ ds) = m ∷ moves ds
moves (abort ∷ ds) = moves ds

-- A connection that was just made.
abbrev pub opened : {V : Type 0} → Transport V
opened = record { pipeline = start Connection.new; running = true }

moves-act : {V : Type 0} (ms : List (Move V)) → moves (map act ms) ≡ ms
moves-act [] = refl
moves-act (m ∷ ms) = ap (λ x. m ∷ x) (moves-act ms)

no_abort-act : {V : Type 0} (ms : List (Move V)) → any is_abort (map act ms) ≡ false
no_abort-act [] = refl
no_abort-act (m ∷ ms) = no_abort-act ms

still_running : (b : Bool) → (b && not true) ≡ false
still_running true = refl
still_running false = refl

module _ {V : Type 0} (J : Json V) (max threshold : ℕ) where
  -- Without an abort the deeds are a schedule of the tasks.
  performs-run :
      (ds : List (Deed V)) (p q : Pipeline V)
      → any is_abort ds ≡ false
      → run J max threshold (moves ds) p ≡ some q
      → performs J max threshold ds (record { pipeline = p; running = true })
        ≡ some (record { pipeline = q; running = true })
  unfolding performs perform run
  performs-run [] p q n h =
      ap (λ x. some (record { pipeline = x; running = true })) (some-injective p q h)
  performs-run (abort ∷ ds) p q n h = cc
  performs-run (act m ∷ ds) p q n h =
      let next = >>=-eq-some (move J max threshold m p) (run J max threshold (moves ds)) h in
      simp (still_running (is_task m), next.1) (performs-run ds next.0 q n next.2)

  -- As long as the tasks are not aborted, none of them panics, if the heads of the frames are cut
  -- between two characters, and none loses a frame, whatever the tasks and the callers do: afterwards the dispatcher and the workers alone, which take what is in the
  -- channel and end the jobs, bring about that exactly the events of all frames read have been
  -- broadcast, in the order of the wire. Fewer than 2^64 frames may be read.
  pub performs-delivers :
      (ds : List (Deed V))
      → any is_abort ds ≡ false
      → All IsWholeFrame (frames_read true (moves ds))
      → length (frames_read true (moves ds)) < u64_mod
      → (t : Transport V) × (t' : Transport V) × (jobs : ℕ) × (performs J max threshold ds opened
          ≡ some t)
        × (performs J max threshold
              (map act (settling J max threshold (length t.pipeline.inbound) jobs))
              t
            ≡ some t')
        × (t'.pipeline.shared.events ≡ events_from J 0 (wire_of J max threshold true (moves ds)))
  performs-delivers ds n whole small =
      let (p, q, jobs, h, k, e) = run-delivers J max threshold (moves ds) whole small in
      let settle = settling J max threshold (length p.inbound) jobs in
      (
        record { pipeline = p; running = true },
        record { pipeline = q; running = true },
        jobs,
        performs-run ds (start Connection.new) p n h,
        performs-run (map act settle) p q (no_abort-act settle) (rw (moves-act settle) k),
        e,
      )

  perform_schedule :
      (d : Deed V) (t t' : Transport V)
      → perform J max threshold d t ≡ some t'
      → (t'.pipeline ≡ t.pipeline)
        ⊎ ((m : Move V) × (move J max threshold m t.pipeline ≡ some t'.pipeline))
  unfolding perform
  perform_schedule abort t t' h = inl (ap (λ x. x.pipeline) (sym (some-injective _ t' h)))
  perform_schedule (act m) t t' h = elim (Bool-cases (is_task m && not t.running)) [
    | inl b ↦ inl (ap (λ x. x.pipeline) (sym (some-injective t t' (simp b at h))))
    | inr b ↦
        let moved = map-eq-some _ (move J max threshold m t.pipeline) (simp b at h) in
        inr (m, moved.1 ∙ ap (λ x. some x.pipeline) (sym moved.2))
  ]

  -- Whatever the deeds, an aborted task makes no move: the pipeline is where a schedule of moves
  -- brings it, so what holds after every schedule holds after a shutdown too.
  performs_schedule :
      (ds : List (Deed V)) (t t' : Transport V)
      → performs J max threshold ds t ≡ some t'
      → (ms : List (Move V)) × (run J max threshold ms t.pipeline ≡ some t'.pipeline)
  unfolding performs perform run
  performs_schedule [] t t' h = ([], ap (λ x. some x.pipeline) (some-injective t t' h))
  performs_schedule (d ∷ ds) t t' h =
      let next = >>=-eq-some (perform J max threshold d t) (performs J max threshold ds) h in
      let rest = performs_schedule ds next.0 t' next.2 in
      let first = perform_schedule d t next.0 next.1 in
      elim first [
        | inl same ↦ (rest.0, rw (← same) rest.1)
        | inr (m, moved) ↦ (m ∷ rest.0, rw moved rest.1)
      ]

  -- Aborted tasks stay so, and broadcast nothing.
  abbrev Quiet : Transport V → Transport V → Type 0
  Quiet t t' = (t'.running ≡ false) × (t'.pipeline.shared.events ≡ t.pipeline.shared.events)
