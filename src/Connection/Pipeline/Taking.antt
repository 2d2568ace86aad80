-- ===== src/Connection/Pipeline/Taking.antt =====
-- src/browser_runtime/connection.rs: what the dispatcher and the workers do with the frames on their
-- way.
use Prim.Native.String.{len}
use mathlib.Core.Option.{some-injective}
use hyprfast.Base.{
  ℕ, zero, suc, ◌<◌, String, ◌≡◌, subst, Bool, true, false, Option, some, List, [], ◌∷◌, u64_mod,
  inl, inr, not, ltb, Bool-cases, Option-cases, map-eq-some, length, get_elem?, All, All-snoc,
}
use hyprfast.Json.{Json}
use hyprfast.Connection.{InboundFrame, raw, oversize, OrderedItem}
use hyprfast.Connection.Pipeline.{
  Pipeline, pick, decode_inline, decode_offloaded, hand_over, receive_frame, receive_from, end_of,
  hear_close, complete,
}
use hyprfast.Connection.Pipeline.Soundness.{
  content, InFlight, AtWork, IsSound, insert_and_drain-IsSound,
}

pub pick-All :
    {A : Type 0} (P : A → Type 0) (k : ℕ) (xs : List A) (r : A × List A)
    → pick k xs ≡ some r
    → All P xs
    → P r.0 × All P r.1
unfolding pick
pick-All P k [] r e h = cc
pick-All P zero (z ∷ xs) r e h =
    subst (λ w. P w.0 × All P w.1) (some-injective (z, xs) r e) (h.0, h.1)
pick-All P (suc k) (z ∷ xs) r e h = elim (Option-cases (pick k xs)) [
  | inl n ↦ absurd (cc (rw n at e))
  | inr found ↦
      let kept = pick-All P k xs found.0 found.1 h.1 in
      subst (λ w. P w.0 × All P w.1) (some-injective (found.0.0, z ∷ found.0.1) r (rw found.1 at e))
        (kept.0, (h.0, kept.1))
]

module _ {V : Type 0} (J : Json V) (threshold : ℕ) (reading : Bool) where
  module _ (wire : List (Option (OrderedItem V))) where
    pub rest-IsSound :
        (fs : List InboundFrame) (p : Pipeline V)
        → All (InFlight J threshold wire) fs
        → IsSound J threshold reading wire p
        → IsSound J threshold reading wire (record p { inbound = fs })
    rest-IsSound fs p f s = record {
      reads = s.reads;
      numbered = s.numbered;
      drained = s.drained;
      told = s.told;
      queued = f;
      buffered = s.buffered;
      at_work = s.at_work;
    }

    pub jobs-IsSound :
        (jobs : List (ℕ × String)) (offloads : ℕ) (p : Pipeline V)
        → All (AtWork J wire) jobs
        → IsSound J threshold reading wire p
        → IsSound J threshold reading wire
            (record p { workers = jobs; pending_offloads = offloads })
    jobs-IsSound jobs offloads p a s = record {
      reads = s.reads;
      numbered = s.numbered;
      drained = s.drained;
      told = s.told;
      queued = s.queued;
      buffered = s.buffered;
      at_work = a;
    }

  module _ (wire : List (Option (OrderedItem V))) (small : length wire < u64_mod) where
    handed-IsSound :
        (n : ℕ) (t : String) (p : Pipeline V)
        → get_elem? wire n ≡ some (some (decode_offloaded J t))
        → IsSound J threshold reading wire p
        → IsSound J threshold reading wire (hand_over n t p)
    unfolding hand_over
    handed-IsSound n t p f s = record {
      reads = s.reads;
      numbered = s.numbered;
      drained = s.drained;
      told = s.told;
      queued = s.queued;
      buffered = s.buffered;
      at_work = All-snoc _ p.workers _ s.at_work f;
    }

    receive_frame-IsSound :
        (f : InboundFrame) (p q : Pipeline V)
        → receive_frame J threshold f p ≡ some q
        → InFlight J threshold wire f
        → IsSound J threshold reading wire p
        → IsSound J threshold reading wire q
    unfolding receive_frame content hand_over
    receive_frame-IsSound (oversize n hint) p q h f s =
        subst (IsSound J threshold reading wire) (some-injective _ q h)
          (insert_and_drain-IsSound J threshold reading wire n _ p small f s)
    receive_frame-IsSound (raw n t) p q h f s = elim (Bool-cases (not (ltb (len t) threshold))) [
      | inl e ↦
          subst (IsSound J threshold reading wire) (some-injective _ q (rw e at h))
            (handed-IsSound n t p (rw e at f) s)
      | inr e ↦
          let found = map-eq-some _ (decode_inline J t) (rw e at h) in
          rw found.2 (
            insert_and_drain-IsSound J threshold reading wire n found.0 p small
              (rw (e, found.1) at f) s)
    ]

    hear_close-IsSound :
        (b : Bool) (p : Pipeline V)
        → IsSound J threshold reading wire p
        → IsSound J threshold reading wire (hear_close b p)
    unfolding hear_close
    hear_close-IsSound true p s = s
    hear_close-IsSound false p s = record {
      reads = s.reads;
      numbered = s.numbered;
      drained = s.drained;
      told = s.told;
      queued = s.queued;
      buffered = s.buffered;
      at_work = s.at_work;
    }

    pub receive_from-IsSound :
        (fs : List InboundFrame) (p q : Pipeline V)
        → receive_from J threshold fs p ≡ some q
        → All (InFlight J threshold wire) fs
        → IsSound J threshold reading wire p
        → IsSound J threshold reading wire q
    unfolding receive_from
    receive_from-IsSound [] p q h f s =
        subst (IsSound J threshold reading wire) (some-injective _ q h)
          (hear_close-IsSound p.reading p s)
    receive_from-IsSound (g ∷ fs) p q h f s =
        receive_frame-IsSound g (record p { inbound = fs }) q h f.0 (rest-IsSound wire fs p f.1 s)

    end_of-IsSound :
        (job : ℕ × String) (rest : List (ℕ × String)) (p : Pipeline V)
        → AtWork J wire job
        → All (AtWork J wire) rest
        → IsSound J threshold reading wire p
        → IsSound J threshold reading wire (end_of J job rest p)
    unfolding end_of
    end_of-IsSound job rest p a others s =
        insert_and_drain-IsSound J threshold reading wire job.0 _ _ small a
          (jobs-IsSound wire rest _ p others s)

    pub complete-IsSound :
        (k : ℕ) (p : Pipeline V)
        → IsSound J threshold reading wire p
        → IsSound J threshold reading wire (complete J k p)
    unfolding complete
    complete-IsSound k p s = elim (Option-cases (pick k p.workers)) [
      | inl e ↦ rw (e, complete) s
      | inr found ↦
          let kept = pick-All _ k p.workers found.0 found.1 s.at_work in
          rw (found.1, complete) (end_of-IsSound found.0.0 found.0.1 p kept.0 kept.1 s)
    ]
