-- ===== src/Connection/Pipeline/Live.antt =====
-- src/browser_runtime/connection.rs: no move loses a frame.
use Prim.Native.String.{len}
use mathlib.Core.Option.{some-injective}
use mathlib.Core.List.{map-append}
use hyprfast.Base.{
  ℕ, zero, suc, ◌<◌, String, ◌≡◌, ◌≢◌, ◌⊎◌, inl, inr, refl, sym, subst, Option, some, List, [], ◌∷◌,
  ◌++◌, map, u64_mod, arith, ◌-◌, Bool, true, false, nat_eq, ltb, not, nat_beq, nat_beq_iff, ◌∙◌,
  map-eq-some, Bool-cases, Option-cases, length, In, In-append_left, In-append_right, All,
}
use hyprfast.Json.{Json}
use hyprfast.Connection.{InboundFrame, raw, oversize, OrderedItem}
use hyprfast.Connection.Pipeline.{
  receive, Pipeline, pick, forward, hand_over, hear_close, receive_frame, receive_from, end_of,
  complete, decode_inline,
}
use hyprfast.Connection.Pipeline.Soundness.{IsSound, InFlight, AtWork, content}
use hyprfast.Connection.Pipeline.Taking.{rest-IsSound, jobs-IsSound, pick-All}
use hyprfast.Connection.Pipeline.Coverage.{
  number, job_number, Located, IsCovered, IsBlocked, insert_and_drain-IsCovered,
}

pick-In :
    (k i : ℕ) (jobs : List (ℕ × String)) (r : (ℕ × String) × List (ℕ × String))
    → pick k jobs ≡ some r
    → In i (map job_number jobs)
    → (i ≡ job_number r.0) ⊎ In i (map job_number r.1)
unfolding pick
pick-In k i [] r e m = absurd m
pick-In zero i (j ∷ jobs) r e m =
    subst (λ w. (i ≡ job_number w.0) ⊎ In i (map job_number w.1)) (some-injective (j, jobs) r e) m
pick-In (suc k) i (j ∷ jobs) r e m = elim (Option-cases (pick k jobs)) [
  | inl n ↦ absurd (cc (rw n at e))
  | inr found ↦
      subst (λ w. (i ≡ job_number w.0) ⊎ In i (map job_number w.1))
        (some-injective (found.0.0, j ∷ found.0.1) r (rw found.1 at e))
        (elim m [
          | inl q ↦ inr (inl q)
          | inr later ↦ elim (pick-In k i jobs found.0 found.1 later) [
            | inl q ↦ inl q
            | inr q ↦ inr (inr q)
          ]
        ])
]

module _ {V : Type 0} where
  -- No frame gets lost, and the dispatcher waits only for a frame that is not in the buffer.
  abbrev pub IsLive : ℕ → Pipeline V → Type 0
  IsLive n p = IsCovered n p × IsBlocked p

  pub forward-IsLive :
      (frame : ℕ → InboundFrame) (n : ℕ) (p : Pipeline V)
      → number (frame p.shared.next_sequence) ≡ n
      → IsLive n p
      → IsLive (suc n) (forward frame p)
  unfolding forward
  forward-IsLive frame n p h c = (
    λ k ge lt. elim (Bool-cases (nat_beq k n)) [
      | inl q ↦ inr (inl (forwarded k ((nat_beq_iff k n).0 q ∙ sym h)))
      | inr q ↦
          let ne : k ≢ n = λ r. cc ((nat_beq_iff k n).1 r, q) in
          elim (c.0 k ge (omega (arith, lt, ne))) [
            | inl found ↦ inl found
            | inr (inl queued) ↦ inr (
                inl (
                  rw (map-append number p.inbound (frame p.shared.next_sequence ∷ []))
                    (In-append_left k _ _ queued)))
            | inr (inr busy) ↦ inr (inr busy)
          ]
    ],
    c.1,
  )
    where
      forwarded :
          (k : ℕ)
          → k ≡ number (frame p.shared.next_sequence)
          → In k (map number (p.inbound ++ (frame p.shared.next_sequence ∷ [])))
      forwarded k e =
          rw (map-append number p.inbound (frame p.shared.next_sequence ∷ []))
            (In-append_right k (map number p.inbound) _ (inl e))

  -- Without the first frame of the channel, all other frames are still located.
  next_frame :
      (k : ℕ) (f : InboundFrame) (rest : List InboundFrame) (p : Pipeline V)
      → p.inbound ≡ f ∷ rest
      → k ≢ number f
      → Located k p
      → Located k (record p { inbound = rest })
  next_frame k f rest p e ne (inl found) = inl found
  next_frame k f rest p e ne (inr (inr job)) = inr (inr job)
  next_frame k f rest p e ne (inr (inl queued)) = elim (simp e at queued) [
    | inl q ↦ absurd (ne q)
    | inr m ↦ inr (inl m)
  ]

  handed-IsLive :
      (n : ℕ) (t : String) (rest : List InboundFrame) (m : ℕ) (p : Pipeline V)
      → p.inbound ≡ raw n t ∷ rest
      → IsLive m p
      → IsLive m (hand_over n t (record p { inbound = rest }))
  unfolding hand_over
  handed-IsLive n t rest m p e c = (
    λ k ge lt. elim (Bool-cases (nat_beq k n)) [
      | inl q ↦ inr (
          inr (
            rw (map-append job_number p.workers ((n, t) ∷ []))
              (In-append_right k (map job_number p.workers) _ (inl ((nat_beq_iff k n).0 q)))))
      | inr q ↦
          let ne : k ≢ n = λ r. cc ((nat_beq_iff k n).1 r, q) in
          elim (next_frame k (raw n t) rest p e ne (c.0 k ge lt)) [
            | inl found ↦ inl found
            | inr (inl queued) ↦ inr (inl queued)
            | inr (inr busy) ↦ inr (
                inr
                  (rw (map-append job_number p.workers ((n, t) ∷ [])) (In-append_left k _ _ busy)))
          ]
    ],
    c.1,
  )

module _ {V : Type 0} (J : Json V) (threshold : ℕ) (reading : Bool)
    (wire : List (Option (OrderedItem V))) (small : length wire < u64_mod) where
  receive_frame-IsLive :
      (f : InboundFrame) (rest : List InboundFrame) (p q : Pipeline V)
      → receive_frame J threshold f (record p { inbound = rest }) ≡ some q
      → p.inbound ≡ f ∷ rest
      → InFlight J threshold wire f
      → IsSound J threshold reading wire (record p { inbound = rest })
      → IsLive (length wire) p
      → IsLive (length wire) q
  unfolding receive_frame content
  receive_frame-IsLive (oversize n hint) rest p q h e f s c =
      subst (IsLive (length wire)) (some-injective _ q h) (
        insert_and_drain-IsCovered J threshold reading wire n _ _ small f s
          (λ k ge lt ne. next_frame k (oversize n hint) rest p e ne (c.0 k ge lt)))
  receive_frame-IsLive (raw n t) rest p q h e f s c =
      elim (Bool-cases (not (ltb (len t) threshold))) [
        | inl b ↦
            subst (IsLive (length wire)) (some-injective _ q (rw b at h))
              (handed-IsLive n t rest (length wire) p e c)
        | inr b ↦
            let found = map-eq-some _ (decode_inline J t) (rw b at h) in
            rw found.2 (
              insert_and_drain-IsCovered J threshold reading wire n found.0 _ small
                (rw (b, found.1) at f) s
                (λ k ge lt ne. next_frame k (raw n t) rest p e ne (c.0 k ge lt)))
      ]

  end_of-IsLive :
      (k : ℕ) (job : ℕ × String) (rest : List (ℕ × String)) (p : Pipeline V)
      → pick k p.workers ≡ some (job, rest)
      → AtWork J wire job
      → IsSound J threshold reading wire
          (record p { workers = rest; pending_offloads = p.pending_offloads - 1 })
      → IsLive (length wire) p
      → IsLive (length wire) (end_of J job rest p)
  unfolding end_of
  end_of-IsLive k job rest p e a s c =
      insert_and_drain-IsCovered J threshold reading wire job.0 _ _ small a s (λ i ge lt ne.
        elim (c.0 i ge lt) [
          | inl found ↦ inl found
          | inr (inl queued) ↦ inr (inl queued)
          | inr (inr busy) ↦ elim (pick-In k i p.workers (job, rest) e busy) [
            | inl q ↦ absurd (ne q)
            | inr m ↦ inr (inr m)
          ]
        ])

  receive_from-IsLive :
      (fs : List InboundFrame) (p q : Pipeline V)
      → receive_from J threshold fs p ≡ some q
      → p.inbound ≡ fs
      → All (InFlight J threshold wire) fs
      → IsSound J threshold reading wire p
      → IsLive (length wire) p
      → IsLive (length wire) q
  unfolding receive_from
  receive_from-IsLive [] p q h e f s c =
      subst (IsLive (length wire)) (some-injective _ q h) (closed p.reading)
    where
      closed : (b : Bool) → IsLive (length wire) (hear_close b p)
      closed true = c
      closed false = c
  receive_from-IsLive (g ∷ fs) p q h e f s c =
      receive_frame-IsLive g fs p q h e f.0 (rest-IsSound J threshold reading wire fs p f.1 s) c

  pub receive-IsLive :
      (p q : Pipeline V)
      → receive J threshold p ≡ some q
      → IsSound J threshold reading wire p
      → IsLive (length wire) p
      → IsLive (length wire) q
  unfolding receive
  receive-IsLive p q h s c = receive_from-IsLive p.inbound p q h refl s.queued s c

  pub complete-IsLive :
      (k : ℕ) (p : Pipeline V)
      → IsSound J threshold reading wire p
      → IsLive (length wire) p
      → IsLive (length wire) (complete J k p)
  unfolding complete
  complete-IsLive k p s c = elim (Option-cases (pick k p.workers)) [
    | inl e ↦ rw (e, complete) c
    | inr found ↦
        let kept = pick-All _ k p.workers found.0 found.1 s.at_work in
        rw (found.1, complete)
          (end_of-IsLive k found.0.0 found.0.1 p found.1 kept.0
            (jobs-IsSound J threshold reading wire found.0.1 _ p kept.1 s) c)
  ]
