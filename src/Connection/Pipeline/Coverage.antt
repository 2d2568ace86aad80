-- ===== src/Connection/Pipeline/Coverage.antt =====
-- src/browser_runtime/connection.rs: a frame that was read and is not dispatched yet is in the
-- buffer, in the channel or with a worker; and the loop leaves a gap only if the frame expected is
-- missing.
use hyprfast.Base.{
  get_elem?, ◌∙◌, ℕ, zero, suc, ◌≤◌, ◌<◌, ◌+◌, String, ◌≡◌, ◌≢◌, ◌⊎◌, inl, inr, sym, subst, Option,
  none, some, List, map, u64_mod, arith, Bool, nat_eq, bump-lt, nat_beq, nat_beq_iff, Bool-cases,
  Option-cases, length, In, get_elem?-lt,
}
use hyprfast.Base.Map
use hyprfast.Json.{Json}
use hyprfast.Connection.{InboundFrame, raw, oversize, OrderedItem}
use hyprfast.Connection.Pipeline.{Pipeline, turn, drain, drain_ready, insert_and_drain}
use hyprfast.Connection.Pipeline.Soundness.{
  stored-IsSound, IsSound, turn-IsSound, drain-none, drain-some,
}

abbrev pub number : InboundFrame → ℕ
number (raw n t) = n
number (oversize n hint) = n

abbrev pub job_number : ℕ × String → ℕ
job_number job = job.0

module _ {V : Type 0} where
  abbrev pub Located : ℕ → Pipeline V → Type 0
  Located k p =
      ((item : OrderedItem V) × (Map.get k p.buffer ≡ some item))
      ⊎ (In k (map number p.inbound) ⊎ In k (map job_number p.workers))

  -- Of the first `n` frames, every one from the expected one on can be found.
  abbrev pub IsCovered : ℕ → Pipeline V → Type 0
  IsCovered n p = (k : ℕ) → p.expected ≤ k → k < n → Located k p

  stored :
      (k i : ℕ) (item : OrderedItem V) (p : Pipeline V)
      → k ≢ i
      → Located k p
      → Located k (record p { buffer = Map.insert i item p.buffer })
  stored k i item p ne (inl found) =
      inl (found.0, Map.get-insert_other k i item p.buffer ne ∙ found.1)
  stored k i item p ne (inr other) = inr other

  -- The frame expected is not in the buffer.
  abbrev pub IsBlocked : Pipeline V → Type 0
  IsBlocked p = Map.get p.expected p.buffer ≡ none

module _ {V : Type 0} (J : Json V) where
  turn-IsCovered :
      (n : ℕ) (item : OrderedItem V) (p : Pipeline V)
      → p.expected + 1 < u64_mod
      → IsCovered n p
      → IsCovered n (turn J item p)
  unfolding turn
  turn-IsCovered n item p small c k e lt =
      elim (c k (omega (arith, e, bump-lt p.expected small)) lt) [
        | inl found ↦ inl (
          found.0,
          Map.get-remove_other k p.expected p.buffer
                (λ q. omega (arith, e, q, lt, bump-lt p.expected small))
              ∙ found.1,
        )
        | inr other ↦ inr other
      ]

  module _ (threshold : ℕ) (reading : Bool) (wire : List (Option (OrderedItem V))) where
    drain-IsCovered :
        (fuel : ℕ) (p : Pipeline V)
        → length wire < u64_mod
        → length p.buffer ≤ fuel
        → IsSound J threshold reading wire p
        → IsCovered (length wire) p
        → IsCovered (length wire) (drain J fuel p) × IsBlocked (drain J fuel p)
    unfolding drain
    drain-IsCovered zero p small enough s c = (c, Map.get_of_short p.expected p.buffer enough)
    drain-IsCovered (suc fuel) p small enough s c =
        elim (Option-cases (Map.get p.expected p.buffer)) [
          | inl e ↦
              subst (λ q. IsCovered (length wire) q × IsBlocked q) (sym (drain-none J fuel p e))
                (c, e)
          | inr found ↦
              let at = s.buffered p.expected found.0 found.1 in
              let lt = get_elem?-lt wire p.expected (some found.0) at in
              let shorter = Map.length-remove p.expected found.0 p.buffer found.1 in
              subst (λ q. IsCovered (length wire) q × IsBlocked q)
                (sym (drain-some J fuel p found.1))
                (drain-IsCovered fuel (turn J found.0 p) small (omega (arith, enough, shorter))
                  (turn-IsSound J threshold reading wire found.0 p small found.1 s)
                  (turn-IsCovered (length wire) found.0 p (omega (arith, lt, small)) c))
        ]

    -- A frame whose item goes into the buffer is located there, whatever was located elsewhere.
    pub insert_and_drain-IsCovered :
        (i : ℕ) (item : OrderedItem V) (p : Pipeline V)
        → length wire < u64_mod
        → get_elem? wire i ≡ some (some item)
        → IsSound J threshold reading wire p
        → ((k : ℕ) → p.expected ≤ k → k < length wire → k ≢ i → Located k p)
        → IsCovered (length wire) (insert_and_drain J i item p)
          × IsBlocked (insert_and_drain J i item p)
    unfolding insert_and_drain drain_ready
    insert_and_drain-IsCovered i item p small at s c =
        drain-IsCovered _ _ small (omega arith)
          (stored-IsSound J threshold reading wire i item p at s)
          (λ k e lt. elim (Bool-cases (nat_beq k i)) [
            | inl q ↦ inl (item, rw ((nat_beq_iff k i).0 q) (Map.get-insert_same i item p.buffer))
            | inr q ↦
                let ne : k ≢ i = λ r. cc ((nat_beq_iff k i).1 r, q) in
                stored k i item p ne (c k e lt ne)
          ])
