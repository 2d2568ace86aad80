-- ===== src/Connection/Calls.antt =====
-- src/browser_runtime/connection.rs: a call, its answer, and the death of the transport.
use hyprfast.Base.{
  ℕ, String, ◌<>◌, ◌≡◌, refl, ◌∙◌, true, Option, none, some, List, [], ◌∷◌, ℤ, int_eq, string_eq,
  In, inl, inr, Bool-cases, ◌>>=◌, int_beq, int_beq_iff,
}
use mathlib.Core.Option.{some-injective}
use hyprfast.Base.Map
use hyprfast.Base.Map.{Map}
use hyprfast.Base.Text.Words.{strip_prefix-append}
use hyprfast.Error.{RuntimeResult, ok, err, runtime_dead}
use hyprfast.Frames.{unwrap_or}
use hyprfast.Base.{subst, beq_refl}
use hyprfast.Json.{Json}
use hyprfast.Connection.{
  Shared, CdpResponse, message, marker, runtime_dead_code, runtime_dead_prefix, fail_all, mark_dead,
  respond, dispatch_item, dispatch_message, register, interpret_response, response_of,
  parse_cdp_error,
}

module _ {V : Type 0} where
  In-fail_all_sent :
      (reason : String) (p : Map ℤ ℕ) (a : ℕ × CdpResponse V) (sent : List (ℕ × CdpResponse V))
      → In a sent
      → In a (fail_all reason p sent)
  unfolding fail_all
  In-fail_all_sent reason [] a sent m = m
  In-fail_all_sent reason ((j, d) ∷ p) a sent m = In-fail_all_sent reason p a _ (inr m)

  -- Every pending channel gets its marker.
  In-fail_all :
      (reason : String) (p : Map ℤ ℕ) (id : ℤ) (c : ℕ) (sent : List (ℕ × CdpResponse V))
      → Map.get id p ≡ some c
      → In
          (c, marker id runtime_dead_code (runtime_dead_prefix <> (" " <> reason)))
          (fail_all reason p sent)
  unfolding fail_all Map.get
  In-fail_all reason [] id c sent h = cc
  In-fail_all reason ((j, d) ∷ p) id c sent h = elim (Bool-cases (int_beq j id)) [
    | inl b ↦
        let same = (int_beq_iff j id).0 b in
        let channel = some-injective d c (rw b at h) in
        In-fail_all_sent reason p _ _ (inl (rw (same, channel) refl))
    | inr b ↦ In-fail_all reason p id c _ (rw b at h)
  ]

module _ {V : Type 0} (J : Json V) where
  -- The end of a live transport is told to every caller that waits: the channel of each pending
  -- request gets a response, which its caller reads as `RuntimeDead` with the reason; no request
  -- stays pending; and from then on every call fails at once, without being registered.
  pub mark_dead-answers :
      (reason : String) (s : Shared V) (id : ℤ) (c : ℕ)
      → s.alive ≡ true
      → Map.get id s.pending ≡ some c
      → let text = runtime_dead_prefix <> (" " <> reason) in
        let response = marker {V = V} id runtime_dead_code text in
        In (c, response) (mark_dead reason s).sent
        × ((method : String) → interpret_response J method response ≡ err (runtime_dead text))
        × ((mark_dead reason s).pending ≡ [])
        × ((session : Option String) (method : String) (params : V)
            → register J session method params (mark_dead reason s)
              ≡ (mark_dead reason s, err (runtime_dead "connection is closed")))
  unfolding mark_dead interpret_response register
  mark_dead-answers reason s id c h p = (
    simp (h, mark_dead) (In-fail_all reason s.pending id c s.sent p),
    (λ method. rw (strip_prefix-append runtime_dead_prefix (" " <> reason)) refl),
    simp (h, mark_dead) refl,
    (λ session method params. simp (h, mark_dead) refl),
  )

  abbrev Outcome : Shared V → RuntimeResult (ℤ × ℕ) → Type 0
  Outcome t (ok call) = Map.get call.0 t.pending ≡ some call.1
  Outcome t (err e) = Unit

  register-Outcome :
      (session : Option String) (method : String) (params : V) (s : Shared V)
      → let r = register J session method params s in Outcome r.0 r.1
  unfolding register
  register-Outcome session method params s = elim (Bool-cases s.alive) [
    | inl a ↦ elim (Bool-cases s.writer_open) [
      | inl w ↦ simp (a, w, register) (Map.get-insert_same s.next_id s.channels s.pending)
      | inr w ↦ simp (a, w, register) tt
    ]
    | inr a ↦ simp (a, register) tt
  ]

  -- A call that is registered, and whose response has no error, gets the `result` of that response
  -- (`null` if there is none) on its channel, and is no longer pending.
  pub call_answered :
      (session : Option String) (method : String) (params : V) (s t : Shared V) (id : ℤ) (c : ℕ)
      (n : ℕ) (v : V)
      → register J session method params s ≡ (t, ok (id, c))
      → (J.get v "id" >>= J.as_i64) ≡ some id
      → J.get v "error" ≡ none
      → let u = dispatch_item J n (message v) t in
        (u.sent ≡ (c, response_of J id v) ∷ t.sent)
        × (interpret_response J method (response_of J id v)
            ≡ ok (unwrap_or (J.get v "result") J.null))
        × (Map.get id u.pending ≡ none)
  unfolding register dispatch_item dispatch_message respond interpret_response response_of
      parse_cdp_error
  call_answered session method params s t id c n v h e f =
      let waiting : Map.get id t.pending ≡ some c =
        subst (λ r. Outcome r.0 r.1) h (register-Outcome session method params s) in
      (
        simp (e, waiting, respond, dispatch_item, dispatch_message) refl,
        simp (f, parse_cdp_error) refl,
        simp (e, waiting, respond, dispatch_item, dispatch_message)
            (Map.get-remove id id t.pending ∙ rw (beq_refl id) refl),
      )
