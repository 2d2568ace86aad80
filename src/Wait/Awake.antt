-- ===== src/Wait/Awake.antt =====
-- src/browser_runtime/wait.rs: a wait misses nothing that it is woken for.
use hyprfast.Base.{
  ℕ, ◌≡◌, refl, Bool, true, false, ◌||◌, Option, some, List, [], ◌∷◌, Bool-cases, inl, inr, any,
}
use hyprfast.Error.{RuntimeResult, ok}
use hyprfast.DomState.{CdpEvent}
use hyprfast.Wait.{Wake, arrived, lagged, ticked, closed, expired, wait_loop, wait_for}

-- Has the wait succeeded?
abbrev pub is_met : {A : Type 0} → Option (RuntimeResult A) → Bool
is_met (some (ok _)) = true
is_met _ = false

-- The turns before the channel closes or the deadline passes.
abbrev pub in_time : {V S : Type 0} → List (Wake V S) → List (Wake V S)
in_time [] = []
in_time (closed ∷ ws) = []
in_time (expired ∷ ws) = []
in_time (arrived ev s ∷ ws) = arrived ev s ∷ in_time ws
in_time (lagged n s ∷ ws) = lagged n s ∷ in_time ws
in_time (ticked s ∷ ws) = ticked s ∷ in_time ws

module _ {V S : Type 0} (check : S → Bool) (predicate : CdpEvent V → Bool) (timeout_ms : ℕ) where
  -- Does a turn show what is waited for?
  abbrev pub shows : Wake V S → Bool
  shows (arrived ev s) = predicate ev || check s
  shows (lagged n s) = check s
  shows (ticked s) = check s
  shows closed = false
  shows expired = false

  wait_loop-in_time :
      (ws : List (Wake V S))
      → is_met (wait_loop check predicate timeout_ms ws) ≡ any shows (in_time ws)
  unfolding wait_loop
  wait_loop-in_time [] = refl
  wait_loop-in_time (closed ∷ ws) = refl
  wait_loop-in_time (expired ∷ ws) = refl
  wait_loop-in_time (lagged n s ∷ ws) = elim (Bool-cases (check s)) [
    | inl h ↦ simp h refl
    | inr h ↦ simp h (wait_loop-in_time ws)
  ]
  wait_loop-in_time (ticked s ∷ ws) = elim (Bool-cases (check s)) [
    | inl h ↦ simp h refl
    | inr h ↦ simp h (wait_loop-in_time ws)
  ]
  wait_loop-in_time (arrived ev s ∷ ws) = elim (Bool-cases (predicate ev)) [
    | inl h ↦ simp h refl
    | inr h ↦ elim (Bool-cases (check s)) [
      | inl k ↦ simp (h, k) refl
      | inr k ↦ simp (h, k) (wait_loop-in_time ws)
    ]
  ]

  -- A wait succeeds exactly if the condition holds before or after the subscription, or if a turn
  -- before the channel closes or the deadline passes brings an event that matches or a state in
  -- which it holds.
  pub wait_for_lem :
      (before after : S) (ws : List (Wake V S))
      → is_met (wait_for check predicate timeout_ms before after ws)
        ≡ check before || (check after || any shows (in_time ws))
  unfolding wait_for
  wait_for_lem before after ws = elim (Bool-cases (check before)) [
    | inl h ↦ simp h refl
    | inr h ↦ elim (Bool-cases (check after)) [
      | inl k ↦ simp (h, k) refl
      | inr k ↦ simp (h, k) (wait_loop-in_time ws)
    ]
  ]
