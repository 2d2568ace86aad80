-- ===== src/Plans/Validated.antt =====
-- src/browser_runtime/plan.rs: which plans are valid.
use hyprfast.Base.{
  ◌⊎◌, String, ℕ, ◌+◌, ◌≤◌, ◌≡◌, ◌↔◌, ◌⊎◌, String, refl, List, [], ◌∷◌, arith, ltb, inl, inr,
  Bool-cases, length, All,
}
use hyprfast.Plans.{
  Outside, PlanStep, Verdict, valid, invalid, validate_step, validate_steps, validate,
}

module _ {F : Type 0} (O : Outside F) where
  abbrev pub AllValid : List (PlanStep F) → Type 0
  AllValid steps = All (λ s. validate_step O s ≡ valid) steps

  Verdict-cases : (v : Verdict) → (v ≡ valid) ⊎ ((e : String) × (v ≡ invalid e))
  Verdict-cases valid = inl refl
  Verdict-cases (invalid e) = inr (e, refl)

  validate_steps_sound :
      (i : ℕ) (steps : List (PlanStep F)) → validate_steps O i steps ≡ valid → AllValid steps
  unfolding validate_steps
  validate_steps_sound i [] h = tt
  validate_steps_sound i (s ∷ steps) h = elim (Verdict-cases (validate_step O s)) [
    | inl e ↦ (e, validate_steps_sound (i + 1) steps (rw (e, validate_steps) at h))
    | inr found ↦ absurd (invalid_not_valid (rw (found.1, validate_steps) at h))
  ]
    where
      invalid_not_valid : {t : String} → invalid t ≡ valid → ⊥
      invalid_not_valid q = cc q

  validate_steps_complete :
      (i : ℕ) (steps : List (PlanStep F)) → AllValid steps → validate_steps O i steps ≡ valid
  unfolding validate_steps
  validate_steps_complete i [] h = refl
  validate_steps_complete i (s ∷ steps) h =
      rw (h.0, validate_steps) (validate_steps_complete (i + 1) steps h.1)

  -- A plan is valid exactly if it has between 1 and 100 steps, each of which is valid.
  pub validate_lem :
      (steps : List (PlanStep F))
      → (validate O steps ≡ valid) ↔ ((1 ≤ length steps) × (length steps ≤ 100) × AllValid steps)
  unfolding validate
  validate_lem [] = (λ h. absurd (cc h), λ h. absurd (omega (arith, h.0)))
  validate_lem (s ∷ steps) = elim (Bool-cases (ltb 100 (length (s ∷ steps)))) [
    | inl b ↦ (λ h. absurd (cc (rw b at h)), λ h. absurd (ground (arith, h.1, b)))
    | inr b ↦ (
      λ h. (omega arith, ground (arith, b), validate_steps_sound 0 (s ∷ steps) (rw b at h)),
      λ h. rw b (validate_steps_complete 0 (s ∷ steps) h.2),
    )
  ]
