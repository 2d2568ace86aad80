-- ===== src/Recovery/Explained/Blind.antt =====
-- src/browser_runtime/recovery.rs: only the last tier of the ladder asks for vision.
use mathlib.Core.Path.{subst}
use hyprfast.Base.{
  ◌≡◌, refl, ap, Bool, true, false, Option, none, some, List, [], ◌∷◌, ◌++◌, arith, ◌>>=◌, ◌∙◌, All,
  Bool-cases, inl, inr, >>=-eq-some, if◌then◌else◌,
}
use hyprfast.Base.Text.{Unicode}
use hyprfast.Elements.{ElementRef, ElementIndex, ResolveRequest}
use hyprfast.Recovery.{RecoveryTier, TierAttempt, TierStatus, RecoveryOptions, vision_fallback}
use hyprfast.Recovery.Ladder.{Progress, start, step, climb}
use hyprfast.Recovery.Outcome.{asks_for_vision, vision_request}
use hyprfast.Recovery.Trace.{Adds, step-Adds}

-- No attempt of the trace asks for vision.
abbrev pub IsBlind : Progress → Type 0
IsBlind p = vision_request p.trace ≡ none

pub vision_request-append :
    (trace : List TierAttempt) (a : TierAttempt)
    → vision_request trace ≡ none
    → vision_request (trace ++ (a ∷ []))
      ≡ (if asks_for_vision a.tier a.status then some a else none)
unfolding vision_request
vision_request-append [] a h = refl
vision_request-append (b ∷ trace) a h = elim (Bool-cases (asks_for_vision b.tier b.status)) [
  | inl e ↦ cc
  | inr e ↦ rw e (vision_request-append trace a (ground arith))
]

-- Only the last tier asks for vision.
abbrev pub is_last : RecoveryTier → Bool
is_last vision_fallback = true
is_last _ = false

asks_for_vision-other :
    (t : RecoveryTier) (s : TierStatus) → is_last t ≡ false → asks_for_vision t s ≡ false
asks_for_vision-other t s h = ground arith

abbrev StaysBlind : Option Progress → Type 0
StaysBlind none = Unit {0}
StaysBlind (some q) = IsBlind q

abbrev pub AllFirst : List RecoveryTier → Type 0
AllFirst ts = All (λ t. is_last t ≡ false) ts

module _ (u : Unicode) (ix : ElementIndex) (old : Option ElementRef) (req : ResolveRequest)
    (opts : RecoveryOptions) where
  Adds-StaysBlind :
      (t : RecoveryTier) (p : Progress) (o : Option Progress)
      → is_last t ≡ false
      → IsBlind p
      → Adds t p o
      → StaysBlind o
  Adds-StaysBlind t p none l b h = tt
  Adds-StaysBlind t p (some q) l b (a, e1, e2) =
      rw (e1, vision_request-append p.trace a b, e2, asks_for_vision-other t a.status l) refl

  pub climb-IsBlind :
      (ts us : List RecoveryTier) (p q : Progress)
      → AllFirst ts
      → IsBlind p
      → climb u ix old req opts (ts ++ us) p ≡ some q
      → (r : Progress) × IsBlind r
        × (climb u ix old req opts ts p ≡ some r)
        × (climb u ix old req opts us r ≡ some q)
  unfolding climb
  climb-IsBlind [] us p q l b h = (p, b, refl, h)
  climb-IsBlind (t ∷ ts) us p q l b h =
      let (r, e1, e2) = >>=-eq-some (step u ix old req opts t p) _ h in
      let (s, b', e3, e4) =
        climb-IsBlind ts us r q l.1
          (subst StaysBlind e1 (Adds-StaysBlind t p _ l.0 b (step-Adds u ix old req opts t p)))
          e2 in
      (s, b', ap (λ o. o >>= climb u ix old req opts ts) e1 ∙ e3, e4)

pub start-IsBlind : IsBlind start
unfolding vision_request
start-IsBlind = refl
