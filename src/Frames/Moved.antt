-- ===== src/Frames/Moved.antt =====
-- src/browser_runtime/frames.rs: the frame whose version an event moves, told by the event's method
-- and its parameters.
use mathlib.Core.Option.{or_else}
use hyprfast.Base.{
  String, ◌≡◌, refl, ◌>>=◌, ◌==◌, string_eq, eq_iff, Bool, true, false, ◌||◌, Option, none, some, ℤ,
  Option-cases, Bool-cases, inl, inr, if◌then◌else◌,
}
use hyprfast.Base.Text.{is_empty}
use hyprfast.Json.{Json}
use hyprfast.DomState.{CdpEvent}
use hyprfast.Frames.{
  FrameEvent, nothing, clear_contexts, create_context_event, attach, navigate, detach,
  context_event, destroy_context_event, unwrap_or, frame_event,
}
use hyprfast.Frames.Step.{bumped}

-- An empty id names no frame.
abbrev pub nonempty : Option String → Option String
nonempty none = none
nonempty (some String.[]) = none
nonempty (some (String.◌∷◌ c s)) = some (String.◌∷◌ c s)

nonempty_lem :
    (o : Option String) (e : String → FrameEvent)
    → ((g : String) → bumped (e g) ≡ some g)
    → bumped (if is_empty (unwrap_or o "") then nothing else e (unwrap_or o "")) ≡ nonempty o
nonempty_lem none e h = refl
nonempty_lem (some String.[]) e h = refl
nonempty_lem (some (String.◌∷◌ c s)) e h = h (String.◌∷◌ c s)

-- The events of execution contexts move no frame.
context_bumped :
    (a b c : Bool) (x y : FrameEvent)
    → bumped x ≡ none
    → bumped y ≡ none
    → bumped (if a then x else if b then y else if c then clear_contexts else nothing) ≡ none
context_bumped true b c x y p q = p
context_bumped false true c x y p q = q
context_bumped false false true x y p q = refl
context_bumped false false false x y p q = refl

module _ {V : Type 0} (J : Json V) where
  abbrev pub frame_id : V → Option String
  frame_id params = J.get params "frameId" >>= J.as_str

  -- The frame of a navigation: the `id` of its `frame`, or else its `frameId`.
  abbrev pub navigated_id : V → Option String
  navigated_id params =
      or_else (J.get params "frame" >>= λ v. J.get v "id" >>= J.as_str) (frame_id params)

  -- The frame that the event attaches, detaches or navigates.
  abbrev pub moved_frame : CdpEvent V → Option String
  moved_frame ev =
      if ev.method == "Page.frameAttached" || ev.method == "Page.frameDetached"
      then nonempty (frame_id ev.params)
      else if ev.method == "Page.frameNavigated"
      then nonempty (navigated_id ev.params)
      else none

  created-bumped :
      (f : Option String) (c : Option ℤ) (session : Option String)
      → bumped (context_event J f c session) ≡ none
  created-bumped none c session = refl
  created-bumped (some f) none session = refl
  created-bumped (some f) (some c) session = refl

  destroyed-bumped : (ev : CdpEvent V) → bumped (destroy_context_event J ev) ≡ none
  destroyed-bumped ev = elim (Option-cases (J.get ev.params "executionContextId" >>= J.as_i64)) [
    | inl h ↦ simp (h, destroy_context_event) refl
    | inr h ↦ simp (h.1, destroy_context_event) refl
  ]

  -- The handlers bump the version of that frame, and of no other.
  pub bumped-frame_event : (ev : CdpEvent V) → bumped (frame_event J ev) ≡ moved_frame ev
  unfolding frame_event
  bumped-frame_event ev = elim (Bool-cases (ev.method == "Page.frameAttached")) [
    | inl q ↦ simp ((eq_iff ev.method _).0 q) (
        nonempty_lem (frame_id ev.params)
          (λ g. attach g (J.get ev.params "parentFrameId" >>= J.as_str) ev.session_id) (λ g. refl))
    | inr q1 ↦ elim (Bool-cases (ev.method == "Page.frameNavigated")) [
      | inl q ↦ simp ((eq_iff ev.method _).0 q) (
          nonempty_lem (navigated_id ev.params)
            (λ g.
              navigate g (J.get ev.params "frame" >>= λ v. J.get v "parentId" >>= J.as_str)
                (unwrap_or (J.get ev.params "frame" >>= λ v. J.get v "url" >>= J.as_str) "")
                (unwrap_or (J.get ev.params "frame" >>= λ v. J.get v "name" >>= J.as_str) "")
                ev.session_id)
            (λ g. refl))
      | inr q2 ↦ elim (Bool-cases (ev.method == "Page.frameDetached")) [
        | inl q ↦
            simp ((eq_iff ev.method _).0 q)
              (nonempty_lem (frame_id ev.params) (λ g. detach g) (λ g. refl))
        | inr q3 ↦
            simp (q1, q2, q3)
              (context_bumped (ev.method == "Runtime.executionContextCreated")
                (ev.method == "Runtime.executionContextDestroyed")
                (ev.method == "Runtime.executionContextsCleared") (create_context_event J ev)
                (destroy_context_event J ev) (created-bumped _ _ _) (destroyed-bumped ev))
      ]
    ]
  ]
