-- ===== src/Connection/Pipeline/Kept.antt =====
-- src/browser_runtime/connection.rs: no move of the reader or of a caller loses a frame either.
use Prim.Native.String.{len}
use mathlib.Core.Option
use mathlib.Core.Option.{some-injective}
use mathlib.Core.List.{append-nil}
use hyprfast.Base.{
  arith, ℕ, suc, ◌<◌, String, ◌≡◌, inl, inr, refl, subst, Option, none, some, List, [], ◌∷◌, ◌++◌,
  map, u64_mod, Bool, true, false, nat_eq, ltb, map-eq-some, ◌∙◌, Bool-cases, length, length-append,
}
use hyprfast.Json.{Json}
use hyprfast.Connection
use hyprfast.Connection.{InboundFrame, raw, oversize, OrderedItem}
use hyprfast.Connection.IdHint.{extract_id_prefix}
use hyprfast.Connection.Pipeline.{
  Pipeline, forward, read_data, finish_reading, WireFrame, text, binary, count_oversize, Move, read,
  finish, take_frame, end_job, call, give_up, shut_down, move,
}
use hyprfast.Connection.Pipeline.Soundness.{IsSound}
use hyprfast.Connection.Pipeline.Reading.{item_of}
use hyprfast.Connection.Pipeline.Coverage.{number}
use hyprfast.Connection.Pipeline.Live.{IsLive, forward-IsLive, receive-IsLive, complete-IsLive}
use hyprfast.Connection.Pipeline.Ordered.{frame_of}

module _ {V : Type 0} (n : ℕ) (p : Pipeline V) where
  -- A frame with the next number, at a state that differs from `p` in a counter at most.
  sent-IsLive :
      (frame : ℕ → InboundFrame) (q : Pipeline V)
      → ((k : ℕ) → number (frame k) ≡ k)
      → p.shared.next_sequence ≡ n
      → some (forward frame p) ≡ some q
      → IsLive n p
      → IsLive (suc n) q
  sent-IsLive frame q num e h c =
      subst (IsLive (suc n)) (some-injective (forward frame p) q h)
        (forward-IsLive frame n p (num p.shared.next_sequence ∙ e) c)

module _ {V : Type 0} (n : ℕ) (p q : Pipeline V) (e : p.shared.next_sequence ≡ n) where
  hinted-IsLive :
      (head : String)
      → Option.map
          (λ hint. forward (λ n. oversize n hint) (count_oversize p))
          (extract_id_prefix head)
        ≡ some q
      → IsLive n p
      → IsLive (suc n) q
  unfolding count_oversize
  hinted-IsLive head h c =
      let found = map-eq-some _ (extract_id_prefix head) h in
      rw found.2 (forward-IsLive (λ k. oversize k found.0) n (count_oversize p) e c)

  utf8-IsLive :
      (utf8 : Option String)
      → some (elim utf8 [
        | some t ↦ forward (λ n. raw n t) p
        | none ↦ forward (λ n. oversize n none) p
      ])
        ≡ some q
      → IsLive n p
      → IsLive (suc n) q
  utf8-IsLive none h c = sent-IsLive n p (λ k. oversize k none) q (λ k. refl) e h c
  utf8-IsLive (some t) h c = sent-IsLive n p (λ k. raw k t) q (λ k. refl) e h c

  read_data-IsLive :
      (max : ℕ) (f : WireFrame) → read_data max f p ≡ some q → IsLive n p → IsLive (suc n) q
  unfolding read_data
  read_data-IsLive max (text t) h c = elim (Bool-cases (ltb max (len t))) [
    | inl b ↦ hinted-IsLive t (rw b at h) c
    | inr b ↦ sent-IsLive n p (λ k. raw k t) q (λ k. refl) e (rw b at h) c
  ]
  read_data-IsLive max (binary size utf8 lossy) h c = elim (Bool-cases (ltb max size)) [
    | inl b ↦ hinted-IsLive lossy (rw b at h) c
    | inr b ↦ utf8-IsLive utf8 (rw b at h) c
  ]

module _ {V : Type 0} (J : Json V) (max threshold : ℕ) where
  pub move-IsLive :
      (m : Move V) (reading : Bool) (wire : List (Option (OrderedItem V))) (p q : Pipeline V)
      → length (wire ++ map (item_of J max threshold) (frame_of m reading)) < u64_mod
      → move J max threshold m p ≡ some q
      → IsSound J threshold reading wire p
      → IsLive (length wire) p
      → IsLive (length (wire ++ map (item_of J max threshold) (frame_of m reading))) q
  unfolding move finish_reading Connection.register Connection.expire
  move-IsLive (read f) true wire p q small h s c =
      subst (λ n. IsLive n q) (omega (arith, length-append wire (item_of J max threshold f ∷ [])))
        (read_data-IsLive (length wire) p q s.numbered max f (simp s.reads at h) c)
  move-IsLive (read f) false wire p q small h s c =
      rw (append-nil wire) (subst (IsLive (length wire)) (some-injective p q (simp s.reads at h)) c)
  move-IsLive (finish e) true wire p q small h s c =
      rw (append-nil wire) (subst (IsLive (length wire)) (some-injective _ q (simp s.reads at h)) c)
  move-IsLive (finish e) false wire p q small h s c =
      rw (append-nil wire) (subst (IsLive (length wire)) (some-injective p q (simp s.reads at h)) c)
  move-IsLive take_frame reading wire p q small h s c =
      rw (append-nil wire)
        (receive-IsLive J threshold reading wire (rw (append-nil wire) at small) p q h s c)
  move-IsLive (end_job k) reading wire p q small h s c = rw (append-nil wire) (
      subst (IsLive (length wire)) (some-injective _ q h)
        (complete-IsLive J threshold reading wire (rw (append-nil wire) at small) k p s c))
  move-IsLive (call t method params) reading wire p q small h s c =
      rw (append-nil wire) (subst (IsLive (length wire)) (some-injective _ q h) c)
  move-IsLive (give_up id) reading wire p q small h s c =
      rw (append-nil wire) (subst (IsLive (length wire)) (some-injective _ q h) c)
  move-IsLive shut_down reading wire p q small h s c =
      rw (append-nil wire) (subst (IsLive (length wire)) (some-injective _ q h) c)
