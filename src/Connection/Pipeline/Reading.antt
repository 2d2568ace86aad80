-- ===== src/Connection/Pipeline/Reading.antt =====
-- src/browser_runtime/connection.rs: what the reader adds to the frames on their way.
use Prim.Native.String.{len}
use mathlib.Core.Option
use mathlib.Core.Option.{some-injective}
use hyprfast.Base.{
  ℕ, suc, ◌+◌, ◌<◌, String, ◌≡◌, refl, sym, ap, subst, ◌∙◌, Bool, Option, none, some, List, [], ◌∷◌,
  ◌++◌, bump-lt, u64_mod, arith, inl, inr, ltb, if◌then◌else◌, Bool-cases, map-eq-some, length,
  get_elem?-append, get_elem?-length, take-append, All-imp, All-snoc, length-append,
}
use hyprfast.Json.{Json}
use hyprfast.Connection.{Shared, InboundFrame, raw, oversize, OrderedItem, undecodable}
use hyprfast.Connection.IdHint.{extract_id_prefix}
use hyprfast.Connection.Pipeline.{
  WireFrame, text, binary, Pipeline, forward, count_oversize, read_data,
}
use hyprfast.Connection.Pipeline.Drain.{Same}
use hyprfast.Connection.Pipeline.Soundness.{events_from, content, InFlight, IsSound}

module _ {V : Type 0} (J : Json V) (threshold : ℕ) where
  unfoldable pub text_of : Option String → Option (OrderedItem V)
  text_of none = some (undecodable none)
  text_of (some t) = content J threshold t

module _ {V : Type 0} (J : Json V) (max threshold : ℕ) where
  -- What a frame is read as, on its own.
  unfoldable pub item_of : WireFrame → Option (OrderedItem V)
  unfolding text_of
  item_of (text t) =
      if ltb max (len t)
      then Option.map undecodable (extract_id_prefix t)
      else content J threshold t
  item_of (binary size utf8 lossy) =
      if ltb max size
      then Option.map undecodable (extract_id_prefix lossy)
      else text_of J threshold utf8

module _ {V : Type 0} (J : Json V) (threshold : ℕ) (reading : Bool) where
  InFlight-append :
      (wire : List (Option (OrderedItem V))) (x : Option (OrderedItem V)) (f : InboundFrame)
      → InFlight J threshold wire f
      → InFlight J threshold (wire ++ (x ∷ [])) f
  InFlight-append wire x (raw n t) h = get_elem?-append wire (x ∷ []) n _ h
  InFlight-append wire x (oversize n hint) h = get_elem?-append wire (x ∷ []) n _ h

  -- A frame more, on its way to the dispatcher.
  forward-IsSound :
      (frame : ℕ → InboundFrame) (wire : List (Option (OrderedItem V))) (x : Option (OrderedItem V))
      (p : Pipeline V)
      → length wire + 1 < u64_mod
      → InFlight J threshold (wire ++ (x ∷ [])) (frame (length wire))
      → IsSound J threshold reading wire p
      → IsSound J threshold reading (wire ++ (x ∷ [])) (forward frame p)
  unfolding forward
  forward-IsSound frame wire x p small h s =
      let longer : length (wire ++ (x ∷ [])) ≡ suc (length wire) =
        omega (arith, length-append wire (x ∷ [])) in
      record {
        reads = s.reads;
        numbered = omega (arith, longer, s.numbered, bump-lt p.shared.next_sequence);
        drained = omega (arith, longer, s.drained);
        told = s.told ∙ ap (events_from J 0) (sym (take-append p.expected wire (x ∷ []) s.drained));
        queued =
            All-snoc _ p.inbound _ (All-imp _ _ p.inbound (InFlight-append wire x) s.queued)
              (rw s.numbered h);
        buffered = λ k item e. get_elem?-append wire (x ∷ []) k _ (s.buffered k item e);
        at_work =
            All-imp _ _ p.workers (λ job a. get_elem?-append wire (x ∷ []) job.0 _ a) s.at_work;
      }

  -- Any change of the shared state that broadcasts nothing and takes no number.
  pub Same-IsSound :
      (wire : List (Option (OrderedItem V))) (t : Shared V) (p : Pipeline V)
      → Same p.shared t
      → IsSound J threshold reading wire p
      → IsSound J threshold reading wire (record p { shared = t })
  Same-IsSound wire t p e s = record {
    reads = s.reads;
    numbered = e.1 ∙ s.numbered;
    drained = s.drained;
    told = e.0 ∙ s.told;
    queued = s.queued;
    buffered = s.buffered;
    at_work = s.at_work;
  }

  -- A frame that is forwarded as undecodable, with the hint found in its head.
  hinted-IsSound :
      (head : String) (wire : List (Option (OrderedItem V))) (p q : Pipeline V)
      → length wire + 1 < u64_mod
      → Option.map
          (λ hint. forward (λ n. oversize n hint) (count_oversize p))
          (extract_id_prefix head)
        ≡ some q
      → IsSound J threshold reading wire p
      → IsSound J threshold reading
          (wire ++ (Option.map undecodable (extract_id_prefix head) ∷ []))
          q
  unfolding count_oversize
  hinted-IsSound head wire p q small h s =
      let found = map-eq-some _ (extract_id_prefix head) h in
      rw (found.1, found.2)
        (forward-IsSound (λ n. oversize n found.0) wire (some (undecodable found.0))
          (count_oversize p) small (get_elem?-length wire [] _)
          (Same-IsSound wire _ p (refl, refl) s))

  forwarded-IsSound :
      (frame : ℕ → InboundFrame) (wire : List (Option (OrderedItem V))) (x : Option (OrderedItem V))
      (p q : Pipeline V)
      → length wire + 1 < u64_mod
      → some (forward frame p) ≡ some q
      → InFlight J threshold (wire ++ (x ∷ [])) (frame (length wire))
      → IsSound J threshold reading wire p
      → IsSound J threshold reading (wire ++ (x ∷ [])) q
  forwarded-IsSound frame wire x p q small h f s =
      subst (IsSound J threshold reading (wire ++ (x ∷ []))) (some-injective (forward frame p) q h)
        (forward-IsSound frame wire x p small f s)

  utf8-IsSound :
      (utf8 : Option String) (wire : List (Option (OrderedItem V))) (p q : Pipeline V)
      → length wire + 1 < u64_mod
      → some (elim utf8 [
        | some t ↦ forward (λ n. raw n t) p
        | none ↦ forward (λ n. oversize n none) p
      ])
        ≡ some q
      → IsSound J threshold reading wire p
      → IsSound J threshold reading (wire ++ (text_of J threshold utf8 ∷ [])) q
  unfolding text_of
  utf8-IsSound none wire p q small h s =
      forwarded-IsSound (λ n. oversize n none) wire _ p q small h (get_elem?-length wire [] _) s
  utf8-IsSound (some t) wire p q small h s =
      forwarded-IsSound (λ n. raw n t) wire _ p q small h (get_elem?-length wire [] _) s

  pub read_data-IsSound :
      (max : ℕ) (f : WireFrame) (wire : List (Option (OrderedItem V))) (p q : Pipeline V)
      → length wire + 1 < u64_mod
      → read_data max f p ≡ some q
      → IsSound J threshold reading wire p
      → IsSound J threshold reading (wire ++ (item_of J max threshold f ∷ [])) q
  unfolding read_data item_of
  read_data-IsSound max (text t) wire p q small h s = elim (Bool-cases (ltb max (len t))) [
    | inl e ↦ rw e (hinted-IsSound t wire p q small (rw e at h) s)
    | inr e ↦ rw e (
        forwarded-IsSound (λ n. raw n t) wire _ p q small (rw e at h) (get_elem?-length wire [] _)
          s)
  ]
  read_data-IsSound max (binary size utf8 lossy) wire p q small h s =
      elim (Bool-cases (ltb max size)) [
        | inl e ↦ rw e (hinted-IsSound lossy wire p q small (rw e at h) s)
        | inr e ↦ rw e (utf8-IsSound utf8 wire p q small (rw e at h) s)
      ]
