-- ===== src/Connection/Pipeline/Well.antt =====
-- src/browser_runtime/connection.rs: a schedule keeps the pipeline sound and live, without a panic.
use mathlib.Core.List.{append-nil, append_assoc, map-append}
use hyprfast.Base.{
  All-prefix, ℕ, ◌<◌, ◌≡◌, refl, sym, ap, ◌∙◌, Option, some, List, [], ◌∷◌, ◌++◌, map, u64_mod,
  arith, Bool, length, All, All-prefix, length-append, nat_eq,
}
use hyprfast.Json.{Json}
use hyprfast.Connection.{OrderedItem}
use hyprfast.Connection.Pipeline.{Pipeline, Move, move, run}
use hyprfast.Connection.Pipeline.Soundness.{IsSound}
use hyprfast.Connection.Pipeline.Reading.{item_of}
use hyprfast.Connection.Pipeline.Live.{IsLive}
use hyprfast.Connection.Pipeline.Kept.{move-IsLive}
use hyprfast.Connection.Pipeline.Ordered.{frames_read, frame_of, reads_on, wire_of, move-IsSound}
use hyprfast.Connection.Pipeline.Total.{IsItem, move-Moved}

module _ {V : Type 0} (J : Json V) (max threshold : ℕ) where
  abbrev pub IsWell : Bool → List (Option (OrderedItem V)) → Pipeline V → Type 0
  IsWell reading wire p = IsSound J threshold reading wire p × IsLive (length wire) p

  -- A move that does not panic, to a state that is well again.
  pub advance :
      (m : Move V) (reading : Bool) (wire : List (Option (OrderedItem V))) (p : Pipeline V)
      → let longer = wire ++ map (item_of J max threshold) (frame_of m reading) in
        length longer < u64_mod
        → All IsItem longer
        → IsWell reading wire p
        → (q : Pipeline V) × (move J max threshold m p ≡ some q)
          × IsWell (reads_on reading m) longer q
  advance m reading wire p small items w =
      let next = move-Moved J max threshold p m reading wire items w.0 in
      (
        next.0,
        next.1,
        (
          move-IsSound J max threshold m reading wire p next.0 small next.1 w.0,
          move-IsLive J max threshold m reading wire p next.0 small next.1 w.0 w.1,
        ),
      )

  pub run-IsWell :
      (ms : List (Move V)) (reading : Bool) (wire : List (Option (OrderedItem V))) (p : Pipeline V)
      → length (wire ++ wire_of J max threshold reading ms) < u64_mod
      → All IsItem (wire ++ wire_of J max threshold reading ms)
      → IsWell reading wire p
      → (q : Pipeline V) × (run J max threshold ms p ≡ some q)
        × ((b : Bool) × IsWell b (wire ++ wire_of J max threshold reading ms) q)
  unfolding run wire_of frames_read
  run-IsWell [] reading wire p small items w = (p, refl, (reading, rw (append-nil wire) w))
  run-IsWell (m ∷ ms) reading wire p small items w =
      let here = map (item_of J max threshold) (frame_of m reading) in
      let there = wire_of J max threshold (reads_on reading m) ms in
      let joined =
        append_assoc wire here there
        ∙ ap (λ r. wire ++ r)
            (sym (
              map-append (item_of J max threshold) (frame_of m reading)
                (frames_read (reads_on reading m) ms))) in
      let next =
        advance m reading wire p
          (omega (arith, rw (← joined) at small, length-append (wire ++ here) there))
          (All-prefix IsItem (wire ++ here) there (rw (← joined) at items)) w in
      let rest =
        run-IsWell ms (reads_on reading m) (wire ++ here) next.0 (rw (← joined) at small)
          (rw (← joined) at items) next.2 in
      (rest.0, rw next.1 rest.1, (rest.2.0, rw (← joined) rest.2.1))
