-- ===== src/Actions/Journal.antt =====
-- src/browser_runtime/action_journal.rs: the bounded journal of actions, oldest first.
use mathlib.Core.List.{append-nil, append_assoc}
use hyprfast.Base.{
  ℕ, ◌-◌, ◌≤◌, ◌<◌, ◌≡◌, refl, Bool, true, false, List, [], ◌∷◌, ◌++◌, arith, leb, length, drop,
  length-append, if◌then◌else◌, string_eq, ◌==◌, keep, String, suc, ◌∙◌, sym,
}
use hyprfast.Actions.{ActionRecord}

pub record ActionJournal (V : Type 0) : Type 0 where
  pub entries : List (ActionRecord V)
  pub max_entries : ℕ

-- `VecDeque::pop_front`
abbrev pub pop_front : {A : Type 0} → List A → List A
pop_front [] = []
pop_front (x ∷ xs) = xs

not_full : (n m : ℕ) → leb n m ≡ false → m < n
not_full n m h = ground arith

full : (n m : ℕ) → leb n m ≡ true → n ≤ m
full n m h = ground arith

empty_not_full : (n : ℕ) → 1 ≤ n → leb n 0 ≡ true → ⊥
empty_not_full n h e = ground arith

module _ {V : Type 0} where
  unfoldable pub new : ℕ → ActionJournal V
  new max_entries = record { entries = []; max_entries = max_entries }

  unfoldable pub append : ActionJournal V → ActionRecord V → ActionJournal V
  append j r = record j {
    entries =
        (if leb j.max_entries (length j.entries) then pop_front j.entries else j.entries)
        ++ (r ∷ []);
  }

  unfoldable pub for_target : ActionJournal V → String → List (ActionRecord V)
  for_target j target_id = keep (λ r. r.target_id == target_id) j.entries

  -- The last `n` entries, in order.
  unfoldable pub last_n : ActionJournal V → ℕ → List (ActionRecord V)
  last_n j n = drop (length j.entries - n) j.entries

  unfoldable pub clear : ActionJournal V → ActionJournal V
  clear j = record j { entries = [] }

  unfoldable pub appends : ActionJournal V → List (ActionRecord V) → ActionJournal V
  appends j [] = j
  appends j (r ∷ rs) = appends (append j r) rs

  drop_none : (xs : List (ActionRecord V)) (n : ℕ) → length xs ≤ n → drop (length xs - n) xs ≡ xs
  drop_none xs n h = rw (zero_of h) refl
    where
      zero_of : length xs ≤ n → length xs - n ≡ 0
      zero_of h = omega arith

  drop_front :
      (x : ActionRecord V) (xs : List (ActionRecord V)) (n : ℕ)
      → n ≤ length xs
      → drop (length (x ∷ xs) - n) (x ∷ xs) ≡ drop (length xs - n) xs
  drop_front x xs n h = rw (suc_of h) refl
    where
      suc_of : n ≤ length xs → length (x ∷ xs) - n ≡ suc (length xs - n)
      suc_of h = omega arith

  appended :
      (es : List (ActionRecord V)) (r : ActionRecord V) (rs : List (ActionRecord V)) (n : ℕ)
      → 1 ≤ n
      → length es ≤ n
      → (b : Bool) → leb n (length es) ≡ b
      → let es' = (if b then pop_front es else es) ++ (r ∷ []) in
        (length es' ≤ n)
        × (drop (length (es' ++ rs) - n) (es' ++ rs)
            ≡ drop (length (es ++ (r ∷ rs)) - n) (es ++ (r ∷ rs)))
  appended es r rs n h k false e = (
    omega (arith, length-append es (r ∷ []), not_full n (length es) e),
    rw (append_assoc es (r ∷ []) rs) refl,
  )
  appended [] r rs n h k true e = absurd (empty_not_full n h e)
  appended (x ∷ es) r rs n h k true e = (
    omega (arith, length-append es (r ∷ []), k),
    rw (append_assoc es (r ∷ []) rs) (
        sym (
          drop_front x (es ++ (r ∷ rs)) n
            (omega (arith, length-append es (r ∷ rs), full n (suc (length es)) e)))),
  )

  -- A journal that holds at least one entry, after any sequence of appends, holds the last ones of
  -- all that it held and was given, as many as it may hold.
  pub appends-entries :
      (j : ActionJournal V) (rs : List (ActionRecord V))
      → 1 ≤ j.max_entries
      → length j.entries ≤ j.max_entries
      → (appends j rs).entries ≡ drop (length (j.entries ++ rs) - j.max_entries) (j.entries ++ rs)
  unfolding appends append
  appends-entries j [] h k = rw (append-nil j.entries) (sym (drop_none j.entries j.max_entries k))
  appends-entries j (r ∷ rs) h k =
      let (k', e) =
        appended j.entries r rs j.max_entries h k (leb j.max_entries (length j.entries)) refl in
      appends-entries (append j r) rs h k' ∙ e
