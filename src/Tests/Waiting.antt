-- ===== src/Tests/Waiting.antt =====
-- The theorem on waits, at a condition that holds after the second event, before the deadline.
use hyprfast.Base.{ℕ, ◌≡◌, false, ◌||◌, List, [], ◌∷◌, leb, any}
use hyprfast.Wait.{Wake, arrived, lagged, expired, wait_for}
use hyprfast.Wait.Awake.{is_met, in_time, shows, wait_for_lem}
use hyprfast.Tests.Data.{Value, insertion, navigation}

-- The state is the version of the document.
abbrev wakes : List (Wake Value ℕ)
wakes = arrived insertion 4 ∷ lagged 2 4 ∷ arrived navigation 5 ∷ expired ∷ []

wait_for_lem_example :
    is_met (wait_for (leb 5) (λ ev. false) 1000 3 3 wakes)
    ≡ leb 5 3 || (leb 5 3 || any (shows (leb 5) (λ ev. false) 1000) (in_time wakes))
wait_for_lem_example = wait_for_lem (leb 5) (λ ev. false) 1000 3 3 wakes
