-- ===== src/Resources/Attempts.antt =====
-- The sums over the attempts of a replay, and what holds of each attempt.
use coleman.Base.{ℕ, ◌≡◌, ◌⊎◌, true, false, Dict, total, AllValues}
use coleman.Resources.State.{Attempt}
use coleman.Resources.Replay.{has_reservation}

-- What all live reservations still hold, and what all attempts have used.
abbrev pub total_remaining : Dict Attempt → ℕ
total_remaining = total (λ a. a.remaining)

abbrev pub total_consumed : Dict Attempt → ℕ
total_consumed = total (λ a. a.consumed)

-- A terminal attempt holds nothing; an attempt with no reservation has used and holds nothing.
abbrev pub IsSound : Attempt → Type 0
IsSound a =
    ((a.terminal ≡ false) ⊎ (a.remaining ≡ 0))
    × ((has_reservation a ≡ true) ⊎ ((a.remaining ≡ 0) × (a.consumed ≡ 0)))

abbrev pub AllSound : Dict Attempt → Type 0
AllSound = AllValues IsSound
